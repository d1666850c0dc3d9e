-- ===== src/Frame/Walk/Written.antt =====
-- The walk finds the frames that were written.
use quic_vibe.Common.{
  ℕ, ◌≤◌, ◌<◌, ◌≡◌, refl, sym, ◌∙◌, ◌⊎◌, inl, inr, Option, none, some, List, [], ◌∷◌, ◌++◌, arith,
  ◌==◌, Bool-cases, length, length-append, drop_append, >>=-eq-some,
}
use quic_vibe.Varint.{decode}
use quic_vibe.Varint.RoundTrip.{decode-encode}
use quic_vibe.Varint.Cursor.{encode_small, length-encode}
use quic_vibe.Frame.Wire.{put_all, put_all-eq-some, write_bytes}
use quic_vibe.Frame.Framed.{put_framed}
use quic_vibe.Frame.Ack.{AckFrame, ack_type, ack_decode}
use quic_vibe.Frame.Ack.Written.{ack_encode-put_all, ack_body}
use quic_vibe.Frame.Data.{
  StreamFrame, ConnCloseFrame, stream_type, get_crypto, get_stream, get_conn_close,
}
use quic_vibe.Frame.Data.RoundTrip.{
  put_crypto-framed, put_stream-framed, put_close-framed, close_type, stream_head, close_head,
}
use quic_vibe.Frame.Every
use quic_vibe.Frame.Every.{Frame, IsWritable, tagged, decode_like}
use quic_vibe.Frame.Every.Codecs.{frame_round_trip}
use quic_vibe.Frame.Kinds.{Kind, classify}
use quic_vibe.Frame.Walk.{length_read, single_byte, frame_len, measure, next}

-- A first byte below 64 is the type.
pub small_type : (t : ℕ) (buf : List ℕ) → t < 64 → decode (t ∷ buf) ≡ some (t, 1)
small_type t buf h = ground (arith, decode-encode t buf, length-encode t, encode_small t h)

-- The first byte of a chain of varints is the first varint if that is small.
put_all-head :
    (cap v : ℕ) (vs : List ℕ) (t : ℕ) (body : List ℕ)
    → v < 64
    → put_all cap [] (v ∷ vs) ≡ some (t ∷ body)
    → t ≡ v
put_all-head cap v vs t body h e =
    let (_, shape) = put_all-eq-some cap [] (v ∷ vs) (t ∷ body) e in
    ground (arith, encode_small v h)

put_framed-head :
    (cap v : ℕ) (vs d : List ℕ) (t : ℕ) (body : List ℕ)
    → v < 64
    → put_framed cap (v ∷ vs) d ≡ some (t ∷ body)
    → t ≡ v
unfolding write_bytes
put_framed-head cap v vs d t body h e =
    let (w, p, q) = >>=-eq-some (put_all cap [] (v ∷ vs)) (λ w. write_bytes cap w d) e in
    let (_, shape) = put_all-eq-some cap [] (v ∷ vs) w p in ground (arith, encode_small v h)

-- The type of a frame that the walk measures with a decoder; the others are given 64.
abbrev pub walked_type : Frame → ℕ
walked_type (Frame.ack f) = ack_type f
walked_type (Frame.crypto f) = 6
walked_type (Frame.stream f) = stream_type f
walked_type (Frame.conn_close f) = close_type f
walked_type _ = 64

pub stream_type-classify :
    (f : StreamFrame) → (stream_type f < 64) × (classify (stream_type f) ≡ Kind.stream)
unfolding stream_type classify
stream_type-classify f = elim (Bool-cases (f.offset == 0)) [
  | inl a ↦ rw a (elim (Bool-cases (f.fin == 0)) [
    | inl b ↦ rw b (omega arith, refl)
    | inr b ↦ rw b (omega arith, refl)
  ])
  | inr a ↦ rw a (elim (Bool-cases (f.fin == 0)) [
    | inl b ↦ rw b (omega arith, refl)
    | inr b ↦ rw b (omega arith, refl)
  ])
]

pub ack_type-classify : (f : AckFrame) → (ack_type f < 64) × (classify (ack_type f) ≡ Kind.ack)
unfolding ack_type classify
ack_type-classify f = elim (Bool-cases (f.has_ecn == 0)) [
  | inl a ↦ rw a (omega arith, refl)
  | inr a ↦ rw a (omega arith, refl)
]

pub close_type-classify :
    (f : ConnCloseFrame) → (close_type f < 64) × (classify (close_type f) ≡ Kind.connection_close)
unfolding classify
close_type-classify f = elim (Bool-cases (f.is_app == 0)) [
  | inl a ↦ rw a (omega arith, refl)
  | inr a ↦ rw a (omega arith, refl)
]

length_read-tagged :
    {F : Type 0} (tag : F → Frame) (o : Option (F × ℕ)) → length_read o ≡ length_read (tagged tag o)
length_read-tagged tag none = refl
length_read-tagged tag (some _) = refl

-- What the walk takes for the length of such a frame is what its decoder has read.
frame_len-decoder :
    (f : Frame) (buf : List ℕ)
    → walked_type f < 64
    → frame_len (walked_type f) buf ≡ length_read (decode_like f buf)
unfolding frame_len classify
frame_len-decoder (Frame.ack f) buf h =
    rw ((ack_type-classify f).1) (length_read-tagged Frame.ack (ack_decode buf))
frame_len-decoder (Frame.crypto f) buf h = length_read-tagged Frame.crypto (get_crypto buf)
frame_len-decoder (Frame.stream f) buf h =
    rw ((stream_type-classify f).1) (length_read-tagged Frame.stream (get_stream buf))
frame_len-decoder (Frame.conn_close f) buf h =
    rw ((close_type-classify f).1) (length_read-tagged Frame.conn_close (get_conn_close buf))
frame_len-decoder _ buf h = absurd (omega arith)

-- The first byte that is written for such a frame is its type.
encode-head :
    (cap : ℕ) (f : Frame) (t : ℕ) (body : List ℕ)
    → IsWritable cap f
    → walked_type f < 64
    → Every.encode cap f ≡ some (t ∷ body)
    → t ≡ walked_type f
encode-head cap (Frame.ack f) t body (v, _, _) h e =
    put_all-head cap (ack_type f) (ack_body f) t body h (sym (ack_encode-put_all cap f v) ∙ e)
encode-head cap (Frame.crypto f) t body v h e =
    put_framed-head cap 6 (f.offset ∷ length f.payload ∷ []) f.payload t body h
      (sym (put_crypto-framed cap f) ∙ e)
encode-head cap (Frame.stream f) t body v h e =
    put_framed-head cap (stream_type f) (stream_head f) f.payload t body h
      (sym (put_stream-framed cap f) ∙ e)
encode-head cap (Frame.conn_close f) t body v h e =
    put_framed-head cap (close_type f) (close_head f) f.reason t body h
      (sym (put_close-framed cap f) ∙ e)
encode-head cap _ t body v h e = absurd (omega arith)

-- At the start of an ACK, CRYPTO, STREAM or CONNECTION_CLOSE frame as it is written, in front of any
-- bytes, the walk gives its type and goes on behind exactly that frame.
pub next_written :
    (cap : ℕ) (f : Frame) (t : ℕ) (body rest : List ℕ)
    → IsWritable cap f
    → walked_type f < 64
    → Every.encode cap f ≡ some (t ∷ body)
    → next (t ∷ (body ++ rest)) ≡ some (walked_type f, t ∷ (body ++ rest), rest)
unfolding next measure
next_written cap f t body rest v h e =
    let (out, e', d) = frame_round_trip cap f rest v in
    let same = encode-head cap f t body v h e in
    ground (
      arith,
      small_type t (body ++ rest),
      frame_len-decoder f (t ∷ (body ++ rest)) h,
      length-append body rest,
      drop_append (t ∷ body) rest,
    )

put_all-nonempty :
    (cap v : ℕ) (vs out : List ℕ) → v < 64 → put_all cap [] (v ∷ vs) ≡ some out → 1 ≤ length out
put_all-nonempty cap v vs out h e =
    let (_, shape) = put_all-eq-some cap [] (v ∷ vs) out e in ground (arith, encode_small v h)

put_framed-nonempty :
    (cap v : ℕ) (vs d out : List ℕ) → v < 64 → put_framed cap (v ∷ vs) d ≡ some out → 1 ≤ length out
unfolding write_bytes
put_framed-nonempty cap v vs d out h e =
    let (w, p, q) = >>=-eq-some (put_all cap [] (v ∷ vs)) (λ w. write_bytes cap w d) e in
    let long = put_all-nonempty cap v vs w h p in ground (arith, length-append w d)

pub encode_nonempty :
    (cap : ℕ) (f : Frame) (out : List ℕ)
    → IsWritable cap f
    → walked_type f < 64
    → Every.encode cap f ≡ some out
    → 1 ≤ length out
encode_nonempty cap (Frame.ack f) out (v, _, _) h e =
    put_all-nonempty cap (ack_type f) (ack_body f) out h (sym (ack_encode-put_all cap f v) ∙ e)
encode_nonempty cap (Frame.crypto f) out v h e =
    put_framed-nonempty cap 6 (f.offset ∷ length f.payload ∷ []) f.payload out h
      (sym (put_crypto-framed cap f) ∙ e)
encode_nonempty cap (Frame.stream f) out v h e =
    put_framed-nonempty cap (stream_type f) (stream_head f) f.payload out h
      (sym (put_stream-framed cap f) ∙ e)
encode_nonempty cap (Frame.conn_close f) out v h e =
    put_framed-nonempty cap (close_type f) (close_head f) f.reason out h
      (sym (put_close-framed cap f) ∙ e)
encode_nonempty cap _ out v h e = absurd (omega arith)

-- PADDING and PING are single bytes.
pub next_single :
    (t : ℕ) (rest : List ℕ) → (t ≡ 0) ⊎ (t ≡ 1) → next (t ∷ rest) ≡ some (t, t ∷ rest, rest)
unfolding next measure frame_len single_byte classify
next_single t rest (inl e) = rw e (rw (measure, small_type 0 rest (omega arith)) (ground arith))
next_single t rest (inr e) = rw e (rw (measure, small_type 1 rest (omega arith)) (ground arith))
