-- ===== src/Frame/Walk.antt =====
-- The walk over the frames of a packet's payload (src/transport/packet/frame/pipeline/framewalk.c).
-- The iterator is the list of the bytes from `cur` on; `remaining` is its length.
pub mod Progress
pub mod Written
pub mod Items
use quic_vibe.Common.{
  ℕ, zero, suc, ◌+◌, ◌-◌, ◌*◌, ◌/◌, ◌%◌, ◌^◌, ◌≤◌, ◌<◌, min, max, ◌≡◌, refl, sym, ap, ap₂, ◌∙◌, ◌≢◌,
  ◌↔◌, ◌⊎◌, inl, inr, Bool, true, false, not, ◌&&◌, ◌||◌, Option, none, some, List, [], ◌∷◌, ◌++◌,
  map, append-nil, append_assoc, arith, ltb, leb, ◌==◌, if◌then◌else◌, ltb→lt, lt→ltb, leb→le,
  le→leb, ==→eq, Bool-cases, Option-cases, to_bit, length, get_elem?, get_or, set, replicate, All,
  length-append, length-set, length-take, length-drop, length-replicate, get_or-set_self,
  get_or-set_ne, take_append, drop_append, take-append-drop, All-append, ◌>>=◌, ◌>>◌, guard,
  >>=-eq-some,
}
use quic_vibe.Common.Word.{IsByte, IsU64, u8, u32, u64, ◌+ᵤ◌, ◌-ᵤ◌, ◌*ᵤ◌}
use quic_vibe.Common.{drop}
use quic_vibe.Varint
use quic_vibe.Frame.Ack.{ack_decode}
use quic_vibe.Frame.Data.{get_crypto, get_stream, get_conn_close}
use quic_vibe.Frame.Kinds.{Kind, classify}

-- A decoder's C result: the length, or 0.
abbrev pub length_read : {F : Type 0} → Option (F × ℕ) → ℕ
length_read none = 0
length_read (some (f, n)) = n

unfoldable pub body_len : Kind → List ℕ → ℕ
body_len Kind.crypto buf = length_read (get_crypto buf)
body_len Kind.stream buf = length_read (get_stream buf)
body_len _ buf = length_read (get_conn_close buf)

unfoldable pub single_byte : Kind → Bool
single_byte Kind.padding = true
single_byte Kind.ping = true
single_byte Kind.handshake_done = true
single_byte _ = false

unfoldable pub has_body : Kind → Bool
has_body Kind.crypto = true
has_body Kind.stream = true
has_body Kind.connection_close = true
has_body _ = false

unfoldable pub ack_len : List ℕ → ℕ
ack_len buf = length_read (ack_decode buf)

unfoldable pub decoded_len : Kind → List ℕ → ℕ
unfolding has_body body_len ack_len
decoded_len Kind.ack buf = ack_len buf
decoded_len kind buf = if has_body kind then body_len kind buf else 0

unfoldable pub frame_len : ℕ → List ℕ → ℕ
unfolding decoded_len single_byte
frame_len type buf =
    let kind = classify type in if single_byte kind then 1 else decoded_len kind buf

-- The type of the frame at the cursor and its length; the length is 0 if it cannot be told.
unfoldable pub measure : List ℕ → ℕ × ℕ
measure it = elim (Varint.decode it) [
  | none ↦ (0, 0)
  | some (type, used) ↦
      let len = frame_len type it in (type, if ltb (length it) len then 0 else len)
]

-- The type, the bytes from the frame's start on, and the iterator behind the frame.
unfoldable pub next : List ℕ → Option (ℕ × List ℕ × List ℕ)
next it =
    if length it == 0
    then none
    else let (type, len) = measure it in if len == 0 then none else some (type, it, drop len it)
