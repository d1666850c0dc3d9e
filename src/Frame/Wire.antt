-- ===== src/Frame/Wire.antt =====
-- What the frame codecs of src/transport/packet/frame/frame/ share: a frame is its type as a varint
-- and then a few more varints or bytes. An encoder gives the bytes written, a decoder the frame and
-- the number of bytes read; `none` is the C result 0. A decoder skips the type byte, which its
-- caller has read, so it is never run on an empty buffer.
use quic_vibe.Common.{
  ℕ, ◌+◌, ◌-◌, ◌^◌, ◌≤◌, ◌<◌, ◌≡◌, sym, ap, Option, none, some, List, [], ◌∷◌, ◌++◌, append-nil,
  append_assoc, arith, ltb, if◌then◌else◌, length, All, length-append, take_append, drop_append,
  ◌>>=◌, >>=-eq-some,
}
use quic_vibe.Common.{drop, take}
use quic_vibe.Varint
use quic_vibe.Varint.{encode, varint_max, len}
use quic_vibe.Varint.Cursor.{put-eq-some, put_fits, length-encode}

-- What is behind the type byte `buf[0]`.
abbrev pub after_type : List ℕ → List ℕ
after_type buf = drop 1 buf

-- How far a cursor has come: the final `off`.
abbrev pub offset : List ℕ → List ℕ → ℕ
offset buf rest = length buf - length rest

-- `write_bytes`, and `quic_put_bytes` of src/common/bytes/util/bytes.h
unfoldable pub write_bytes : ℕ → List ℕ → List ℕ → Option (List ℕ)
write_bytes cap w src = if ltb cap (length w + length src) then none else some (w ++ src)

-- `read_bytes`, and `quic_take_bytes` of src/common/bytes/util/bytes.h: the bytes and the cursor
-- behind them. A length is a varint or a byte, so `off + len` does not wrap.
unfoldable pub read_bytes : List ℕ → ℕ → Option (List ℕ × List ℕ)
read_bytes r n = if ltb (length r) n then none else some (take n r, drop n r)

pub read_bytes_back : (src rest : List ℕ) → read_bytes (src ++ rest) (length src) ≡ some (src, rest)
unfolding read_bytes
read_bytes_back src rest =
    ground (arith, length-append src rest, take_append src rest, drop_append src rest)

pub write_bytes_fits :
    (cap : ℕ) (w src : List ℕ)
    → length w + length src ≤ cap
    → write_bytes cap w src ≡ some (w ++ src)
unfolding write_bytes
write_bytes_fits cap w src h = ground arith

pub offset-append : (out rest : List ℕ) → offset (out ++ rest) rest ≡ length out
offset-append out rest = omega (arith, length-append out rest)

-- The bytes of a sequence of varints.
abbrev pub encodes : List ℕ → List ℕ
encodes [] = []
encodes (v ∷ vs) = encode v ++ encodes vs

-- A chain of `quic_varint_put`, each run only if the one before fitted.
unfoldable pub put_all : ℕ → List ℕ → List ℕ → Option (List ℕ)
put_all cap w [] = some w
put_all cap w (v ∷ vs) = do w' ← Varint.put cap w v; put_all cap w' vs

abbrev pub IsVarint : ℕ → Type 0
IsVarint v = v ≤ varint_max

pub put_all_fits :
    (cap : ℕ) (w vs : List ℕ)
    → All IsVarint vs
    → length w + length (encodes vs) ≤ cap
    → cap < 2 ^ 63
    → put_all cap w vs ≡ some (w ++ encodes vs)
unfolding put_all
put_all_fits cap w [] h room c = ap some (sym (append-nil w))
put_all_fits cap w (v ∷ vs) (hv, h) room c = ground (
  arith,
  length-append (encode v) (encodes vs),
  length-append w (encode v),
  length-encode v,
  put_fits cap w v,
  put_all_fits cap (w ++ encode v) vs h,
  append_assoc w (encode v) (encodes vs),
)

-- A chain of `quic_varint_put` that ends well has written exactly those varints.
pub put_all-eq-some :
    (cap : ℕ) (w vs out : List ℕ)
    → put_all cap w vs ≡ some out
    → All IsVarint vs × (out ≡ w ++ encodes vs)
unfolding put_all
put_all-eq-some cap w [] out e = (tt, ground (arith, append-nil w))
put_all-eq-some cap w (v ∷ vs) out e =
    let (w', p, q) = >>=-eq-some (Varint.put cap w v) (λ w'. put_all cap w' vs) e in
    let (hv, e') = put-eq-some cap w v w' p in
    let (h, e'') = put_all-eq-some cap w' vs out q in
    ((hv, h), cc (append_assoc w (encode v) (encodes vs)))

-- The encoder writes the frame `f`, and the decoder reads it back from in front of any bytes, with
-- the length that was written.
abbrev pub RoundTrips :
    {F : Type 0} → (F → Option (List ℕ)) → (List ℕ → Option (F × ℕ)) → F → List ℕ → Type 0
RoundTrips enc dec f rest =
    (out : List ℕ) × (enc f ≡ some out) × (dec (out ++ rest) ≡ some (f, length out))

-- What a round trip says of the bytes that the encoder has given.
pub read_back :
    {F : Type 0} (enc : F → Option (List ℕ)) (dec : List ℕ → Option (F × ℕ)) (f : F)
    (out rest : List ℕ)
    → RoundTrips enc dec f rest
    → enc f ≡ some out
    → dec (out ++ rest) ≡ some (f, length out)
read_back enc dec f out rest (out', e', d) e = ground arith
