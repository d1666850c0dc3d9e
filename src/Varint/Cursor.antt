-- ===== src/Varint/Cursor.antt =====
-- `put` and `take` on a buffer, for the codecs that chain them.
use quic_vibe.Common.{
  ℕ, ◌+◌, ◌^◌, ◌≤◌, ◌<◌, ◌≡◌, refl, ap, ◌∙◌, ◌≢◌, some, List, [], ◌∷◌, ◌++◌, arith, length, get_or,
  drop_append,
}
use quic_vibe.BigEndian.{write_be, length-write_be}
use quic_vibe.Varint.{varint_max, prefixes, len, or_first, encode, take, put}
use quic_vibe.Varint.RoundTrip.{encode-shape, decode-encode}
use quic_vibe.Common.{drop}

pub length-or_first : (p : ℕ) (bs : List ℕ) → length (or_first p bs) ≡ length bs
length-or_first p [] = refl
length-or_first p (b ∷ bs) = refl

-- A value past 62 bits has length 0.
pub len_pos : (v : ℕ) → len v ≢ 0 → v ≤ varint_max
unfolding len
len_pos v h = ground arith

pub len_bounds : (v : ℕ) → v ≤ varint_max → (1 ≤ len v) × (len v ≤ 8)
unfolding len
len_bounds v h = ground arith

pub length-encode : (v : ℕ) → length (encode v) ≡ len v
unfolding encode
length-encode v = ground (
  arith,
  length-write_be (len v) v [],
  length-or_first (get_or prefixes (len v) 0) (write_be (len v) v []),
)

-- A value below 64 is its own encoding.
pub encode_small : (v : ℕ) → v < 64 → encode v ≡ v ∷ []
unfolding len write_be
encode_small v h =
    encode-shape v 0 0 (omega arith) (ground arith) refl ∙ ap (λ b. b ∷ []) (omega arith)

pub drop-encode : (v : ℕ) (rest : List ℕ) → drop (len v) (encode v ++ rest) ≡ rest
drop-encode v rest = rw (← length-encode v) (drop_append (encode v) rest)

pub take-encode :
    (v : ℕ) (rest : List ℕ) → v ≤ varint_max → take (encode v ++ rest) ≡ some (v, rest)
unfolding take
take-encode v rest h = ground (arith, decode-encode v rest h, drop-encode v rest)

pub put-eq-some :
    (cap : ℕ) (w : List ℕ) (v : ℕ) (out : List ℕ)
    → put cap w v ≡ some out
    → (v ≤ varint_max) × (out ≡ w ++ encode v)
unfolding put
put-eq-some cap w v out e = ground (arith, len_pos v)

pub put_fits :
    (cap : ℕ) (w : List ℕ) (v : ℕ)
    → v ≤ varint_max
    → length w + len v ≤ cap
    → cap < 2 ^ 63
    → put cap w v ≡ some (w ++ encode v)
unfolding put
put_fits cap w v h fits room = ground (arith, len_bounds v h)
