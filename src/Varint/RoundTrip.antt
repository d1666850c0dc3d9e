-- ===== src/Varint/RoundTrip.antt =====
-- What `encode` writes, in plain arithmetic, and that `decode` reads it back.
use Prim.Native.Nat.{bit_and}
use native.Mathlib.Nat.{div-lt_iff_lt-mul, div-add-mod', one-le-pow}
use native.Mathlib.Decide.{dec_le}
use quic_vibe.Common.{
  ℕ, zero, suc, ◌+◌, ◌-◌, ◌*◌, ◌/◌, ◌%◌, ◌^◌, ◌≤◌, ◌<◌, ◌≡◌, refl, ap, ap₂, ◌∙◌, List, [], ◌∷◌,
  ◌++◌, some, length-append, get_or, arith,
}
use quic_vibe.Common.Bits.{bit_or_disjoint, bit_or_comm, bit_and_low}
use quic_vibe.BigEndian.{write_be, read_be, write_be-head, read_be-write_be, length-write_be}
use quic_vibe.Varint.{varint_max, lengths, len, or_first, prefixes, encode, get_be, decode}

-- The class of `v`, and with it everything that `encode` looks up.
pub data HasClass (v : ℕ) : Type 0 where
  in_class :
      (c k : ℕ)
      → v < 64 * 256 ^ k
      → len v ≡ suc k
      → get_or lengths c 0 ≡ suc k
      → get_or prefixes (suc k) 0 ≡ c * 64
      → c < 4
      → k < 8
      → HasClass v

pub classify : (v : ℕ) → v ≤ varint_max → HasClass v
unfolding len
classify v h = elim (dec_le v 0x3F) [
  | yes p ↦ in_class 0 0 (omega arith) (ground arith) refl refl (omega arith) (omega arith)
  | no p ↦ elim (dec_le v 0x3FFF) [
    | yes q ↦ in_class 1 1 (omega arith) (ground arith) refl refl (omega arith) (omega arith)
    | no q ↦ elim (dec_le v 0x3FFFFFFF) [
      | yes r ↦ in_class 2 3 (omega arith) (ground arith) refl refl (omega arith) (omega arith)
      | no r ↦ in_class 3 7 (omega arith) (ground arith) refl refl (omega arith) (omega arith)
    ]
  ]
]

pub write_be-append :
    (n v : ℕ) (tail rest : List ℕ) → write_be n v tail ++ rest ≡ write_be n v (tail ++ rest)
unfolding write_be
write_be-append zero v tail rest = refl
write_be-append (suc n) v tail rest = write_be-append n (v / 256) (bit_and v 0xff ∷ tail) rest

div-lt-mul : (v k : ℕ) → v < 64 * 256 ^ k → v / 256 ^ k < 64
div-lt-mul v k h = (div-lt_iff_lt-mul (one-le-pow k 256 (omega arith))).1 h

-- The first byte holds the class above the highest six bits, and the others follow.
pub encode-shape :
    (v c k : ℕ)
    → v < 64 * 256 ^ k
    → len v ≡ suc k
    → get_or prefixes (suc k) 0 ≡ c * 64
    → encode v ≡ (c * 64 + v / 256 ^ k) ∷ write_be k v []
unfolding encode
encode-shape v c k small l p = ground (
  arith,
  write_be-head k v [],
  div-lt-mul v k small,
  ap (λ b. or_first b (write_be (suc k) v [])) p,
  ap (λ b. or_first (c * 64) b) (write_be-head k v []),
  bit_or_comm (v / 256 ^ k % 256) (c * 64),
  bit_or_disjoint 6 c (v / 256 ^ k),
)

get_be-encoded :
    (v c k : ℕ) (rest : List ℕ)
    → v ≤ varint_max
    → v < 64 * 256 ^ k
    → get_be (suc k) ((c * 64 + v / 256 ^ k) ∷ (write_be k v [] ++ rest)) ≡ v
unfolding get_be
get_be-encoded v c k rest fits small =
    let top : bit_and (c * 64 + v / 256 ^ k) 0x3F ≡ v / 256 ^ k =
      omega (arith, bit_and_low 6 (c * 64 + v / 256 ^ k), div-lt-mul v k small) in
    let whole : v / 256 ^ k * 256 ^ k + v % 256 ^ k ≡ v = div-add-mod' v (256 ^ k) in
    ap₂ (λ a l. read_be (suc k - 1) a l) top (write_be-append k v [] rest)
    ∙ ap (λ n. read_be n (v / 256 ^ k) (write_be k v rest)) (omega arith)
    ∙ read_be-write_be k 0 (v / 256 ^ k) v rest (omega arith)
    ∙ unfold read_be in whole

decode-encode_class :
    (v : ℕ) (rest : List ℕ)
    → v ≤ varint_max
    → HasClass v
    → decode (encode v ++ rest) ≡ some (v, len v)
unfolding decode
decode-encode_class v rest fits (in_class c k small l look p cs ks) =
    rw (encode-shape v c k small l p) (
      ground (
        arith,
        div-lt-mul v k small,
        look,
        l,
        ap (λ q. get_or lengths q 0) class_of,
        get_be-encoded v c k rest fits small,
        length-append (write_be k v []) rest,
        length-write_be k v [],
      ))
  where
    class_of : (c * 64 + v / 256 ^ k) / 64 ≡ c
    class_of = omega (arith, div-lt-mul v k small)

-- `decode` reads back every value up to 2^62 - 1 that `encode` wrote, with its length.
pub decode-encode :
    (v : ℕ) (rest : List ℕ) → v ≤ varint_max → decode (encode v ++ rest) ≡ some (v, len v)
decode-encode v rest h = decode-encode_class v rest h (classify v h)
