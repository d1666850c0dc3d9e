-- ===== src/BigEndian.antt =====
-- Big-endian integers in byte buffers: the loops of `put_be` and `get_be`
-- (src/common/bytes/varint/varint.c) and of `quic_pnum_encode` and `read_be`
-- (src/transport/packet/header/packet/pnum.c), which are the same two loops.
use Prim.Native.Nat.{bit_and, bit_or}
use native.Mathlib.Nat.{pow-suc, one-le-pow, div-div-eq-div-mul, div-add-mod}
use quic_vibe.Common.{
  ℕ, zero, suc, ◌+◌, ◌*◌, ◌/◌, ◌%◌, ◌^◌, ◌<◌, ◌≡◌, ap, ap₂, ◌∙◌, List, [], ◌∷◌, length, arith,
}
use quic_vibe.Common.Word.{u64}
use quic_vibe.Common.Bits.{bit_or_disjoint, bit_and_low}

-- `while (i-- > 0) { buf[i] = (u8)(v & 0xFF); v >>= 8; }`: the bytes from `buf[0]` on, before `tail`.
unfoldable pub write_be : ℕ → ℕ → List ℕ → List ℕ
write_be zero v tail = tail
write_be (suc i) v tail = write_be i (v / 256) (bit_and v 0xff ∷ tail)

-- `v = (v << 8) | buf[i]` for each of the next bytes. The callers check that the bytes are there.
unfoldable pub read_be : ℕ → ℕ → List ℕ → ℕ
read_be zero v bs = v
read_be (suc n) v [] = v
read_be (suc n) v (b ∷ bs) = read_be n (bit_or (u64 (v * 256)) b) bs

pub length-write_be : (n v : ℕ) (tail : List ℕ) → length (write_be n v tail) ≡ n + length tail
unfolding write_be
length-write_be zero v tail = omega arith
length-write_be (suc n) v tail = omega (arith, length-write_be n (v / 256) (bit_and v 0xff ∷ tail))

-- One byte of a remainder by a power of 256.
mod-pow_suc : (n v : ℕ) → v % 256 ^ suc n ≡ v / 256 % 256 ^ n * 256 + v % 256
mod-pow_suc n v = ground (
  arith,
  pow-suc 256 n,
  one-le-pow n 256,
  div-div-eq-div-mul v 256 (256 ^ n),
  div-add-mod v 256,
  div-add-mod (v / 256) (256 ^ n),
  div-add-mod v (256 * 256 ^ n),
  ap (λ (t : ℕ). t * (v / (256 * 256 ^ n))) (pow-suc 256 n),
)

div-pow_suc : (n v : ℕ) → v / 256 / 256 ^ n ≡ v / 256 ^ suc n
div-pow_suc n v =
    div-div-eq-div-mul v 256 (256 ^ n) ∙ ap (λ t. v / t) (omega (arith, pow-suc 256 n))

mul-pow_suc : (n a : ℕ) → a * 256 ^ suc n ≡ a * 256 ^ n * 256
mul-pow_suc n a = omega (arith, ap (λ (t : ℕ). a * t) (pow-suc 256 n))

pub write_be-head :
    (i v : ℕ) (tail : List ℕ) → write_be (suc i) v tail ≡ v / 256 ^ i % 256 ∷ write_be i v tail
unfolding write_be
write_be-head zero v tail = ap (λ b. b ∷ tail) (omega (arith, bit_and_low 8 v))
write_be-head (suc i) v tail =
    write_be-head i (v / 256) (bit_and v 0xff ∷ tail)
    ∙ ap (λ b. b % 256 ∷ write_be i (v / 256) (bit_and v 0xff ∷ tail)) (div-pow_suc i v)

-- `(x << 8) | b` on a word with room for one more byte.
shift_in :
    (x v : ℕ)
    → x * 256 + v % 256 < 2 ^ 64
    → bit_or (u64 (x * 256)) (bit_and v 0xff) ≡ x * 256 + v % 256
shift_in x v h =
    ap₂ bit_or (omega arith) (bit_and_low 8 v) ∙ bit_or_disjoint 8 x (v % 256) (omega arith)

-- Reading back what was written carries the accumulator over the low `n` bytes of `v`.
pub read_be-write_be :
    (n m acc v : ℕ) (tail : List ℕ)
    → acc * 256 ^ n + v % 256 ^ n < 2 ^ 64
    → read_be (n + m) acc (write_be n v tail) ≡ read_be m (acc * 256 ^ n + v % 256 ^ n) tail
unfolding write_be
read_be-write_be zero m acc v tail h = ap₂ (λ k a. read_be k a tail) (omega arith) (omega arith)
read_be-write_be (suc n) m acc v tail h =
    let whole : (acc * 256 ^ n + v / 256 % 256 ^ n) * 256 + v % 256
        ≡ acc * 256 ^ suc n + v % 256 ^ suc n =
      omega (arith, mod-pow_suc n v, mul-pow_suc n acc) in
    ap (λ k. read_be k acc (write_be n (v / 256) (bit_and v 255 ∷ tail))) (omega arith)
    ∙ read_be-write_be n (suc m) acc (v / 256) (bit_and v 255 ∷ tail) (omega arith)
    ∙ unfold read_be in
      ap (λ a. read_be m a tail)
        (shift_in (acc * 256 ^ n + v / 256 % 256 ^ n) v (omega arith) ∙ whole)
