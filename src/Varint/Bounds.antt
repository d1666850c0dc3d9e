-- ===== src/Varint/Bounds.antt =====
-- What `decode` accepts, on any bytes: the value and the length are in range, and no other form of
-- a value is shorter than the one that `encode` writes.
use Prim.Native.Nat.{bit_and, bit_or}
use native.Mathlib.Nat.{pow-suc, one-le-pow}
use quic_vibe.Common.{
  ℕ, zero, suc, ◌+◌, ◌-◌, ◌*◌, ◌/◌, ◌^◌, ◌≤◌, ◌<◌, ◌≡◌, refl, ap, some, List, [], ◌∷◌, arith,
  length, get_or, All, drop, length-drop, Option-cases, inl, inr,
}
use quic_vibe.Common.Word.{IsByte, u64}
use quic_vibe.Common.Bits.{bit_or_disjoint, bit_and_low}
use quic_vibe.BigEndian.{read_be}
use quic_vibe.Varint.{varint_max, lengths, len, get_be, decode, take}

-- `(v << 8) | b` with room for one more byte.
shift_or : (v b : ℕ) → IsByte b → (v + 1) * 256 ≤ 2 ^ 64 → bit_or (u64 (v * 256)) b ≡ v * 256 + b
shift_or v b hb fits =
    let e : u64 (v * 256) ≡ v * 2 ^ 8 = omega arith in rw e (bit_or_disjoint 8 v b hb)

read_be-lt :
    (n v : ℕ) (bs : List ℕ)
    → All IsByte bs
    → (v + 1) * 256 ^ n ≤ 2 ^ 64
    → read_be n v bs < (v + 1) * 256 ^ n
unfolding read_be
read_be-lt zero v bs h fits = omega arith
read_be-lt (suc n) v [] h fits = grind (arith, one-le-pow (suc n) 256 (omega arith))
read_be-lt (suc n) v (b ∷ bs) (hb, h) fits =
    let grow : (v + 1) * 256 ^ suc n ≡ (v + 1) * 256 * 256 ^ n =
      omega (arith, ap (λ (t : ℕ). (v + 1) * t) (pow-suc 256 n)) in
    let p : 1 ≤ 256 ^ n = one-le-pow n 256 (omega arith) in
    let room : (v + 1) * 256 ≤ 2 ^ 64 = grind arith in
    let next : (v * 256 + b + 1) * 256 ^ n ≤ (v + 1) * 256 * 256 ^ n = grind arith in
    rw (shift_or v b hb room) (omega (arith, read_be-lt n (v * 256 + b) bs h (omega arith)))

get_be-lt :
    (k b : ℕ) (bs : List ℕ)
    → IsByte b
    → All IsByte bs
    → 64 * 256 ^ k ≤ 2 ^ 64
    → get_be (suc k) (b ∷ bs) < 64 * 256 ^ k
unfolding get_be
get_be-lt k b bs hb h fits =
    let low : bit_and b 0x3F < 64 = omega (arith, bit_and_low 6 b) in
    let e : suc k - 1 ≡ k = omega arith in
    let room : (bit_and b 0x3F + 1) * 256 ^ k ≤ 64 * 256 ^ k = grind arith in
    rw e (omega (arith, read_be-lt k (bit_and b 0x3F) bs h (omega arith)))

-- What the first byte says of the value and of the length.
data Lead (b : ℕ) : Type 0 where
  lead :
      (k : ℕ)
      → get_or lengths (b / 64) 0 ≡ suc k
      → k < 8
      → 64 * 256 ^ k ≤ 2 ^ 62
      → ((v : ℕ) → v < 64 * 256 ^ k → len v ≤ suc k)
      → Lead b

class_of : (b c : ℕ) → IsByte b → b / 64 ≡ c → Lead b
unfolding len
class_of b zero h e = lead 0 (rw e) (omega arith) (omega arith) (λ v p. ground arith)
class_of b (suc zero) h e = lead 1 (rw e) (omega arith) (omega arith) (λ v p. ground arith)
class_of b (suc (suc zero)) h e = lead 3 (rw e) (omega arith) (omega arith) (λ v p. ground arith)
class_of b (suc (suc (suc zero))) h e =
    lead 7 (rw e) (omega arith) (omega arith) (λ v p. ground arith)
class_of b (suc (suc (suc (suc c)))) h e = absurd (omega arith)

decode_lead :
    (b : ℕ) (bs : List ℕ) (v n : ℕ)
    → All IsByte (b ∷ bs)
    → Lead b
    → decode (b ∷ bs) ≡ some (v, n)
    → (v ≤ varint_max) × (1 ≤ n) × (n ≤ length (b ∷ bs)) × (n ≤ 8) × (len v ≤ n)
unfolding decode
decode_lead b bs v n (hb, h) (lead k look ks top short) e =
    ground (arith, look, get_be-lt k b bs hb h (omega arith), short (get_be (suc k) (b ∷ bs)))

-- A decoded value fits 62 bits, took 1 to 8 of the bytes at hand, and needs no more than were taken.
pub decode_bounds :
    (buf : List ℕ) (v n : ℕ)
    → All IsByte buf
    → decode buf ≡ some (v, n)
    → (v ≤ varint_max) × (1 ≤ n) × (n ≤ length buf) × (n ≤ 8) × (len v ≤ n)
decode_bounds [] v n h e = unfold decode in cc
decode_bounds (b ∷ bs) v n h e = decode_lead b bs v n h (class_of b (b / 64) h.0 refl) e

All-drop : (n : ℕ) (bs : List ℕ) → All IsByte bs → All IsByte (drop n bs)
All-drop zero bs h = h
All-drop (suc n) [] h = tt
All-drop (suc n) (b ∷ bs) (hb, h) = All-drop n bs h

-- `quic_varint_take` gives a 62-bit value and goes on.
pub take_bounds :
    (buf : List ℕ) (x : ℕ × List ℕ)
    → All IsByte buf
    → take buf ≡ some x
    → (x.0 ≤ varint_max) × All IsByte x.1 × (length x.1 < length buf)
unfolding take
take_bounds buf x h e = elim (Option-cases (decode buf)) [
  | inl n ↦ absurd (ground arith)
  | inr ((w, used), d) ↦
      ground (arith, decode_bounds buf w used h d, All-drop used buf h, length-drop used buf)
]
