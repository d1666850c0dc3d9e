-- ===== src/PacketNumber/Window.antt =====
-- Which packet number `decode` recovers.
use Prim.Native.Nat.{bit_and, bit_or}
use quic_vibe.Common.{
  ℕ, zero, suc, ◌+◌, ◌-◌, ◌*◌, ◌/◌, ◌%◌, ◌^◌, ◌≤◌, ◌<◌, ◌≡◌, refl, sym, ap, ◌∙◌, [], arith,
}
use quic_vibe.Common.Word.{◌+ᵤ◌}
use quic_vibe.Common.Bits.{bit_or_disjoint, bit_and_low, bit_and_high}
use native.Mathlib.Nat.{mod-lt, mod-eq_of_lt}
use quic_vibe.BigEndian.{write_be, read_be, read_be-write_be}
use quic_vibe.PacketNumber.{encode, nearest, candidate_of, decode}

-- What is read is the low bytes of the number.
truncated_lem : (n pn : ℕ) → pn % 256 ^ n < 2 ^ 64 → read_be n 0 (write_be n pn []) ≡ pn % 256 ^ n
truncated_lem n pn h =
    let e : n + 0 ≡ n = omega arith in
    ap (λ k. read_be k 0 (write_be n pn [])) (sym e)
    ∙ read_be-write_be n 0 0 pn [] (omega arith)
    ∙ unfold read_be in omega arith

candidate_lem :
    (k m expected t : ℕ)
    → (2 ^ m - 1) * 2 ^ k ≡ 2 ^ 64 - 2 ^ k
    → expected / 2 ^ k < 2 ^ m
    → t < 2 ^ k
    → candidate_of expected (2 ^ k) t ≡ expected / 2 ^ k * 2 ^ k + t
unfolding candidate_of
candidate_lem k m expected t mask he ht =
    let low : (expected / 2 ^ k) % 2 ^ m ≡ expected / 2 ^ k = mod-eq_of_lt he in
    ap (λ z. bit_or (bit_and expected z) t) (sym mask)
    ∙ ap (λ z. bit_or z t) (bit_and_high k expected (2 ^ m - 1))
    ∙ ap (λ z. bit_or (z * 2 ^ k) t) (bit_and_low m (expected / 2 ^ k) ∙ low)
    ∙ bit_or_disjoint k (expected / 2 ^ k) t ht

-- The number is near the expected one: less than half a window below it, half a window above it at most.
abbrev pub IsNear : ℕ → ℕ → ℕ → Type 0
IsNear nbytes expected pn =
    (expected < pn + 2 ^ (nbytes * 8) / 2) × (pn ≤ expected + 2 ^ (nbytes * 8) / 2)

-- At each of the four widths.
pub nearest_lem :
    (nbytes expected pn : ℕ)
    → expected < 2 ^ 63
    → pn < 2 ^ 62
    → 1 ≤ nbytes
    → nbytes ≤ 4
    → IsNear nbytes expected pn
    → let win = 2 ^ (nbytes * 8) in nearest (expected / win * win + pn % win) expected win ≡ pn
unfolding nearest
nearest_lem zero expected pn he hp lo hi near = absurd (omega arith)
nearest_lem (suc zero) expected pn he hp lo hi near = ground arith
nearest_lem (suc (suc zero)) expected pn he hp lo hi near = ground arith
nearest_lem (suc (suc (suc zero))) expected pn he hp lo hi near = ground arith
nearest_lem (suc (suc (suc (suc zero)))) expected pn he hp lo hi near = ground arith
nearest_lem (suc (suc (suc (suc (suc n))))) expected pn he hp lo hi near = absurd (omega arith)

candidate_at :
    (nbytes expected t : ℕ)
    → expected < 2 ^ 63
    → 1 ≤ nbytes
    → nbytes ≤ 4
    → t < 2 ^ (nbytes * 8)
    → let win = 2 ^ (nbytes * 8) in candidate_of expected win t ≡ expected / win * win + t
candidate_at zero expected t he lo hi ht = absurd (omega arith)
candidate_at (suc zero) expected t he lo hi ht = candidate_lem 8 56 expected t refl (omega arith) ht
candidate_at (suc (suc zero)) expected t he lo hi ht =
    candidate_lem 16 48 expected t refl (omega arith) ht
candidate_at (suc (suc (suc zero))) expected t he lo hi ht =
    candidate_lem 24 40 expected t refl (omega arith) ht
candidate_at (suc (suc (suc (suc zero)))) expected t he lo hi ht =
    candidate_lem 32 32 expected t refl (omega arith) ht
candidate_at (suc (suc (suc (suc (suc n))))) expected t he lo hi ht = absurd (omega arith)

width : (nbytes : ℕ) → nbytes ≤ 4 → 256 ^ nbytes ≡ 2 ^ (nbytes * 8)
width zero h = refl
width (suc zero) h = refl
width (suc (suc zero)) h = refl
width (suc (suc (suc zero))) h = refl
width (suc (suc (suc (suc zero)))) h = refl
width (suc (suc (suc (suc (suc n))))) h = absurd (omega arith)

width_bounds : (nbytes : ℕ) → nbytes ≤ 4 → (0 < 2 ^ (nbytes * 8)) × (2 ^ (nbytes * 8) ≤ 2 ^ 32)
width_bounds zero h = (omega arith, omega arith)
width_bounds (suc zero) h = (omega arith, omega arith)
width_bounds (suc (suc zero)) h = (omega arith, omega arith)
width_bounds (suc (suc (suc zero))) h = (omega arith, omega arith)
width_bounds (suc (suc (suc (suc zero)))) h = (omega arith, omega arith)
width_bounds (suc (suc (suc (suc (suc n))))) h = absurd (omega arith)

-- A packet number near the one after `largest_pn` is recovered from its `nbytes` low bytes.
pub decode-encode_near :
    (nbytes largest_pn pn : ℕ)
    → 1 ≤ nbytes
    → nbytes ≤ 4
    → largest_pn < 2 ^ 62
    → pn < 2 ^ 62
    → IsNear nbytes (largest_pn + 1) pn
    → decode (encode pn nbytes) nbytes largest_pn ≡ pn
unfolding decode encode
decode-encode_near nbytes largest_pn pn lo hi hl hp near =
    let win = 2 ^ (nbytes * 8) in
    let bounds = width_bounds nbytes hi in
    let w = width nbytes hi in
    let rest : pn % win < win = mod-lt pn bounds.0 in
    let read : read_be nbytes 0 (write_be nbytes pn []) ≡ pn % win =
      truncated_lem nbytes pn (rw w (omega arith)) ∙ ap (λ z. pn % z) w in
    let next : largest_pn +ᵤ 1 ≡ largest_pn + 1 = omega arith in
    rw (read, next)
      (ap (λ z. nearest z (largest_pn + 1) win)
          (candidate_at nbytes (largest_pn + 1) (pn % win) (omega arith) lo hi rest)
        ∙ nearest_lem nbytes (largest_pn + 1) pn (omega arith) hp lo hi near)
