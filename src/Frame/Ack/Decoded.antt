-- ===== src/Frame/Ack/Decoded.antt =====
-- What the ACK decoder accepts: ranges in descending order with a gap between them, none below
-- zero, 32 at most.
use quic_vibe.Common.{
  ℕ, zero, suc, ◌+◌, ◌≤◌, ◌≡◌, sym, ap, Option, none, some, List, [], ◌∷◌, arith, leb, ◌==◌,
  if◌then◌else◌, length, All, guard, >>=-eq-some,
}
use quic_vibe.Common.Word.{IsByte}
use quic_vibe.Varint
use quic_vibe.Varint.{varint_max}
use quic_vibe.Varint.Bounds.{take_bounds}
use quic_vibe.Frame.Ack.{
  AckRange, AckFrame, take_ack_meta, take_first, take_ack_head, pair_fits, take_two, take_pair,
  take_ack_pairs, count_fits, take_ack_prologue, take_ack_ecn, take_ack_rest, ack_decode,
}

-- Ranges that lie below `lo`, one number at least between each and the next.
abbrev pub IsBelow : ℕ → List AckRange → Type 0
IsBelow lo [] = Unit
IsBelow lo (r ∷ rs) = (r.hi + 2 ≤ lo) × (r.lo ≤ r.hi) × IsBelow r.lo rs

abbrev pub IsDescending : List AckRange → Type 0
IsDescending [] = Unit
IsDescending (r ∷ rs) = (r.lo ≤ r.hi) × (r.hi ≤ varint_max) × IsBelow r.lo rs

take_two_bounds :
    (r : List ℕ) (x : ℕ × ℕ × List ℕ)
    → All IsByte r
    → take_two r ≡ some x
    → (x.0 ≤ varint_max) × (x.1 ≤ varint_max) × All IsByte x.2
unfolding take_two
take_two_bounds r x h e =
    let (a, p, q) = >>=-eq-some (Varint.take r) _ e in
    let (b, p', q') = >>=-eq-some (Varint.take a.1) _ q in
    let (va, ha, _) = take_bounds r a h p in
    let (vb, hb, _) = take_bounds a.1 b ha p' in ground arith

take_pair_below :
    (r : List ℕ) (prev_lo : ℕ) (x : AckRange × List ℕ)
    → All IsByte r
    → prev_lo ≤ varint_max
    → take_pair r prev_lo ≡ some x
    → (x.0.hi + 2 ≤ prev_lo) × (x.0.lo ≤ x.0.hi) × All IsByte x.1
unfolding take_pair pair_fits
take_pair_below r prev_lo x h v e =
    let (a, p, q) = >>=-eq-some (take_two r) _ e in
    let (va, vb, ha) = take_two_bounds r a h p in
    let (u, g, q') = >>=-eq-some (guard (pair_fits prev_lo a.0 a.1)) _ q in ground arith

take_ack_pairs-IsBelow :
    (count : ℕ) (r : List ℕ) (prev_lo : ℕ) (x : List AckRange × List ℕ)
    → All IsByte r
    → prev_lo ≤ varint_max
    → take_ack_pairs r prev_lo count ≡ some x
    → IsBelow prev_lo x.0 × (length x.0 ≡ count)
unfolding take_ack_pairs
take_ack_pairs-IsBelow zero r prev_lo x h v e = ground arith
take_ack_pairs-IsBelow (suc count) r prev_lo x h v e =
    let (a, p, q) = >>=-eq-some (take_pair r prev_lo) _ e in
    let (b, p', q') = >>=-eq-some (take_ack_pairs a.1 a.0.lo count) _ q in
    let (gap, fits, ha) = take_pair_below r prev_lo a h v p in
    let below = take_ack_pairs-IsBelow count a.1 a.0.lo b ha (omega arith) p' in ground arith

take_ack_meta_bounds :
    (r : List ℕ) (x : ℕ × ℕ × ℕ × List ℕ)
    → All IsByte r
    → take_ack_meta r ≡ some x
    → (x.0 ≤ varint_max) × (x.2 ≤ varint_max) × All IsByte x.3
unfolding take_ack_meta
take_ack_meta_bounds r x h e =
    let (a, p, q) = >>=-eq-some (Varint.take r) _ e in
    let (b, p', q') = >>=-eq-some (Varint.take a.1) _ q in
    let (c, p'', q'') = >>=-eq-some (Varint.take b.1) _ q' in
    let (va, ha, _) = take_bounds r a h p in
    let (vb, hb, _) = take_bounds a.1 b ha p' in
    let (vc, hc, _) = take_bounds b.1 c hb p'' in ground arith

take_first_bounds :
    (r : List ℕ) (largest : ℕ) (x : ℕ × List ℕ)
    → All IsByte r
    → take_first r largest ≡ some x
    → (x.0 ≤ largest) × All IsByte x.1
unfolding take_first
take_first_bounds r largest x h e =
    let (a, p, q) = >>=-eq-some (Varint.take r) _ e in
    let (u, g, q') = >>=-eq-some (guard (leb a.0 largest)) _ q in
    let (va, ha, _) = take_bounds r a h p in ground arith

take_prologue_bounds :
    (r : List ℕ) (x : ℕ × AckRange × ℕ × List ℕ)
    → All IsByte r
    → take_ack_prologue r ≡ some x
    → (x.1.lo ≤ x.1.hi) × (x.1.hi ≤ varint_max) × (x.2 + 1 ≤ 32) × All IsByte x.3
unfolding take_ack_prologue take_ack_head count_fits
take_prologue_bounds r x h e =
    let (y, p, q) = >>=-eq-some (take_ack_head r) _ e in
    let (u, g, q') = >>=-eq-some (guard (count_fits y.2)) _ q in
    let (a, p', q'') = >>=-eq-some (take_ack_meta r) _ p in
    let (b, p'', q''') = >>=-eq-some (take_first a.3 a.0) _ q'' in
    let (va, vc, ha) = take_ack_meta_bounds r a h p' in
    let (vb, hb) = take_first_bounds a.3 a.0 b ha p'' in ground arith

take_ack_rest-IsBelow :
    (r : List ℕ) (prev_lo count has_ecn : ℕ) (x : List AckRange × (ℕ × ℕ × ℕ × List ℕ))
    → All IsByte r
    → prev_lo ≤ varint_max
    → take_ack_rest r prev_lo count has_ecn ≡ some x
    → IsBelow prev_lo x.0 × (length x.0 ≡ count)
unfolding take_ack_rest
take_ack_rest-IsBelow r prev_lo count has_ecn x h v e =
    let (a, p, q) = >>=-eq-some (take_ack_pairs r prev_lo count) _ e in
    let (ecn, p', q') = >>=-eq-some (take_ack_ecn a.1 has_ecn) _ q in
    let below = take_ack_pairs-IsBelow count r prev_lo a h v p in ground arith

abbrev ranges_or : Option (AckFrame × ℕ) → List AckRange
ranges_or none = []
ranges_or (some (f, n)) = f.ranges

-- An ACK frame that is accepted has between 1 and 32 ranges, the first reaching up to at most
-- 2^62 - 1, each with its low end at or below its high end, and each at least two numbers below the
-- range before it. Every other frame is refused.
pub ack_decode-IsDescending :
    (t : ℕ) (buf : List ℕ) (f : AckFrame) (n : ℕ)
    → All IsByte buf
    → ack_decode (t ∷ buf) ≡ some (f, n)
    → IsDescending f.ranges × (1 ≤ length f.ranges) × (length f.ranges ≤ 32)
unfolding ack_decode
ack_decode-IsDescending t buf f n h e =
    let (x, p, q) = >>=-eq-some (take_ack_prologue buf) _ e in
    let (y, p', q') = >>=-eq-some (take_ack_rest x.3 x.1.lo x.2 (if t == 3 then 1 else 0)) _ q in
    let (lo, hi, count, hx) = take_prologue_bounds buf x h p in
    let (below, counted) =
      take_ack_rest-IsBelow x.3 x.1.lo x.2 (if t == 3 then 1 else 0) y hx (omega arith) p' in
    rw (ap ranges_or (sym q')) ((lo, hi, below), omega arith, omega (arith, count, counted))
