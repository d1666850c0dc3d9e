-- ===== src/Recovery/AckRanges/RoundTrip.antt =====
-- From the packet numbers that one side received to the packets that the other side frees.
use quic_vibe.Common.{
  ℕ, zero, suc, ◌-◌, ◌*◌, ◌^◌, ◌≤◌, ◌<◌, ◌≡◌, refl, ap, ◌∙◌, ◌||◌, some, List, [], ◌∷◌, arith, ◌==◌,
  length, get_or, ◌>>=◌,
}
use mathlib.Core.Path.{fun_ext}
use quic_vibe.Recovery.AckRanges.{build_ranges}
use quic_vibe.Recovery.AckRanges.Coverage.{
  IsAscending, member, fit, blocks, below, covered-blocks, build_ranges_lem, length-blocks,
  below-member,
}
use quic_vibe.Recovery.SentPackets.{Entry, ack_process}
use quic_vibe.Recovery.SentPackets.Acknowledge.{
  covered, ack_all, outstanding, occurrences, ack_process-covered,
}

ascending_next :
    (xs : List ℕ) (j : ℕ) → IsAscending xs → suc j < length xs → get_or xs j 0 < get_or xs (suc j) 0
ascending_next [] j v h = absurd (omega arith)
ascending_next (x ∷ []) j v h = absurd (omega arith)
ascending_next (x ∷ (y ∷ rest)) zero v h = v.0
ascending_next (x ∷ (y ∷ rest)) (suc j) v h = ascending_next (y ∷ rest) j v.1 (omega arith)

ascending_small : (xs : List ℕ) (j : ℕ) → IsAscending xs → get_or xs j 0 < 2 ^ 62
ascending_small [] j v = omega arith
ascending_small (x ∷ []) zero v = v
ascending_small (x ∷ []) (suc j) v = omega arith
ascending_small (x ∷ (y ∷ rest)) zero v = omega (arith, ascending_small (y ∷ rest) zero v.1, v.0)
ascending_small (x ∷ (y ∷ rest)) (suc j) v = ascending_small (y ∷ rest) j v.1

top_covered :
    (pns : List ℕ) (q : ℕ)
    → IsAscending pns
    → 0 < length pns
    → let at = λ (i : ℕ). get_or pns i 0 in
      let m = length pns - 1 in covered (at m) (blocks at m (at m)) q ≡ member pns q
top_covered pns q v h =
    let at : ℕ → ℕ = λ i. get_or pns i 0 in
    let m : ℕ = length pns - 1 in
    let whole : suc m ≡ length pns = omega arith in
    let last : below at (suc m) q ≡ member pns q = rw whole (below-member pns q) in
    let first : below at (suc m) q ≡ ((at m == q) || below at m q) = unfold below in refl in
    ground (
      arith,
      covered-blocks at m (at m) q (λ j l. ascending_next pns j v (omega arith)) (omega arith)
          (ascending_small pns m v),
      last,
      first,
    )

-- A receiver of at least one packet, with room for two values of each but one, builds an ACK from the
-- rising numbers it received; a sender that processes it frees exactly the packets in flight with
-- those numbers, leaves every other slot as it is, and reports each number as often as it was in flight.
pub ack_round_trip :
    (pns : List ℕ) (cap : ℕ) (t : List Entry) (q : ℕ)
    → IsAscending pns
    → 0 < length pns
    → 2 * length pns ≤ suc cap
    → (largest : ℕ) × ((ranges : List ℕ) × ((build_ranges pns cap ≡ some (largest, ranges))
          × (((ack_process t largest ranges).0 ≡ ack_all (member pns) t)
              × (occurrences q (ack_process t largest ranges).1 ≡ outstanding (member pns) q t))))
ack_round_trip pns cap t q v h room =
    let at : ℕ → ℕ = λ i. get_or pns i 0 in
    let m : ℕ = length pns - 1 in
    let ranges = blocks at m (at m) in
    let fits : fit cap ranges ≡ some ranges =
      unfold fit in ground (arith, length-blocks at m (at m)) in
    let same : covered (at m) ranges ≡ member pns = fun_ext (λ n. top_covered pns n v h) in
    let (e, o) = ack_process-covered t (at m) q ranges in
    (
      at m,
      (
        ranges,
        (
          build_ranges_lem pns cap h ∙ ap (λ r. r >>= λ ranges. some (at m, ranges)) fits,
          (e ∙ ap (λ f. ack_all f t) same, o ∙ ap (λ f. outstanding f q t) same),
        ),
      ),
    )
