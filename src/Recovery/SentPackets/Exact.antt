-- ===== src/Recovery/SentPackets/Exact.antt =====
-- What an ACK frees, against the ranges that its values describe.
use quic_vibe.Common.{ℕ, ◌+◌, ◌^◌, ◌<◌, ◌≡◌, refl, ◌∙◌, Bool, false, ◌||◌, List, [], ◌∷◌, arith}
use quic_vibe.Recovery.SentPackets.{Entry, ack_process}
use quic_vibe.Recovery.SentPackets.Acknowledge.{
  is_between, covered, covered_below, ack_all, outstanding, occurrences, ack_all_same,
  outstanding_same, ack_process-covered,
}

-- RFC 9000 19.3.1: the values behind a range that starts at `lo` describe ranges (low end, high end)
-- further down. A gap is the number of packets left out below the range before, less one, and a length
-- is that of the range, less one.
pub data Describes : ℕ → List ℕ → List (ℕ × ℕ) → Type 0 where
  none_left : {lo : ℕ} → Describes lo [] []
  next_range :
      {lo gap len low high : ℕ} {values : List ℕ} {ranges : List (ℕ × ℕ)}
      → high + gap + 2 ≡ lo
      → low + len ≡ high
      → Describes low values ranges
      → Describes lo (gap ∷ (len ∷ values)) ((low, high) ∷ ranges)

-- Whether a number is in one of the ranges.
abbrev pub in_some : List (ℕ × ℕ) → ℕ → Bool
in_some [] q = false
in_some (r ∷ rs) q = is_between q r.0 r.1 || in_some rs q

covered_below-described :
    {lo : ℕ} {values : List ℕ} {ranges : List (ℕ × ℕ)}
    → Describes lo values ranges
    → lo < 2 ^ 64
    → (q : ℕ) → covered_below lo values q ≡ in_some ranges q
unfolding covered_below
covered_below-described none_left small q = refl
covered_below-described (next_range gap_eq len_eq d) small q =
    let rest = covered_below-described d (omega arith) q in ground arith

-- An ACK whose values describe ranges frees exactly the packets in flight whose numbers are in one of
-- them, leaves every other slot as it is, and reports each of their numbers as often as it was in flight.
pub ack_process_exact :
    (t : List Entry) (lo first q : ℕ) (values : List ℕ) (ranges : List (ℕ × ℕ))
    → lo + first < 2 ^ 64
    → Describes lo values ranges
    → ((ack_process t (lo + first) (first ∷ values)).0
        ≡ ack_all (in_some ((lo, lo + first) ∷ ranges)) t)
      × (occurrences q (ack_process t (lo + first) (first ∷ values)).1
          ≡ outstanding (in_some ((lo, lo + first) ∷ ranges)) q t)
unfolding covered
ack_process_exact t lo first q values ranges small d =
    let top = lo + first in
    let same : (n : ℕ) → covered top (first ∷ values) n ≡ in_some ((lo, top) ∷ ranges) n =
      λ n. let rest = covered_below-described d (omega arith) n in ground arith in
    let (e, o) = ack_process-covered t top q (first ∷ values) in
    (
      e ∙ ack_all_same (covered top (first ∷ values)) (in_some ((lo, top) ∷ ranges)) t same,
      o ∙ outstanding_same (covered top (first ∷ values)) (in_some ((lo, top) ∷ ranges)) q t same,
    )
