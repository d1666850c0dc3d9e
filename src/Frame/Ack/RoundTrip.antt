-- ===== src/Frame/Ack/RoundTrip.antt =====
-- An ACK frame with descending ranges is read back as it was written.
use quic_vibe.Common.{
  ℕ, ◌-◌, ◌^◌, ◌≤◌, ◌<◌, ◌≡◌, refl, inl, inr, some, List, [], ◌∷◌, ◌++◌, arith, ◌==◌, if◌then◌else◌,
  length, All,
}
use quic_vibe.Varint.{varint_max}
use quic_vibe.Frame.Wire.{IsVarint, encodes, RoundTrips}
use quic_vibe.Frame.Framed.{take-encodes, varints_round}
use quic_vibe.Frame.Ack.{
  AckRange, AckFrame, ack_type, ack_encode, take_ack_meta, take_first, take_ack_head, pair_fits,
  take_two, take_pair, take_ack_pairs, count_fits, take_ack_prologue, take_ack_ecn, take_ack_rest,
  ack_decode,
}
use quic_vibe.Frame.Ack.Decoded.{IsBelow}
use quic_vibe.Frame.Ack.Written.{
  pairs, pairs_fit, IsAckFrame, ecn_counts, ack_body, put_ack-put_all,
}

take_pairs_back :
    (prev : AckRange) (rs : List AckRange) (us rest : List ℕ)
    → prev.lo ≤ varint_max
    → IsBelow prev.lo rs
    → take_ack_pairs (encodes (pairs prev rs ++ us) ++ rest) prev.lo (length rs)
      ≡ some (rs, encodes us ++ rest)
unfolding take_ack_pairs take_pair take_two pair_fits
take_pairs_back prev [] us rest h b = refl
take_pairs_back prev (cur ∷ rs) us rest h (gap, ok, b) = ground (
  arith,
  take-encodes (prev.lo - cur.hi - 2) ((cur.hi - cur.lo) ∷ (pairs cur rs ++ us)) rest,
  take-encodes (cur.hi - cur.lo) (pairs cur rs ++ us) rest,
  take_pairs_back cur rs us rest (omega arith) b,
)

take_ecn_back :
    (f : AckFrame) (rest : List ℕ)
    → IsAckFrame f
    → take_ack_ecn (encodes (ecn_counts f) ++ rest) f.has_ecn ≡ some (f.ect0, f.ect1, f.ce, rest)
unfolding take_ack_ecn take_two
take_ecn_back f rest h = elim (h.counts) [
  | inl (e, a, b, c) ↦ rw (e, a, b, c) refl
  | inr (e, a, b, c) ↦ rw e (
      ground (
        arith,
        take-encodes f.ect0 (f.ect1 ∷ f.ce ∷ []) rest a,
        take-encodes f.ect1 (f.ce ∷ []) rest b,
        take-encodes f.ce [] rest c,
      ))
]

varints_both : (vs us : List ℕ) → All IsVarint vs → All IsVarint us → All IsVarint (vs ++ us)
varints_both [] us h k = k
varints_both (v ∷ vs) us (a, h) k = (a, varints_both vs us h k)

counts_fit : (f : AckFrame) → IsAckFrame f → All IsVarint (ecn_counts f)
counts_fit f h = elim (h.counts) [
  | inl (e, a, b, c) ↦ rw e tt
  | inr (e, a, b, c) ↦ rw e (a, (b, (c, tt)))
]

ack_body_fits :
    (f : AckFrame) (r : AckRange) (rs : List AckRange)
    → IsAckFrame (record f { ranges = r ∷ rs })
    → All IsVarint (ack_body (record f { ranges = r ∷ rs }))
ack_body_fits f r rs h =
    let g = record f { ranges = r ∷ rs } in
    let (ok, fits, b) = h.descending in
    (
      fits,
      (
        h.delay,
        (
          omega (arith, h.few_ranges),
          (
            omega arith,
            varints_both (pairs r rs) (ecn_counts g) (pairs_fit r rs (omega arith) b)
                (counts_fit g h),
          ),
        ),
      ),
    )

read_prologue :
    (f : AckFrame) (r : AckRange) (rs : List AckRange) (us rest : List ℕ)
    → IsAckFrame (record f { ranges = r ∷ rs })
    → take_ack_prologue
        (encodes (r.hi ∷ (f.ack_delay ∷ (length rs ∷ ((r.hi - r.lo) ∷ us)))) ++ rest)
      ≡ some (f.ack_delay, r, length rs, encodes us ++ rest)
unfolding take_ack_prologue take_ack_head take_ack_meta take_first count_fits
read_prologue f r rs us rest h =
    let (ok, fits, b) = h.descending in
    ground (
      arith,
      h.few_ranges,
      take-encodes r.hi (f.ack_delay ∷ (length rs ∷ ((r.hi - r.lo) ∷ us))) rest,
      take-encodes f.ack_delay (length rs ∷ ((r.hi - r.lo) ∷ us)) rest h.delay,
      take-encodes (length rs) ((r.hi - r.lo) ∷ us) rest,
      take-encodes (r.hi - r.lo) us rest,
    )

read_rest :
    (f : AckFrame) (r : AckRange) (rs : List AckRange) (rest : List ℕ)
    → IsAckFrame (record f { ranges = r ∷ rs })
    → take_ack_rest (encodes (pairs r rs ++ ecn_counts f) ++ rest) r.lo (length rs) f.has_ecn
      ≡ some (rs, (f.ect0, f.ect1, f.ce, rest))
unfolding take_ack_rest
read_rest f r rs rest h =
    let (ok, fits, b) = h.descending in
    ground (
      arith,
      take_pairs_back r rs (ecn_counts f) rest (omega arith) b,
      take_ecn_back (record f { ranges = r ∷ rs }) rest h,
    )

ack_type_small : (f : AckFrame) → ack_type f < 64
unfolding ack_type
ack_type_small f = ground arith

ecn_flag : (f : AckFrame) → IsAckFrame f → (if ack_type f == 3 then 1 else 0) ≡ f.has_ecn
unfolding ack_type
ecn_flag f h = elim (h.counts) [ inl (e, _, _, _) ↦ ground arith | inr (e, _, _, _) ↦ ground arith ]

round_trip_at :
    (cap : ℕ) (f : AckFrame) (r : AckRange) (rs : List AckRange) (rest : List ℕ)
    → let g = record f { ranges = r ∷ rs } in
      IsAckFrame g
      → length (encodes (ack_type g ∷ ack_body g)) ≤ cap
      → cap < 2 ^ 63
      → RoundTrips (ack_encode cap) ack_decode g rest
unfolding ack_decode
round_trip_at cap f r rs rest h room small =
    let g = record f { ranges = r ∷ rs } in
    varints_round (ack_encode cap) ack_decode g cap (ack_type g) (ack_body g) rest
      (ack_type_small g) (put_ack-put_all cap f r rs (omega (arith, h.few_ranges)) h.descending)
      (ack_body_fits f r rs h) room small
      λ buf b. rw b (
        ground (
          arith,
          ecn_flag g h,
          read_prologue f r rs (pairs r rs ++ ecn_counts f) rest h,
          read_rest f r rs rest h,
        ))

-- An ACK frame of 1 to 32 descending ranges of numbers below 2^62, with the ECN counts or without
-- them, is written and then read back, whatever follows it.
pub ack_frame_round_trip :
    (cap : ℕ) (f : AckFrame) (rest : List ℕ)
    → IsAckFrame f
    → length (encodes (ack_type f ∷ ack_body f)) ≤ cap
    → cap < 2 ^ 63
    → RoundTrips (ack_encode cap) ack_decode f rest
ack_frame_round_trip cap f rest = go f.ranges
  where
    go :
        (rs : List AckRange)
        → let g = record f { ranges = rs } in
          IsAckFrame g
          → length (encodes (ack_type g ∷ ack_body g)) ≤ cap
          → cap < 2 ^ 63
          → RoundTrips (ack_encode cap) ack_decode g rest
    go [] h room small = absurd (omega (arith, h.some_range))
    go (r ∷ rs) h room small = round_trip_at cap f r rs rest h room small
