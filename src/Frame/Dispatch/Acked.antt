-- ===== src/Frame/Dispatch/Acked.antt =====
-- What an ACK frame acknowledges: by either way from the bytes to the table of sent packets, the
-- packets in flight whose numbers are in the frame's ranges.
use quic_vibe.Common.{
  ℕ, ◌+◌, ◌≤◌, ◌≡◌, refl, sym, ap, ap₂, ◌∙◌, Bool, false, ◌||◌, some, List, [], ◌∷◌, arith, length,
  get_or, All,
}
use quic_vibe.Common.Word.{IsByte}
use quic_vibe.Varint.{varint_max}
use quic_vibe.Frame.Ack.{AckRange, AckFrame, first_range, ack_decode}
use quic_vibe.Frame.Ack.Decoded.{IsBelow, IsDescending, ack_decode-IsDescending}
use quic_vibe.Recovery.SentPackets.{Entry, ack_range, ack_process}
use quic_vibe.Recovery.SentPackets.Acknowledge.{
  ack_all, is_between, ack_all_same, covered, covered_below, outstanding, occurrences,
  occurrences-append, none_acked, none_outstanding, ack_all_twice, outstanding_twice, ack_range_lem,
  ack_process-covered,
}
use quic_vibe.Frame.Dispatch.{
  DispatchState, wire_pairs, wire_of, on_ack, process_ranges, ackrange_process,
}

-- Whether a number is in one of the ranges.
abbrev pub in_ranges : List AckRange → ℕ → Bool
in_ranges [] q = false
in_ranges (r ∷ rs) q = is_between q r.lo r.hi || in_ranges rs q

-- The values that `on_ack` passes on cover the ranges: nothing has wrapped.
covered_below-pairs :
    (prev : AckRange) (rs : List AckRange) (q : ℕ)
    → prev.lo ≤ varint_max
    → IsBelow prev.lo rs
    → covered_below prev.lo (wire_pairs prev rs) q ≡ in_ranges rs q
unfolding covered_below wire_pairs
covered_below-pairs prev [] q h b = refl
covered_below-pairs prev (cur ∷ rs) q h (gap, ok, b) =
    let rest = covered_below-pairs cur rs q (omega arith) b in ground arith

covered-wire :
    (r : AckRange) (rs : List AckRange) (q : ℕ)
    → IsDescending (r ∷ rs)
    → covered r.hi (wire_of (r ∷ rs)) q ≡ in_ranges (r ∷ rs) q
unfolding covered wire_of
covered-wire r rs q (ok, fits, b) =
    let rest = covered_below-pairs r rs q (omega arith) b in ground arith

process_ranges_lem :
    (rs : List AckRange) (t : List Entry) (q : ℕ)
    → ((process_ranges t rs).0 ≡ ack_all (in_ranges rs) t)
      × (occurrences q (process_ranges t rs).1 ≡ outstanding (in_ranges rs) q t)
unfolding process_ranges occurrences
process_ranges_lem [] t q = (sym (none_acked t), sym (none_outstanding q t))
process_ranges_lem (r ∷ rs) t q =
    let here = λ (n : ℕ). is_between n r.lo r.hi in
    let (e, o) = ack_range_lem t r.lo r.hi q in
    let (e', o') = process_ranges_lem rs (ack_range t r.lo r.hi).0 q in
    (
      e' ∙ ap (ack_all (in_ranges rs)) e ∙ ack_all_twice here (in_ranges rs) t,
      occurrences-append q (ack_range t r.lo r.hi).1 (process_ranges (ack_range t r.lo r.hi).0 rs).1
          ∙ ap₂ (λ a b. a + b) o (o' ∙ ap (outstanding (in_ranges rs) q) e)
          ∙ outstanding_twice here (in_ranges rs) q t,
    )

-- The table after `on_ack`, for the ranges of a frame.
pub replayed :
    (rs : List AckRange) (t : List Entry)
    → 1 ≤ length rs
    → IsDescending rs
    → (ack_process t (get_or rs 0 (record { hi = 0; lo = 0 })).hi (wire_of rs)).0
      ≡ ack_all (in_ranges rs) t
replayed [] t h d = absurd (omega arith)
replayed (r ∷ rs) t h d =
    (ack_process-covered t r.hi 0 (wire_of (r ∷ rs))).0
    ∙ ack_all_same (covered r.hi (wire_of (r ∷ rs))) (in_ranges (r ∷ rs)) t
        (λ q. covered-wire r rs q d)

-- For an ACK frame that is accepted, whatever its bytes: the handler frees exactly the packets in
-- flight whose numbers are in the frame's ranges and records the largest number; the other way from
-- the bytes to the table ends with the same table, and reports each of those numbers as often as it
-- was in flight.
pub on_ack_exact :
    (st : DispatchState) (t : ℕ) (buf : List ℕ) (f : AckFrame) (n q : ℕ)
    → All IsByte buf
    → ack_decode (t ∷ buf) ≡ some (f, n)
    → ((on_ack st (t ∷ buf)).0.sent ≡ ack_all (in_ranges f.ranges) st.sent)
      × ((on_ack st (t ∷ buf)).0.largest_acked ≡ (first_range f).hi)
      × (ackrange_process st.sent (t ∷ buf) ≡ some (process_ranges st.sent f.ranges))
      × ((process_ranges st.sent f.ranges).0 ≡ ack_all (in_ranges f.ranges) st.sent)
      × (occurrences q (process_ranges st.sent f.ranges).1
          ≡ outstanding (in_ranges f.ranges) q st.sent)
unfolding on_ack ackrange_process
on_ack_exact st t buf f n q h e =
    let (desc, some_range, few) = ack_decode-IsDescending t buf f n h e in
    let (same, told) = process_ranges_lem f.ranges st.sent q in
    rw (on_ack, ackrange_process, e)
      (replayed f.ranges st.sent some_range desc, refl, refl, same, told)
