-- ===== src/Recovery/Tests.antt =====
-- Acknowledgement, loss, congestion control and timers at concrete values.
use quic_vibe.Common.{
  ℕ, ◌+◌, ◌-◌, ◌*◌, ◌^◌, ◌≤◌, ◌<◌, ◌≡◌, refl, true, false, some, List, [], ◌∷◌, arith, ltb,
  if◌then◌else◌,
}
use quic_vibe.Recovery.SentPackets.{
  PacketState, is_inflight, Entry, sentpkt_init, ack_process, lossdrive_on_ack, count,
}
use quic_vibe.Recovery.SentPackets.Acknowledge.{ack_all, outstanding, occurrences}
use quic_vibe.Recovery.SentPackets.Exact.{none_left, next_range, in_some, ack_process_exact}
use quic_vibe.Recovery.SentPackets.Lose.{IsClean, give_up, overdue_count, lossdrive_exact}
use quic_vibe.Recovery.SentPackets.Conservation
use quic_vibe.Recovery.AckRanges.{
  build_ranges, descend, descend_loop, step, close_block, emit, push, gap_of,
}
use quic_vibe.Recovery.AckRanges.Coverage.{member}
use quic_vibe.Recovery.AckRanges.RoundTrip.{ack_round_trip}
use quic_vibe.Recovery.Congestion.{Cc, cc_init, min_window, init_window}
use quic_vibe.Recovery.Congestion.Window
use quic_vibe.Recovery.Rtt.{Rtt, rtt_init, sample, first_sample, next_sample, pto_duration}
use quic_vibe.Recovery.Rtt.Estimate
use quic_vibe.Recovery.Rtt.Timeout.{timeout_doubles}
use quic_vibe.Recovery.InFlight.{Sent, SentPacket, sent_init}
use quic_vibe.Recovery.InFlight.Bytes
use quic_vibe.Recovery.SentMeta.{SentMeta, MetaPacket, sentmeta_init}
use quic_vibe.Recovery.SentMeta.Totals

-- A delay that wraps the sum in `adjust`: the smoothed round trip is above both samples.
wrapped_delay : (sample (sample rtt_init 100 0) 110 (2 ^ 64 - 100)).smoothed_rtt ≡ 113
unfolding rtt_init sample first_sample next_sample
wrapped_delay = refl

-- The example of RFC 9000 19.3: blocks 9-10, 5, 1-3, from the top down.
built : build_ranges (1 ∷ 2 ∷ 3 ∷ 5 ∷ 9 ∷ 10 ∷ []) 11 ≡ some (10, 1 ∷ 2 ∷ 0 ∷ 0 ∷ 2 ∷ [])
unfolding build_ranges descend descend_loop step close_block emit push gap_of
built = refl

abbrev packet : ℕ → Entry
packet pn = record {
  pn = pn;
  time_sent = 100 + pn;
  size = 1200;
  ack_eliciting = true;
  state = PacketState.inflight;
  used = true;
}

abbrev table : List Entry
table = packet 1 ∷ packet 2 ∷ packet 7 ∷ []

-- 7, and 2 behind a gap of four packets.
ack_process_exact_example :
    ((ack_process table 7 (0 ∷ 3 ∷ 0 ∷ [])).0 ≡ ack_all (in_some ((7, 7) ∷ (2, 2) ∷ [])) table)
    × (occurrences 2 (ack_process table 7 (0 ∷ 3 ∷ 0 ∷ [])).1
        ≡ outstanding (in_some ((7, 7) ∷ (2, 2) ∷ [])) 2 table)
ack_process_exact_example =
    ack_process_exact table 7 0 2 (3 ∷ 0 ∷ []) ((2, 2) ∷ []) (omega arith)
      (next_range refl refl none_left)

packet-IsClean : (pn : ℕ) → pn < 2 ^ 61 → IsClean (packet pn)
unfolding is_inflight
packet-IsClean pn h = record { in_flight = λ _. refl; number = omega arith; time = omega arith }

lossdrive_exact_example :
    ((lossdrive_on_ack table 5 104 3).0 ≡ give_up 5 104 3 table)
    × (occurrences 2 (lossdrive_on_ack table 5 104 3).1 ≡ overdue_count 5 104 3 2 table)
lossdrive_exact_example =
    lossdrive_exact table 5 104 3 2
      (
        packet-IsClean 1 (omega arith),
        (packet-IsClean 2 (omega arith), (packet-IsClean 7 (omega arith), tt)),
      )
      (omega arith)

abbrev calls : List Conservation.Call
calls =
    Conservation.Call.send 0 10 true 1200
    ∷ Conservation.Call.send 1 11 true 1200
    ∷ Conservation.Call.acknowledge 1 (0 ∷ [])
    ∷ Conservation.Call.lose 1 90 20
    ∷ []

conservation_example :
    (Conservation.orderly (Conservation.run (sentpkt_init table) calls).0 ≡ true)
    × (count (Conservation.run (sentpkt_init table) calls).0
          + (Conservation.run (sentpkt_init table) calls).1.1
        ≡ (Conservation.run (sentpkt_init table) calls).1.0)
conservation_example = Conservation.conservation table calls

ack_round_trip_example :
    (largest : ℕ) × ((ranges : List ℕ) × ((build_ranges (2 ∷ 3 ∷ 7 ∷ []) 5 ≡ some (largest, ranges))
        × (((ack_process table largest ranges).0 ≡ ack_all (member (2 ∷ 3 ∷ 7 ∷ [])) table)
            × (occurrences 7 (ack_process table largest ranges).1
                ≡ outstanding (member (2 ∷ 3 ∷ 7 ∷ [])) 7 table))))
ack_round_trip_example =
    ack_round_trip (2 ∷ 3 ∷ 7 ∷ []) 5 table 7 (omega arith, (omega arith, omega arith))
      (omega arith) (omega arith)

abbrev events : List Window.Event
events = Window.Event.ack 1200 5 ∷ Window.Event.loss 6 9 ∷ Window.Event.ack 2400 8 ∷ []

window_bounds_example :
    (min_window ≤ (Window.run cc_init events).cwnd)
    × ((Window.run cc_init events).cwnd ≤ init_window + Window.total_acked events)
window_bounds_example = Window.window_bounds events (omega arith)

abbrev avoiding : Cc
avoiding = record { cwnd = 20000; ssthresh = 9000; in_recovery = false; recovery_start = 3 }

abbrev samples : List (ℕ × ℕ)
samples = (40000, 0) ∷ (60000, 5000) ∷ (30000, 5000) ∷ []

IsEstimate-bounds_example :
    Estimate.IsEstimate 60000 (Estimate.run rtt_init samples)
    × ((Estimate.run rtt_init samples).min_rtt
        ≡ Estimate.least 40000 ((60000, 5000) ∷ (30000, 5000) ∷ []))
IsEstimate-bounds_example =
    Estimate.IsEstimate-bounds 60000 40000 0 ((60000, 5000) ∷ (30000, 5000) ∷ []) (omega arith)
      ((omega arith, omega arith), ((omega arith, omega arith), ((omega arith, omega arith), tt)))

abbrev estimate : Rtt
estimate = record { min_rtt = 30000; smoothed_rtt = 41000; rttvar = 9000; have_sample = true }

timeout_doubles_example :
    (1000 ≤ pto_duration 41000 9000 25000 3)
    × (pto_duration 41000 9000 25000 4
        ≡ (if ltb 3 16 then 2 else 1) * pto_duration 41000 9000 25000 3)
timeout_doubles_example =
    timeout_doubles 41000 9000 25000 3 (omega arith) (omega arith) (omega arith)

abbrev blank : SentPacket
blank = record { pn = 0; size = 0; time_sent = 0; state = PacketState.lost; used = true }

abbrev memory : Sent
memory = record {
  pkts = blank ∷ blank ∷ [];
  bytes_in_flight = 7;
  largest_acked = 7;
  have_acked = true;
}

abbrev ops : List Bytes.Call
ops =
    Bytes.Call.send 0 1200 5
    ∷ Bytes.Call.send 1 800 6
    ∷ Bytes.Call.ack 1
    ∷ Bytes.Call.ack 1
    ∷ Bytes.Call.detect
    ∷ []

bytes_exact_example :
    ((Bytes.run (sent_init memory) ops).bytes_in_flight
      ≡ Bytes.total (Bytes.run (sent_init memory) ops).pkts)
    × ((Bytes.run (sent_init memory) ops).bytes_in_flight ≤ Bytes.total_sent ops)
bytes_exact_example = Bytes.bytes_exact memory ops (omega arith)

abbrev slot : MetaPacket
slot = record {
  pn = 0;
  time_sent = 0;
  sent_bytes = 0;
  ack_eliciting = false;
  in_flight = false;
  used = true;
}

abbrev ring : SentMeta
ring = record { pkts = slot ∷ slot ∷ []; count = 9; total_in_flight = 9 }

abbrev meta_calls : List Totals.Call
meta_calls =
    Totals.Call.send 0 5 true true 1200
    ∷ Totals.Call.send 1 6 false false 40
    ∷ Totals.Call.ack 0
    ∷ Totals.Call.detect 4 9 8
    ∷ []

totals_exact_example :
    Totals.IsTallied (Totals.run (sentmeta_init ring) meta_calls).0
    × ((Totals.run (sentmeta_init ring) meta_calls).0.count
          + (Totals.run (sentmeta_init ring) meta_calls).1.1
        ≡ (Totals.run (sentmeta_init ring) meta_calls).1.0)
totals_exact_example = Totals.totals_exact ring meta_calls (omega arith) (omega arith)
