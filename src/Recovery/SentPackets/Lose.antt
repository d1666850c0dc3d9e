-- ===== src/Recovery/SentPackets/Lose.antt =====
-- Which packets loss detection gives up.
use quic_vibe.Common.{
  ℕ, ◌+◌, ◌^◌, ◌<◌, ◌≡◌, refl, Bool, true, false, ◌&&◌, ◌||◌, List, [], ◌∷◌, arith, leb, ◌==◌,
  if◌then◌else◌, to_bit, All,
}
use quic_vibe.Recovery.SentPackets.{
  PacketState, is_inflight, is_lost_state, Entry, past_threshold, loss_detect, drop_lost,
  lossdrive_on_ack,
}
use quic_vibe.Recovery.SentPackets.Acknowledge.{occurrences}

-- A used slot holds a packet in flight, whose number and time are far from wrapping.
pub record IsClean (p : Entry) : Type 0 where
  pub in_flight : p.used ≡ true → is_inflight p.state ≡ true
  pub number : p.pn < 2 ^ 62
  pub time : p.time_sent < 2 ^ 63

-- RFC 9002 6.1: three numbers below the largest acknowledged, or sent a loss delay ago.
unfoldable pub overdue : ℕ → ℕ → ℕ → Entry → Bool
overdue largest_acked now delay p = leb (p.pn + 3) largest_acked || leb (p.time_sent + delay) now

unfoldable pub give_up_if : ℕ → ℕ → ℕ → Entry → Entry
give_up_if largest_acked now delay p =
    if p.used && overdue largest_acked now delay p
    then record p { state = PacketState.lost; used = false }
    else p

unfoldable pub give_up : ℕ → ℕ → ℕ → List Entry → List Entry
give_up largest_acked now delay [] = []
give_up largest_acked now delay (p ∷ t) =
    give_up_if largest_acked now delay p ∷ give_up largest_acked now delay t

unfoldable pub overdue_count : ℕ → ℕ → ℕ → ℕ → List Entry → ℕ
overdue_count largest_acked now delay q [] = 0
overdue_count largest_acked now delay q (p ∷ t) =
    to_bit (p.used && (overdue largest_acked now delay p && (p.pn == q)))
    + overdue_count largest_acked now delay q t

past_threshold-overdue :
    (p : Entry) (largest_acked now delay : ℕ)
    → IsClean p
    → delay < 2 ^ 63
    → past_threshold p largest_acked now delay ≡ overdue largest_acked now delay p
unfolding past_threshold overdue
past_threshold-overdue p largest_acked now delay v h = ground (arith, v.number, v.time)

-- In a table whose used slots hold packets in flight, with numbers below 2^62 and send times below 2^63,
-- and with a loss delay below 2^63: loss detection frees exactly the packets that are three numbers below
-- the largest acknowledged or were sent a loss delay ago, leaves every other slot as it is, and reports
-- each of their numbers as often as it was in flight.
pub lossdrive_exact :
    (t : List Entry) (largest_acked now delay q : ℕ)
    → All IsClean t
    → delay < 2 ^ 63
    → ((lossdrive_on_ack t largest_acked now delay).0 ≡ give_up largest_acked now delay t)
      × (occurrences q (lossdrive_on_ack t largest_acked now delay).1
          ≡ overdue_count largest_acked now delay q t)
unfolding lossdrive_on_ack loss_detect drop_lost give_up give_up_if overdue_count occurrences
    is_lost_state is_inflight
lossdrive_exact [] largest_acked now delay q v h = (refl, refl)
lossdrive_exact (p ∷ t) largest_acked now delay q (vp, v) h = ground (
  arith,
  vp.in_flight,
  past_threshold-overdue p largest_acked now delay vp h,
  lossdrive_exact t largest_acked now delay q v h,
)
