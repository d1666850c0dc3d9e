-- ===== src/Recovery/Congestion/Window.antt =====
-- The congestion window over the life of a connection.
use quic_vibe.Common.{
  ℕ, ◌+◌, ◌*◌, ◌/◌, ◌^◌, ◌≤◌, ◌<◌, max, ◌≡◌, refl, false, List, [], ◌∷◌, arith, if◌then◌else◌,
}
use quic_vibe.Common.Word.{◌+ᵤ◌, ◌*ᵤ◌}
use native.Mathlib.Nat.{div-le_of_le-mul, mul-le-mul_right}
use quic_vibe.Recovery.Congestion.{
  Cc, cc_init, grow, on_ack, on_loss, on_persistent, min_window, init_window, on_loss_ssthresh,
  on_loss_cwnd, in_slow_start, slow_start_inc, avoid_inc, max_datagram, persistent_cwnd,
}

-- What the controller hears: bytes acknowledged of a packet sent at a time, a packet sent at a time
-- that is found lost now, and persistent congestion.
pub data Event : Type 0 where
  ack : (acked sent_time : ℕ) → Event
  loss : (sent_time now : ℕ) → Event
  persistent : Event

abbrev pub handle : Cc → Event → Cc
handle c (ack acked sent_time) = on_ack c acked sent_time
handle c (loss sent_time now) = on_loss c sent_time now
handle c persistent = on_persistent c

unfoldable pub run : Cc → List Event → Cc
run c [] = c
run c (e ∷ es) = run (handle c e) es

abbrev pub acked_bytes : Event → ℕ
acked_bytes (ack acked sent_time) = acked
acked_bytes (loss sent_time now) = 0
acked_bytes persistent = 0

abbrev pub total_acked : List Event → ℕ
total_acked [] = 0
total_acked (e ∷ es) = acked_bytes e + total_acked es

avoid_small : (acked cwnd : ℕ) → 2400 ≤ cwnd → acked < 2 ^ 50 → (1200 *ᵤ acked) / cwnd ≤ acked
avoid_small acked cwnd h small =
    let whole : 1200 *ᵤ acked ≡ 1200 * acked = omega arith in
    rw whole (div-le_of_le-mul cwnd (mul-le-mul_right acked (omega arith)))

handle_bounds :
    (c : Cc) (e : Event)
    → min_window ≤ c.cwnd
    → c.cwnd + acked_bytes e < 2 ^ 50
    → (min_window ≤ (handle c e).cwnd) × ((handle c e).cwnd ≤ c.cwnd + acked_bytes e)
unfolding on_ack on_loss on_persistent
handle_bounds c (ack acked sent_time) lo hi =
    ground (arith, avoid_small acked c.cwnd lo (omega arith))
handle_bounds c (loss sent_time now) lo hi = ground arith
handle_bounds c persistent lo hi = ground arith

run_bounds :
    (es : List Event) (c : Cc)
    → min_window ≤ c.cwnd
    → c.cwnd + total_acked es < 2 ^ 50
    → (min_window ≤ (run c es).cwnd) × ((run c es).cwnd ≤ c.cwnd + total_acked es)
unfolding run
run_bounds [] c lo hi = (lo, omega arith)
run_bounds (e ∷ es) c lo hi =
    let (l, h) = handle_bounds c e lo (omega arith) in
    let (l', h') = run_bounds es (handle c e) l (omega (arith, h)) in (l', omega (arith, h, h'))

-- Over any events that acknowledge less than 2^49 bytes together, the window stays at two datagrams or
-- more, and at the initial window and the bytes acknowledged at most.
pub window_bounds :
    (es : List Event)
    → total_acked es < 2 ^ 49
    → (min_window ≤ (run cc_init es).cwnd) × ((run cc_init es).cwnd ≤ init_window + total_acked es)
unfolding cc_init
window_bounds es h = run_bounds es cc_init (omega arith) (omega arith)

-- What belongs to a recovery period that began at `start`.
abbrev pub IsOfPeriod : ℕ → Event → Type 0
IsOfPeriod start (ack acked sent_time) = sent_time ≤ start
IsOfPeriod start (loss sent_time now) = Unit
IsOfPeriod start persistent = ⊥

-- The controller and the functions that state its rules one by one agree: growth in slow start and in
-- congestion avoidance, the window and the threshold after a loss outside recovery of a packet sent
-- since the last period began, and the window after persistent congestion.
pub rules_agree :
    (c : Cc) (acked sent_time now : ℕ)
    → c.in_recovery ≡ false
    → c.recovery_start ≤ sent_time
    → ((grow c acked).cwnd
        ≡ c.cwnd
          +ᵤ (if in_slow_start c.cwnd c.ssthresh
              then slow_start_inc acked
              else avoid_inc max_datagram acked c.cwnd))
      × ((on_loss c sent_time now).cwnd ≡ on_loss_cwnd c.cwnd max_datagram)
      × ((on_loss c sent_time now).ssthresh
          ≡ max (on_loss_ssthresh c.cwnd) (persistent_cwnd max_datagram))
      × ((on_persistent c).cwnd ≡ persistent_cwnd max_datagram)
unfolding grow on_loss on_persistent in_slow_start slow_start_inc avoid_inc on_loss_cwnd
    on_loss_ssthresh persistent_cwnd
rules_agree c acked sent_time now r h = (refl, ground arith, ground arith, refl)
