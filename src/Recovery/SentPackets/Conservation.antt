-- ===== src/Recovery/SentPackets/Conservation.antt =====
-- Packets are conserved: each one sent is tracked until it is reported, once.
use quic_vibe.Common.{
  ℕ, suc, ◌+◌, ◌≤◌, ◌<◌, ◌≡◌, refl, Bool, true, not, ◌&&◌, ◌||◌, List, [], ◌∷◌, arith, to_bit,
  length, set, length-append,
}
use quic_vibe.Common.Word.{◌-ᵤ◌}
use quic_vibe.Recovery.SentPackets.{
  PacketState, is_inflight, is_lost_state, Entry, free_slot, on_send, count, sentpkt_init,
  slot_in_range, ack_range, ranges_loop, ack_process, loss_detect, drop_lost, lossdrive_on_ack,
}

-- Every used slot holds a packet in flight.
unfoldable pub orderly : List Entry → Bool
orderly [] = true
orderly (p ∷ t) = (not p.used || is_inflight p.state) && orderly t

ack_range_count :
    (t : List Entry) (lo hi : ℕ)
    → count (ack_range t lo hi).0 + length (ack_range t lo hi).1 ≡ count t
unfolding ack_range count slot_in_range
ack_range_count [] lo hi = refl
ack_range_count (p ∷ t) lo hi = ground (arith, ack_range_count t lo hi)

ack_range-orderly :
    (t : List Entry) (lo hi : ℕ) → orderly t ≡ true → orderly (ack_range t lo hi).0 ≡ true
unfolding ack_range slot_in_range orderly
ack_range-orderly [] lo hi v = refl
ack_range-orderly (p ∷ t) lo hi v = ground (arith, ack_range-orderly t lo hi)

ranges_loop_lem :
    (rest : List ℕ) (t : List Entry) (lo : ℕ)
    → (count (ranges_loop t lo rest).0 + length (ranges_loop t lo rest).1 ≡ count t)
      × (orderly t ≡ true → orderly (ranges_loop t lo rest).0 ≡ true)
unfolding ranges_loop
ranges_loop_lem [] t lo = (omega arith, λ v. v)
ranges_loop_lem (gap ∷ []) t lo = (omega arith, λ v. v)
ranges_loop_lem (gap ∷ (len ∷ rest)) t lo =
    let hi = lo -ᵤ gap -ᵤ 2 in
    let lo' = hi -ᵤ len in
    let r = ack_range t lo' hi in
    let (e, o) = ranges_loop_lem rest r.0 lo' in
    (
      omega (arith, e, ack_range_count t lo' hi, length-append r.1 (ranges_loop r.0 lo' rest).1),
      λ v. o (ack_range-orderly t lo' hi v),
    )

ack_process_lem :
    (t : List Entry) (largest : ℕ) (ranges : List ℕ)
    → (count (ack_process t largest ranges).0 + length (ack_process t largest ranges).1 ≡ count t)
      × (orderly t ≡ true → orderly (ack_process t largest ranges).0 ≡ true)
unfolding ack_process
ack_process_lem t largest [] = (omega arith, λ v. v)
ack_process_lem t largest (first ∷ rest) =
    let lo = largest -ᵤ first in
    let r = ack_range t lo largest in
    let (e, o) = ranges_loop_lem rest r.0 lo in
    (
      omega (arith, e, ack_range_count t lo largest, length-append r.1 (ranges_loop r.0 lo rest).1),
      λ v. o (ack_range-orderly t lo largest v),
    )

loss_count :
    (t : List Entry) (largest now delay : ℕ)
    → orderly t ≡ true
    → count (lossdrive_on_ack t largest now delay).0
        + length (lossdrive_on_ack t largest now delay).1
      ≡ count t
unfolding lossdrive_on_ack loss_detect drop_lost count orderly is_lost_state is_inflight
loss_count [] largest now delay v = refl
loss_count (p ∷ t) largest now delay v = ground (arith, loss_count t largest now delay)

loss_orderly :
    (t : List Entry) (largest now delay : ℕ)
    → orderly t ≡ true
    → orderly (lossdrive_on_ack t largest now delay).0 ≡ true
unfolding lossdrive_on_ack loss_detect drop_lost orderly is_lost_state is_inflight
loss_orderly [] largest now delay v = refl
loss_orderly (p ∷ t) largest now delay v = ground (arith, loss_orderly t largest now delay)

-- Storing a packet in flight in the first free slot.
store_lem :
    (t : List Entry) (p : Entry)
    → p.used ≡ true
    → is_inflight p.state ≡ true
    → free_slot t < length t
    → (count (set t (free_slot t) p) ≡ suc (count t))
      × (orderly t ≡ true → orderly (set t (free_slot t) p) ≡ true)
unfolding count free_slot orderly
store_lem [] p u f h = absurd (omega arith)
store_lem (x ∷ t) p u f h = grind (arith, store_lem t p u f)

free_slot-le : (t : List Entry) → free_slot t ≤ length t
unfolding free_slot
free_slot-le [] = omega arith
free_slot-le (x ∷ t) = ground (arith, free_slot-le t)

on_send_lem :
    (t : List Entry) (pn time : ℕ) (eliciting : Bool) (size : ℕ)
    → (count (on_send t pn time eliciting size).0
        ≡ to_bit (on_send t pn time eliciting size).1 + count t)
      × (orderly t ≡ true → orderly (on_send t pn time eliciting size).0 ≡ true)
unfolding on_send is_inflight
on_send_lem t pn time eliciting size =
    let p : Entry = record {
      pn = pn;
      time_sent = time;
      size = size;
      ack_eliciting = eliciting;
      state = PacketState.inflight;
      used = true;
    } in
    grind (arith, store_lem t p refl, free_slot-le t)

-- The calls on a table.
pub data Call : Type 0 where
  send : (pn time : ℕ) → Bool → (size : ℕ) → Call
  acknowledge : (largest : ℕ) → List ℕ → Call
  lose : (largest now delay : ℕ) → Call

-- The table, the packets accepted for sending, and the packets reported as acknowledged or lost.
abbrev pub handle : List Entry → Call → List Entry × (ℕ × ℕ)
handle t (send pn time eliciting size) =
    let (t', accepted) = on_send t pn time eliciting size in (t', (to_bit accepted, 0))
handle t (acknowledge largest ranges) =
    let (t', out) = ack_process t largest ranges in (t', (0, length out))
handle t (lose largest now delay) =
    let (t', out) = lossdrive_on_ack t largest now delay in (t', (0, length out))

unfoldable pub run : List Entry → List Call → List Entry × (ℕ × ℕ)
run t [] = (t, (0, 0))
run t (c ∷ cs) =
    let (t', (sent, reported)) = handle t c in
    let (end, (more, rest)) = run t' cs in (end, (sent + more, reported + rest))

handle_lem :
    (t : List Entry) (c : Call)
    → orderly t ≡ true
    → (orderly (handle t c).0 ≡ true)
      × (count (handle t c).0 + (handle t c).1.1 ≡ count t + (handle t c).1.0)
handle_lem t (send pn time eliciting size) v =
    let (e, o) = on_send_lem t pn time eliciting size in (o v, omega (arith, e))
handle_lem t (acknowledge largest ranges) v =
    let (e, o) = ack_process_lem t largest ranges in (o v, omega (arith, e))
handle_lem t (lose largest now delay) v =
    (loss_orderly t largest now delay v, omega (arith, loss_count t largest now delay v))

run_lem :
    (cs : List Call) (t : List Entry)
    → orderly t ≡ true
    → (orderly (run t cs).0 ≡ true)
      × (count (run t cs).0 + (run t cs).1.1 ≡ count t + (run t cs).1.0)
unfolding run
run_lem [] t v = (v, omega arith)
run_lem (c ∷ cs) t v =
    let (o, e) = handle_lem t c v in
    let (o', e') = run_lem cs (handle t c).0 o in (o', omega (arith, e, e'))

init_lem : (t : List Entry) → (orderly (sentpkt_init t) ≡ true) × (count (sentpkt_init t) ≡ 0)
unfolding orderly count sentpkt_init
init_lem [] = (refl, refl)
init_lem (p ∷ t) = ground (arith, init_lem t)

-- From a fresh table, over any sequence of sends, ACKs and loss scans in whatever order and with
-- whatever ranges, the packets tracked and the packets reported as acknowledged or lost are together
-- as many as the packets that were accepted for sending, and every tracked packet is in flight.
pub conservation :
    (t : List Entry) (cs : List Call)
    → (orderly (run (sentpkt_init t) cs).0 ≡ true)
      × (count (run (sentpkt_init t) cs).0 + (run (sentpkt_init t) cs).1.1
          ≡ (run (sentpkt_init t) cs).1.0)
conservation t cs =
    let (o, z) = init_lem t in
    let (o', e) = run_lem cs (sentpkt_init t) o in (o', omega (arith, e, z))
