-- ===== src/Recovery/AckPolicy.antt =====
-- When an ACK is due (src/transport/recovery/detect/recovery/ackpolicy.c, and ackgen.c and ackfreq.c
-- of src/transport/recovery/detect/ackgen), and which space a probe goes to
-- (src/transport/recovery/detect/hspto: arm.c, probe_space.c). Truth values are Booleans.
use quic_vibe.Common.{
  ℕ, suc, ◌+◌, ◌-◌, ◌^◌, ◌≤◌, ◌<◌, ◌≡◌, refl, ◌↔◌, ◌⊎◌, Bool, true, false, not, ◌&&◌, ◌||◌, List,
  [], ◌∷◌, arith, ltb, leb, ◌==◌, if◌then◌else◌, length,
}
use quic_vibe.Common.Word.{◌+ᵤ◌, ◌-ᵤ◌}

-- quic_ackpolicy
pub record AckPolicy : Type 0 where
  pub pending : ℕ
  pub since_tick : ℕ

unfoldable pub policy_init : AckPolicy
policy_init = record { pending = 0; since_tick = 0 }

unfoldable pub on_eliciting : AckPolicy → ℕ → AckPolicy
on_eliciting p tick = record {
  pending = p.pending +ᵤ 1;
  since_tick = if p.pending == 0 then tick else p.since_tick;
}

unfoldable pub delay_elapsed : AckPolicy → ℕ → ℕ → Bool
delay_elapsed p now max_ack_delay = leb max_ack_delay (now -ᵤ p.since_tick)

unfoldable pub should_ack : AckPolicy → ℕ → ℕ → Bool
unfolding delay_elapsed
should_ack p now max_ack_delay =
    if p.pending == 0
    then false
    else if leb 2 p.pending
    then true
    else delay_elapsed p now max_ack_delay

unfoldable pub on_ack_sent : AckPolicy → AckPolicy
on_ack_sent p = record p { pending = 0 }

unfoldable pub delay_due : ℕ → ℕ → Bool
delay_due since_last_ack max_ack_delay = leb max_ack_delay since_last_ack

unfoldable pub ackgen_should_ack : Bool → Bool → ℕ → ℕ → Bool
unfolding delay_due
ackgen_should_ack received pending since_last_ack max_ack_delay =
    if not (received || pending)
    then false
    else if received && pending
    then true
    else delay_due since_last_ack max_ack_delay

unfoldable pub ackgen_due : ℕ → ℕ → ℕ → Bool
ackgen_due unacked_eliciting elapsed max_ack_delay =
    if unacked_eliciting == 0
    then false
    else if leb 2 unacked_eliciting
    then true
    else leb max_ack_delay elapsed

unfoldable pub handshake_armable : Bool → Bool → Bool
handshake_armable handshake_inflight has_handshake_keys = handshake_inflight && has_handshake_keys

unfoldable pub should_arm : Bool → Bool → Bool → Bool → Bool
unfolding handshake_armable
should_arm initial_inflight handshake_inflight handshake_confirmed has_handshake_keys =
    initial_inflight || handshake_armable handshake_inflight has_handshake_keys

-- The spaces that a probe may go to.
pub data ProbeSpace : Type 0 where
  space_initial space_handshake space_application : ProbeSpace

unfoldable pub early_space : Bool → Bool → ProbeSpace
early_space initial_inflight handshake_inflight =
    if initial_inflight
    then ProbeSpace.space_initial
    else if handshake_inflight
    then ProbeSpace.space_handshake
    else ProbeSpace.space_application

unfoldable pub probe_space : Bool → Bool → Bool → ProbeSpace
unfolding early_space
probe_space initial_inflight handshake_inflight handshake_confirmed =
    if handshake_confirmed
    then ProbeSpace.space_application
    else early_space initial_inflight handshake_inflight

-- The packets that elicited an ACK since the last one, at their times.
unfoldable pub receive : AckPolicy → List ℕ → AckPolicy
receive p [] = p
receive p (tick ∷ ts) = receive (on_eliciting p tick) ts

receive_lem :
    (ts : List ℕ) (p : AckPolicy)
    → p.pending + length ts < 2 ^ 32
    → (0 < p.pending)
    → ((receive p ts).pending ≡ p.pending + length ts) × ((receive p ts).since_tick ≡ p.since_tick)
unfolding receive on_eliciting
receive_lem [] p h h' = (omega arith, refl)
receive_lem (t ∷ ts) p h h' = ground (
  arith,
  receive_lem ts (record { pending = p.pending +ᵤ 1; since_tick = p.since_tick }) (omega arith)
      (omega arith),
)

-- After an ACK was sent and packets have come at a first time and then others, fewer than 2^32 in all,
-- an ACK is due exactly if there were two of them, or the delay has passed since the first, and the
-- two functions on counts agree with the policy.
ack_due :
    (p : AckPolicy) (first now max_ack_delay : ℕ) (others : List ℕ)
    → first ≤ now
    → now < 2 ^ 64
    → suc (length others) < 2 ^ 32
    → let q = receive (on_ack_sent p) (first ∷ others) in
      ((should_ack q now max_ack_delay ≡ true)
        ↔ ((1 ≤ length others) ⊎ (first + max_ack_delay ≤ now)))
      × (should_ack q now max_ack_delay
          ≡ ackgen_due (suc (length others)) (now - first) max_ack_delay)
      × (should_ack q now max_ack_delay
          ≡ ackgen_should_ack true (ltb 0 (length others)) (now - first) max_ack_delay)
ack_due p first now max_ack_delay others h w n =
    let q : AckPolicy = record { pending = 1; since_tick = first } in
    let start : receive (on_ack_sent p) (first ∷ others) ≡ receive q others =
      unfold receive on_eliciting on_ack_sent in refl in
    let (count, since) = receive_lem others q (omega arith) (omega arith) in
    rw start (
      unfold should_ack ackgen_due ackgen_should_ack in
      (((λ e. ground arith), (λ e. ground arith)), ground arith, ground arith))
