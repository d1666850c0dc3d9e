-- ===== src/Recovery/Congestion.antt =====
-- The congestion controller (src/transport/recovery/congestion/cc/cc.c) and the functions beside it
-- (ccloss.c, ccphase.c, cwndcheck.c, ecn.c, pacing.c, persistent.c there, and
-- src/transport/recovery/congestion/cwndctl/cwndctl.c). The flag `in_recovery` is a Boolean.
pub mod Window
use quic_vibe.Common.{
  ℕ, zero, suc, ◌+◌, ◌-◌, ◌*◌, ◌/◌, ◌%◌, ◌^◌, ◌≤◌, ◌<◌, min, max, ◌≡◌, refl, sym, ap, ap₂, ◌∙◌, ◌≢◌,
  ◌↔◌, ◌⊎◌, inl, inr, Bool, true, false, not, ◌&&◌, ◌||◌, Option, none, some, List, [], ◌∷◌, ◌++◌,
  map, append-nil, append_assoc, arith, ltb, leb, ◌==◌, if◌then◌else◌, ltb→lt, lt→ltb, leb→le,
  le→leb, ==→eq, Bool-cases, Option-cases, to_bit, length, get_elem?, get_or, set, take, drop,
  replicate, All, length-append, length-set, length-take, length-drop, length-replicate,
  get_or-set_self, get_or-set_ne, take_append, drop_append, take-append-drop, All-append, ◌>>=◌,
  ◌>>◌, guard, >>=-eq-some,
}
use quic_vibe.Common.Word.{IsByte, IsU64, u8, u32, u64, ◌+ᵤ◌, ◌-ᵤ◌, ◌*ᵤ◌}

abbrev pub max_datagram : ℕ
max_datagram = 1200

abbrev pub min_window : ℕ
min_window = 2 * max_datagram

abbrev pub init_window : ℕ
init_window = 10 * max_datagram

-- quic_cc
pub record Cc : Type 0 where
  pub cwnd : ℕ
  pub ssthresh : ℕ
  pub in_recovery : Bool
  pub recovery_start : ℕ

unfoldable pub cc_init : Cc
cc_init = record {
  cwnd = init_window;
  ssthresh = 2 ^ 64 - 1;
  in_recovery = false;
  recovery_start = 0;
}

unfoldable pub grow : Cc → ℕ → Cc
grow c acked =
    let inc = if ltb c.cwnd c.ssthresh then acked else (max_datagram *ᵤ acked) / c.cwnd in
    record c { cwnd = c.cwnd +ᵤ inc }

unfoldable pub maybe_exit_recovery : Cc → ℕ → Cc
maybe_exit_recovery c sent_time =
    if c.in_recovery && ltb c.recovery_start sent_time then record c { in_recovery = false } else c

unfoldable pub on_ack : Cc → ℕ → ℕ → Cc
unfolding grow maybe_exit_recovery
on_ack c acked sent_time =
    let c' = maybe_exit_recovery c sent_time in if c'.in_recovery then c' else grow c' acked

unfoldable pub on_loss : Cc → ℕ → ℕ → Cc
on_loss c sent_time now =
    if c.in_recovery || ltb sent_time c.recovery_start
    then c
    else let half = max (c.cwnd / 2) min_window in
      record { cwnd = half; ssthresh = half; in_recovery = true; recovery_start = now }

unfoldable pub on_persistent : Cc → Cc
on_persistent c = record c { cwnd = min_window }

unfoldable pub on_loss_ssthresh : ℕ → ℕ
on_loss_ssthresh cwnd = cwnd / 2

unfoldable pub on_loss_cwnd : ℕ → ℕ → ℕ
on_loss_cwnd cwnd max_datagram = max (cwnd / 2) (2 *ᵤ max_datagram)

unfoldable pub in_recovery_period : ℕ → ℕ → Bool
in_recovery_period sent_time recovery_start = leb sent_time recovery_start

unfoldable pub in_slow_start : ℕ → ℕ → Bool
in_slow_start cwnd ssthresh = ltb cwnd ssthresh

unfoldable pub slow_start_inc : ℕ → ℕ
slow_start_inc acked = acked

-- Only called with a window above 0.
unfoldable pub avoid_inc : ℕ → ℕ → ℕ → ℕ
avoid_inc max_datagram acked cwnd = (max_datagram *ᵤ acked) / cwnd

unfoldable pub cwnd_can_send : ℕ → ℕ → ℕ → Bool
cwnd_can_send in_flight cwnd size = leb (in_flight +ᵤ size) cwnd

unfoldable pub cwnd_app_limited : ℕ → ℕ → Bool
cwnd_app_limited in_flight cwnd = ltb in_flight cwnd

unfoldable pub ecn_ce_increased : ℕ → ℕ → Bool
ecn_ce_increased prev_ce new_ce = ltb prev_ce new_ce

unfoldable pub ecn_counts_valid : ℕ → ℕ → ℕ → ℕ → Bool
ecn_counts_valid prev_ce new_ce prev_ect0 new_ect0 = leb prev_ce new_ce && leb prev_ect0 new_ect0

unfoldable pub pacing_interval : ℕ → ℕ → ℕ → ℕ
pacing_interval srtt cwnd packet_size =
    if cwnd == 0 then 0 else (5 *ᵤ packet_size *ᵤ srtt) / (4 *ᵤ cwnd)

unfoldable pub persistent : ℕ → ℕ → Bool
persistent loss_period pto = leb (3 *ᵤ pto) loss_period

unfoldable pub persistent_cwnd : ℕ → ℕ
persistent_cwnd max_datagram = 2 *ᵤ max_datagram

unfoldable pub cwndctl_can_send : ℕ → ℕ → ℕ → Bool
unfolding cwnd_can_send
cwndctl_can_send bytes_in_flight cwnd next_packet_size =
    cwnd_can_send bytes_in_flight cwnd next_packet_size

unfoldable pub cwndctl_pacing_interval : ℕ → ℕ → ℕ → ℕ
unfolding pacing_interval
cwndctl_pacing_interval smoothed_rtt cwnd mtu = pacing_interval smoothed_rtt cwnd mtu
