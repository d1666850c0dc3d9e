-- ===== src/Recovery/Rtt.antt =====
-- Round-trip estimation and probe timeouts (src/transport/recovery/detect/recovery/rtt.c, pto.c,
-- rttsample.c, rttinit.c, rttvalid.c, losstimer.c, src/transport/recovery/detect/lossdrive/ptobackoff.c,
-- src/transport/recovery/detect/hspto). Times are in microseconds.
pub mod Estimate
pub mod Timeout
use quic_vibe.Common.{
  ℕ, zero, suc, ◌+◌, ◌-◌, ◌*◌, ◌/◌, ◌%◌, ◌^◌, ◌≤◌, ◌<◌, min, max, ◌≡◌, refl, sym, ap, ap₂, ◌∙◌, ◌≢◌,
  ◌↔◌, ◌⊎◌, inl, inr, Bool, true, false, not, ◌&&◌, ◌||◌, Option, none, some, List, [], ◌∷◌, ◌++◌,
  map, append-nil, append_assoc, arith, ltb, leb, ◌==◌, if◌then◌else◌, ltb→lt, lt→ltb, leb→le,
  le→leb, ==→eq, Bool-cases, Option-cases, to_bit, length, get_elem?, get_or, set, take, drop,
  replicate, All, length-append, length-set, length-take, length-drop, length-replicate,
  get_or-set_self, get_or-set_ne, take_append, drop_append, take-append-drop, All-append, ◌>>=◌,
  ◌>>◌, guard, >>=-eq-some,
}
use quic_vibe.Common.Word.{IsByte, IsU64, u8, u32, u64, ◌+ᵤ◌, ◌-ᵤ◌, ◌*ᵤ◌}

unfoldable pub u64_absdiff : ℕ → ℕ → ℕ
u64_absdiff a b = if ltb b a then a -ᵤ b else b -ᵤ a

-- quic_rtt; the flag `have_sample` is a Boolean
pub record Rtt : Type 0 where
  pub min_rtt : ℕ
  pub smoothed_rtt : ℕ
  pub rttvar : ℕ
  pub have_sample : Bool

abbrev pub initial_us : ℕ
initial_us = 333000

abbrev pub granularity_us : ℕ
granularity_us = 1000

unfoldable pub rtt_init : Rtt
rtt_init = record {
  min_rtt = 0;
  smoothed_rtt = initial_us;
  rttvar = initial_us / 2;
  have_sample = false;
}

unfoldable pub first_sample : Rtt → ℕ → Rtt
first_sample r latest = record {
  min_rtt = latest;
  smoothed_rtt = latest;
  rttvar = latest / 2;
  have_sample = true;
}

unfoldable pub adjust : Rtt → ℕ → ℕ → ℕ
adjust r latest ack_delay =
    if leb (r.min_rtt +ᵤ ack_delay) latest then latest -ᵤ ack_delay else latest

unfoldable pub next_sample : Rtt → ℕ → ℕ → Rtt
unfolding adjust u64_absdiff
next_sample r latest ack_delay =
    let adjusted = adjust r latest ack_delay in
    let var_sample = u64_absdiff r.smoothed_rtt adjusted in
    record r {
      min_rtt = min r.min_rtt latest;
      rttvar = (3 *ᵤ r.rttvar +ᵤ var_sample) / 4;
      smoothed_rtt = (7 *ᵤ r.smoothed_rtt +ᵤ adjusted) / 8;
    }

unfoldable pub sample : Rtt → ℕ → ℕ → Rtt
unfolding first_sample next_sample
sample r latest_rtt ack_delay =
    if not r.have_sample then first_sample r latest_rtt else next_sample r latest_rtt ack_delay

unfoldable pub rtt_pto : Rtt → ℕ → ℕ
rtt_pto r max_ack_delay =
    let var = max (4 *ᵤ r.rttvar) granularity_us in r.smoothed_rtt +ᵤ var +ᵤ max_ack_delay

unfoldable pub rtt_adjusted : ℕ → ℕ → ℕ → ℕ
rtt_adjusted latest_rtt min_rtt ack_delay =
    if leb (min_rtt +ᵤ ack_delay) latest_rtt then latest_rtt -ᵤ ack_delay else latest_rtt

unfoldable pub min_update : ℕ → ℕ → ℕ
min_update min_rtt latest_rtt = min min_rtt latest_rtt

unfoldable pub sample_time : ℕ → ℕ → ℕ
sample_time now sent_time = if leb sent_time now then now -ᵤ sent_time else 0

abbrev pub backoff_max : ℕ
backoff_max = 16

unfoldable pub pto_backoff : ℕ → ℕ
pto_backoff count = 2 ^ (if ltb count backoff_max then count else backoff_max)

unfoldable pub base_pto : ℕ → ℕ → ℕ → ℕ
base_pto srtt rttvar max_ack_delay =
    let var = max (4 *ᵤ rttvar) granularity_us in srtt +ᵤ var +ᵤ max_ack_delay

unfoldable pub pto_duration : ℕ → ℕ → ℕ → ℕ → ℕ
unfolding base_pto pto_backoff
pto_duration srtt rttvar max_ack_delay backoff_count =
    base_pto srtt rttvar max_ack_delay *ᵤ pto_backoff backoff_count

unfoldable pub lossdrive_pto : ℕ → ℕ → ℕ → ℕ → ℕ → ℕ
unfolding pto_backoff
lossdrive_pto smoothed_rtt rttvar max_ack_delay pto_count granularity =
    let var = max (4 *ᵤ rttvar) granularity in
    let base = smoothed_rtt +ᵤ var +ᵤ max_ack_delay in base *ᵤ pto_backoff pto_count

unfoldable pub ack_delay_term : Bool → ℕ → ℕ
ack_delay_term handshake_confirmed max_ack_delay = if handshake_confirmed then max_ack_delay else 0

unfoldable pub hspto_duration : ℕ → ℕ → ℕ → ℕ → Bool → ℕ → ℕ
unfolding ack_delay_term pto_backoff
hspto_duration srtt rttvar pto_count granularity handshake_confirmed max_ack_delay =
    let var = max (4 *ᵤ rttvar) granularity in
    let base = srtt +ᵤ var +ᵤ ack_delay_term handshake_confirmed max_ack_delay in
    base *ᵤ pto_backoff pto_count

unfoldable pub losstimer_next : ℕ → ℕ → Bool → ℕ
losstimer_next loss_time pto_time has_loss_time =
    if has_loss_time && ltb loss_time pto_time then loss_time else pto_time
