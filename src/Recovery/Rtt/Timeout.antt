-- ===== src/Recovery/Rtt/Timeout.antt =====
-- The probe timeout.
use quic_vibe.Common.{
  ℕ, suc, ◌*◌, ◌^◌, ◌≤◌, ◌<◌, ◌≡◌, refl, inl, inr, Bool, arith, ltb, if◌then◌else◌, Bool-cases,
}
use quic_vibe.Common.Word.{◌*ᵤ◌}
use native.Mathlib.Nat.{pow-suc, one-le-pow, mul-le-mul, pow-le-pow_right}
use quic_vibe.Recovery.Rtt.{
  Rtt, rtt_pto, granularity_us, pto_backoff, base_pto, pto_duration, lossdrive_pto, hspto_duration,
}

-- The functions that compute a probe timeout agree: that of the estimator, scaled by the backoff,
-- that of loss detection at a granularity of one millisecond, and that of the handshake, which leaves
-- out the delay of the peer until the handshake is confirmed.
pub timeouts_agree :
    (r : Rtt) (max_ack_delay count : ℕ) (confirmed : Bool)
    → (pto_duration r.smoothed_rtt r.rttvar max_ack_delay count
        ≡ rtt_pto r max_ack_delay *ᵤ pto_backoff count)
      × (lossdrive_pto r.smoothed_rtt r.rttvar max_ack_delay count granularity_us
          ≡ pto_duration r.smoothed_rtt r.rttvar max_ack_delay count)
      × (hspto_duration r.smoothed_rtt r.rttvar count granularity_us confirmed max_ack_delay
          ≡ pto_duration r.smoothed_rtt r.rttvar (if confirmed then max_ack_delay else 0) count)
unfolding pto_duration rtt_pto lossdrive_pto hspto_duration
timeouts_agree r max_ack_delay count confirmed = (refl, refl, refl)

-- The factor: a power of two up to 2^16.
backoff_lem :
    (count : ℕ)
    → (1 ≤ pto_backoff count)
      × (pto_backoff count ≤ 2 ^ 16)
      × (pto_backoff (suc count) ≡ (if ltb count 16 then 2 else 1) * pto_backoff count)
unfolding pto_backoff
backoff_lem count = elim (Bool-cases (ltb count 16)) [
  | inl below ↦
      let le : 2 ^ count ≤ 2 ^ 16 =
        pow-le-pow_right {n = 2} (omega arith) {j = 16} (ground arith) in
      (ground (arith, one-le-pow count 2), ground arith, ground (arith, pow-suc 2 count))
  | inr above ↦ (ground arith, ground arith, ground arith)
]

swap_lem : (a k b : ℕ) → a * (k * b) ≡ k * (a * b)
swap_lem a k b = grind arith

-- A base that is not too long is scaled without wrapping.
scale : (base factor : ℕ) → base < 2 ^ 43 → factor ≤ 2 ^ 17 → base *ᵤ factor ≡ base * factor
scale base factor h h' =
    let small : base * factor ≤ 2 ^ 43 * 2 ^ 17 = mul-le-mul {n₂ = 2 ^ 43} (omega arith) h' in
    omega arith

-- For estimates and a peer's delay below 2^40 microseconds nothing wraps: the timeout is never under a
-- millisecond, it doubles with each of the first sixteen timeouts in a row, and then stays as it is.
pub timeout_doubles :
    (srtt rttvar max_ack_delay count : ℕ)
    → srtt < 2 ^ 40
    → rttvar < 2 ^ 40
    → max_ack_delay < 2 ^ 40
    → (1000 ≤ pto_duration srtt rttvar max_ack_delay count)
      × (pto_duration srtt rttvar max_ack_delay (suc count)
          ≡ (if ltb count 16 then 2 else 1) * pto_duration srtt rttvar max_ack_delay count)
timeout_doubles srtt rttvar max_ack_delay count h₁ h₂ h₃ =
    let base = base_pto srtt rttvar max_ack_delay in
    let (long, short) : (1000 ≤ base) × (base < 2 ^ 43) =
      unfold base_pto in (ground arith, ground arith) in
    let (lo, hi, next) = backoff_lem count in
    let (lo', hi', _) = backoff_lem (suc count) in
    let e : pto_duration srtt rttvar max_ack_delay count ≡ base * pto_backoff count =
      unfold pto_duration in scale base (pto_backoff count) short (omega arith) in
    let e' : pto_duration srtt rttvar max_ack_delay (suc count) ≡ base * pto_backoff (suc count) =
      unfold pto_duration in scale base (pto_backoff (suc count)) short (omega arith) in
    let least : 1000 * 1 ≤ base * pto_backoff count = mul-le-mul long lo in
    (
      omega arith,
      rw (e', e, next) (swap_lem base (if ltb count 16 then 2 else 1) (pto_backoff count)),
    )
