-- ===== src/Recovery/Rtt/Estimate.antt =====
-- What the estimator has learned after any samples.
use quic_vibe.Common.{ℕ, ◌^◌, ◌≤◌, ◌<◌, min, ◌≡◌, refl, ap, ◌∙◌, true, List, [], ◌∷◌, arith}
use quic_vibe.Recovery.Rtt.{Rtt, rtt_init, sample, first_sample, next_sample, adjust, u64_absdiff}

-- A sample: the latest round trip, and the delay that the peer reports.
unfoldable pub run : Rtt → List (ℕ × ℕ) → Rtt
run r [] = r
run r ((latest, ack_delay) ∷ rest) = run (sample r latest ack_delay) rest

-- Samples up to `bound`, with delays that do not wrap.
abbrev pub AreSamples : ℕ → List (ℕ × ℕ) → Type 0
AreSamples bound [] = Unit
AreSamples bound ((latest, ack_delay) ∷ rest) =
    ((latest ≤ bound) × (ack_delay < 2 ^ 62)) × AreSamples bound rest

unfoldable pub least : ℕ → List (ℕ × ℕ) → ℕ
least m [] = m
least m ((latest, ack_delay) ∷ rest) = least (min m latest) rest

pub record IsEstimate (bound : ℕ) (r : Rtt) : Type 0 where
  pub sampled : r.have_sample ≡ true
  pub low : r.min_rtt ≤ r.smoothed_rtt
  pub high : r.smoothed_rtt ≤ bound
  pub spread : r.rttvar ≤ bound

sample-IsEstimate :
    (bound : ℕ) (r : Rtt) (latest ack_delay : ℕ)
    → bound < 2 ^ 60
    → latest ≤ bound
    → ack_delay < 2 ^ 62
    → IsEstimate bound r
    → IsEstimate bound (sample r latest ack_delay)
      × ((sample r latest ack_delay).min_rtt ≡ min r.min_rtt latest)
unfolding sample next_sample adjust u64_absdiff
sample-IsEstimate bound r latest ack_delay small h d v = ground arith

run-IsEstimate :
    (bound : ℕ) (xs : List (ℕ × ℕ)) (r : Rtt)
    → bound < 2 ^ 60
    → AreSamples bound xs
    → IsEstimate bound r
    → IsEstimate bound (run r xs) × ((run r xs).min_rtt ≡ least r.min_rtt xs)
unfolding run least
run-IsEstimate bound [] r small h v = (v, refl)
run-IsEstimate bound ((latest, ack_delay) ∷ rest) r small ((h, d), hs) v =
    let (v', m) = sample-IsEstimate bound r latest ack_delay small h d v in
    let (end, e) = run-IsEstimate bound rest (sample r latest ack_delay) small hs v' in
    (end, e ∙ ap (λ k. least k rest) m)

-- After one sample or more, none of them above some bound below 2^60 microseconds, with ACK delays
-- below 2^62 microseconds, the least round trip is the least of the samples, the smoothed one lies between it and the bound, and the variation
-- is within the bound too.
pub IsEstimate-bounds :
    (bound latest ack_delay : ℕ) (rest : List (ℕ × ℕ))
    → bound < 2 ^ 60
    → AreSamples bound ((latest, ack_delay) ∷ rest)
    → IsEstimate bound (run rtt_init ((latest, ack_delay) ∷ rest))
      × ((run rtt_init ((latest, ack_delay) ∷ rest)).min_rtt ≡ least latest rest)
unfolding run
IsEstimate-bounds bound latest ack_delay rest small ((h, d), hs) =
    let r = sample rtt_init latest ack_delay in
    let seeded : IsEstimate bound r × (r.min_rtt ≡ latest) =
      unfold sample first_sample rtt_init in ground arith in
    let (end, e) = run-IsEstimate bound rest r small hs seeded.0 in
    (end, e ∙ ap (λ k. least k rest) seeded.1)
