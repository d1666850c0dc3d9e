-- ===== src/Frame/Ack/Written.antt =====
-- The varints that the ACK encoder writes.
use quic_vibe.Common.{
  ℕ, ◌-◌, ◌≤◌, ◌≡◌, refl, ◌⊎◌, inl, inr, List, [], ◌∷◌, ◌++◌, arith, ◌==◌, if◌then◌else◌,
  Bool-cases, Option-cases, length, get_or, All, ◌>>=◌,
}
use quic_vibe.Common.{drop}
use quic_vibe.Varint
use quic_vibe.Varint.{varint_max}
use quic_vibe.Frame.Wire.{IsVarint, put_all}
use quic_vibe.Frame.Ack.{
  AckRange, AckFrame, put_pair, ack_type, put_ack_meta, put_three, put_ack_ecn, put_ack_head,
  put_pairs, put_ack_pairs, ranges_ok, put_ack_pairs_ecn, put_ack_body, ack_encode,
}
use quic_vibe.Frame.Ack.Decoded.{IsBelow, IsDescending}

put_all-append :
    (cap : ℕ) (w vs us : List ℕ)
    → put_all cap w (vs ++ us) ≡ (do w' ← put_all cap w vs; put_all cap w' us)
unfolding put_all
put_all-append cap w [] us = refl
put_all-append cap w (v ∷ vs) us = elim (Option-cases (Varint.put cap w v)) [
  | inl n ↦ rw n refl
  | inr (w', e) ↦ rw e (put_all-append cap w' vs us)
]

-- The gaps and lengths of the ranges behind `prev`.
abbrev pub pairs : AckRange → List AckRange → List ℕ
pairs prev [] = []
pairs prev (cur ∷ rs) = (prev.lo - cur.hi - 2) ∷ ((cur.hi - cur.lo) ∷ pairs cur rs)

pub pairs_fit :
    (prev : AckRange) (rs : List AckRange)
    → prev.lo ≤ varint_max
    → IsBelow prev.lo rs
    → All IsVarint (pairs prev rs)
pairs_fit prev [] h b = tt
pairs_fit prev (cur ∷ rs) h (gap, ok, b) =
    (omega arith, (omega arith, pairs_fit cur rs (omega arith) b))

pub put_pairs-put_all :
    (cap : ℕ) (w : List ℕ) (prev : AckRange) (rs : List AckRange)
    → prev.lo ≤ varint_max
    → IsBelow prev.lo rs
    → put_pairs cap w prev rs ≡ put_all cap w (pairs prev rs)
unfolding put_pairs put_pair put_all
put_pairs-put_all cap w prev [] h b = refl
put_pairs-put_all cap w prev (cur ∷ rs) h (gap, ok, b) =
    let g = prev.lo - cur.hi - 2 in
    let l = cur.hi - cur.lo in
    elim (Option-cases (Varint.put cap w g)) [
      | inl n ↦ ground arith
      | inr (w', e) ↦ elim (Option-cases (Varint.put cap w' l)) [
        | inl n ↦ ground arith
        | inr (w'', e') ↦ ground (arith, put_pairs-put_all cap w'' cur rs (omega arith) b)
      ]
    ]

-- What the encoder is for: 1 to 32 descending ranges of numbers below 2^62, and the counts where the
-- frame says that it has them.
pub record IsAckFrame (f : AckFrame) : Type 0 where
  pub delay : IsVarint f.ack_delay
  pub some_range : 1 ≤ length f.ranges
  pub few_ranges : length f.ranges ≤ 32
  pub descending : IsDescending f.ranges
  pub counts :
      ((f.has_ecn ≡ 0) × (f.ect0 ≡ 0) × (f.ect1 ≡ 0) × (f.ce ≡ 0))
      ⊎ ((f.has_ecn ≡ 1) × IsVarint f.ect0 × IsVarint f.ect1 × IsVarint f.ce)

abbrev pub ecn_counts : AckFrame → List ℕ
ecn_counts f = if f.has_ecn == 0 then [] else f.ect0 ∷ f.ect1 ∷ f.ce ∷ []

-- The varints of an ACK frame behind its type.
abbrev pub ack_body : AckFrame → List ℕ
ack_body f =
    let r = get_or f.ranges 0 (record { hi = 0; lo = 0 }) in
    r.hi
    ∷ (f.ack_delay
        ∷ ((length f.ranges - 1) ∷ ((r.hi - r.lo) ∷ (pairs r (drop 1 f.ranges) ++ ecn_counts f))))

put_ecn-put_all :
    (cap : ℕ) (w : List ℕ) (f : AckFrame) → put_ack_ecn cap w f ≡ put_all cap w (ecn_counts f)
unfolding put_ack_ecn put_three put_all
put_ecn-put_all cap w f = elim (Bool-cases (f.has_ecn == 0)) [
  | inl e ↦ rw e refl
  | inr e ↦ rw e (ground arith)
]

abbrev head_of : AckFrame → AckRange → List AckRange → List ℕ
head_of f r rs = ack_type f ∷ (r.hi ∷ (f.ack_delay ∷ (length rs ∷ ((r.hi - r.lo) ∷ []))))

put_head-put_all :
    (cap : ℕ) (f : AckFrame) (r : AckRange) (rs : List AckRange)
    → length rs ≤ 31
    → IsDescending (r ∷ rs)
    → put_ack_head cap (record f { ranges = r ∷ rs })
      ≡ put_all cap [] (head_of (record f { ranges = r ∷ rs }) r rs)
unfolding put_ack_head put_ack_meta put_all
put_head-put_all cap f r rs few (ok, fits, b) = ground arith

pub put_ack-put_all :
    (cap : ℕ) (f : AckFrame) (r : AckRange) (rs : List AckRange)
    → length rs ≤ 31
    → IsDescending (r ∷ rs)
    → let g = record f { ranges = r ∷ rs } in
      ack_encode cap g ≡ put_all cap [] (ack_type g ∷ ack_body g)
unfolding ack_encode ranges_ok put_ack_body put_ack_pairs_ecn put_ack_pairs
put_ack-put_all cap f r rs few desc =
    let g = record f { ranges = r ∷ rs } in
    let head = head_of g r rs in
    let tail = pairs r rs ++ ecn_counts g in
    let split = put_all-append cap [] head tail in
    let wrote = put_head-put_all cap f r rs few desc in
    elim (Option-cases (put_all cap [] head)) [
      | inl n ↦ ground arith
      | inr (w, e) ↦
          let split' = put_all-append cap w (pairs r rs) (ecn_counts g) in
          let pairs_wrote = put_pairs-put_all cap w r rs (omega (arith, desc.1)) desc.2 in
          elim (Option-cases (put_all cap w (pairs r rs))) [
            | inl n ↦ ground arith
            | inr (w', e') ↦ ground (arith, put_ecn-put_all cap w' g)
          ]
    ]

pub ack_encode-put_all :
    (cap : ℕ) (f : AckFrame)
    → IsAckFrame f
    → ack_encode cap f ≡ put_all cap [] (ack_type f ∷ ack_body f)
ack_encode-put_all cap f = go f.ranges
  where
    go :
        (rs : List AckRange)
        → let g = record f { ranges = rs } in
          IsAckFrame g → ack_encode cap g ≡ put_all cap [] (ack_type g ∷ ack_body g)
    go [] h = absurd (omega (arith, h.some_range))
    go (r ∷ rs) h = put_ack-put_all cap f r rs (omega (arith, h.few_ranges)) h.descending
