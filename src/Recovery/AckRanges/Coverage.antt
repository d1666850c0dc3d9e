-- ===== src/Recovery/AckRanges/Coverage.antt =====
-- Which packet numbers the ranges built cover, and the room that they need.
use quic_vibe.Common.{
  ℕ, zero, suc, ◌+◌, ◌-◌, ◌*◌, ◌^◌, ◌≤◌, ◌<◌, ◌≡◌, refl, sym, ap, ◌∙◌, inl, inr, Bool, true, false,
  ◌||◌, Option, none, some, List, [], ◌∷◌, ◌++◌, append_assoc, arith, leb, ◌==◌, if◌then◌else◌,
  ==→eq, Bool-cases, length, get_or, length-append, ◌>>=◌,
}
use quic_vibe.Common.Word.{◌-ᵤ◌}
use quic_vibe.Recovery.AckRanges.{
  gap_of, push, emit, BuildState, close_block, step, descend_loop, descend, build_ranges,
}
use quic_vibe.Recovery.SentPackets.Acknowledge.{is_between, covered, covered_below}

-- Rising packet numbers, of 62 bits at most.
abbrev pub IsAscending : List ℕ → Type 0
IsAscending [] = Unit
IsAscending (x ∷ []) = x < 2 ^ 62
IsAscending (x ∷ (y ∷ rest)) = (x < y) × IsAscending (y ∷ rest)

unfoldable pub member : List ℕ → ℕ → Bool
member [] q = false
member (x ∷ xs) q = (x == q) || member xs q

-- What was written, if there was room for it.
unfoldable pub fit : ℕ → List ℕ → Option (List ℕ)
fit cap xs = if leb (length xs) cap then some xs else none

abbrev lead : Bool → ℕ → ℕ → List ℕ
lead first prev_lo hi = if first then [] else gap_of prev_lo hi ∷ []

fit_then :
    (cap : ℕ) (w z : List ℕ) (k : List ℕ → Option (List ℕ))
    → ((fit cap w ≡ some w) → k w ≡ fit cap (w ++ z))
    → (fit cap w >>= k) ≡ fit cap (w ++ z)
unfolding fit
fit_then cap w z k h = grind (arith, length-append w z)

push_lem : (w : List ℕ) (cap v : ℕ) → push w cap v ≡ fit cap (w ++ v ∷ [])
unfolding push fit
push_lem w cap v = ground (arith, length-append w (v ∷ []))

emit_lem :
    (w : List ℕ) (cap : ℕ) (first : Bool) (prev_lo hi lo : ℕ)
    → emit w cap first prev_lo hi lo ≡ fit cap (w ++ (lead first prev_lo hi ++ (hi -ᵤ lo) ∷ []))
unfolding emit
emit_lem w cap true prev_lo hi lo = push_lem w cap (hi -ᵤ lo)
emit_lem w cap false prev_lo hi lo =
    let g = gap_of prev_lo hi in
    ap (λ r. r >>= λ v. push v cap (hi -ᵤ lo)) (push_lem w cap g)
    ∙ fit_then cap (w ++ g ∷ []) ((hi -ᵤ lo) ∷ []) (λ v. push v cap (hi -ᵤ lo))
        (λ _. push_lem (w ++ g ∷ []) cap (hi -ᵤ lo))
    ∙ ap (fit cap) (append_assoc w (g ∷ []) ((hi -ᵤ lo) ∷ []))

covered_cons :
    (hi a g : ℕ) (xs : List ℕ) (q : ℕ)
    → covered hi (a ∷ (g ∷ xs)) q
      ≡ (is_between q (hi -ᵤ a) hi || covered ((hi -ᵤ a) -ᵤ g -ᵤ 2) xs q)
unfolding covered covered_below
covered_cons hi a g [] q = refl
covered_cons hi a g (x ∷ xs) q = refl

covered_one : (hi a q : ℕ) → covered hi (a ∷ []) q ≡ (is_between q (hi -ᵤ a) hi || false)
unfolding covered covered_below
covered_one hi a q = refl

-- Going down by a length or a gap comes back to the number that it was computed from.
length_back : (hi lo : ℕ) → lo ≤ hi → hi < 2 ^ 62 → hi -ᵤ (hi -ᵤ lo) ≡ lo
length_back hi lo le small = omega arith

gap_back : (prev next : ℕ) → next + 2 ≤ prev → prev < 2 ^ 62 → prev -ᵤ gap_of prev next -ᵤ 2 ≡ next
unfolding gap_of
gap_back prev next le small = omega arith

module _ (p : ℕ → ℕ) where
  -- The values from the length of the block that ends at `hi` on, with `i` numbers left below it.
  unfoldable pub blocks : ℕ → ℕ → List ℕ
  blocks zero hi = (hi -ᵤ p 0) ∷ []
  blocks (suc i) hi =
      if p (suc i) -ᵤ p i == 1
      then blocks i hi
      else (hi -ᵤ p (suc i)) ∷ (gap_of (p (suc i)) (p i) ∷ blocks i (p i))

  unfoldable pub below : ℕ → ℕ → Bool
  below zero q = false
  below (suc i) q = (p i == q) || below i q

  pub covered-blocks :
      (i hi q : ℕ)
      → ((j : ℕ) → j < i → p j < p (suc j))
      → p i ≤ hi
      → hi < 2 ^ 62
      → covered hi (blocks i hi) q ≡ (is_between q (p i) hi || below i q)
  unfolding blocks below
  covered-blocks zero hi q asc le small =
      ground (arith, covered_one hi (hi -ᵤ p 0) q, length_back hi (p 0) le small)
  covered-blocks (suc i) hi q asc le small =
      let up = asc i (omega arith) in
      let asc' = λ (j : ℕ) (h : j < i). asc j (omega arith) in
      elim (Bool-cases (p (suc i) -ᵤ p i == 1)) [
        | inl next ↦
            let one : p (suc i) ≡ suc (p i) = ground (arith, ==→eq (p (suc i) -ᵤ p i) 1 next) in
            rw next (ground (arith, covered-blocks i hi q asc' (omega arith) small, one))
        | inr far ↦
            let two : p i + 2 ≤ p (suc i) = ground arith in
            rw far (
              ground (
                arith,
                covered_cons hi (hi -ᵤ p (suc i)) (gap_of (p (suc i)) (p i)) (blocks i (p i)) q,
                length_back hi (p (suc i)) le small,
                gap_back (p (suc i)) (p i) two (omega arith),
                covered-blocks i (p i) q asc' (omega arith) (omega arith),
              ))
      ]

bind_nested :
    {A B C D : Type 0}
    → (o : Option A) (f : A → Option B) (g : B → Option C) (k : C → Option D)
    → (((o >>= f) >>= g) >>= k) ≡ (o >>= λ a. ((f a >>= g) >>= k))
bind_nested none f g k = refl
bind_nested (some a) f g k = refl

module _ (pns : List ℕ) (cap : ℕ) where
  abbrev at : ℕ → ℕ
  at i = get_or pns i 0

  abbrev close : BuildState → Option (List ℕ)
  close s = emit s.written cap s.first s.prev_lo s.hi (at 0)

  -- The two cases of a round: the next number down belongs to the block, or ends it.
  abbrev joined : ℕ → Bool
  joined i = at (suc i) -ᵤ at i == 1

  loop_next :
      (i : ℕ) (s : BuildState)
      → joined i ≡ true
      → (descend_loop s pns (suc i) cap ≡ descend_loop s pns i cap)
        × (blocks at (suc i) s.hi ≡ blocks at i s.hi)
  unfolding descend_loop step blocks
  loop_next i s h = (ground arith, ground arith)

  abbrev next : ℕ → List ℕ → BuildState
  next i w = record { written = w; hi = at i; prev_lo = at (suc i); first = false }

  loop_far :
      (i : ℕ) (s : BuildState)
      → joined i ≡ false
      → (descend_loop s pns (suc i) cap
          ≡ (emit s.written cap s.first s.prev_lo s.hi (at (suc i)) >>= λ w. some (next i w))
            >>= λ s'. descend_loop s' pns i cap)
        × (blocks at (suc i) s.hi
            ≡ (s.hi -ᵤ at (suc i)) ∷ (gap_of (at (suc i)) (at i) ∷ blocks at i (at i)))
  unfolding descend_loop step blocks close_block
  loop_far i s h = let prev : suc i - 1 ≡ i = omega arith in (rw (prev, h) refl, ground arith)

  descend_lem :
      (i : ℕ) (s : BuildState)
      → (descend_loop s pns i cap >>= close)
        ≡ fit cap (s.written ++ (lead s.first s.prev_lo s.hi ++ blocks at i s.hi))
  descend_lem zero s =
      unfold descend_loop blocks in emit_lem s.written cap s.first s.prev_lo s.hi (at 0)
  descend_lem (suc i) s = elim (Bool-cases (joined i)) [
    | inl h ↦
        let (e, b) = loop_next i s h in
        ap (λ o. o >>= close) e
        ∙ descend_lem i s
        ∙ ap (λ z. fit cap (s.written ++ (lead s.first s.prev_lo s.hi ++ z))) (sym b)
    | inr h ↦
        let (e, b) = loop_far i s h in
        let lo = at (suc i) in
        let l = lead s.first s.prev_lo s.hi ++ (s.hi -ᵤ lo) ∷ [] in
        let more = gap_of lo (at i) ∷ blocks at i (at i) in
        let rest : List ℕ → Option (List ℕ) = λ w. descend_loop (next i w) pns i cap >>= close in
        ap (λ o. o >>= close) e
        ∙ bind_nested (emit s.written cap s.first s.prev_lo s.hi lo) (λ w. some (next i w))
            (λ s'. descend_loop s' pns i cap) close
        ∙ ap (λ o. o >>= rest) (emit_lem s.written cap s.first s.prev_lo s.hi lo)
        ∙ fit_then cap (s.written ++ l) more rest (λ _. descend_lem i (next i (s.written ++ l)))
        ∙ ap (fit cap) (
            append_assoc s.written l more
            ∙ ap (λ z. s.written ++ z)
                (append_assoc (lead s.first s.prev_lo s.hi) ((s.hi -ᵤ lo) ∷ []) more
                  ∙ ap (λ z. lead s.first s.prev_lo s.hi ++ z) (sym b)))
  ]

  pub build_ranges_lem :
      0 < length pns
      → build_ranges pns cap ≡ (
          fit cap (blocks at (length pns - 1) (at (length pns - 1))) >>= λ ranges.
          some (at (length pns - 1), ranges))
  unfolding build_ranges descend
  build_ranges_lem h =
      let last = length pns - 1 in
      let nonempty : (length pns == 0) ≡ false = ground arith in
      rw nonempty (
        ap (λ o. o >>= λ ranges. some (at last, ranges))
          (descend_lem last (record { written = []; hi = at last; prev_lo = 0; first = true })))

pub length-blocks : (p : ℕ → ℕ) (i hi : ℕ) → length (blocks p i hi) ≤ 2 * i + 1
unfolding blocks
length-blocks p zero hi = omega arith
length-blocks p (suc i) hi = ground (arith, length-blocks p i hi, length-blocks p i (p i))

below_cons :
    (x : ℕ) (xs : List ℕ) (i q : ℕ)
    → below (λ j. get_or (x ∷ xs) j 0) (suc i) q ≡ ((x == q) || below (λ j. get_or xs j 0) i q)
unfolding below
below_cons x xs zero q = refl
below_cons x xs (suc i) q = ground (arith, below_cons x xs i q)

pub below-member : (xs : List ℕ) (q : ℕ) → below (λ j. get_or xs j 0) (length xs) q ≡ member xs q
unfolding member
below-member [] q = unfold below in refl
below-member (x ∷ xs) q = ground (arith, below_cons x xs (length xs) q, below-member xs q)
