-- ===== src/Conn/Pmtu.antt =====
-- The search for the path MTU (src/transport/conn/cid/pmtu/pmtu.c). The flag `searching` is a Boolean.
use quic_vibe.Common.{
  ℕ, suc, ◌+◌, ◌-◌, ◌/◌, ◌≤◌, ◌≡◌, refl, ◌⊎◌, Bool, true, false, not, ◌&&◌, ◌||◌, List, [], ◌∷◌,
  arith, ltb, ◌==◌, if◌then◌else◌,
}
use quic_vibe.Common.Word.{◌+ᵤ◌}

abbrev pub pmtu_base : ℕ
pmtu_base = 1200

abbrev pub pmtu_max : ℕ
pmtu_max = 1452

abbrev pub pmtu_step : ℕ
pmtu_step = 64

-- quic_pmtu
pub record Pmtu : Type 0 where
  pub validated : ℕ
  pub probe : ℕ
  pub ceiling : ℕ
  pub lost : ℕ
  pub searching : Bool

unfoldable pub pmtu_init : Pmtu
pmtu_init = record {
  validated = pmtu_base;
  probe = 0;
  ceiling = pmtu_max;
  lost = 0;
  searching = true;
}

unfoldable pub candidate : Pmtu → ℕ
candidate p = let want = p.validated +ᵤ pmtu_step in if ltb want p.ceiling then want else p.ceiling

unfoldable pub viable : Pmtu → ℕ → Bool
viable p next = ltb p.validated next && not (next == p.lost)

unfoldable pub next_probe : Pmtu → Pmtu × ℕ
unfolding candidate viable
next_probe p =
    let next = candidate p in
    if not p.searching || not (viable p next)
    then (record p { searching = false }, 0)
    else (record p { probe = next }, next)

unfoldable pub on_ack : Pmtu → ℕ → Pmtu
on_ack p size = record p {
  validated = if ltb p.validated size then size else p.validated;
  probe = 0;
}

unfoldable pub on_loss : Pmtu → ℕ → Pmtu
on_loss p size = record p {
  ceiling = if ltb size p.ceiling then size else p.ceiling;
  lost = size;
  probe = 0;
}

-- The search against a path that answers each probe, true for an acknowledgement and false for a
-- loss: the record at the end, and the probes sent.
unfoldable pub search : Pmtu → List Bool → Pmtu × ℕ
search p [] = (p, 0)
search p (carried ∷ answers) =
    let (p', size) = next_probe p in
    let (end, n) =
      search (if size == 0 then p' else if carried then on_ack p' size else on_loss p' size)
        answers in
    (end, if size == 0 then n else suc n)

-- How many probes a record is still good for.
abbrev left : Pmtu → ℕ
left p = if p.searching && not (p.ceiling == p.lost) then (p.ceiling - p.validated + 63) / 64 else 0

pub record IsSearch (p : Pmtu) : Type 0 where
  pub base : pmtu_base ≤ p.validated
  pub under : p.validated ≤ p.ceiling
  pub top : p.ceiling ≤ pmtu_max
  pub failed : (p.lost ≡ 0) ⊎ ((p.lost ≡ p.ceiling) × (p.ceiling ≤ p.validated + 64))

abbrev answer : Pmtu → Bool → Pmtu
answer p carried =
    let (p', size) = next_probe p in
    if size == 0 then p' else if carried then on_ack p' size else on_loss p' size

answer_lem :
    (p : Pmtu) (carried : Bool)
    → IsSearch p
    → IsSearch (answer p carried)
      × ((if (next_probe p).1 == 0 then 0 else 1) + left (answer p carried) ≤ left p)
      × (p.validated ≤ (answer p carried).validated)
unfolding next_probe on_ack on_loss
answer_lem p true v = ground arith
answer_lem p false v = ground arith

search_lem :
    (answers : List Bool) (p : Pmtu)
    → IsSearch p
    → IsSearch (search p answers).0
      × ((search p answers).1 + left (search p answers).0 ≤ left p)
      × (p.validated ≤ (search p answers).0.validated)
unfolding search
search_lem [] p v = (v, omega arith, omega arith)
search_lem (carried ∷ answers) p v =
    let (v', l, m) = answer_lem p carried v in
    let (end, l', m') = search_lem answers (answer p carried) v' in
    (end, ground arith, omega (arith, m, m'))

-- However the path answers, the search sends at most four probes, and what it finds is between the base
-- and the ceiling.
pub search_ends :
    (answers : List Bool)
    → ((search pmtu_init answers).1 ≤ 4)
      × (pmtu_base ≤ (search pmtu_init answers).0.validated)
      × ((search pmtu_init answers).0.validated ≤ pmtu_max)
search_ends answers =
    let start : IsSearch pmtu_init × (left pmtu_init ≡ 4) =
      unfold pmtu_init in (ground arith, refl) in
    let (v, l, m) = search_lem answers pmtu_init start.0 in
    (omega (arith, l, start.1), v.base, omega (arith, v.under, v.top))
