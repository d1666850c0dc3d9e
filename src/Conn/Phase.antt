-- ===== src/Conn/Phase.antt =====
-- The phase of a connection and its packet numbers (src/transport/conn/lifecycle/conn/conn.c).
use quic_vibe.Common.{
  ℕ, zero, suc, ◌+◌, ◌^◌, ◌≤◌, ◌<◌, min, ◌≡◌, refl, sym, ap, ap₂, ◌∙◌, inl, inr, Bool, true, false,
  not, Option, none, some, List, [], ◌∷◌, arith, ◌==◌, if◌then◌else◌, Bool-cases, length,
}
use quic_vibe.Common.Word.{◌+ᵤ◌}
use mathlib.Core.Path.{subst}
use quic_vibe.Fsm.{Row, row, fsm_step}

-- quic_phase
pub data Phase : Type 0 where
  initial handshake confirmed closing draining closed : Phase

-- quic_conn_event
pub data ConnEvent : Type 0 where
  hs_progress hs_confirmed close drain close_done : ConnEvent

-- quic_pn_space
pub data PnSpace : Type 0 where
  pn_initial pn_handshake pn_application : PnSpace

abbrev pub phase_code : Phase → ℕ
phase_code Phase.initial = 0
phase_code Phase.handshake = 1
phase_code Phase.confirmed = 2
phase_code Phase.closing = 3
phase_code Phase.draining = 4
phase_code Phase.closed = 5

abbrev pub event_code : ConnEvent → ℕ
event_code ConnEvent.hs_progress = 0
event_code ConnEvent.hs_confirmed = 1
event_code ConnEvent.close = 2
event_code ConnEvent.drain = 3
event_code ConnEvent.close_done = 4

-- The cast back from `u8`; the table holds no code past 5.
abbrev pub phase_of_code : ℕ → Phase
phase_of_code zero = Phase.initial
phase_of_code (suc zero) = Phase.handshake
phase_of_code (suc (suc zero)) = Phase.confirmed
phase_of_code (suc (suc (suc zero))) = Phase.closing
phase_of_code (suc (suc (suc (suc zero)))) = Phase.draining
phase_of_code (suc (suc (suc (suc (suc n))))) = Phase.closed

abbrev pub phase_rows : List Row
phase_rows =
    row 0 0 1
    ∷ row 1 1 2
    ∷ row 0 2 3
    ∷ row 1 2 3
    ∷ row 2 2 3
    ∷ row 0 3 4
    ∷ row 1 3 4
    ∷ row 2 3 4
    ∷ row 3 4 5
    ∷ row 4 4 5
    ∷ []

-- quic_conn; `next_pn` has an entry for each space
pub record Conn : Type 0 where
  pub phase : Phase
  pub next_initial : ℕ
  pub next_handshake : ℕ
  pub next_application : ℕ

unfoldable pub conn_init : Conn
conn_init = record {
  phase = Phase.initial;
  next_initial = 0;
  next_handshake = 0;
  next_application = 0;
}

unfoldable pub conn_step : Conn → ConnEvent → Conn × Bool
unfolding fsm_step
conn_step c ev =
    let (st, fine) = fsm_step (phase_code c.phase) phase_rows (event_code ev) in
    (record c { phase = phase_of_code st }, fine)

abbrev pub next_pn_of : Conn → PnSpace → ℕ
next_pn_of c PnSpace.pn_initial = c.next_initial
next_pn_of c PnSpace.pn_handshake = c.next_handshake
next_pn_of c PnSpace.pn_application = c.next_application

unfoldable pub app_space_allowed : Conn → PnSpace → Bool
app_space_allowed c PnSpace.pn_initial = true
app_space_allowed c PnSpace.pn_handshake = true
app_space_allowed c PnSpace.pn_application = phase_code c.phase == 2

abbrev pub bump : Conn → PnSpace → Conn
bump c PnSpace.pn_initial = record c { next_initial = c.next_initial +ᵤ 1 }
bump c PnSpace.pn_handshake = record c { next_handshake = c.next_handshake +ᵤ 1 }
bump c PnSpace.pn_application = record c { next_application = c.next_application +ᵤ 1 }

unfoldable pub next_pn : Conn → PnSpace → Conn × Option ℕ
unfolding app_space_allowed
next_pn c space =
    if not (app_space_allowed c space) then (c, none) else (bump c space, some (next_pn_of c space))

-- What is done with a connection: an event, or the request of a packet number.
pub data Call : Type 0 where
  event : ConnEvent → Call
  request : PnSpace → Call

abbrev pub same_space : PnSpace → PnSpace → Bool
same_space PnSpace.pn_initial PnSpace.pn_initial = true
same_space PnSpace.pn_handshake PnSpace.pn_handshake = true
same_space PnSpace.pn_application PnSpace.pn_application = true
same_space a b = false

-- The connection after the calls, and the packet numbers given out in the space `s`.
unfoldable pub run : PnSpace → Conn → List Call → Conn × List ℕ
run s c [] = (c, [])
run s c (event ev ∷ cs) = run s (conn_step c ev).0 cs
run s c (request space ∷ cs) =
    let (c', pn) = next_pn c space in
    let (end, out) = run s c' cs in
    (end, elim pn [ none ↦ out | some n ↦ if same_space s space then n ∷ out else out ])

-- `n`, `n + 1`, and so on.
unfoldable pub count_from : ℕ → ℕ → List ℕ
count_from n zero = []
count_from n (suc k) = n ∷ count_from (suc n) k

abbrev pub rank : Phase → ℕ
rank p = min (phase_code p) 3 + (if phase_code p == 5 then 1 else 0)

step_lem :
    (s : PnSpace) (c : Conn) (ev : ConnEvent)
    → (next_pn_of (conn_step c ev).0 s ≡ next_pn_of c s)
      × (rank c.phase ≤ rank (conn_step c ev).0.phase)
unfolding conn_step
step_lem PnSpace.pn_initial c ev = (refl, ground arith)
step_lem PnSpace.pn_handshake c ev = (refl, ground arith)
step_lem PnSpace.pn_application c ev = (refl, ground arith)

bump_lem :
    (s space : PnSpace) (c : Conn)
    → next_pn_of c s < 2 ^ 63
    → (next_pn_of (bump c space) s ≡ next_pn_of c s + (if same_space s space then 1 else 0))
      × ((bump c space).phase ≡ c.phase)
bump_lem s space c h = ground arith

same_space_next :
    (s space : PnSpace) (c : Conn) → same_space s space ≡ true → next_pn_of c space ≡ next_pn_of c s
same_space_next s space c h = ground arith

-- What is claimed of a run.
abbrev pub InOrder : PnSpace → Conn → Conn × List ℕ → Type 0
InOrder s c r =
    (r.1 ≡ count_from (next_pn_of c s) (length r.1))
    × (next_pn_of r.0 s ≡ next_pn_of c s + length r.1)
    × (rank c.phase ≤ rank r.0.phase)

-- The three cases of a request.
module _ (s space : PnSpace) (c : Conn) (cs : List Call) where
  abbrev after : Conn × Option ℕ → Conn × List ℕ
  after x =
      let r = run s x.0 cs in
      (r.0, elim (x.1) [ none ↦ r.1 | some n ↦ if same_space s space then n ∷ r.1 else r.1 ])

  run_request : run s c (request space ∷ cs) ≡ after (next_pn c space)
  unfolding run
  run_request = refl

  refused_lem : app_space_allowed c space ≡ false → next_pn c space ≡ (c, none)
  unfolding next_pn
  refused_lem h = ground arith

  allowed_lem :
      app_space_allowed c space ≡ true → next_pn c space ≡ (bump c space, some (next_pn_of c space))
  unfolding next_pn
  allowed_lem h = ground arith

  mine_lem :
      next_pn_of c s < 2 ^ 63
      → same_space s space ≡ true
      → InOrder s (bump c space) (run s (bump c space) cs)
      → InOrder s c (after (bump c space, some (next_pn_of c space)))
  unfolding count_from
  mine_lem h mine (a, b, r) =
      let (n, p) = bump_lem s space c h in
      let next : next_pn_of (bump c space) s ≡ suc (next_pn_of c s) = ground arith in
      let k = length (run s (bump c space) cs).1 in
      rw mine (
        ap₂ (λ x xs. x ∷ xs) (same_space_next s space c mine) (a ∙ ap (λ m. count_from m k) next),
        omega (arith, b, next),
        subst (λ q. rank q ≤ rank (run s (bump c space) cs).0.phase) p r,
      )

  other_lem :
      next_pn_of c s < 2 ^ 63
      → same_space s space ≡ false
      → InOrder s (bump c space) (run s (bump c space) cs)
      → InOrder s c (after (bump c space, some (next_pn_of c space)))
  other_lem h other (a, b, r) =
      let (n, p) = bump_lem s space c h in
      let same : next_pn_of (bump c space) s ≡ next_pn_of c s = ground arith in
      let k = length (run s (bump c space) cs).1 in
      rw other (
        a ∙ ap (λ m. count_from m k) same,
        omega (arith, b, same),
        subst (λ q. rank q ≤ rank (run s (bump c space) cs).0.phase) p r,
      )

  request_lem :
      next_pn_of c s + suc (length cs) < 2 ^ 63
      → InOrder s c (run s c cs)
      → InOrder s (bump c space) (run s (bump c space) cs)
      → InOrder s c (run s c (request space ∷ cs))
  request_lem h kept moved = elim (Bool-cases (app_space_allowed c space)) [
    | inr refused ↦ subst (InOrder s c) (sym (run_request ∙ ap after (refused_lem refused))) kept
    | inl allowed ↦
        subst (InOrder s c) (sym (run_request ∙ ap after (allowed_lem allowed)))
          (elim (Bool-cases (same_space s space)) [
            | inl mine ↦ mine_lem (omega arith) mine moved
            | inr other ↦ other_lem (omega arith) other moved
          ])
  ]

event_lem :
    (s : PnSpace) (ev : ConnEvent) (c : Conn) (cs : List Call)
    → InOrder s (conn_step c ev).0 (run s (conn_step c ev).0 cs)
    → InOrder s c (run s c (event ev ∷ cs))
unfolding run
event_lem s ev c cs (a, b, r') =
    let (e, r) = step_lem s c ev in
    (
      a ∙ ap (λ n. count_from n (length (run s (conn_step c ev).0 cs).1)) e,
      omega (arith, b, e),
      omega (arith, r, r'),
    )

-- The packet numbers of a space are given out from the next one on, one by one, and the phase only
-- moves forward, whatever events and requests come.
pub numbers-InOrder :
    (cs : List Call) (s : PnSpace) (c : Conn)
    → next_pn_of c s + length cs < 2 ^ 63
    → InOrder s c (run s c cs)
numbers-InOrder [] s c h = unfold run count_from in (refl, omega arith, omega arith)
numbers-InOrder (event ev ∷ cs) s c h =
    let (e, r) = step_lem s c ev in
    event_lem s ev c cs (numbers-InOrder cs s (conn_step c ev).0 (omega (arith, e)))
numbers-InOrder (request space ∷ cs) s c h =
    let (n, p) = bump_lem s space c (omega arith) in
    request_lem s space c cs h (numbers-InOrder cs s c (omega arith))
      (numbers-InOrder cs s (bump c space) (ground arith))
