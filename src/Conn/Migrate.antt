-- ===== src/Conn/Migrate.antt =====
-- Connection migration (src/transport/conn/cid/migrate/migrate.c). The flags are Booleans.
use quic_vibe.Common.{
  ℕ, zero, suc, ◌≤◌, leb, ◌≡◌, ap₂, Bool, true, false, not, ◌&&◌, ◌||◌, List, [], ◌∷◌, arith, ◌==◌,
  if◌then◌else◌,
}

-- quic_migrate
pub record Migrate : Type 0 where
  pub handshake_confirmed : Bool
  pub detected : Bool
  pub challenged : Bool
  pub validated : Bool
  pub confirmed : Bool
  pub cur_cid : ℕ
  pub cc_reset : Bool
  pub port_only : Bool

unfoldable pub migrate_init : ℕ → Migrate
migrate_init cid = record {
  handshake_confirmed = false;
  detected = false;
  challenged = false;
  validated = false;
  confirmed = false;
  cur_cid = cid;
  cc_reset = false;
  port_only = false;
}

unfoldable pub detect : Migrate → Migrate
detect m = if m.handshake_confirmed then record m { detected = true } else m

unfoldable pub send_challenge : Migrate → Migrate
send_challenge m = if m.detected then record m { challenged = true } else m

unfoldable pub validate : Migrate → Migrate × Bool
validate m =
    if not m.detected || not m.challenged then (m, false) else (record m { validated = true }, true)

unfoldable pub confirm_ok : Migrate → ℕ → Bool
confirm_ok m new_cid = m.validated && not (new_cid == m.cur_cid)

unfoldable pub confirm : Migrate → ℕ → Bool → Migrate × Bool
unfolding confirm_ok
confirm m new_cid port_only = if not (confirm_ok m new_cid) then (m, false) else (
  record m { cur_cid = new_cid; confirmed = true; port_only = port_only; cc_reset = not port_only },
  true,
)

-- What happens to a connection that may migrate; its owner sets `handshake_confirmed`.
pub data Event : Type 0 where
  handshake_done address_changed challenge_sent path_answered : Event
  switch : ℕ → Bool → Event

abbrev pub handle : Migrate → Event → Migrate
handle m handshake_done = record m { handshake_confirmed = true }
handle m address_changed = detect m
handle m challenge_sent = send_challenge m
handle m path_answered = (validate m).0
handle m (switch new_cid port_only) = (confirm m new_cid port_only).0

unfoldable pub run : Migrate → List Event → Migrate
run m [] = m
run m (e ∷ es) = run (handle m e) es

-- How many of the four steps before a migration were taken, in their order: the handshake is done, the
-- address changed, a challenge was sent, it was answered. An event out of turn is no step.
abbrev pub advance : ℕ → Event → ℕ
advance zero handshake_done = 1
advance (suc zero) address_changed = 2
advance (suc (suc zero)) challenge_sent = 3
advance (suc (suc (suc zero))) path_answered = 4
advance n _ = n

-- The identifier, and whether congestion control was reset: a switch counts behind the four steps, if it
-- is to another identifier.
abbrev pub moved : ℕ → ℕ × Bool → Event → ℕ × Bool
moved n x (switch new_cid port_only) =
    if n == 4 && not (new_cid == x.0) then (new_cid, not port_only) else x
moved n x _ = x

abbrev pub outcome : ℕ → ℕ × Bool → List Event → ℕ × Bool
outcome n x [] = x
outcome n x (e ∷ es) = outcome (advance n e) (moved n x e) es

-- The flags are the steps taken, the others of the state are the outcome so far.
record IsAt (n : ℕ) (x : ℕ × Bool) (m : Migrate) : Type 0 where
  handshake : m.handshake_confirmed ≡ leb 1 n
  detection : m.detected ≡ leb 2 n
  challenge : m.challenged ≡ leb 3 n
  validation : m.validated ≡ leb 4 n
  few : n ≤ 4
  cid : m.cur_cid ≡ x.0
  reset : m.cc_reset ≡ x.1

handle-IsAt :
    (n : ℕ) (x : ℕ × Bool) (m : Migrate) (e : Event)
    → IsAt n x m
    → IsAt (advance n e) (moved n x e) (handle m e)
unfolding detect send_challenge validate confirm
handle-IsAt zero x m e v = elim e [
  | handshake_done ↦ ground arith
  | address_changed ↦ ground arith
  | challenge_sent ↦ ground arith
  | path_answered ↦ ground arith
  | switch c p ↦ ground arith
]
handle-IsAt (suc zero) x m e v = elim e [
  | handshake_done ↦ ground arith
  | address_changed ↦ ground arith
  | challenge_sent ↦ ground arith
  | path_answered ↦ ground arith
  | switch c p ↦ ground arith
]
handle-IsAt (suc (suc zero)) x m e v = elim e [
  | handshake_done ↦ ground arith
  | address_changed ↦ ground arith
  | challenge_sent ↦ ground arith
  | path_answered ↦ ground arith
  | switch c p ↦ ground arith
]
handle-IsAt (suc (suc (suc zero))) x m e v = elim e [
  | handshake_done ↦ ground arith
  | address_changed ↦ ground arith
  | challenge_sent ↦ ground arith
  | path_answered ↦ ground arith
  | switch c p ↦ ground arith
]
handle-IsAt (suc (suc (suc (suc zero)))) x m e v = elim e [
  | handshake_done ↦ ground arith
  | address_changed ↦ ground arith
  | challenge_sent ↦ ground arith
  | path_answered ↦ ground arith
  | switch c p ↦ ground arith
]
handle-IsAt (suc (suc (suc (suc (suc n))))) x m e v = absurd (omega (arith, v.few))

run-IsAt :
    (es : List Event) (n : ℕ) (x : ℕ × Bool) (m : Migrate)
    → IsAt n x m
    → ((run m es).cur_cid ≡ (outcome n x es).0) × ((run m es).cc_reset ≡ (outcome n x es).1)
unfolding run
run-IsAt [] n x m v = (v.cid, v.reset)
run-IsAt (e ∷ es) n x m v =
    run-IsAt es (advance n e) (moved n x e) (handle m e) (handle-IsAt n x m e v)

-- Whatever events come, in whatever order: the connection is on the identifier of the last switch to
-- another one that came behind a handshake, a detected change of address, a challenge and its answer, in
-- this order, or on its first identifier if there was none, and congestion control is reset exactly if
-- that switch was not of the port alone. The steps are counted once: after the first migration, further
-- switches need no new detection, challenge or answer.
pub migration_outcome :
    (es : List Event) (cid : ℕ)
    → let m = run (migrate_init cid) es in (m.cur_cid, m.cc_reset) ≡ outcome 0 (cid, false) es
migration_outcome es cid =
    let start : IsAt 0 (cid, false) (migrate_init cid) = unfold migrate_init in ground arith in
    let (c, r) = run-IsAt es 0 (cid, false) (migrate_init cid) start in
    ap₂ (λ (a : ℕ) (b : Bool). (a, b)) c r
