-- ===== src/Conn/Close.antt =====
-- The end of a connection (src/transport/conn/lifecycle/closelife: closelife.c, termgate.c,
-- draining.c, idletimeout.c, idlefloor.c, keepalive.c). The flags are Booleans.
use quic_vibe.Common.{
  ℕ, ◌+◌, ◌-◌, ◌^◌, ◌≤◌, ◌<◌, min, max, ◌/◌, ◌≡◌, refl, ap, ◌∙◌, ◌≢◌, ◌⊎◌, inl, inr, Bool, true,
  false, not, ◌&&◌, List, [], ◌∷◌, arith, ltb, leb, ◌==◌, if◌then◌else◌,
}
use quic_vibe.Common.Word.{◌+ᵤ◌, ◌-ᵤ◌, ◌*ᵤ◌}

-- quic_life_phase; `live` is QUIC_LIFE_OPEN
pub data LifePhase : Type 0 where
  live closing draining closed : LifePhase

-- quic_life
pub record Life : Type 0 where
  pub phase : LifePhase
  pub idle_ticks : ℕ
  pub idle_max : ℕ
  pub close_ticks : ℕ
  pub close_max : ℕ
  pub sent_close : Bool
  pub notified : Bool

unfoldable pub life_init : ℕ → ℕ → Life
life_init idle_max close_max = record {
  phase = LifePhase.live;
  idle_ticks = 0;
  idle_max = idle_max;
  close_ticks = 0;
  close_max = close_max;
  sent_close = false;
  notified = false;
}

unfoldable pub is_open : LifePhase → Bool
is_open LifePhase.live = true
is_open LifePhase.closing = false
is_open LifePhase.draining = false
is_open LifePhase.closed = false

unfoldable pub is_closed : LifePhase → Bool
is_closed LifePhase.live = false
is_closed LifePhase.closing = false
is_closed LifePhase.draining = false
is_closed LifePhase.closed = true

unfoldable pub tick_open : Life → Life
tick_open l =
    let ticks = l.idle_ticks +ᵤ 1 in
    record l {
      idle_ticks = ticks;
      phase = if leb l.idle_max ticks then LifePhase.closed else l.phase;
    }

unfoldable pub tick_closing : Life → Life
tick_closing l =
    let ticks = l.close_ticks +ᵤ 1 in
    record l {
      close_ticks = ticks;
      phase = if leb l.close_max ticks then LifePhase.closed else l.phase;
    }

unfoldable pub tick : Life → Life
unfolding tick_open tick_closing
tick l = if is_open l.phase then tick_open l else if is_closed l.phase then l else tick_closing l

unfoldable pub on_recv : Life → Life
on_recv l = if is_open l.phase then record l { idle_ticks = 0 } else l

unfoldable pub on_send : Life → Life
on_send l = if is_open l.phase then record l { idle_ticks = 0 } else l

unfoldable pub close : Life → Life
close l =
    if not (is_open l.phase)
    then l
    else record l { phase = LifePhase.closing; sent_close = true; close_ticks = 0; notified = true }

unfoldable pub on_peer_close : Life → Life
on_peer_close l =
    if not (is_open l.phase)
    then l
    else record l { phase = LifePhase.draining; close_ticks = 0; notified = true }

unfoldable pub on_reset : Life → Life
on_reset l = if not (is_closed l.phase) then record l { phase = LifePhase.closed } else l

-- quic_send_kind
pub data SendKind : Type 0 where
  send_none send_cc send_appdata : SendKind

unfoldable pub send_kind : Life → SendKind
send_kind l = elim (l.phase) [
  | LifePhase.live ↦ SendKind.send_appdata
  | LifePhase.closing ↦ SendKind.send_cc
  | LifePhase.draining ↦ SendKind.send_none
  | LifePhase.closed ↦ SendKind.send_none
]

unfoldable pub close_due : Life → Bool
close_due l = ltb 0 l.close_ticks && leb l.close_max l.close_ticks

unfoldable pub idle_due : Life → Bool
idle_due l = is_open l.phase && leb l.idle_max l.idle_ticks

unfoldable pub draining_period : ℕ → ℕ
draining_period pto = 3 *ᵤ pto

unfoldable pub draining_done : ℕ → ℕ → ℕ → Bool
unfolding draining_period
draining_done close_time now pto = leb (close_time +ᵤ draining_period pto) now

-- `(u64)-1` stands for no limit.
unfoldable pub as_limit : ℕ → ℕ
as_limit v = if v == 0 then 2 ^ 64 - 1 else v

unfoldable pub idle_effective : ℕ → ℕ → ℕ
unfolding as_limit
idle_effective local peer =
    let m = min (as_limit local) (as_limit peer) in if m == 2 ^ 64 - 1 then 0 else m

unfoldable pub idle_expired : ℕ → ℕ → ℕ → Bool
idle_expired last_activity now effective =
    not (effective == 0) && leb effective (now -ᵤ last_activity)

unfoldable pub idle_floor : ℕ → ℕ → ℕ
idle_floor idle_timeout pto = max idle_timeout (3 *ᵤ pto)

unfoldable pub keepalive_interval : ℕ → ℕ
keepalive_interval idle_timeout = idle_timeout / 2

unfoldable pub keepalive_due : ℕ → ℕ → ℕ → Bool
unfolding keepalive_interval
keepalive_due last_activity now idle_timeout =
    leb (keepalive_interval idle_timeout) (now -ᵤ last_activity)

-- What happens to a connection.
pub data Event : Type 0 where
  ticked received sent closed_here closed_by_peer reset : Event

abbrev pub handle : Life → Event → Life
handle l ticked = tick l
handle l received = on_recv l
handle l sent = on_send l
handle l closed_here = close l
handle l closed_by_peer = on_peer_close l
handle l reset = on_reset l

unfoldable pub run : Life → List Event → Life
run l [] = l
run l (e ∷ es) = run (handle l e) es

abbrev pub is_tick : Event → ℕ
is_tick ticked = 1
is_tick received = 0
is_tick sent = 0
is_tick closed_here = 0
is_tick closed_by_peer = 0
is_tick reset = 0

abbrev pub ticks : List Event → ℕ
ticks [] = 0
ticks (e ∷ es) = is_tick e + ticks es

closed_once : (l : Life) (e : Event) → is_closed l.phase ≡ true → handle l e ≡ l
unfolding tick on_recv on_send close on_peer_close on_reset is_open is_closed
closed_once l e h = ground arith

-- A closed connection stays as it is.
closed_stays : (es : List Event) (l : Life) → is_closed l.phase ≡ true → run l es ≡ l
unfolding run
closed_stays [] l h = refl
closed_stays (e ∷ es) l h = ap (λ x. run x es) (closed_once l e h) ∙ closed_stays es l h

run_cons : (l : Life) (e : Event) (es : List Event) → run l (e ∷ es) ≡ run (handle l e) es
unfolding run
run_cons l e es = refl

-- An event at a connection that is not live: it is closed behind it, or its timer is still short.
closing_step :
    (l : Life) (e : Event)
    → is_open l.phase ≡ false
    → l.close_ticks < 2 ^ 63
    → (is_open (handle l e).phase ≡ false)
      × ((handle l e).close_max ≡ l.close_max)
      × ((is_closed (handle l e).phase ≡ true)
          ⊎ (((handle l e).close_ticks ≡ l.close_ticks + is_tick e)
              × ((is_tick e ≡ 0) ⊎ (l.close_ticks + is_tick e < l.close_max))))
unfolding tick on_recv on_send close on_peer_close on_reset is_open is_closed
closing_step l ticked h small = (ground arith, ground arith, ground arith)
closing_step l received h small = (ground arith, ground arith, ground arith)
closing_step l sent h small = (ground arith, ground arith, ground arith)
closing_step l closed_here h small = (ground arith, ground arith, ground arith)
closing_step l closed_by_peer h small = (ground arith, ground arith, ground arith)
closing_step l reset h small = (ground arith, ground arith, ground arith)

closing_lem :
    (es : List Event) (l : Life)
    → is_open l.phase ≡ false
    → l.close_ticks + ticks es < 2 ^ 63
    → 1 ≤ ticks es
    → l.close_max ≤ l.close_ticks + ticks es
    → is_closed (run l es).phase ≡ true
closing_lem [] l h small some_tick enough = absurd (omega arith)
closing_lem (e ∷ es) l h small some_tick enough =
    let (h', same, next) = closing_step l e h (omega arith) in
    ap (λ (x : Life). is_closed x.phase) (run_cons l e es) ∙ elim next [
      | inl over ↦ ap (λ (x : Life). is_closed x.phase) (closed_stays es (handle l e) over) ∙ over
      | inr counted ↦
          let (t, short) = counted in
          closing_lem es (handle l e) h' (omega (arith, t)) (ground arith) (omega (arith, same, t))
    ]

-- A live connection that either side closes has left its life for good, and is closed once its timer
-- has ticked as often as its limit says, at least once, whatever else happens in between.
pub close_ends :
    (l : Life) (es : List Event)
    → is_open l.phase ≡ true
    → 1 ≤ ticks es
    → l.close_max ≤ ticks es
    → ticks es < 2 ^ 63
    → (is_closed (run (close l) es).phase ≡ true)
      × (is_closed (run (on_peer_close l) es).phase ≡ true)
close_ends l es h some_tick enough small =
    let ours : (is_open (close l).phase ≡ false)
        × ((close l).close_ticks ≡ 0)
        × ((close l).close_max ≡ l.close_max) =
      unfold close is_open in (ground arith, ground arith, ground arith) in
    let theirs : (is_open (on_peer_close l).phase ≡ false)
        × ((on_peer_close l).close_ticks ≡ 0)
        × ((on_peer_close l).close_max ≡ l.close_max) =
      unfold on_peer_close is_open in (ground arith, ground arith, ground arith) in
    let (a, b, c) = ours in
    let (a', b', c') = theirs in
    (
      closing_lem es (close l) a (omega (arith, b)) some_tick (omega (arith, b, c)),
      closing_lem es (on_peer_close l) a' (omega (arith, b')) some_tick (omega (arith, b', c')),
    )

over_step : (l : Life) (e : Event) → is_open l.phase ≡ false → is_open (handle l e).phase ≡ false
unfolding tick on_recv on_send close on_peer_close on_reset is_open is_closed
over_step l e h = ground arith

over_run : (es : List Event) (l : Life) → is_open l.phase ≡ false → is_open (run l es).phase ≡ false
unfolding run
over_run [] l h = h
over_run (e ∷ es) l h = over_run es (handle l e) (over_step l e h)

over_silent : (l : Life) → is_open l.phase ≡ false → send_kind l ≢ SendKind.send_appdata
unfolding send_kind is_open
over_silent l h e = ground arith

-- A connection that is not live never is again, whatever happens, so it never may send application
-- data, and once a reset has closed it nothing changes it.
never_reopens :
    (before after : List Event) (l : Life)
    → is_open l.phase ≡ false
    → (is_open (run l before).phase ≡ false)
      × (send_kind (run l before) ≢ SendKind.send_appdata)
      × (run (on_reset (run l before)) after ≡ on_reset (run l before))
never_reopens before after l h =
    let over = over_run before l h in
    let shut : is_closed (on_reset (run l before)).phase ≡ true =
      unfold on_reset is_closed in ground arith in
    (over, over_silent (run l before) over, closed_stays after (on_reset (run l before)) shut)
