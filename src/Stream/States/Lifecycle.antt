-- ===== src/Stream/States/Lifecycle.antt =====
-- The tables against the diagrams of RFC 9000 3.1 and 3.2, and the life of a bidirectional stream.
use quic_vibe.Common.{
  ℕ, suc, ◌+◌, ◌≤◌, ◌≡◌, refl, ap, ◌↔◌, Bool, true, false, List, [], ◌∷◌, arith, if◌then◌else◌,
}
use mathlib.Core.Path.{subst}
use quic_vibe.Stream.States.{
  SendState, RecvState, SendEvent, RecvEvent, send_step, recv_step, Bidi, bidi_init, send_terminal,
  recv_terminal, bidi_closed,
}

-- Figure 2 of the RFC.
pub data SendEdge : SendState → SendEvent → SendState → Type 0 where
  open_stream : SendEdge SendState.ready SendEvent.ev_stream SendState.send
  finish : SendEdge SendState.send SendEvent.ev_fin_sent SendState.data_sent
  acknowledge : SendEdge SendState.data_sent SendEvent.ev_acked SendState.data_recvd
  reset_ready : SendEdge SendState.ready SendEvent.ev_reset SendState.reset_sent
  reset_send : SendEdge SendState.send SendEvent.ev_reset SendState.reset_sent
  reset_data_sent : SendEdge SendState.data_sent SendEvent.ev_reset SendState.reset_sent
  reset_acknowledge : SendEdge SendState.reset_sent SendEvent.ev_reset_acked SendState.reset_recvd

-- Figure 3 of the RFC, its two optional edges included: a reset may be noted once all data are there, and
-- all data once a reset is there.
pub data RecvEdge : RecvState → RecvEvent → RecvState → Type 0 where
  fin : RecvEdge RecvState.recv RecvEvent.ev_fin RecvState.size_known
  complete : RecvEdge RecvState.size_known RecvEvent.ev_all_data RecvState.data_recvd
  read : RecvEdge RecvState.data_recvd RecvEvent.ev_read RecvState.data_read
  reset_recv : RecvEdge RecvState.recv RecvEvent.ev_reset RecvState.reset_recvd
  reset_size_known : RecvEdge RecvState.size_known RecvEvent.ev_reset RecvState.reset_recvd
  read_reset : RecvEdge RecvState.reset_recvd RecvEvent.ev_read RecvState.reset_read
  reset_late : RecvEdge RecvState.data_recvd RecvEvent.ev_reset RecvState.reset_recvd
  data_late : RecvEdge RecvState.reset_recvd RecvEvent.ev_all_data RecvState.data_recvd

-- The edges that RFC 9000 3.2 leaves to the implementation.
abbrev pub is_optional : RecvState → RecvEvent → Bool
is_optional RecvState.data_recvd RecvEvent.ev_reset = true
is_optional RecvState.reset_recvd RecvEvent.ev_all_data = true
is_optional _ _ = false

ruleset send_edges =
    (open_stream, finish, acknowledge, reset_ready, reset_send, reset_data_sent, reset_acknowledge)

ruleset recv_edges = (fin, complete, read, reset_recv, reset_size_known, read_reset)

send_step-edge :
    (s : SendState) (e : SendEvent) → (send_step s e).1 ≡ true → SendEdge s e (send_step s e).0
unfolding send_step
send_step-edge s e h = grind (arith, send_edges)

recv_step-edge :
    (s : RecvState) (e : RecvEvent)
    → (recv_step s e).1 ≡ true
    → RecvEdge s e (recv_step s e).0 × (is_optional s e ≡ false)
unfolding recv_step
recv_step-edge s e h = grind (arith, recv_edges)

SendEdge-step : {s s' : SendState} {e : SendEvent} → SendEdge s e s' → send_step s e ≡ (s', true)
unfolding send_step
SendEdge-step open_stream = refl
SendEdge-step _ = refl

RecvEdge-step :
    {s s' : RecvState} {e : RecvEvent}
    → RecvEdge s e s' × (is_optional s e ≡ false)
    → recv_step s e ≡ (s', true)
unfolding recv_step
RecvEdge-step (reset_late, h) = absurd (ground arith)
RecvEdge-step (data_late, h) = absurd (ground arith)
RecvEdge-step (fin, h) = refl
RecvEdge-step (_, h) = refl

send_refused : (s : SendState) (e : SendEvent) → (send_step s e).1 ≡ false → (send_step s e).0 ≡ s
unfolding send_step
send_refused s e h = ground arith

recv_refused : (s : RecvState) (e : RecvEvent) → (recv_step s e).1 ≡ false → (recv_step s e).0 ≡ s
unfolding recv_step
recv_refused s e h = ground arith

-- The two tables accept exactly the edges of the two diagrams of the RFC but for the two optional ones,
-- which they refuse, with their targets.
pub tables_are_diagrams :
    (s s' : SendState) (e : SendEvent) (r r' : RecvState) (d : RecvEvent)
    → ((send_step s e ≡ (s', true)) ↔ SendEdge s e s')
      × ((recv_step r d ≡ (r', true)) ↔ (RecvEdge r d r' × (is_optional r d ≡ false)))
tables_are_diagrams s s' e r r' d = (
  (
    (λ p.
        subst (SendEdge s e) (ap (λ (t : SendState × Bool). t.0) p)
          (send_step-edge s e (ap (λ (t : SendState × Bool). t.1) p))),
    SendEdge-step,
  ),
  (
    (λ p.
        let (edge, kept) = recv_step-edge r d (ap (λ (t : RecvState × Bool). t.1) p) in
        (subst (RecvEdge r d) (ap (λ (t : RecvState × Bool). t.0) p) edge, kept)),
    RecvEdge-step,
  ),
)

-- What happens to a bidirectional stream: an event of one half.
pub data Event : Type 0 where
  sending : SendEvent → Event
  receiving : RecvEvent → Event

abbrev pub handle : Bidi → Event → Bidi × Bool
handle b (sending e) = let (s, fine) = send_step b.send_half e in (record b { send_half = s }, fine)
handle b (receiving e) =
    let (s, fine) = recv_step b.recv_half e in (record b { recv_half = s }, fine)

-- The state after the events, and how many of them were accepted.
unfoldable pub run : Bidi → List Event → Bidi × ℕ
run b [] = (b, 0)
run b (e ∷ es) =
    let (b', fine) = handle b e in let (end, n) = run b' es in (end, if fine then suc n else n)

-- How many more events each half can take.
abbrev send_left : SendState → ℕ
send_left SendState.ready = 4
send_left SendState.send = 3
send_left SendState.data_sent = 2
send_left SendState.data_recvd = 0
send_left SendState.reset_sent = 1
send_left SendState.reset_recvd = 0

abbrev recv_left : RecvState → ℕ
recv_left RecvState.recv = 3
recv_left RecvState.size_known = 2
recv_left RecvState.data_recvd = 1
recv_left RecvState.data_read = 0
recv_left RecvState.reset_recvd = 1
recv_left RecvState.reset_read = 0

abbrev left : Bidi → ℕ
left b = send_left b.send_half + recv_left b.recv_half

handle-left :
    (b : Bidi) (e : Event) → (if (handle b e).1 then 1 else 0) + left (handle b e).0 ≤ left b
unfolding send_step recv_step
handle-left b (sending e) = ground arith
handle-left b (receiving e) = ground arith

run-left : (es : List Event) (b : Bidi) → (run b es).1 + left (run b es).0 ≤ left b
unfolding run
run-left [] b = omega arith
run-left (e ∷ es) b = ground (arith, handle-left b e, run-left es (handle b e).0)

closed_refuses : (b : Bidi) (e : Event) → bidi_closed b ≡ true → handle b e ≡ (b, false)
unfolding bidi_closed send_terminal recv_terminal send_step recv_step
closed_refuses b (sending e) h = ground arith
closed_refuses b (receiving e) h = ground arith

-- A closed stream takes no event and stays closed for good.
closed_for_good : (es : List Event) (b : Bidi) → bidi_closed b ≡ true → run b es ≡ (b, 0)
unfolding run
closed_for_good [] b h = refl
closed_for_good (e ∷ es) b h = ground (arith, closed_refuses b e h, closed_for_good es b h)

-- A stream takes at most seven events in its life, whatever is tried on it, and once both halves have
-- ended it is closed for good: it takes none of the events that follow.
pub stream_life :
    (es more : List Event)
    → bidi_closed (run bidi_init es).0 ≡ true
    → ((run bidi_init es).1 ≤ 7) × (run (run bidi_init es).0 more ≡ ((run bidi_init es).0, 0))
unfolding bidi_init
stream_life es more h =
    (omega (arith, run-left es bidi_init), closed_for_good more (run bidi_init es).0 h)
