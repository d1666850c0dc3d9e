-- ===== src/Stream/Tests.antt =====
-- Flow control, final sizes, stream counts, states and identifiers at concrete values.
use quic_vibe.Common.{◌+◌, ◌≤◌, ◌≡◌, refl, ◌↔◌, true, false, some, List, [], ◌∷◌, arith, All}
use quic_vibe.Stream.Flow.{FlowSend}
use quic_vibe.Stream.Flow.SendLimit
use quic_vibe.Stream.FinalSize
use quic_vibe.Stream.States.{
  SendState, RecvState, SendEvent, RecvEvent, bidi_init, bidi_closed, send_step, recv_step,
  send_terminal, recv_terminal,
}
use quic_vibe.Stream.States.Lifecycle

abbrev sender : FlowSend
sender = record { max_data = 10; sent = 4 }

abbrev ops : List SendLimit.SendOp
ops = SendLimit.SendOp.send 7 ∷ SendLimit.SendOp.update 20 ∷ SendLimit.SendOp.send 7 ∷ []

run_within_example :
    ((SendLimit.run sender ops).sent ≡ 4 + SendLimit.accepted sender ops)
    × ((SendLimit.run sender ops).max_data ≡ SendLimit.granted 10 ops)
    × ((SendLimit.run sender ops).sent ≤ (SendLimit.run sender ops).max_data)
run_within_example =
    SendLimit.run_within ops sender (record { limit = omega arith; within = omega arith })
      (omega arith, (omega arith, (omega arith, tt)))

abbrev events : List FinalSize.Event
events = FinalSize.Event.arrive 3 2 ∷ FinalSize.Event.finish 5 ∷ FinalSize.Event.arrive 0 4 ∷ []

abbrev end : FinalSize.FinalSize
end = record { highest = 5; final_size = 5; known = true }

run-events : FinalSize.run FinalSize.init events ≡ some end
unfolding FinalSize.run FinalSize.init FinalSize.add_data FinalSize.set_size FinalSize.note_highest
    FinalSize.size_consistent
run-events = refl

accepted_final_size_example : All (FinalSize.EndsBelow 5) events
accepted_final_size_example =
    FinalSize.accepted_final_size events end (omega arith, (tt, (omega arith, tt))) run-events refl

tables_are_diagrams_example :
    ((send_step SendState.send SendEvent.ev_fin_sent ≡ (SendState.data_sent, true))
      ↔ Lifecycle.SendEdge SendState.send SendEvent.ev_fin_sent SendState.data_sent)
    × ((recv_step RecvState.data_read RecvEvent.ev_reset ≡ (RecvState.reset_recvd, true)) ↔ (
        Lifecycle.RecvEdge RecvState.data_read RecvEvent.ev_reset RecvState.reset_recvd
        × (Lifecycle.is_optional RecvState.data_read RecvEvent.ev_reset ≡ false)))
tables_are_diagrams_example =
    Lifecycle.tables_are_diagrams SendState.send SendState.data_sent SendEvent.ev_fin_sent
      RecvState.data_read RecvState.reset_recvd RecvEvent.ev_reset

abbrev life : List Lifecycle.Event
life =
    Lifecycle.Event.sending SendEvent.ev_stream
    ∷ Lifecycle.Event.receiving RecvEvent.ev_reset
    ∷ Lifecycle.Event.receiving RecvEvent.ev_read
    ∷ Lifecycle.Event.sending SendEvent.ev_fin_sent
    ∷ Lifecycle.Event.sending SendEvent.ev_acked
    ∷ []

closed : bidi_closed (Lifecycle.run bidi_init life).0 ≡ true
unfolding bidi_closed Lifecycle.run bidi_init send_step recv_step send_terminal recv_terminal
closed = refl

stream_life_example :
    ((Lifecycle.run bidi_init life).1 ≤ 7)
    × (Lifecycle.run (Lifecycle.run bidi_init life).0 life ≡ ((Lifecycle.run bidi_init life).0, 0))
stream_life_example = Lifecycle.stream_life life life closed
