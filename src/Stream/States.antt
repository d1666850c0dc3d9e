-- ===== src/Stream/States.antt =====
-- The two halves of a stream (src/transport/stream/data/stream/stream.c and bidi.c).
pub mod Lifecycle
use quic_vibe.Common.{
  ℕ, zero, suc, ◌+◌, ◌-◌, ◌*◌, ◌/◌, ◌%◌, ◌^◌, ◌≤◌, ◌<◌, min, max, ◌≡◌, refl, sym, ap, ap₂, ◌∙◌, ◌≢◌,
  ◌↔◌, ◌⊎◌, inl, inr, Bool, true, false, not, ◌&&◌, ◌||◌, Option, none, some, List, [], ◌∷◌, ◌++◌,
  map, append-nil, append_assoc, arith, ltb, leb, ◌==◌, if◌then◌else◌, ltb→lt, lt→ltb, leb→le,
  le→leb, ==→eq, Bool-cases, Option-cases, to_bit, length, get_elem?, get_or, set, take, drop,
  replicate, All, length-append, length-set, length-take, length-drop, length-replicate,
  get_or-set_self, get_or-set_ne, take_append, drop_append, take-append-drop, All-append, ◌>>=◌,
  ◌>>◌, guard, >>=-eq-some,
}
use quic_vibe.Common.Word.{IsByte, IsU64, u8, u32, u64, ◌+ᵤ◌, ◌-ᵤ◌, ◌*ᵤ◌}
use quic_vibe.Fsm.{Row, row, fsm_step}

-- quic_send_state
pub data SendState : Type 0 where
  ready send data_sent data_recvd reset_sent reset_recvd : SendState

-- quic_recv_state
pub data RecvState : Type 0 where
  recv size_known data_recvd data_read reset_recvd reset_read : RecvState

-- quic_send_event
pub data SendEvent : Type 0 where
  ev_stream ev_fin_sent ev_acked ev_reset ev_reset_acked : SendEvent

-- quic_recv_event
pub data RecvEvent : Type 0 where
  ev_fin ev_all_data ev_read ev_reset : RecvEvent

-- The C codes of the enumerators.
abbrev pub send_code : SendState → ℕ
send_code SendState.ready = 0
send_code SendState.send = 1
send_code SendState.data_sent = 2
send_code SendState.data_recvd = 3
send_code SendState.reset_sent = 4
send_code SendState.reset_recvd = 5

abbrev pub recv_code : RecvState → ℕ
recv_code RecvState.recv = 0
recv_code RecvState.size_known = 1
recv_code RecvState.data_recvd = 2
recv_code RecvState.data_read = 3
recv_code RecvState.reset_recvd = 4
recv_code RecvState.reset_read = 5

abbrev pub send_event_code : SendEvent → ℕ
send_event_code SendEvent.ev_stream = 0
send_event_code SendEvent.ev_fin_sent = 1
send_event_code SendEvent.ev_acked = 2
send_event_code SendEvent.ev_reset = 3
send_event_code SendEvent.ev_reset_acked = 4

abbrev pub recv_event_code : RecvEvent → ℕ
recv_event_code RecvEvent.ev_fin = 0
recv_event_code RecvEvent.ev_all_data = 1
recv_event_code RecvEvent.ev_read = 2
recv_event_code RecvEvent.ev_reset = 3

-- The casts back from `u8`; the tables hold no code past 5.
abbrev pub send_of_code : ℕ → SendState
send_of_code zero = SendState.ready
send_of_code (suc zero) = SendState.send
send_of_code (suc (suc zero)) = SendState.data_sent
send_of_code (suc (suc (suc zero))) = SendState.data_recvd
send_of_code (suc (suc (suc (suc zero)))) = SendState.reset_sent
send_of_code (suc (suc (suc (suc (suc n))))) = SendState.reset_recvd

abbrev pub recv_of_code : ℕ → RecvState
recv_of_code zero = RecvState.recv
recv_of_code (suc zero) = RecvState.size_known
recv_of_code (suc (suc zero)) = RecvState.data_recvd
recv_of_code (suc (suc (suc zero))) = RecvState.data_read
recv_of_code (suc (suc (suc (suc zero)))) = RecvState.reset_recvd
recv_of_code (suc (suc (suc (suc (suc n))))) = RecvState.reset_read

abbrev pub send_rows : List Row
send_rows = row 0 0 1 ∷ row 1 1 2 ∷ row 2 2 3 ∷ row 0 3 4 ∷ row 1 3 4 ∷ row 2 3 4 ∷ row 4 4 5 ∷ []

abbrev pub recv_rows : List Row
recv_rows = row 0 0 1 ∷ row 1 1 2 ∷ row 2 2 3 ∷ row 0 3 4 ∷ row 1 3 4 ∷ row 4 2 5 ∷ []

unfoldable pub send_step : SendState → SendEvent → SendState × Bool
unfolding fsm_step
send_step s ev =
    let (st, fine) = fsm_step (send_code s) send_rows (send_event_code ev) in
    (send_of_code st, fine)

unfoldable pub recv_step : RecvState → RecvEvent → RecvState × Bool
unfolding fsm_step
recv_step s ev =
    let (st, fine) = fsm_step (recv_code s) recv_rows (recv_event_code ev) in
    (recv_of_code st, fine)

-- quic_bidi
pub record Bidi : Type 0 where
  pub send_half : SendState
  pub recv_half : RecvState

unfoldable pub bidi_init : Bidi
bidi_init = record { send_half = SendState.ready; recv_half = RecvState.recv }

unfoldable pub send_terminal : SendState → Bool
send_terminal s = send_code s == 3 || send_code s == 5

unfoldable pub recv_terminal : RecvState → Bool
recv_terminal s = recv_code s == 3 || recv_code s == 5

unfoldable pub bidi_closed : Bidi → Bool
bidi_closed b = send_terminal b.send_half && recv_terminal b.recv_half
