-- ===== src/Stream/Flow.antt =====
-- Flow control of one direction: src/transport/stream/flow/flow/flow.c, credit.c, stream_flow.c and
-- dual_flow.c. A function that changes `*f` returns the new record.
pub mod SendLimit
use quic_vibe.Common.{
  ℕ, zero, suc, ◌+◌, ◌-◌, ◌*◌, ◌/◌, ◌%◌, ◌^◌, ◌≤◌, ◌<◌, min, max, ◌≡◌, refl, sym, ap, ap₂, ◌∙◌, ◌≢◌,
  ◌↔◌, ◌⊎◌, inl, inr, Bool, true, false, not, ◌&&◌, ◌||◌, Option, none, some, List, [], ◌∷◌, ◌++◌,
  map, append-nil, append_assoc, arith, ltb, leb, ◌==◌, if◌then◌else◌, ltb→lt, lt→ltb, leb→le,
  le→leb, ==→eq, Bool-cases, Option-cases, to_bit, length, get_elem?, get_or, set, replicate, All,
  length-append, length-set, length-take, length-drop, length-replicate, get_or-set_self,
  get_or-set_ne, take_append, drop_append, take-append-drop, All-append, ◌>>=◌, ◌>>◌, guard,
  >>=-eq-some,
}
use quic_vibe.Common.Word.{IsByte, IsU64, u8, u32, u64, ◌+ᵤ◌, ◌-ᵤ◌, ◌*ᵤ◌}

-- quic_flow_send
pub record FlowSend : Type 0 where
  pub sent : ℕ
  pub max_data : ℕ

unfoldable pub send_init : ℕ → FlowSend
send_init max_data = record { sent = 0; max_data = max_data }

unfoldable pub send_avail : FlowSend → ℕ
send_avail f = if ltb f.sent f.max_data then f.max_data -ᵤ f.sent else 0

unfoldable pub send_record : FlowSend → ℕ → FlowSend × Bool
unfolding send_avail
send_record f n =
    if ltb (send_avail f) n then (f, false) else (record f { sent = f.sent +ᵤ n }, true)

-- `quic_u64_max`
abbrev pub u64_max : ℕ → ℕ → ℕ
u64_max a b = if ltb b a then a else b

unfoldable pub send_update_max : FlowSend → ℕ → FlowSend
send_update_max f max_data = record f { max_data = u64_max f.max_data max_data }

unfoldable pub send_blocked : FlowSend → ℕ → Bool
unfolding send_avail
send_blocked f want = if want == 0 then false else ltb (send_avail f) want

-- quic_flow_recv, quic_flow_credit and quic_stream_flow are one structure: what was consumed, the
-- limit advertised to the peer, and how far the limit is kept ahead.
pub record FlowRecv : Type 0 where
  pub consumed : ℕ
  pub max_data : ℕ
  pub window : ℕ

unfoldable pub recv_init : ℕ → FlowRecv
recv_init window = record { consumed = 0; max_data = window; window = window }

-- The new record and the limit to advertise.
unfoldable pub recv_consume : FlowRecv → ℕ → FlowRecv × ℕ
recv_consume f n =
    let consumed = f.consumed +ᵤ n in
    let max_data = consumed +ᵤ f.window in
    (record f { consumed = consumed; max_data = max_data }, max_data)

unfoldable pub credit_init : ℕ → FlowRecv
credit_init initial_max = record { consumed = 0; max_data = initial_max; window = initial_max }

unfoldable pub credit_consume : FlowRecv → ℕ → FlowRecv × ℕ
credit_consume c n =
    let consumed = c.consumed +ᵤ n in
    let max_data = consumed +ᵤ c.window in
    (record c { consumed = consumed; max_data = max_data }, max_data)

unfoldable pub credit_violation : FlowRecv → ℕ → Bool
credit_violation c received_total = ltb c.max_data received_total

unfoldable pub stream_flow_violation : ℕ → ℕ → Bool
stream_flow_violation received max_stream_data = ltb max_stream_data received

unfoldable pub dual_flow_ok : ℕ → ℕ → ℕ → ℕ → Bool
dual_flow_ok stream_used stream_max conn_used conn_max =
    leb stream_used stream_max && leb conn_used conn_max
