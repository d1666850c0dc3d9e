-- ===== src/Stream/Limits.antt =====
-- How many streams a peer may open: src/transport/stream/flow/flow/streams.c and stream_credit.c,
-- and the check for violations of src/transport/stream/flow/flowviol/flowviol.c.
use quic_vibe.Common.{
  ℕ, ◌≤◌, ◌<◌, ◌≡◌, ◌↔◌, Bool, true, false, not, Option, none, some, arith, ltb, leb, if◌then◌else◌,
}
use quic_vibe.Common.Word.{◌+ᵤ◌}
use quic_vibe.Stream.Flow.{credit_init, credit_violation}

-- quic_streams
pub record Streams : Type 0 where
  pub limit : ℕ
  pub opened : ℕ

unfoldable pub streams_init : ℕ → Streams
streams_init limit = record { limit = limit; opened = 0 }

unfoldable pub streams_set_max : Streams → ℕ → Streams × Bool
streams_set_max s new_limit =
    if leb new_limit s.limit then (s, false) else (record s { limit = new_limit }, true)

unfoldable pub streams_may_open : Streams → ℕ → Bool
streams_may_open s index = ltb index s.limit

unfoldable pub streams_opened : Streams → Streams
streams_opened s = record s { opened = s.opened +ᵤ 1 }

unfoldable pub streams_observe : Streams → ℕ → Streams
streams_observe s index =
    let needed = index +ᵤ 1 in if ltb s.opened needed then record s { opened = needed } else s

-- quic_stream_credit
pub record StreamCredit : Type 0 where
  pub max_streams : ℕ
  pub count : ℕ

unfoldable pub stream_credit_init : ℕ → StreamCredit
stream_credit_init max_streams = record { max_streams = max_streams; count = 0 }

unfoldable pub stream_credit_open : StreamCredit → StreamCredit × Bool
stream_credit_open s =
    if leb s.max_streams s.count then (s, false) else (record s { count = s.count +ᵤ 1 }, true)

unfoldable pub stream_credit_grant : StreamCredit → ℕ → StreamCredit
stream_credit_grant s new_max =
    if ltb s.max_streams new_max then record s { max_streams = new_max } else s

abbrev pub ec_flow_control_error : ℕ
ec_flow_control_error = 0x03

abbrev pub ec_stream_limit_error : ℕ
ec_stream_limit_error = 0x04

unfoldable pub data_violation : ℕ → ℕ → Bool
unfolding credit_init credit_violation
data_violation received_total max_data = credit_violation (credit_init max_data) received_total

unfoldable pub stream_violation : ℕ → ℕ → Bool
unfolding stream_credit_init stream_credit_open
stream_violation stream_count max_streams =
    not (stream_credit_open (record (stream_credit_init max_streams) { count = stream_count })).1

-- The error code to close with; `none` is the C result 0.
unfoldable pub flowviol_check : ℕ → ℕ → ℕ → ℕ → Option ℕ
unfolding data_violation stream_violation
flowviol_check received_total max_data stream_count max_streams =
    if data_violation received_total max_data
    then some ec_flow_control_error
    else if stream_violation stream_count max_streams
    then some ec_stream_limit_error
    else none

-- The check reports data past its limit first, then a stream count that has reached its own, and
-- nothing if both are within.
flowviol_check_cases :
    (received max_data count max_streams : ℕ)
    → ((flowviol_check received max_data count max_streams ≡ some ec_flow_control_error)
        ↔ (max_data < received))
      × ((flowviol_check received max_data count max_streams ≡ some ec_stream_limit_error)
          ↔ ((received ≤ max_data) × (max_streams ≤ count)))
      × ((flowviol_check received max_data count max_streams ≡ none)
          ↔ ((received ≤ max_data) × (count < max_streams)))
unfolding flowviol_check
flowviol_check_cases received max_data count max_streams = (
  ((λ e. ground arith), (λ e. ground arith)),
  ((λ e. ground arith), (λ e. ground arith)),
  ((λ e. ground arith), (λ e. ground arith)),
)
