-- ===== src/Frame/StreamControl/RoundTrip.antt =====
-- RESET_STREAM and STOP_SENDING are read back, and not from less than the whole frame.
use quic_vibe.Common.{
  ℕ, ◌^◌, ◌≤◌, ◌<◌, ◌≡◌, some, List, [], ◌∷◌, ◌++◌, arith, length, All, >>=-eq-some,
}
use quic_vibe.Varint
use quic_vibe.Frame.Wire.{IsVarint, encodes, put_all, RoundTrips}
use quic_vibe.Frame.Framed.{take-encodes, varints_round}
use quic_vibe.Frame.Prefix.{take_extends, offset_extends, IsLocal}
use quic_vibe.Frame.StreamControl.{
  ResetStreamFrame, StopSendingFrame, put_rs_head, put_rs_tail, reset_stream_encode, take_rs_head,
  reset_stream_decode, put_ss_head, stop_sending_encode, stop_sending_decode,
}

put_reset-put_all :
    (cap : ℕ) (f : ResetStreamFrame)
    → reset_stream_encode cap f
      ≡ put_all cap [] (4 ∷ f.stream_id ∷ f.error_code ∷ f.final_size ∷ [])
unfolding reset_stream_encode put_rs_head put_rs_tail put_all
put_reset-put_all cap f = ground arith

put_stop-put_all :
    (cap : ℕ) (f : StopSendingFrame)
    → stop_sending_encode cap f ≡ put_all cap [] (5 ∷ f.stream_id ∷ f.error_code ∷ [])
unfolding stop_sending_encode put_ss_head put_all
put_stop-put_all cap f = ground arith

pub reset_round_trip :
    (cap : ℕ) (f : ResetStreamFrame) (rest : List ℕ)
    → All IsVarint (f.stream_id ∷ f.error_code ∷ f.final_size ∷ [])
    → length (encodes (4 ∷ f.stream_id ∷ f.error_code ∷ f.final_size ∷ [])) ≤ cap
    → cap < 2 ^ 63
    → RoundTrips (reset_stream_encode cap) reset_stream_decode f rest
unfolding reset_stream_decode take_rs_head
reset_round_trip cap f rest h room small =
    varints_round (reset_stream_encode cap) reset_stream_decode f cap 4
      (f.stream_id ∷ f.error_code ∷ f.final_size ∷ []) rest (omega arith) (put_reset-put_all cap f)
      h room small
      λ buf b. rw b (
        ground (
          arith,
          take-encodes f.stream_id (f.error_code ∷ f.final_size ∷ []) rest h.0,
          take-encodes f.error_code (f.final_size ∷ []) rest h.1.0,
          take-encodes f.final_size [] rest h.1.1.0,
        ))

pub stop_round_trip :
    (cap : ℕ) (f : StopSendingFrame) (rest : List ℕ)
    → All IsVarint (f.stream_id ∷ f.error_code ∷ [])
    → length (encodes (5 ∷ f.stream_id ∷ f.error_code ∷ [])) ≤ cap
    → cap < 2 ^ 63
    → RoundTrips (stop_sending_encode cap) stop_sending_decode f rest
unfolding stop_sending_decode
stop_round_trip cap f rest h room small =
    varints_round (stop_sending_encode cap) stop_sending_decode f cap 5
      (f.stream_id ∷ f.error_code ∷ []) rest (omega arith) (put_stop-put_all cap f) h room small
      λ buf b. rw b (
        ground (
          arith,
          take-encodes f.stream_id (f.error_code ∷ []) rest h.0,
          take-encodes f.error_code [] rest h.1.0,
        ))

take_rs_head_extends :
    (r more : List ℕ) (x : ℕ × ℕ × List ℕ)
    → take_rs_head r ≡ some x
    → (take_rs_head (r ++ more) ≡ some (x.0, x.1, x.2 ++ more)) × (length x.2 ≤ length r)
unfolding take_rs_head
take_rs_head_extends r more x e =
    let (a, p, q) = >>=-eq-some (Varint.take r) _ e in
    let (b, p', q') = >>=-eq-some (Varint.take a.1) _ q in
    ground (arith, take_extends r more a p, take_extends a.1 more b p')

pub reset_stream_decode-IsLocal : IsLocal reset_stream_decode
unfolding reset_stream_decode
reset_stream_decode-IsLocal t buf more f n e =
    let (a, p, q) = >>=-eq-some (take_rs_head buf) _ e in
    let (b, p', q') = >>=-eq-some (Varint.take a.2) _ q in
    ground (
      arith,
      take_rs_head_extends buf more a p,
      take_extends a.2 more b p',
      offset_extends (t ∷ buf) b.1 more,
    )

pub stop_sending_decode-IsLocal : IsLocal stop_sending_decode
unfolding stop_sending_decode
stop_sending_decode-IsLocal t buf more f n e =
    let (a, p, q) = >>=-eq-some (Varint.take buf) _ e in
    let (b, p', q') = >>=-eq-some (Varint.take a.1) _ q in
    ground (
      arith,
      take_extends buf more a p,
      take_extends a.1 more b p',
      offset_extends (t ∷ buf) b.1 more,
    )
