-- ===== src/Frame/Every/Codecs.antt =====
-- Every frame is read back as it was written, and not from less than the whole of it.
use quic_vibe.Common.{
  ℕ, ◌≤◌, ◌≡◌, ap, inl, inr, Option, none, some, List, [], ◌∷◌, ◌++◌, arith, Option-cases,
}
use quic_vibe.Frame.Wire.{RoundTrips}
use quic_vibe.Frame.Prefix.{IsLocal, prefixes_refused}
use quic_vibe.Frame.Ack.RoundTrip.{ack_frame_round_trip}
use quic_vibe.Frame.Ack.Local.{ack_decode-IsLocal}
use quic_vibe.Frame.Data.RoundTrip.{crypto_round_trip, stream_round_trip, close_round_trip}
use quic_vibe.Frame.Data.Local.{get_crypto-IsLocal, get_stream-IsLocal, get_conn_close-IsLocal}
use quic_vibe.Frame.StreamControl.RoundTrip.{
  reset_round_trip, stop_round_trip, reset_stream_decode-IsLocal, stop_sending_decode-IsLocal,
}
use quic_vibe.Frame.ConnControl.RoundTrip.{
  token_round_trip, retire_round_trip, path_round_trip, ncid_round_trip,
}
use quic_vibe.Frame.ConnControl.Local.{
  new_token_decode-IsLocal, retire_cid_decode-IsLocal, path_decode-IsLocal, ncid_decode-IsLocal,
}
use quic_vibe.Frame.FlowControl.RoundTrip.{one_value_round_trip, two_values_round_trip}
use quic_vibe.Frame.FlowControl.Local.{flow_control-IsLocal}
use quic_vibe.Frame.Ack.{ack_decode}
use quic_vibe.Frame.Data.{get_crypto, get_stream, get_conn_close}
use quic_vibe.Frame.StreamControl.{reset_stream_decode, stop_sending_decode}
use quic_vibe.Frame.ConnControl.{
  new_token_decode, retire_cid_decode, path_decode, ncid_decode, handshake_done_encode,
  handshake_done_decode,
}
use quic_vibe.Frame.FlowControl.{
  max_data_decode, data_blocked_decode, max_stream_data_decode, stream_data_blocked_decode,
  max_streams_decode, streams_blocked_decode,
}
use quic_vibe.Frame.Every
use quic_vibe.Frame.Every.{Frame, IsWritable, tagged, decode_like}

done_round_trip :
    (cap : ℕ) (rest : List ℕ)
    → 1 ≤ cap
    → RoundTrips (Every.encode cap) (decode_like Frame.handshake_done) Frame.handshake_done rest
unfolding handshake_done_encode handshake_done_decode
done_round_trip cap rest room = (0x1e ∷ [], ground arith, ground arith)

done-IsLocal : IsLocal (decode_like Frame.handshake_done)
unfolding handshake_done_decode
done-IsLocal t buf more f n e = ground arith

-- A frame of any of the seventeen kinds whose fields are in range (the frame type of an application's
-- close is 0), in a buffer that has room for its bytes and is shorter than 2^63, is written and then read
-- back, whatever bytes follow it: the frame decoded is the one encoded, and the length read is the
-- length written.
pub frame_round_trip :
    (cap : ℕ) (f : Frame) (rest : List ℕ)
    → IsWritable cap f
    → RoundTrips (Every.encode cap) (decode_like f) f rest
frame_round_trip cap (Frame.ack f) rest (h, r, c) =
    let (out, e, d) = ack_frame_round_trip cap f rest h r c in (out, e, ap (tagged Frame.ack) d)
frame_round_trip cap (Frame.crypto f) rest (a, b, r, c) =
    let (out, e, d) = crypto_round_trip cap f rest a b r c in (out, e, ap (tagged Frame.crypto) d)
frame_round_trip cap (Frame.stream f) rest (h, i, o, l, r, c) =
    let (out, e, d) = stream_round_trip cap f rest h i o l r c in
    (out, e, ap (tagged Frame.stream) d)
frame_round_trip cap (Frame.conn_close f) rest (h, i, o, l, r, c) =
    let (out, e, d) = close_round_trip cap f rest h i o l r c in
    (out, e, ap (tagged Frame.conn_close) d)
frame_round_trip cap (Frame.reset_stream f) rest (h, r, c) =
    let (out, e, d) = reset_round_trip cap f rest h r c in
    (out, e, ap (tagged Frame.reset_stream) d)
frame_round_trip cap (Frame.stop_sending f) rest (h, r, c) =
    let (out, e, d) = stop_round_trip cap f rest h r c in (out, e, ap (tagged Frame.stop_sending) d)
frame_round_trip cap (Frame.new_token f) rest (h, r, c) =
    let (out, e, d) = token_round_trip cap f rest h r c in (out, e, ap (tagged Frame.new_token) d)
frame_round_trip cap (Frame.retire_cid f) rest (h, r, c) =
    let (out, e, d) = retire_round_trip cap f rest h r c in (out, e, ap (tagged Frame.retire_cid) d)
frame_round_trip cap (Frame.new_cid f) rest (h, i, o, l, r, c) =
    let (out, e, d) = ncid_round_trip cap f rest h i o l r c in
    (out, e, ap (tagged Frame.new_cid) d)
frame_round_trip cap (Frame.path t f) rest (h, r) =
    let (out, e, d) = path_round_trip cap t f rest h r in (out, e, ap (tagged (Frame.path t)) d)
frame_round_trip cap (Frame.max_data f) rest (h, r, c) =
    let (out, e, d) = (one_value_round_trip cap f.value rest h r c 0 (omega arith)).0 in
    (out, e, ap (tagged Frame.max_data) d)
frame_round_trip cap (Frame.data_blocked f) rest (h, r, c) =
    let (out, e, d) = (one_value_round_trip cap f.value rest h r c 0 (omega arith)).1 in
    (out, e, ap (tagged Frame.data_blocked) d)
frame_round_trip cap (Frame.max_stream_data f) rest (h, k, r, c) =
    let (out, e, d) = (two_values_round_trip cap f.stream_id f.value rest h k r c).0 in
    (out, e, ap (tagged Frame.max_stream_data) d)
frame_round_trip cap (Frame.stream_data_blocked f) rest (h, k, r, c) =
    let (out, e, d) = (two_values_round_trip cap f.stream_id f.value rest h k r c).1 in
    (out, e, ap (tagged Frame.stream_data_blocked) d)
frame_round_trip cap (Frame.max_streams f) rest (h, u, r, c) =
    let (out, e, d) = (one_value_round_trip cap f.max_streams rest h r c f.uni u).2 in
    (out, e, ap (tagged Frame.max_streams) d)
frame_round_trip cap (Frame.streams_blocked f) rest (h, u, r, c) =
    let (out, e, d) = (one_value_round_trip cap f.max_streams rest h r c f.uni u).3 in
    (out, e, ap (tagged Frame.streams_blocked) d)
frame_round_trip cap Frame.handshake_done rest r = done_round_trip cap rest r

tagged-IsLocal :
    {F : Type 0} (tag : F → Frame) (dec : List ℕ → Option (F × ℕ))
    → IsLocal dec
    → IsLocal (λ buf. tagged tag (dec buf))
tagged-IsLocal tag dec loc t buf more f n e = elim (Option-cases (dec (t ∷ buf))) [
  | inl z ↦ absurd (ground arith)
  | inr ((g, m), p) ↦ ground (arith, loc t buf more g m p)
]

decode_like-IsLocal : (f : Frame) → IsLocal (decode_like f)
decode_like-IsLocal (Frame.ack _) = tagged-IsLocal Frame.ack ack_decode ack_decode-IsLocal
decode_like-IsLocal (Frame.crypto _) = tagged-IsLocal Frame.crypto get_crypto get_crypto-IsLocal
decode_like-IsLocal (Frame.stream _) = tagged-IsLocal Frame.stream get_stream get_stream-IsLocal
decode_like-IsLocal (Frame.conn_close _) =
    tagged-IsLocal Frame.conn_close get_conn_close get_conn_close-IsLocal
decode_like-IsLocal (Frame.reset_stream _) =
    tagged-IsLocal Frame.reset_stream reset_stream_decode reset_stream_decode-IsLocal
decode_like-IsLocal (Frame.stop_sending _) =
    tagged-IsLocal Frame.stop_sending stop_sending_decode stop_sending_decode-IsLocal
decode_like-IsLocal (Frame.new_token _) =
    tagged-IsLocal Frame.new_token new_token_decode new_token_decode-IsLocal
decode_like-IsLocal (Frame.retire_cid _) =
    tagged-IsLocal Frame.retire_cid retire_cid_decode retire_cid_decode-IsLocal
decode_like-IsLocal (Frame.new_cid _) = tagged-IsLocal Frame.new_cid ncid_decode ncid_decode-IsLocal
decode_like-IsLocal (Frame.path t _) =
    tagged-IsLocal (Frame.path t) (path_decode t) (path_decode-IsLocal t)
decode_like-IsLocal (Frame.max_data _) =
    tagged-IsLocal Frame.max_data max_data_decode flow_control-IsLocal.0
decode_like-IsLocal (Frame.data_blocked _) =
    tagged-IsLocal Frame.data_blocked data_blocked_decode flow_control-IsLocal.1
decode_like-IsLocal (Frame.max_stream_data _) =
    tagged-IsLocal Frame.max_stream_data max_stream_data_decode flow_control-IsLocal.2
decode_like-IsLocal (Frame.stream_data_blocked _) =
    tagged-IsLocal Frame.stream_data_blocked stream_data_blocked_decode flow_control-IsLocal.3
decode_like-IsLocal (Frame.max_streams _) =
    tagged-IsLocal Frame.max_streams max_streams_decode flow_control-IsLocal.4
decode_like-IsLocal (Frame.streams_blocked _) =
    tagged-IsLocal Frame.streams_blocked streams_blocked_decode flow_control-IsLocal.5
decode_like-IsLocal Frame.handshake_done = done-IsLocal

-- Of the bytes that are written for a frame, the type byte and any number of further bytes short of
-- the whole are refused by the frame's decoder.
pub truncated_refused :
    (cap : ℕ) (f : Frame) (t : ℕ) (kept : List ℕ) (b : ℕ) (lost : List ℕ)
    → IsWritable cap f
    → Every.encode cap f ≡ some (t ∷ (kept ++ (b ∷ lost)))
    → decode_like f (t ∷ kept) ≡ none
truncated_refused cap f t kept b lost h e =
    prefixes_refused (Every.encode cap) (decode_like f) f (decode_like-IsLocal f)
      (frame_round_trip cap f [] h) t kept b lost e
