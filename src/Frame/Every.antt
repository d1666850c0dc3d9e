-- ===== src/Frame/Every.antt =====
-- All the frames whose codecs are in src/transport/packet/frame/frame/, to state once what holds of
-- each encoder and its decoder.
pub mod Codecs
mod Tests
use quic_vibe.Common.{
  ℕ, zero, suc, ◌+◌, ◌-◌, ◌*◌, ◌/◌, ◌%◌, ◌^◌, ◌≤◌, ◌<◌, min, max, ◌≡◌, refl, sym, ap, ap₂, ◌∙◌, ◌≢◌,
  ◌↔◌, ◌⊎◌, inl, inr, Bool, true, false, not, ◌&&◌, ◌||◌, Option, none, some, List, [], ◌∷◌, ◌++◌,
  map, append-nil, append_assoc, arith, ltb, leb, ◌==◌, if◌then◌else◌, ltb→lt, lt→ltb, leb→le,
  le→leb, ==→eq, Bool-cases, Option-cases, to_bit, length, get_elem?, get_or, set, replicate, All,
  length-append, length-set, length-take, length-drop, length-replicate, get_or-set_self,
  get_or-set_ne, take_append, drop_append, take-append-drop, All-append, ◌>>=◌, ◌>>◌, guard,
  >>=-eq-some,
}
use quic_vibe.Common.Word.{IsByte, IsU64, u8, u32, u64, ◌+ᵤ◌, ◌-ᵤ◌, ◌*ᵤ◌}
use quic_vibe.Common.{take, drop}
use quic_vibe.Varint.{len}
use quic_vibe.Frame.Wire.{IsVarint, encodes, RoundTrips}
use quic_vibe.Frame.Ack.{AckFrame, ack_type, ack_encode, ack_decode}
use quic_vibe.Frame.Ack.Written.{IsAckFrame, ack_body}
use quic_vibe.Frame.Data.{
  CryptoFrame, StreamFrame, ConnCloseFrame, put_crypto, get_crypto, stream_type, put_stream,
  get_stream, put_conn_close, get_conn_close,
}
use quic_vibe.Frame.Data.RoundTrip.{stream_head, close_type, close_head}
use quic_vibe.Frame.StreamControl.{
  ResetStreamFrame, StopSendingFrame, reset_stream_encode, reset_stream_decode, stop_sending_encode,
  stop_sending_decode,
}
use quic_vibe.Frame.ConnControl.{
  NewTokenFrame, NcidFrame, new_token_encode, new_token_decode, retire_cid_encode,
  retire_cid_decode, path_encode, path_decode, handshake_done_encode, handshake_done_decode,
  ncid_encode, ncid_decode,
}
use quic_vibe.Frame.FlowControl.{
  DataFrame, StreamDataFrame, StreamsFrame, max_data_encode, max_data_decode, data_blocked_encode,
  data_blocked_decode, max_stream_data_encode, max_stream_data_decode, stream_data_blocked_encode,
  stream_data_blocked_decode, max_streams_encode, max_streams_decode, streams_blocked_encode,
  streams_blocked_decode,
}

pub data Frame : Type 0 where
  ack : AckFrame → Frame
  crypto : CryptoFrame → Frame
  stream : StreamFrame → Frame
  conn_close : ConnCloseFrame → Frame
  reset_stream : ResetStreamFrame → Frame
  stop_sending : StopSendingFrame → Frame
  new_token : NewTokenFrame → Frame
  retire_cid : ℕ → Frame
  new_cid : NcidFrame → Frame
  path : ℕ → List ℕ → Frame
  max_data : DataFrame → Frame
  data_blocked : DataFrame → Frame
  max_stream_data : StreamDataFrame → Frame
  stream_data_blocked : StreamDataFrame → Frame
  max_streams : StreamsFrame → Frame
  streams_blocked : StreamsFrame → Frame
  handshake_done : Frame

-- The fields of the frame are in the range of their types and there is room for it. The close of an
-- application carries no frame type; its field is 0.
abbrev pub IsWritable : ℕ → Frame → Type 0
IsWritable cap (Frame.ack f) =
    IsAckFrame f × (length (encodes (ack_type f ∷ ack_body f)) ≤ cap) × (cap < 2 ^ 63)
IsWritable cap (Frame.crypto f) =
    IsVarint f.offset
    × IsVarint (length f.payload)
    × (length (encodes (6 ∷ f.offset ∷ length f.payload ∷ [])) + length f.payload ≤ cap)
    × (cap < 2 ^ 63)
IsWritable cap (Frame.stream f) =
    (f.fin ≤ 1)
    × IsVarint f.stream_id
    × IsVarint f.offset
    × IsVarint (length f.payload)
    × (length (encodes (stream_type f ∷ stream_head f)) + length f.payload ≤ cap)
    × (cap < 2 ^ 63)
IsWritable cap (Frame.conn_close f) =
    ((f.is_app ≡ 0) ⊎ ((f.is_app ≡ 1) × (f.frame_type ≡ 0)))
    × IsVarint f.error_code
    × IsVarint f.frame_type
    × IsVarint (length f.reason)
    × (length (encodes (close_type f ∷ close_head f)) + length f.reason ≤ cap)
    × (cap < 2 ^ 63)
IsWritable cap (Frame.reset_stream f) =
    All IsVarint (f.stream_id ∷ f.error_code ∷ f.final_size ∷ [])
    × (length (encodes (4 ∷ f.stream_id ∷ f.error_code ∷ f.final_size ∷ [])) ≤ cap)
    × (cap < 2 ^ 63)
IsWritable cap (Frame.stop_sending f) =
    All IsVarint (f.stream_id ∷ f.error_code ∷ [])
    × (length (encodes (5 ∷ f.stream_id ∷ f.error_code ∷ [])) ≤ cap)
    × (cap < 2 ^ 63)
IsWritable cap (Frame.new_token f) =
    IsVarint (length f.token)
    × (length (encodes (7 ∷ length f.token ∷ [])) + length f.token ≤ cap)
    × (cap < 2 ^ 63)
IsWritable cap (Frame.retire_cid seq) =
    IsVarint seq × (length (encodes (25 ∷ seq ∷ [])) ≤ cap) × (cap < 2 ^ 63)
IsWritable cap (Frame.new_cid f) =
    All IsVarint (f.seq ∷ f.retire_prior_to ∷ [])
    × (length f.cid ≤ 20)
    × (f.retire_prior_to ≤ f.seq)
    × (length f.token ≡ 16)
    × (length (encodes (0x18 ∷ f.seq ∷ f.retire_prior_to ∷ [])) + 1 + length f.cid + 16 ≤ cap)
    × (cap < 2 ^ 63)
IsWritable cap (Frame.path type d) = (length d ≡ 8) × (9 ≤ cap)
IsWritable cap (Frame.max_data f) = IsVarint f.value × (1 + len f.value ≤ cap) × (cap < 2 ^ 63)
IsWritable cap (Frame.data_blocked f) = IsVarint f.value × (1 + len f.value ≤ cap) × (cap < 2 ^ 63)
IsWritable cap (Frame.max_stream_data f) =
    IsVarint f.stream_id
    × IsVarint f.value
    × (1 + len f.stream_id + len f.value ≤ cap)
    × (cap < 2 ^ 63)
IsWritable cap (Frame.stream_data_blocked f) =
    IsVarint f.stream_id
    × IsVarint f.value
    × (1 + len f.stream_id + len f.value ≤ cap)
    × (cap < 2 ^ 63)
IsWritable cap (Frame.max_streams f) =
    IsVarint f.max_streams × (f.uni ≤ 1) × (1 + len f.max_streams ≤ cap) × (cap < 2 ^ 63)
IsWritable cap (Frame.streams_blocked f) =
    IsVarint f.max_streams × (f.uni ≤ 1) × (1 + len f.max_streams ≤ cap) × (cap < 2 ^ 63)
IsWritable cap Frame.handshake_done = 1 ≤ cap

-- The encoder of the frame.
abbrev pub encode : ℕ → Frame → Option (List ℕ)
encode cap (Frame.ack f) = ack_encode cap f
encode cap (Frame.crypto f) = put_crypto cap f
encode cap (Frame.stream f) = put_stream cap f
encode cap (Frame.conn_close f) = put_conn_close cap f
encode cap (Frame.reset_stream f) = reset_stream_encode cap f
encode cap (Frame.stop_sending f) = stop_sending_encode cap f
encode cap (Frame.new_token f) = new_token_encode cap f
encode cap (Frame.retire_cid seq) = retire_cid_encode cap seq
encode cap (Frame.new_cid f) = ncid_encode cap f
encode cap (Frame.path type d) = path_encode cap type d
encode cap (Frame.max_data f) = max_data_encode cap f
encode cap (Frame.data_blocked f) = data_blocked_encode cap f
encode cap (Frame.max_stream_data f) = max_stream_data_encode cap f
encode cap (Frame.stream_data_blocked f) = stream_data_blocked_encode cap f
encode cap (Frame.max_streams f) = max_streams_encode cap f
encode cap (Frame.streams_blocked f) = streams_blocked_encode cap f
encode cap Frame.handshake_done = handshake_done_encode cap

abbrev pub tagged : {F : Type 0} → (F → Frame) → Option (F × ℕ) → Option (Frame × ℕ)
tagged tag none = none
tagged tag (some (f, n)) = some (tag f, n)

-- HANDSHAKE_DONE has no fields, and its decoder gives the length alone.
abbrev pub done_read : Option ℕ → Option (Frame × ℕ)
done_read none = none
done_read (some n) = some (Frame.handshake_done, n)

-- The decoder of the frames of this kind.
abbrev pub decode_like : Frame → List ℕ → Option (Frame × ℕ)
decode_like (Frame.ack _) buf = tagged Frame.ack (ack_decode buf)
decode_like (Frame.crypto _) buf = tagged Frame.crypto (get_crypto buf)
decode_like (Frame.stream _) buf = tagged Frame.stream (get_stream buf)
decode_like (Frame.conn_close _) buf = tagged Frame.conn_close (get_conn_close buf)
decode_like (Frame.reset_stream _) buf = tagged Frame.reset_stream (reset_stream_decode buf)
decode_like (Frame.stop_sending _) buf = tagged Frame.stop_sending (stop_sending_decode buf)
decode_like (Frame.new_token _) buf = tagged Frame.new_token (new_token_decode buf)
decode_like (Frame.retire_cid _) buf = tagged Frame.retire_cid (retire_cid_decode buf)
decode_like (Frame.new_cid _) buf = tagged Frame.new_cid (ncid_decode buf)
decode_like (Frame.path type _) buf = tagged (Frame.path type) (path_decode type buf)
decode_like (Frame.max_data _) buf = tagged Frame.max_data (max_data_decode buf)
decode_like (Frame.data_blocked _) buf = tagged Frame.data_blocked (data_blocked_decode buf)
decode_like (Frame.max_stream_data _) buf =
    tagged Frame.max_stream_data (max_stream_data_decode buf)
decode_like (Frame.stream_data_blocked _) buf =
    tagged Frame.stream_data_blocked (stream_data_blocked_decode buf)
decode_like (Frame.max_streams _) buf = tagged Frame.max_streams (max_streams_decode buf)
decode_like (Frame.streams_blocked _) buf =
    tagged Frame.streams_blocked (streams_blocked_decode buf)
decode_like Frame.handshake_done buf = done_read (handshake_done_decode buf)
