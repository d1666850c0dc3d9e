-- ===== src/Frame/FlowControl.antt =====
-- The flow-control frames (src/transport/packet/frame/frame/flowctl.c).
pub mod RoundTrip
pub mod Local
use Prim.Native.Nat.{bit_and}
use quic_vibe.Common.{
  ℕ, zero, suc, ◌+◌, ◌-◌, ◌*◌, ◌/◌, ◌%◌, ◌^◌, ◌≤◌, ◌<◌, min, max, ◌≡◌, refl, sym, ap, ap₂, ◌∙◌, ◌≢◌,
  ◌↔◌, ◌⊎◌, inl, inr, Bool, true, false, not, ◌&&◌, ◌||◌, Option, none, some, List, [], ◌∷◌, ◌++◌,
  map, append-nil, append_assoc, arith, ltb, leb, ◌==◌, if◌then◌else◌, ltb→lt, lt→ltb, leb→le,
  le→leb, ==→eq, Bool-cases, Option-cases, to_bit, length, get_elem?, get_or, set, replicate, All,
  length-append, length-set, length-take, length-drop, length-replicate, get_or-set_self,
  get_or-set_ne, take_append, drop_append, take-append-drop, All-append, ◌>>=◌, ◌>>◌, guard,
  >>=-eq-some,
}
use quic_vibe.Common.Word.{IsByte, IsU64, u8, u32, u64, ◌+ᵤ◌, ◌-ᵤ◌, ◌*ᵤ◌}
use quic_vibe.Varint
use quic_vibe.Frame.Wire.{after_type, offset}

-- quic_data_frame
pub record DataFrame : Type 0 where
  pub value : ℕ

-- quic_stream_data_frame
pub record StreamDataFrame : Type 0 where
  pub stream_id : ℕ
  pub value : ℕ

-- quic_streams_frame; the direction `uni` is 0 or 1.
pub record StreamsFrame : Type 0 where
  pub max_streams : ℕ
  pub uni : ℕ

abbrev pub frame_max_data : ℕ
frame_max_data = 0x10

abbrev pub frame_max_stream_data : ℕ
frame_max_stream_data = 0x11

abbrev pub frame_max_streams_bidi : ℕ
frame_max_streams_bidi = 0x12

abbrev pub frame_data_blocked : ℕ
frame_data_blocked = 0x14

abbrev pub frame_stream_data_blocked : ℕ
frame_stream_data_blocked = 0x15

abbrev pub frame_streams_blocked_bidi : ℕ
frame_streams_blocked_bidi = 0x16

unfoldable pub put_one_varint_frame : ℕ → ℕ → ℕ → Option (List ℕ)
put_one_varint_frame cap type value = do w ← Varint.put cap [] type; Varint.put cap w value

-- The value and the cursor behind it.
unfoldable pub get_one_varint_frame : List ℕ → Option (ℕ × List ℕ)
get_one_varint_frame buf = Varint.take (after_type buf)

unfoldable pub put_two_varint_frame : ℕ → ℕ → ℕ → ℕ → Option (List ℕ)
put_two_varint_frame cap type a b = do w ← put_one_varint_frame cap type a; Varint.put cap w b

unfoldable pub get_two_varint_frame : List ℕ → Option (ℕ × ℕ × List ℕ)
get_two_varint_frame buf = do
  (a, r) ← get_one_varint_frame buf
  (b, r') ← Varint.take r
  some (a, b, r')

unfoldable pub max_data_encode : ℕ → DataFrame → Option (List ℕ)
max_data_encode cap f = put_one_varint_frame cap frame_max_data f.value

-- The frame and the number of bytes read.
abbrev pub data_frame_of : List ℕ → Option (ℕ × List ℕ) → Option (DataFrame × ℕ)
data_frame_of buf none = none
data_frame_of buf (some (v, r)) = some (record { value = v }, offset buf r)

unfoldable pub max_data_decode : List ℕ → Option (DataFrame × ℕ)
max_data_decode buf = data_frame_of buf (get_one_varint_frame buf)

unfoldable pub data_blocked_encode : ℕ → DataFrame → Option (List ℕ)
data_blocked_encode cap f = put_one_varint_frame cap frame_data_blocked f.value

unfoldable pub data_blocked_decode : List ℕ → Option (DataFrame × ℕ)
data_blocked_decode buf = data_frame_of buf (get_one_varint_frame buf)

unfoldable pub max_stream_data_encode : ℕ → StreamDataFrame → Option (List ℕ)
max_stream_data_encode cap f = put_two_varint_frame cap frame_max_stream_data f.stream_id f.value

abbrev pub stream_data_frame_of : List ℕ → Option (ℕ × ℕ × List ℕ) → Option (StreamDataFrame × ℕ)
stream_data_frame_of buf none = none
stream_data_frame_of buf (some (a, b, r)) = some (record { stream_id = a; value = b }, offset buf r)

unfoldable pub max_stream_data_decode : List ℕ → Option (StreamDataFrame × ℕ)
max_stream_data_decode buf = stream_data_frame_of buf (get_two_varint_frame buf)

unfoldable pub stream_data_blocked_encode : ℕ → StreamDataFrame → Option (List ℕ)
stream_data_blocked_encode cap f =
    put_two_varint_frame cap frame_stream_data_blocked f.stream_id f.value

unfoldable pub stream_data_blocked_decode : List ℕ → Option (StreamDataFrame × ℕ)
stream_data_blocked_decode buf = stream_data_frame_of buf (get_two_varint_frame buf)

-- `bidi_type + (uni ? 1 : 0)`
unfoldable pub streams_type : ℕ → ℕ → ℕ
streams_type bidi_type uni = bidi_type + (if uni == 0 then 0 else 1)

unfoldable pub max_streams_encode : ℕ → StreamsFrame → Option (List ℕ)
max_streams_encode cap f =
    put_one_varint_frame cap (streams_type frame_max_streams_bidi f.uni) f.max_streams

-- `buf[0] & 1` is the direction.
abbrev pub streams_frame_of : List ℕ → Option (ℕ × List ℕ) → Option (StreamsFrame × ℕ)
streams_frame_of buf none = none
streams_frame_of buf (some (v, r)) =
    some (record { max_streams = v; uni = bit_and (get_or buf 0 0) 1 }, offset buf r)

unfoldable pub max_streams_decode : List ℕ → Option (StreamsFrame × ℕ)
max_streams_decode buf = streams_frame_of buf (get_one_varint_frame buf)

unfoldable pub streams_blocked_encode : ℕ → StreamsFrame → Option (List ℕ)
streams_blocked_encode cap f =
    put_one_varint_frame cap (streams_type frame_streams_blocked_bidi f.uni) f.max_streams

unfoldable pub streams_blocked_decode : List ℕ → Option (StreamsFrame × ℕ)
streams_blocked_decode buf = streams_frame_of buf (get_one_varint_frame buf)
