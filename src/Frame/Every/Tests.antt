-- ===== src/Frame/Every/Tests.antt =====
-- Runs of the frame codecs.
use quic_vibe.Common.{◌≤◌, ◌≡◌, refl, none, some, [], ◌∷◌, arith}
use quic_vibe.BigEndian.{write_be, read_be}
use quic_vibe.Varint
use quic_vibe.Varint.{len, class_from, put_be, encode, get_be, decode}
use quic_vibe.Frame.Wire.{RoundTrips, write_bytes, read_bytes}
use quic_vibe.Frame.Every
use quic_vibe.Frame.Every.{Frame, IsWritable, decode_like}
use quic_vibe.Frame.Every.Codecs.{frame_round_trip, truncated_refused}
use quic_vibe.Frame.Data.{
  StreamFrame, get_stream, take_stream_hdr, take_opt_offset, stream_type, put_stream,
  put_stream_hdr, put_stream_prefix, put_opt_offset,
}
use quic_vibe.Frame.Ack.{
  AckFrame, ack_decode, take_ack_prologue, take_ack_head, take_ack_meta, take_first, count_fits,
  take_ack_rest, take_ack_pairs, take_pair, take_two, pair_fits, take_ack_ecn,
}
use quic_vibe.Frame.Ack.Decoded.{IsDescending, ack_decode-IsDescending}

abbrev hello : StreamFrame
hello = record { stream_id = 4; offset = 0; payload = 104 ∷ 105 ∷ []; fin = 1 }

hello_written : put_stream 1200 hello ≡ some (0x0b ∷ 4 ∷ 2 ∷ 104 ∷ 105 ∷ [])
unfolding put_stream put_stream_hdr put_stream_prefix put_opt_offset stream_type write_bytes
    Varint.put encode len class_from put_be write_be
hello_written = refl

hello-IsWritable : IsWritable 1200 (Frame.stream hello)
unfolding encode len class_from put_be write_be stream_type
hello-IsWritable = (omega arith, omega arith, omega arith, omega arith, omega arith, omega arith)

frame_round_trip_example :
    RoundTrips (Every.encode 1200) (decode_like (Frame.stream hello)) (Frame.stream hello) (1 ∷ [])
frame_round_trip_example = frame_round_trip 1200 (Frame.stream hello) (1 ∷ []) hello-IsWritable

truncated_refused_example : decode_like (Frame.stream hello) (0x0b ∷ 4 ∷ 2 ∷ 104 ∷ []) ≡ none
truncated_refused_example =
    truncated_refused 1200 (Frame.stream hello) 0x0b (4 ∷ 2 ∷ 104 ∷ []) 105 [] hello-IsWritable
      hello_written

-- The type bits without LEN (0x08) mean data up to the end of the packet; the decoder still reads a
-- length, and takes the first data byte for it.
stream_without_len :
    get_stream (0x08 ∷ 4 ∷ 1 ∷ 105 ∷ 106 ∷ [])
    ≡ some (record { stream_id = 4; offset = 0; payload = 105 ∷ []; fin = 0 }, 4)
unfolding get_stream take_stream_hdr take_opt_offset Varint.take decode get_be read_be read_bytes
stream_without_len = refl

-- Numbers 9 and 8, then 5: a gap of one range.
abbrev two_ranges : AckFrame
two_ranges = record {
  ack_delay = 3;
  ranges = (record { hi = 9; lo = 8 }) ∷ (record { hi = 5; lo = 5 }) ∷ [];
  has_ecn = 0;
  ect0 = 0;
  ect1 = 0;
  ce = 0;
}

two_ranges_read : ack_decode (0x02 ∷ 9 ∷ 3 ∷ 1 ∷ 1 ∷ 1 ∷ 0 ∷ []) ≡ some (two_ranges, 7)
unfolding ack_decode take_ack_prologue take_ack_head take_ack_meta take_first count_fits
    take_ack_rest take_ack_pairs take_pair take_two pair_fits take_ack_ecn Varint.take decode get_be
    read_be
two_ranges_read = refl

ack_decode-IsDescending_example : IsDescending two_ranges.ranges × (1 ≤ 2) × (2 ≤ 32)
ack_decode-IsDescending_example =
    ack_decode-IsDescending 0x02 (9 ∷ 3 ∷ 1 ∷ 1 ∷ 1 ∷ 0 ∷ []) two_ranges 7
      (omega arith, (omega arith, (omega arith, (omega arith, (omega arith, (omega arith, tt))))))
      two_ranges_read
