-- ===== src/Frame/FlowControl/RoundTrip.antt =====
-- Every flow-control frame is read back as it was written.
use quic_vibe.Common.{
  ℕ, ◌+◌, ◌*◌, ◌^◌, ◌≤◌, ◌<◌, ◌≡◌, some, List, [], ◌∷◌, ◌++◌, append-nil, append_assoc, arith,
  length-append,
}
use quic_vibe.Varint.{encode, len}
use quic_vibe.Common.Bits.{bit_and_low}
use quic_vibe.Varint.Cursor.{take-encode, encode_small, length-encode}
use quic_vibe.Frame.Wire.{IsVarint, put_all, put_all_fits, offset-append, RoundTrips}
use quic_vibe.Frame.FlowControl.{
  put_one_varint_frame, get_one_varint_frame, put_two_varint_frame, get_two_varint_frame,
  max_data_encode, max_data_decode, data_blocked_encode, data_blocked_decode,
  max_stream_data_encode, max_stream_data_decode, stream_data_blocked_encode,
  stream_data_blocked_decode, streams_type, data_frame_of, stream_data_frame_of, streams_frame_of,
  max_streams_encode, max_streams_decode, streams_blocked_encode, streams_blocked_decode,
}

put_one-put_all : (cap t v : ℕ) → put_one_varint_frame cap t v ≡ put_all cap [] (t ∷ v ∷ [])
unfolding put_one_varint_frame put_all
put_one-put_all cap t v = ground arith

put_two-put_all : (cap t a b : ℕ) → put_two_varint_frame cap t a b ≡ put_all cap [] (t ∷ a ∷ b ∷ [])
unfolding put_two_varint_frame put_one_varint_frame put_all
put_two-put_all cap t a b = ground arith

-- What a one-varint frame holds once it is written.
one_written :
    (cap t v : ℕ)
    → t < 64
    → IsVarint v
    → 1 + len v ≤ cap
    → cap < 2 ^ 63
    → put_one_varint_frame cap t v ≡ some (t ∷ encode v)
one_written cap t v small h room c = ground (
  arith,
  put_one-put_all cap t v,
  encode_small t small,
  length-encode v,
  append-nil (encode v),
  put_all_fits cap [] (t ∷ v ∷ []),
)

two_written :
    (cap t a b : ℕ)
    → t < 64
    → IsVarint a
    → IsVarint b
    → 1 + len a + len b ≤ cap
    → cap < 2 ^ 63
    → put_two_varint_frame cap t a b ≡ some (t ∷ (encode a ++ encode b))
two_written cap t a b small ha hb room c = ground (
  arith,
  put_two-put_all cap t a b,
  encode_small t small,
  length-encode a,
  length-encode b,
  length-append (encode a) (encode b),
  append-nil (encode b),
  put_all_fits cap [] (t ∷ a ∷ b ∷ []),
)

one_read :
    (t v : ℕ) (rest : List ℕ)
    → IsVarint v
    → get_one_varint_frame (t ∷ (encode v ++ rest)) ≡ some (v, rest)
unfolding get_one_varint_frame
one_read t v rest h = take-encode v rest h

two_read :
    (t a b : ℕ) (rest : List ℕ)
    → IsVarint a
    → IsVarint b
    → get_two_varint_frame (t ∷ ((encode a ++ encode b) ++ rest)) ≡ some (a, b, rest)
unfolding get_two_varint_frame
two_read t a b rest ha hb =
    rw (append_assoc (encode a) (encode b) rest)
      (ground (arith, one_read t a (encode b ++ rest) ha, take-encode b rest hb))

streams_type-eq : (t uni : ℕ) → uni ≤ 1 → streams_type t uni ≡ t + uni
unfolding streams_type
streams_type-eq t uni h = ground arith

module _ (cap a : ℕ) (rest : List ℕ) (ha : IsVarint a) (room : 1 + len a ≤ cap)
    (small : cap < 2 ^ 63) where
  data_frame_round :
      (t : ℕ)
      → t < 64
      → RoundTrips
          (λ f. put_one_varint_frame cap t f.value)
          (λ buf. data_frame_of buf (get_one_varint_frame buf))
          (record { value = a })
          rest
  data_frame_round t h = (
    t ∷ encode a,
    one_written cap t a h ha room small,
    ground (arith, one_read t a rest ha, offset-append (t ∷ encode a) rest),
  )

  -- The direction is bit 0 of the type, which is even for a bidirectional stream.
  streams_frame_round :
      (t uni : ℕ)
      → t < 32
      → uni ≤ 1
      → RoundTrips
          (λ f. put_one_varint_frame cap (streams_type (2 * t) f.uni) f.max_streams)
          (λ buf. streams_frame_of buf (get_one_varint_frame buf))
          (record { max_streams = a; uni = uni })
          rest
  streams_frame_round t uni h u = (
    (2 * t + uni) ∷ encode a,
    rw (streams_type-eq (2 * t) uni u)
        (one_written cap (2 * t + uni) a (omega arith) ha room small),
    ground (
      arith,
      bit_and_low 1 (2 * t + uni),
      one_read (2 * t + uni) a rest ha,
      offset-append ((2 * t + uni) ∷ encode a) rest,
    ),
  )

  -- MAX_DATA, DATA_BLOCKED, MAX_STREAMS and STREAMS_BLOCKED.
  pub one_value_round_trip :
      (uni : ℕ)
      → uni ≤ 1
      → RoundTrips (max_data_encode cap) max_data_decode (record { value = a }) rest
        × RoundTrips (data_blocked_encode cap) data_blocked_decode (record { value = a }) rest
        × RoundTrips
            (max_streams_encode cap)
            max_streams_decode
            (record { max_streams = a; uni = uni })
            rest
        × RoundTrips
            (streams_blocked_encode cap)
            streams_blocked_decode
            (record { max_streams = a; uni = uni })
            rest
  unfolding max_data_encode max_data_decode data_blocked_encode data_blocked_decode
      max_streams_encode max_streams_decode streams_blocked_encode streams_blocked_decode
  one_value_round_trip uni u = (
    data_frame_round 0x10 (omega arith),
    data_frame_round 0x14 (omega arith),
    streams_frame_round 9 uni (omega arith) u,
    streams_frame_round 11 uni (omega arith) u,
  )

module _ (cap a b : ℕ) (rest : List ℕ) (ha : IsVarint a) (hb : IsVarint b)
    (room : 1 + len a + len b ≤ cap) (small : cap < 2 ^ 63) where
  stream_data_frame_round :
      (t : ℕ)
      → t < 64
      → RoundTrips
          (λ f. put_two_varint_frame cap t f.stream_id f.value)
          (λ buf. stream_data_frame_of buf (get_two_varint_frame buf))
          (record { stream_id = a; value = b })
          rest
  stream_data_frame_round t h = (
    t ∷ (encode a ++ encode b),
    two_written cap t a b h ha hb room small,
    ground (arith, two_read t a b rest ha hb, offset-append (t ∷ (encode a ++ encode b)) rest),
  )

  -- MAX_STREAM_DATA and STREAM_DATA_BLOCKED.
  pub two_values_round_trip :
      RoundTrips
        (max_stream_data_encode cap)
        max_stream_data_decode
        (record { stream_id = a; value = b })
        rest
      × RoundTrips
          (stream_data_blocked_encode cap)
          stream_data_blocked_decode
          (record { stream_id = a; value = b })
          rest
  unfolding max_stream_data_encode max_stream_data_decode stream_data_blocked_encode
      stream_data_blocked_decode
  two_values_round_trip =
      (stream_data_frame_round 0x11 (omega arith), stream_data_frame_round 0x15 (omega arith))
