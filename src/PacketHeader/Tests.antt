-- ===== src/PacketHeader/Tests.antt =====
-- Headers at concrete values.
use quic_vibe.Common.{◌≡◌, refl, some, [], ◌∷◌, ◌++◌, arith, length}
use quic_vibe.PacketHeader.{
  Header, header_parse, build_long, put_long_prefix, write_cids, cids_round, write_cid,
}
use quic_vibe.PacketHeader.RoundTrip.{header_round_trip, build_long_cases}

abbrev handshake : Header
handshake = record { form = 0; long_type = 2; version = 1; dcid = 1 ∷ 2 ∷ 3 ∷ []; scid = 9 ∷ [] }

handshake_bytes : build_long 64 handshake ≡ 0xE0 ∷ 0 ∷ 0 ∷ 0 ∷ 1 ∷ 3 ∷ 1 ∷ 2 ∷ 3 ∷ 1 ∷ 9 ∷ []
unfolding build_long put_long_prefix write_cids cids_round write_cid
handshake_bytes = refl

header_round_trip_example :
    header_parse handshake (build_long 64 handshake ++ (7 ∷ []))
    ≡ some (record handshake { form = 1 }, length (build_long 64 handshake))
header_round_trip_example =
    header_round_trip 64 handshake handshake (7 ∷ []) (omega arith) (omega arith) (omega arith)
      (omega arith) (omega arith)

-- Room for 8 bytes of 11: the source id alone.
build_long_cases_example : build_long 8 handshake ≡ 1 ∷ 9 ∷ []
build_long_cases_example = build_long_cases 8 handshake
