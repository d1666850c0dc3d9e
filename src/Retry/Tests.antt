-- ===== src/Retry/Tests.antt =====
-- A Retry packet at concrete values.
use quic_vibe.Common.{ℕ, ◌≡◌, ◌∷◌, [], List, some, replicate, length, arith, refl}
use quic_vibe.PacketHeader.{Header, header_parse}
use quic_vibe.Retry.{Packet, retry_build, retry_parse}
use quic_vibe.Retry.RoundTrip.{retry_round_trip}

abbrev small_retry : Packet
small_retry = record {
  version = 1;
  dcid = 8 ∷ 9 ∷ [];
  scid = 5 ∷ [];
  token = 70 ∷ 71 ∷ 72 ∷ [];
  tag = replicate 16 7;
}

abbrev preset : Header
preset = record { form = 0; long_type = 0; version = 0; dcid = []; scid = [] }

retry_round_trip_example :
    (out : List ℕ) × (retry_build 100 small_retry ≡ some out)
    × (retry_parse out ≡ some (small_retry, length out))
    × (header_parse preset out
        ≡ some
            (record { form = 1; long_type = 3; version = 1; dcid = 8 ∷ 9 ∷ []; scid = 5 ∷ [] }, 10))
retry_round_trip_example =
    retry_round_trip 100 small_retry preset (omega arith) (omega arith) (omega arith) refl
      (omega arith)
