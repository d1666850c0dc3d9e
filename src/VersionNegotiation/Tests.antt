-- ===== src/VersionNegotiation/Tests.antt =====
-- A Version Negotiation packet at concrete values.
use quic_vibe.Common.{ℕ, ◌≡◌, ◌∷◌, [], List, some, length, arith}
use quic_vibe.VersionNegotiation.{Packet, vneg_respond, vneg_parse}
use quic_vibe.VersionNegotiation.RoundTrip.{numbers, vneg_answer_round_trip}

-- Versions 1 and 2, to a client with an id of two bytes.
vneg_answer_round_trip_example :
    (out : List ℕ) × (p : Packet) × (vneg_respond 64 (1 ∷ []) (3 ∷ 4 ∷ []) (1 ∷ 0x6b3343cf ∷ [])
      ≡ some out)
    × (vneg_parse out ≡ some (p, length out))
    × (p.dcid ≡ 3 ∷ 4 ∷ [])
    × (p.scid ≡ 1 ∷ [])
    × (numbers p.versions ≡ 1 ∷ 0x6b3343cf ∷ [])
    × (p.count ≡ 2)
vneg_answer_round_trip_example =
    vneg_answer_round_trip 64 (1 ∷ []) (3 ∷ 4 ∷ []) (1 ∷ 0x6b3343cf ∷ []) (omega arith)
      (omega arith) (omega arith) (omega arith, (omega arith, tt)) (omega arith)
