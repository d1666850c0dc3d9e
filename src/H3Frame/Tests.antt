-- ===== src/H3Frame/Tests.antt =====
-- HTTP/3 frames at concrete values.
use quic_vibe.Common.{◌≡◌, refl, [], ◌∷◌, ◌≤◌, some, length, arith}
use quic_vibe.BigEndian.{write_be}
use quic_vibe.Varint
use quic_vibe.Varint.{encode, len}
use quic_vibe.Frame.Wire.{RoundTrips, encodes}
use quic_vibe.H3Frame.{
  Settings, settings_put, settings_get, settings_body_len, put_settings_head, put_settings_pairs,
  put_head, frame_put_pair,
}
use quic_vibe.H3Frame.RoundTrip.{pairs_of, settings_round_trip}

-- A table of 4096 bytes, and 16 blocked streams.
abbrev two_settings : Settings
two_settings = record { id = 1; value = 4096 } ∷ record { id = 7; value = 16 } ∷ []

settings_bytes : settings_put 64 two_settings ≡ some (4 ∷ 5 ∷ 1 ∷ 80 ∷ 0 ∷ 7 ∷ 16 ∷ [])
unfolding settings_put put_settings_head put_settings_pairs settings_body_len put_head
    frame_put_pair Varint.put encode len write_be
settings_bytes = refl

two_settings-fit :
    length (encodes (4 ∷ settings_body_len two_settings ∷ pairs_of two_settings)) ≤ 64
unfolding settings_body_len encode len write_be
two_settings-fit = omega arith

settings_round_trip_example : RoundTrips (settings_put 64) settings_get two_settings (0 ∷ [])
settings_round_trip_example =
    settings_round_trip 64 two_settings (0 ∷ []) (omega arith)
      (omega arith, (omega arith, (omega arith, (omega arith, tt)))) two_settings-fit (omega arith)
