-- ===== src/Varint/Tests.antt =====
-- Variable-length integers at the values of RFC 9000 A.1.
use quic_vibe.Common.{ℕ, length, List, ◌≤◌, ◌≡◌, refl, some, [], ◌∷◌, ◌++◌, arith}
use quic_vibe.BigEndian.{write_be, read_be}
use quic_vibe.Varint.{varint_max, encode, decode, len, put_be, class_from, get_be}
use quic_vibe.Varint.Bounds.{decode_bounds}
use quic_vibe.Varint.RoundTrip.{decode-encode}

encode_15293 : encode 15293 ≡ 0x7b ∷ 0xbd ∷ []
unfolding encode len put_be class_from write_be
encode_15293 = refl

-- A value is read from an encoding that is longer than needed.
decode_37 : decode (0x40 ∷ 0x25 ∷ 9 ∷ []) ≡ some (37, 2)
unfolding decode get_be read_be
decode_37 = refl

decode-encode_example : decode (encode 494878333 ++ 7 ∷ []) ≡ some (494878333, len 494878333)
decode-encode_example = decode-encode 494878333 (7 ∷ []) (omega arith)

abbrev long_form : List ℕ
long_form = 0x40 ∷ 0x25 ∷ 9 ∷ []

decode_bounds_example :
    (37 ≤ varint_max) × (1 ≤ 2) × (2 ≤ length long_form) × (2 ≤ 8) × (len 37 ≤ 2)
decode_bounds_example =
    decode_bounds long_form 37 2 (omega arith, (omega arith, (omega arith, tt))) decode_37
