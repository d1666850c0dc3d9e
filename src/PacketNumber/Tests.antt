-- ===== src/PacketNumber/Tests.antt =====
-- Packet numbers at concrete values, the example of RFC 9000 A.3 among them.
use quic_vibe.Common.{◌≡◌, refl, [], ◌∷◌, arith}
use quic_vibe.BigEndian.{read_be}
use quic_vibe.PacketNumber.{
  pnum_len, encode, decode, nearest, below_window, above_window, candidate_of,
}
use quic_vibe.PacketNumber.Length.{decode-pnum_len}

decode_rfc : decode (155 ∷ 50 ∷ []) 2 2821665002 ≡ 2821692210
unfolding decode nearest below_window above_window candidate_of read_be
decode_rfc = refl

decode-pnum_len_example :
    decode (encode 11304010 (pnum_len 11304010 11212730)) (pnum_len 11304010 11212730) 11304000
    ≡ 11304010
decode-pnum_len_example =
    decode-pnum_len 11304010 11212730 11304000 (omega arith) (omega arith) (omega arith)
      (omega arith) (omega arith) (omega arith)
