-- ===== src/Coalesce/Tests.antt =====
-- A datagram at concrete values.
use quic_vibe.Common.{ℕ, ◌≤◌, ◌≡◌, ◌∷◌, [], List, none, refl}
use quic_vibe.BigEndian.{read_be}
use quic_vibe.Varint
use quic_vibe.Coalesce.{
  coalesce_begin, coalesce_next, coalesce_emit, long_packet_len, long_packet_bound, skip_to_length,
  skip_long_prefix, skip_bytes, skip_cid, has_token, skip_token, packet_bound, packets,
}
use quic_vibe.Coalesce.Partition.{AreAdjacent, coalesce_partition}

-- A Handshake packet with ids of one byte and a payload of two, and a packet with a short header.
abbrev two_packets : List ℕ
two_packets = 0xE0 ∷ 0 ∷ 0 ∷ 0 ∷ 1 ∷ 1 ∷ 8 ∷ 1 ∷ 9 ∷ 2 ∷ 70 ∷ 71 ∷ 0x40 ∷ 5 ∷ []

cut_in_two :
    (packets 2 (coalesce_begin two_packets)).0
    ≡ (record { start = 0; len = 12 }) ∷ (record { start = 12; len = 2 }) ∷ []
unfolding packets coalesce_begin coalesce_next coalesce_emit long_packet_len long_packet_bound
    skip_to_length skip_long_prefix skip_bytes skip_cid has_token skip_token packet_bound
    Varint.take Varint.decode Varint.get_be read_be
cut_in_two = refl

coalesce_partition_example :
    let x = packets 14 (coalesce_begin two_packets) in
    AreAdjacent 0 x.0 x.1.off
    × (x.1.off ≤ 14)
    × (x.1.dgram ≡ two_packets)
    × (coalesce_next x.1 ≡ none)
coalesce_partition_example = coalesce_partition two_packets
