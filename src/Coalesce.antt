-- ===== src/Coalesce.antt =====
-- The packets of a datagram (src/transport/packet/header/packet/coalesce.c), and the loop
-- of quic_udploop_split over them (src/transport/io/udp/udploop/rxloop.c).
pub mod Partition
mod Tests
use Prim.Native.Nat.{bit_and}
use quic_vibe.Common.{
  ℕ, zero, suc, ◌+◌, ◌-◌, ◌/◌, ◌^◌, Bool, ◌==◌, Option, none, some, List, [], ◌∷◌, ltb, leb,
  if◌then◌else◌, length, get_or, drop, ◌>>=◌,
}
use quic_vibe.Varint

-- quic_coalesce_iter; `total` is the length of the datagram.
pub record Iter : Type 0 where
  pub dgram : List ℕ
  pub off : ℕ

-- quic_coalesced; `start` is the offset of `data` in the datagram.
pub record Coalesced : Type 0 where
  pub start : ℕ
  pub len : ℕ

unfoldable pub coalesce_begin : List ℕ → Iter
coalesce_begin dgram = record { dgram = dgram; off = 0 }

-- The cursor `*p` is the list of the bytes from there on.
unfoldable pub skip_cid : List ℕ → Option (List ℕ)
skip_cid [] = none
skip_cid (len ∷ r) = if ltb (length r) len then none else some (drop len r)

unfoldable pub has_token : ℕ → Bool
has_token byte0 = bit_and (byte0 / 2 ^ 4) 0x3 == 0

unfoldable pub skip_bytes : List ℕ → ℕ → Option (List ℕ)
skip_bytes r n = if ltb (length r) n then none else some (drop n r)

unfoldable pub skip_token : List ℕ → Option (List ℕ)
skip_token r = do (tlen, r') ← Varint.take r; skip_bytes r' tlen

unfoldable pub skip_long_prefix : List ℕ → Option (List ℕ)
skip_long_prefix r = do r' ← skip_bytes r 5; r'' ← skip_cid r'; skip_cid r''

unfoldable pub skip_to_length : List ℕ → Option (List ℕ)
skip_to_length r = do
  r' ← skip_long_prefix r
  if has_token (get_or r 0 0) then skip_token r' else some r'

-- `r` starts at `off`, and `rest` at the end of the header.
unfoldable pub packet_bound : List ℕ → List ℕ → ℕ → ℕ
packet_bound r rest n = if ltb (length rest) n then 0 else length r - length rest + n

unfoldable pub long_packet_bound : List ℕ → Option ℕ
long_packet_bound r = do
  r' ← skip_to_length r
  (n, rest) ← Varint.take r'
  some (packet_bound r rest n)

unfoldable pub long_packet_len : List ℕ → ℕ
long_packet_len r = elim (long_packet_bound r) [ none ↦ 0 | some n ↦ n ]

-- The packet and the iterator behind it; `none` is the C result 0.
unfoldable pub coalesce_emit : Iter → ℕ → Option (Coalesced × Iter)
coalesce_emit it len =
    if len == 0
    then none
    else some (record { start = it.off; len = len }, record it { off = it.off + len })

unfoldable pub coalesce_next : Iter → Option (Coalesced × Iter)
coalesce_next it =
    if leb (length it.dgram) it.off
    then none
    else if bit_and (get_or (drop it.off it.dgram) 0 0) 0x80 == 0
    then coalesce_emit it (length it.dgram - it.off)
    else coalesce_emit it (long_packet_len (drop it.off it.dgram))

-- The loop of quic_udploop_split, with `n` packets left to `max_pkts`: the packets, and the iterator at
-- the end.
unfoldable pub packets : ℕ → Iter → List Coalesced × Iter
packets zero it = ([], it)
packets (suc n) it = elim (coalesce_next it) [
  | none ↦ ([], it)
  | some (p, it') ↦ (p ∷ (packets n it').0, (packets n it').1)
]
