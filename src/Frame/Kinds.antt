-- ===== src/Frame/Kinds.antt =====
-- Kinds of frames: their classification by type (src/transport/packet/frame/frame/dispatch.c) and
-- the packet types that each may stand in (permit.c beside it).
pub mod Permit
use quic_vibe.Common.{
  ℕ, zero, suc, ◌+◌, ◌-◌, ◌*◌, ◌/◌, ◌%◌, ◌^◌, ◌≤◌, ◌<◌, min, max, ◌≡◌, refl, sym, ap, ap₂, ◌∙◌, ◌≢◌,
  ◌↔◌, ◌⊎◌, inl, inr, Bool, true, false, not, ◌&&◌, ◌||◌, Option, none, some, List, [], ◌∷◌, ◌++◌,
  map, append-nil, append_assoc, arith, ltb, leb, ◌==◌, if◌then◌else◌, ltb→lt, lt→ltb, leb→le,
  le→leb, ==→eq, Bool-cases, Option-cases, to_bit, length, get_elem?, get_or, set, replicate, All,
  length-append, length-set, length-take, length-drop, length-replicate, get_or-set_self,
  get_or-set_ne, take_append, drop_append, take-append-drop, All-append, ◌>>=◌, ◌>>◌, guard,
  >>=-eq-some,
}
use quic_vibe.Common.Word.{IsByte, IsU64, u8, u32, u64, ◌+ᵤ◌, ◌-ᵤ◌, ◌*ᵤ◌}
use Prim.Native.Nat.{bit_and}

-- quic_frame_kind
pub data Kind : Type 0 where
  unknown padding ping ack reset_stream stop_sending crypto new_token stream max_data : Kind
  max_stream_data max_streams data_blocked stream_data_blocked streams_blocked : Kind
  new_connection_id retire_connection_id path_challenge path_response : Kind
  connection_close handshake_done datagram : Kind

-- TABLE
abbrev pub kind_table : List (ℕ × Kind)
kind_table =
    (0x00, Kind.padding)
    ∷ (0x01, Kind.ping)
    ∷ (0x02, Kind.ack)
    ∷ (0x03, Kind.ack)
    ∷ (0x04, Kind.reset_stream)
    ∷ (0x05, Kind.stop_sending)
    ∷ (0x06, Kind.crypto)
    ∷ (0x07, Kind.new_token)
    ∷ (0x08, Kind.stream)
    ∷ (0x09, Kind.stream)
    ∷ (0x0a, Kind.stream)
    ∷ (0x0b, Kind.stream)
    ∷ (0x0c, Kind.stream)
    ∷ (0x0d, Kind.stream)
    ∷ (0x0e, Kind.stream)
    ∷ (0x0f, Kind.stream)
    ∷ (0x10, Kind.max_data)
    ∷ (0x11, Kind.max_stream_data)
    ∷ (0x12, Kind.max_streams)
    ∷ (0x13, Kind.max_streams)
    ∷ (0x14, Kind.data_blocked)
    ∷ (0x15, Kind.stream_data_blocked)
    ∷ (0x16, Kind.streams_blocked)
    ∷ (0x17, Kind.streams_blocked)
    ∷ (0x18, Kind.new_connection_id)
    ∷ (0x19, Kind.retire_connection_id)
    ∷ (0x1a, Kind.path_challenge)
    ∷ (0x1b, Kind.path_response)
    ∷ (0x1c, Kind.connection_close)
    ∷ (0x1d, Kind.connection_close)
    ∷ (0x1e, Kind.handshake_done)
    ∷ (0x30, Kind.datagram)
    ∷ (0x31, Kind.datagram)
    ∷ []

unfoldable pub classify_in : List (ℕ × Kind) → ℕ → Kind
classify_in [] type = Kind.unknown
classify_in ((t, k) ∷ rows) type = if t == type then k else classify_in rows type

unfoldable pub classify : ℕ → Kind
unfolding classify_in
classify type = classify_in kind_table type

unfoldable pub non_eliciting : Kind → Bool
non_eliciting Kind.padding = true
non_eliciting Kind.ack = true
non_eliciting Kind.connection_close = true
non_eliciting _ = false

unfoldable pub ack_eliciting : Kind → Bool
unfolding non_eliciting
ack_eliciting Kind.unknown = false
ack_eliciting kind = not (non_eliciting kind)

-- quic_packet_type
pub data PacketType : Type 0 where
  initial handshake zero_rtt one_rtt : PacketType

abbrev pub packet_index : PacketType → ℕ
packet_index PacketType.initial = 0
packet_index PacketType.handshake = 1
packet_index PacketType.zero_rtt = 2
packet_index PacketType.one_rtt = 3

-- The rows of `allowed`: I = 1, H = 2, Z = 4, O = 8.
unfoldable pub allowed : Kind → ℕ
allowed Kind.unknown = 0
allowed Kind.padding = 15
allowed Kind.ping = 15
allowed Kind.ack = 11
allowed Kind.reset_stream = 12
allowed Kind.stop_sending = 12
allowed Kind.crypto = 11
allowed Kind.new_token = 8
allowed Kind.stream = 12
allowed Kind.max_data = 12
allowed Kind.max_stream_data = 12
allowed Kind.max_streams = 12
allowed Kind.data_blocked = 12
allowed Kind.stream_data_blocked = 12
allowed Kind.streams_blocked = 12
allowed Kind.new_connection_id = 12
allowed Kind.retire_connection_id = 12
allowed Kind.path_challenge = 12
allowed Kind.path_response = 8
allowed Kind.connection_close = 15
allowed Kind.handshake_done = 8
allowed Kind.datagram = 12

-- `(allowed[kind] >> pkt) & 1`
unfoldable pub permitted : Kind → PacketType → Bool
permitted kind pkt = not (bit_and (allowed kind / 2 ^ packet_index pkt) 1 == 0)

unfoldable pub is_grease : ℕ → Bool
is_grease type = if ltb type 0x21 then false else (type -ᵤ 0x21) % 0x1f == 0
