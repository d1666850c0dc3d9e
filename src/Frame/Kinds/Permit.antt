-- ===== src/Frame/Kinds/Permit.antt =====
-- Which frames a packet may carry.
use quic_vibe.Common.{
  ℕ, ◌≡◌, refl, inl, inr, Bool, true, false, List, [], ◌∷◌, arith, ◌==◌, ==→eq, Bool-cases, All,
}
use quic_vibe.Frame.Kinds.{
  Kind, PacketType, kind_table, classify_in, classify, is_grease, allowed, permitted, ack_eliciting,
}

-- A type that a test tells apart from every type in the table is unknown.
classify_in_off :
    (test : ℕ → Bool) (rows : List (ℕ × Kind)) (type : ℕ)
    → All (λ r. test r.0 ≡ false) rows
    → test type ≡ true
    → classify_in rows type ≡ Kind.unknown
unfolding classify_in
classify_in_off test [] type h e = refl
classify_in_off test ((t, k) ∷ rows) type (off, h) e = elim (Bool-cases (t == type)) [
  | inl same ↦ absurd (cc (==→eq t type same))
  | inr other ↦ rw other (classify_in_off test rows type h e)
]

listed-is_grease : All (λ (r : ℕ × Kind). is_grease r.0 ≡ false) kind_table
unfolding is_grease
listed-is_grease = ground arith

unknown-permitted : (pkt : PacketType) → permitted Kind.unknown pkt ≡ false
unfolding permitted allowed
unknown-permitted PacketType.initial = refl
unknown-permitted PacketType.handshake = refl
unknown-permitted PacketType.zero_rtt = refl
unknown-permitted PacketType.one_rtt = refl

-- A type is never both reserved and defined: a frame of a reserved type is of unknown kind, so that no
-- packet type permits it and it calls for no acknowledgement.
pub grease_is_unknown :
    (type : ℕ) (pkt : PacketType)
    → is_grease type ≡ true
    → (classify type ≡ Kind.unknown)
      × (ack_eliciting (classify type) ≡ false)
      × (permitted (classify type) pkt ≡ false)
unfolding classify ack_eliciting
grease_is_unknown type pkt g =
    rw (classify_in_off is_grease kind_table type listed-is_grease g)
      (refl, refl, unknown-permitted pkt)
