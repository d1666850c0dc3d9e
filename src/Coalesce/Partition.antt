-- ===== src/Coalesce/Partition.antt =====
-- The packets of a datagram follow each other from its start, and there are finitely many.
use Prim.Native.Nat.{bit_and}
use quic_vibe.Common.{
  ℕ, zero, suc, ◌+◌, ◌-◌, ◌≤◌, ◌≡◌, refl, ap, ◌∙◌, inl, inr, none, some, List, [], ◌∷◌, arith, leb,
  ◌==◌, length, get_or, length-drop, drop, Bool-cases, Option-cases, >>=-eq-some,
}
use mathlib.Core.Path.{subst}
use quic_vibe.Varint
use quic_vibe.Coalesce.{
  Iter, Coalesced, coalesce_begin, skip_cid, has_token, skip_bytes, skip_token, skip_long_prefix,
  skip_to_length, packet_bound, long_packet_bound, long_packet_len, coalesce_emit, coalesce_next,
  packets,
}

skip_bytes_le : (r r' : List ℕ) (n : ℕ) → skip_bytes r n ≡ some r' → length r' ≤ length r
unfolding skip_bytes
skip_bytes_le r r' n e = ground (arith, length-drop n r)

skip_cid_le : (r r' : List ℕ) → skip_cid r ≡ some r' → length r' ≤ length r
unfolding skip_cid
skip_cid_le [] r' e = absurd (ground arith)
skip_cid_le (len ∷ r) r' e = ground (arith, length-drop len r)

skip_prefix_le : (r r' : List ℕ) → skip_long_prefix r ≡ some r' → length r' ≤ length r
unfolding skip_long_prefix
skip_prefix_le r r' e =
    let (a, p, q) = >>=-eq-some (skip_bytes r 5) _ e in
    let (b, p', q') = >>=-eq-some (skip_cid a) _ q in
    omega (arith, skip_bytes_le r a 5 p, skip_cid_le a b p', skip_cid_le b r' q')

take_le : (r : List ℕ) (x : ℕ × List ℕ) → Varint.take r ≡ some x → length x.1 ≤ length r
unfolding Varint.take
take_le r x e = elim (Option-cases (Varint.decode r)) [
  | inl n ↦ absurd (ground arith)
  | inr ((w, used), d) ↦ ground (arith, length-drop used r)
]

skip_token_le : (r r' : List ℕ) → skip_token r ≡ some r' → length r' ≤ length r
unfolding skip_token
skip_token_le r r' e =
    let (x, p, q) = >>=-eq-some (Varint.take r) _ e in
    omega (arith, take_le r x p, skip_bytes_le x.1 r' x.0 q)

skip_to_length_le : (r r' : List ℕ) → skip_to_length r ≡ some r' → length r' ≤ length r
unfolding skip_to_length
skip_to_length_le r r' e =
    let (a, p, q) = >>=-eq-some (skip_long_prefix r) _ e in
    let low = skip_prefix_le r a p in
    elim (Bool-cases (has_token (get_or r 0 0))) [
      | inl t ↦ omega (arith, low, skip_token_le a r' (ground arith))
      | inr f ↦ ground (arith, low)
    ]

long_packet_le : (r : List ℕ) → long_packet_len r ≤ length r
unfolding long_packet_len long_packet_bound packet_bound
long_packet_le r = elim (Option-cases (skip_to_length r)) [
  | inl n ↦ ground arith
  | inr (r', p) ↦ elim (Option-cases (Varint.take r')) [
    | inl n ↦ ground arith
    | inr (x, q) ↦ ground (arith, skip_to_length_le r r' p, take_le r' x q)
  ]
]

-- What a packet that was given out and the iterator behind it are.
record IsNext (it : Iter) (x : Coalesced × Iter) : Type 0 where
  from_here : x.0.start ≡ it.off
  nonempty : 1 ≤ x.0.len
  same : x.1.dgram ≡ it.dgram
  behind : x.1.off ≡ it.off + x.0.len
  within : x.1.off ≤ length it.dgram

emit-IsNext :
    (it : Iter) (len : ℕ) (x : Coalesced × Iter)
    → it.off ≤ length it.dgram
    → len ≤ length it.dgram - it.off
    → coalesce_emit it len ≡ some x
    → IsNext it x
unfolding coalesce_emit
emit-IsNext it len x h l e = ground arith

coalesce_next-IsNext :
    (it : Iter) (x : Coalesced × Iter)
    → it.off ≤ length it.dgram
    → coalesce_next it ≡ some x
    → IsNext it x
unfolding coalesce_next
coalesce_next-IsNext it x h e = elim (Bool-cases (leb (length it.dgram) it.off)) [
  | inl t ↦ absurd (ground arith)
  | inr f ↦ elim (Bool-cases (bit_and (get_or (drop it.off it.dgram) 0 0) 0x80 == 0)) [
    | inl t ↦ emit-IsNext it (length it.dgram - it.off) x h (omega arith) (ground arith)
    | inr g ↦
        emit-IsNext it (long_packet_len (drop it.off it.dgram)) x h
          (omega (arith, long_packet_le (drop it.off it.dgram), length-drop it.off it.dgram))
          (ground arith)
  ]
]

-- Packets of one byte or more that follow each other from one offset to another.
abbrev pub AreAdjacent : ℕ → List Coalesced → ℕ → Type 0
AreAdjacent from [] to = from ≡ to
AreAdjacent from (p ∷ ps) to = (p.start ≡ from) × (1 ≤ p.len) × AreAdjacent (from + p.len) ps to

-- What the packets and the iterator at the end are.
record IsSplit (it : Iter) (x : List Coalesced × Iter) : Type 0 where
  adjacent : AreAdjacent it.off x.0 x.1.off
  same : x.1.dgram ≡ it.dgram
  within : x.1.off ≤ length it.dgram
  ended : coalesce_next x.1 ≡ none

packets-IsSplit :
    (n : ℕ) (it : Iter)
    → it.off ≤ length it.dgram
    → length it.dgram - it.off ≤ n
    → IsSplit it (packets n it)
unfolding packets
packets-IsSplit zero it h l = record {
  adjacent = refl;
  same = refl;
  within = h;
  ended = unfold coalesce_next in ground arith;
}
packets-IsSplit (suc n) it h l = elim (Option-cases (coalesce_next it)) [
  | inl e ↦ rw (packets, e) (record { adjacent = refl; same = refl; within = h; ended = e })
  | inr ((p, it'), e) ↦
      let now = coalesce_next-IsNext it (p, it') h e in
      let size = ap (length {A = ℕ}) now.same in
      let rest =
        packets-IsSplit n it' (omega (arith, now.within, size))
          (omega (arith, now.behind, now.nonempty, size)) in
      rw (packets, e)
        (record {
          adjacent = (
            now.from_here,
            now.nonempty,
            subst (λ (o : ℕ). AreAdjacent o (packets n it').0 (packets n it').1.off) now.behind
                rest.adjacent,
          );
          same = rest.same ∙ now.same;
          within = omega (arith, rest.within, size);
          ended = rest.ended;
        })
]

-- In at most as many calls as the datagram has bytes, it is cut into packets of one byte or more, each
-- starting where the one before it ends, the first at offset 0; the last one ends within the datagram,
-- where the iterator then stands, and no further packet is given out.
pub coalesce_partition :
    (dgram : List ℕ)
    → let x = packets (length dgram) (coalesce_begin dgram) in
      AreAdjacent 0 x.0 x.1.off
      × (x.1.off ≤ length dgram)
      × (x.1.dgram ≡ dgram)
      × (coalesce_next x.1 ≡ none)
unfolding coalesce_begin
coalesce_partition dgram =
    let cut = packets-IsSplit (length dgram) (coalesce_begin dgram) (omega arith) (omega arith) in
    (cut.adjacent, cut.within, cut.same, cut.ended)
