-- ===== src/Recovery/SentMeta/Totals.antt =====
-- The two totals are those of the slots.
use quic_vibe.Common.{
  ℕ, suc, ◌+◌, ◌^◌, ◌≤◌, ◌<◌, ◌≡◌, refl, sym, inl, inr, Bool, true, false, ◌&&◌, none, some, List,
  [], ◌∷◌, arith, if◌then◌else◌, Bool-cases, Option-cases, to_bit, length, get_elem?, set,
}
use quic_vibe.Common.Word.{IsU64, ◌-ᵤ◌}
use quic_vibe.Recovery.SentMeta.{
  MetaPacket, SentMeta, all_unused, sentmeta_init, free_slot, store, on_sent, holds, find, reclaim,
  on_ack, lost_slot, detect_loop, detect_loss,
}

unfoldable pub used_count : List MetaPacket → ℕ
used_count [] = 0
used_count (p ∷ ps) = to_bit p.used + used_count ps

-- The bytes of the tracked packets that count as in flight.
unfoldable pub flying_bytes : List MetaPacket → ℕ
flying_bytes [] = 0
flying_bytes (p ∷ ps) = (if p.used && p.in_flight then p.sent_bytes else 0) + flying_bytes ps

free_slot-le : (ps : List MetaPacket) → free_slot ps ≤ length ps
unfolding free_slot
free_slot-le [] = omega arith
free_slot-le (x ∷ ps) = ground (arith, free_slot-le ps)

store_lem :
    (ps : List MetaPacket) (p : MetaPacket)
    → p.used ≡ true
    → free_slot ps < length ps
    → (used_count (set ps (free_slot ps) p) ≡ suc (used_count ps))
      × (flying_bytes (set ps (free_slot ps) p)
          ≡ flying_bytes ps + (if p.in_flight then p.sent_bytes else 0))
unfolding used_count flying_bytes free_slot
store_lem [] p u h = absurd (omega arith)
store_lem (x ∷ ps) p u h = grind (arith, store_lem ps p u)

reclaim_lem :
    (ps : List MetaPacket) (pn : ℕ) (p : MetaPacket)
    → get_elem? ps (find ps pn) ≡ some p
    → (suc (used_count (set ps (find ps pn) (record p { used = false }))) ≡ used_count ps)
      × (flying_bytes (set ps (find ps pn) (record p { used = false }))
            + (if p.in_flight then p.sent_bytes else 0)
          ≡ flying_bytes ps)
unfolding used_count flying_bytes find
reclaim_lem [] pn p e = absurd (cc)
reclaim_lem (x ∷ ps) pn p e = elim (Bool-cases (holds x pn)) [
  | inl here ↦
      let same : x ≡ p = ground arith in
      let used : x.used ≡ true = ground arith in rw (here, ← same) (ground arith)
  | inr later ↦
      let e' : get_elem? ps (find ps pn) ≡ some p = ground arith in
      rw later (ground (arith, reclaim_lem ps pn p e'))
]

detect_lem :
    (ps : List MetaPacket) (count total others bytes largest now delay : ℕ)
    → count ≡ others + used_count ps
    → total ≡ bytes + flying_bytes ps
    → count < 2 ^ 64
    → total < 2 ^ 64
    → let r = detect_loop ps count total largest now delay in
      (r.0.1.0 ≡ others + used_count r.0.0)
      × (r.0.1.1 ≡ bytes + flying_bytes r.0.0)
      × (used_count r.0.0 + length r.1 ≡ used_count ps)
      × (flying_bytes r.0.0 ≤ flying_bytes ps)
unfolding detect_loop used_count flying_bytes lost_slot
detect_lem [] count total others bytes largest now delay a b c d = (a, b, omega arith, omega arith)
detect_lem (x ∷ ps) count total others bytes largest now delay a b c d =
    elim (Bool-cases (lost_slot x largest now delay)) [
      | inl gone ↦ rw gone (
          ground (
            arith,
            detect_lem ps (count -ᵤ 1) (if x.in_flight then total -ᵤ x.sent_bytes else total) others
                bytes largest now delay (ground arith) (ground arith) (ground arith) (ground arith),
          ))
      | inr kept ↦ rw kept (
          ground (
            arith,
            detect_lem ps count total (others + to_bit x.used)
                (bytes + (if x.used && x.in_flight then x.sent_bytes else 0)) largest now delay
                (omega (arith, a)) (omega (arith, b)) c d,
          ))
    ]

-- The totals are exact, and words.
pub record IsTallied (m : SentMeta) : Type 0 where
  pub counted : m.count ≡ used_count m.pkts
  pub summed : m.total_in_flight ≡ flying_bytes m.pkts
  pub small : m.count < 2 ^ 64
  pub word : IsU64 m.total_in_flight

pub data Call : Type 0 where
  send : (pn time_sent : ℕ) → Bool → Bool → (sent_bytes : ℕ) → Call
  ack : ℕ → Call
  detect : (largest now delay : ℕ) → Call

-- The record after a call, and how many packets were taken up and how many were given back.
abbrev pub handle : SentMeta → Call → SentMeta × (ℕ × ℕ)
handle m (send pn time_sent ack_eliciting in_flight sent_bytes) =
    let (m', fine) = on_sent m pn time_sent ack_eliciting in_flight sent_bytes in
    (m', (to_bit fine, 0))
handle m (ack pn) = let (m', found) = on_ack m pn in (m', (0, elim found [ none ↦ 0 | some x ↦ 1 ]))
handle m (detect largest now delay) =
    let (m', out) = detect_loss m largest now delay in (m', (0, length out))

unfoldable pub run : SentMeta → List Call → SentMeta × (ℕ × ℕ)
run m [] = (m, (0, 0))
run m (c ∷ cs) =
    let (m', (taken, given)) = handle m c in
    let (end, (more, rest)) = run m' cs in (end, (taken + more, given + rest))

abbrev pub sent_total : Call → ℕ
sent_total (send pn time_sent ack_eliciting in_flight sent_bytes) = sent_bytes
sent_total (ack pn) = 0
sent_total (detect largest now delay) = 0

abbrev pub all_sent : List Call → ℕ
all_sent [] = 0
all_sent (c ∷ cs) = sent_total c + all_sent cs

-- What one call does to a record whose totals are exact.
abbrev Kept : SentMeta → Call → SentMeta × (ℕ × ℕ) → Type 0
Kept m c r =
    IsTallied r.0
    × (r.0.count + r.1.1 ≡ m.count + r.1.0)
    × (r.1.0 ≤ 1)
    × (r.0.total_in_flight ≤ m.total_in_flight + sent_total c)

handle_lem :
    (m : SentMeta) (c : Call)
    → IsTallied m
    → m.count < 2 ^ 63
    → m.total_in_flight + sent_total c < 2 ^ 64
    → Kept m c (handle m c)
unfolding on_ack
handle_lem m (send pn time_sent ack_eliciting in_flight sent_bytes) v h h' =
    unfold on_sent in
    grind (
      arith,
      store_lem m.pkts (store pn time_sent ack_eliciting in_flight sent_bytes) refl,
      free_slot-le m.pkts,
    )
handle_lem m (ack pn) v h h' = elim (Option-cases (get_elem? m.pkts (find m.pkts pn))) [
  | inl missing ↦ rw (on_ack, missing) (ground arith)
  | inr found ↦
      let (p, e) = found in
      rw (on_ack, e) (unfold reclaim in ground (arith, reclaim_lem m.pkts pn p e))
]
handle_lem m (detect largest now delay) v h h' =
    unfold detect_loss in
    ground (
      arith,
      detect_lem m.pkts m.count m.total_in_flight 0 0 largest now delay (omega (arith, v.counted))
          (omega (arith, v.summed)) v.small v.word,
    )

run_lem :
    (cs : List Call) (m : SentMeta)
    → IsTallied m
    → m.count + length cs < 2 ^ 63
    → m.total_in_flight + all_sent cs < 2 ^ 64
    → IsTallied (run m cs).0 × ((run m cs).0.count + (run m cs).1.1 ≡ m.count + (run m cs).1.0)
unfolding run
run_lem [] m v h h' = (v, omega arith)
run_lem (c ∷ cs) m v h h' =
    let (v', n, one, b) = handle_lem m c v (omega arith) (omega arith) in
    let (end, e) = run_lem cs (handle m c).0 v' (omega (arith, n, one)) (omega (arith, b)) in
    (end, omega (arith, n, e))

unused_lem :
    (ps : List MetaPacket) → (used_count (all_unused ps) ≡ 0) × (flying_bytes (all_unused ps) ≡ 0)
unfolding used_count flying_bytes all_unused
unused_lem [] = (refl, refl)
unused_lem (p ∷ ps) = ground (arith, unused_lem ps)

-- From a fresh record, over fewer than 2^63 sends, ACKs and loss scans in any order whose sizes are
-- together a 64-bit number: the count is that of the tracked packets, the bytes in flight are theirs,
-- and the packets tracked and given back are together as many as were taken up.
pub totals_exact :
    (m : SentMeta) (cs : List Call)
    → length cs < 2 ^ 63
    → all_sent cs < 2 ^ 64
    → IsTallied (run (sentmeta_init m) cs).0
      × ((run (sentmeta_init m) cs).0.count + (run (sentmeta_init m) cs).1.1
          ≡ (run (sentmeta_init m) cs).1.0)
unfolding sentmeta_init
totals_exact m cs h h' =
    let zeroed : SentMeta = record { pkts = all_unused m.pkts; count = 0; total_in_flight = 0 } in
    let fresh : IsTallied zeroed = record {
      counted = sym (unused_lem m.pkts).0;
      summed = sym (unused_lem m.pkts).1;
      small = omega arith;
      word = omega arith;
    } in
    let (end, e) = run_lem cs zeroed fresh (omega arith) (omega arith) in (end, omega (arith, e))
