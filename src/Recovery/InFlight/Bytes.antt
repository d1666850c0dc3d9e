-- ===== src/Recovery/InFlight/Bytes.antt =====
-- The count of bytes in flight is that of the slots.
use quic_vibe.Common.{
  ℕ, ◌+◌, ◌^◌, ◌≤◌, ◌<◌, ◌≡◌, refl, sym, inl, inr, Bool, true, false, ◌&&◌, some, List, [], ◌∷◌,
  arith, if◌then◌else◌, Bool-cases, Option-cases, length, get_elem?, set,
}
use quic_vibe.Common.Word.{IsU64, ◌-ᵤ◌}
use quic_vibe.Recovery.SentPackets.{PacketState, is_inflight}
use quic_vibe.Recovery.InFlight.{
  SentPacket, Sent, all_free, sent_init, free_slot, on_send, slot_has_pn, find_pn, note_acked,
  on_ack, is_lost, sweep_losses, detect_loss,
}

abbrev pub flying : SentPacket → Bool
flying p = p.used && is_inflight p.state

-- The sizes of the packets in flight.
unfoldable pub total : List SentPacket → ℕ
total [] = 0
total (p ∷ ps) = (if flying p then p.size else 0) + total ps

store_lem :
    (ps : List SentPacket) (p : SentPacket)
    → p.used ≡ true
    → is_inflight p.state ≡ true
    → free_slot ps < length ps
    → total (set ps (free_slot ps) p) ≡ total ps + p.size
unfolding total free_slot
store_lem [] p u f h = absurd (omega arith)
store_lem (x ∷ ps) p u f h = grind (arith, store_lem ps p u f)

free_slot-le : (ps : List SentPacket) → free_slot ps ≤ length ps
unfolding free_slot
free_slot-le [] = omega arith
free_slot-le (x ∷ ps) = ground (arith, free_slot-le ps)

-- The slot that is found is in use.
acked_lem :
    (ps : List SentPacket) (pn : ℕ) (p : SentPacket)
    → get_elem? ps (find_pn ps pn) ≡ some p
    → is_inflight p.state ≡ true
    → total (set ps (find_pn ps pn) (record p { state = PacketState.acked })) + p.size ≡ total ps
unfolding total find_pn
acked_lem [] pn p e f = absurd (cc)
acked_lem (x ∷ ps) pn p e f = elim (Bool-cases (slot_has_pn x pn)) [
  | inl here ↦
      let same : x ≡ p = ground arith in
      let used : x.used ≡ true = ground arith in
      rw (here, ← same) (unfold is_inflight in ground arith)
  | inr later ↦
      let e' : get_elem? ps (find_pn ps pn) ≡ some p = ground arith in
      rw later (omega (arith, acked_lem ps pn p e' f))
]

sweep_lem :
    (ps : List SentPacket) (bytes largest others : ℕ)
    → bytes ≡ others + total ps
    → bytes < 2 ^ 64
    → ((sweep_losses ps bytes largest).0.1 ≡ others + total (sweep_losses ps bytes largest).0.0)
      × (total (sweep_losses ps bytes largest).0.0 ≤ total ps)
unfolding sweep_losses total is_lost is_inflight
sweep_lem [] bytes largest others e h = (e, omega arith)
sweep_lem (x ∷ ps) bytes largest others e h = elim (Bool-cases (is_lost x largest)) [
  | inl gone ↦
      rw gone
        (ground (arith, sweep_lem ps (bytes -ᵤ x.size) largest others (ground arith) (omega arith)))
  | inr kept ↦ rw kept (
      ground (
        arith,
        sweep_lem ps bytes largest (others + (if flying x then x.size else 0)) (omega (arith, e)) h,
      ))
]

-- The count is exact, and a word.
pub record IsCounted (s : Sent) : Type 0 where
  pub exact : s.bytes_in_flight ≡ total s.pkts
  pub word : IsU64 s.bytes_in_flight

pub data Call : Type 0 where
  send : (pn size time_sent : ℕ) → Call
  ack : ℕ → Call
  detect : Call

abbrev pub handle : Sent → Call → Sent
handle s (send pn size time_sent) = (on_send s pn size time_sent).0
handle s (ack pn) = (on_ack s pn).0
handle s detect = (detect_loss s).0

unfoldable pub run : Sent → List Call → Sent
run s [] = s
run s (c ∷ cs) = run (handle s c) cs

abbrev pub sent_bytes : Call → ℕ
sent_bytes (send pn size time_sent) = size
sent_bytes (ack pn) = 0
sent_bytes detect = 0

abbrev pub total_sent : List Call → ℕ
total_sent [] = 0
total_sent (c ∷ cs) = sent_bytes c + total_sent cs

send_lem :
    (s : Sent) (pn size time_sent : ℕ)
    → IsCounted s
    → s.bytes_in_flight + size < 2 ^ 64
    → IsCounted (on_send s pn size time_sent).0
      × ((on_send s pn size time_sent).0.bytes_in_flight ≤ s.bytes_in_flight + size)
unfolding on_send
send_lem s pn size time_sent v h =
    let p : SentPacket = record {
      pn = pn;
      size = size;
      time_sent = time_sent;
      state = PacketState.inflight;
      used = true;
    } in
    grind (arith, store_lem s.pkts p refl (unfold is_inflight in refl), free_slot-le s.pkts)

ack_lem :
    (s : Sent) (pn : ℕ)
    → IsCounted s
    → IsCounted (on_ack s pn).0 × ((on_ack s pn).0.bytes_in_flight ≤ s.bytes_in_flight)
unfolding on_ack note_acked
ack_lem s pn v = elim (Option-cases (get_elem? s.pkts (find_pn s.pkts pn))) [
  | inl missing ↦ rw (on_ack, missing) (ground arith)
  | inr found ↦
      let (p, e) = found in
      elim (Bool-cases (is_inflight p.state)) [
        | inl live ↦ rw (on_ack, e, live) (ground (arith, acked_lem s.pkts pn p e live))
        | inr over ↦ rw (on_ack, e, over) (ground arith)
      ]
]

detect_lem :
    (s : Sent)
    → IsCounted s
    → IsCounted (detect_loss s).0 × ((detect_loss s).0.bytes_in_flight ≤ s.bytes_in_flight)
unfolding detect_loss
detect_lem s v =
    ground
      (arith, sweep_lem s.pkts s.bytes_in_flight s.largest_acked 0 (omega (arith, v.exact)) v.word)

run_lem :
    (cs : List Call) (s : Sent)
    → IsCounted s
    → s.bytes_in_flight + total_sent cs < 2 ^ 64
    → IsCounted (run s cs) × ((run s cs).bytes_in_flight ≤ s.bytes_in_flight + total_sent cs)
unfolding run
run_lem [] s v h = (v, omega arith)
run_lem (send pn size time_sent ∷ cs) s v h =
    let (v', le) = send_lem s pn size time_sent v (omega arith) in
    let (end, le') = run_lem cs (on_send s pn size time_sent).0 v' (omega (arith, le)) in
    (end, omega (arith, le, le'))
run_lem (ack pn ∷ cs) s v h =
    let (v', le) = ack_lem s pn v in
    let (end, le') = run_lem cs (on_ack s pn).0 v' (omega (arith, le)) in
    (end, omega (arith, le, le'))
run_lem (detect ∷ cs) s v h =
    let (v', le) = detect_lem s v in
    let (end, le') = run_lem cs (detect_loss s).0 v' (omega (arith, le)) in
    (end, omega (arith, le, le'))

init_lem : (ps : List SentPacket) → total (all_free ps) ≡ 0
unfolding total all_free
init_lem [] = refl
init_lem (p ∷ ps) = ground (arith, init_lem ps)

-- From a fresh table, over any sends, acknowledgements of any numbers, repeated or never sent, and
-- loss scans, as long as the sizes sent are together a 64-bit number: the bytes in flight are those of
-- the packets in flight, and are no more than were sent.
pub bytes_exact :
    (s : Sent) (cs : List Call)
    → total_sent cs < 2 ^ 64
    → ((run (sent_init s) cs).bytes_in_flight ≡ total (run (sent_init s) cs).pkts)
      × ((run (sent_init s) cs).bytes_in_flight ≤ total_sent cs)
unfolding sent_init
bytes_exact s cs h =
    let zeroed : Sent = record {
      pkts = all_free s.pkts;
      bytes_in_flight = 0;
      largest_acked = 0;
      have_acked = false;
    } in
    let fresh : IsCounted zeroed = record { exact = sym (init_lem s.pkts); word = omega arith } in
    let (end, le) = run_lem cs zeroed fresh (omega arith) in (end.exact, omega (arith, le))
