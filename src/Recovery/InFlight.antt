-- ===== src/Recovery/InFlight.antt =====
-- Sent packets and the bytes in flight (src/transport/recovery/detect/recovery/sent.c). The slots are
-- a list, and the flags `used` and `have_acked` are Booleans.
pub mod Bytes
use quic_vibe.Common.{
  ℕ, zero, suc, ◌+◌, ◌-◌, ◌*◌, ◌/◌, ◌%◌, ◌^◌, ◌≤◌, ◌<◌, min, max, ◌≡◌, refl, sym, ap, ap₂, ◌∙◌, ◌≢◌,
  ◌↔◌, ◌⊎◌, inl, inr, Bool, true, false, not, ◌&&◌, ◌||◌, Option, none, some, List, [], ◌∷◌, ◌++◌,
  map, append-nil, append_assoc, arith, ltb, leb, ◌==◌, if◌then◌else◌, ltb→lt, lt→ltb, leb→le,
  le→leb, ==→eq, Bool-cases, Option-cases, to_bit, length, get_elem?, get_or, set, take, drop,
  replicate, All, length-append, length-set, length-take, length-drop, length-replicate,
  get_or-set_self, get_or-set_ne, take_append, drop_append, take-append-drop, All-append, ◌>>=◌,
  ◌>>◌, guard, >>=-eq-some,
}
use quic_vibe.Common.Word.{IsByte, IsU64, u8, u32, u64, ◌+ᵤ◌, ◌-ᵤ◌, ◌*ᵤ◌}
use quic_vibe.Recovery.SentPackets.{PacketState, is_inflight}

-- quic_sent_pkt
pub record SentPacket : Type 0 where
  pub pn : ℕ
  pub size : ℕ
  pub time_sent : ℕ
  pub state : PacketState
  pub used : Bool

-- quic_sent
pub record Sent : Type 0 where
  pub pkts : List SentPacket
  pub bytes_in_flight : ℕ
  pub largest_acked : ℕ
  pub have_acked : Bool

abbrev pub sent_cap : ℕ
sent_cap = 256

unfoldable pub all_free : List SentPacket → List SentPacket
all_free [] = []
all_free (p ∷ ps) = (record p { used = false }) ∷ all_free ps

unfoldable pub sent_init : Sent → Sent
unfolding all_free
sent_init s = record {
  pkts = all_free s.pkts;
  bytes_in_flight = 0;
  largest_acked = 0;
  have_acked = false;
}

-- The first free slot, or the number of slots if there is none.
unfoldable pub free_slot : List SentPacket → ℕ
free_slot [] = 0
free_slot (p ∷ ps) = if p.used then suc (free_slot ps) else 0

unfoldable pub on_send : Sent → ℕ → ℕ → ℕ → Sent × Bool
on_send s pn size time_sent =
    let i = free_slot s.pkts in
    if i == length s.pkts then (s, false) else (
      record s {
        pkts = set s.pkts i (record {
          pn = pn;
          size = size;
          time_sent = time_sent;
          state = PacketState.inflight;
          used = true;
        });
        bytes_in_flight = s.bytes_in_flight +ᵤ size;
      },
      true,
    )

abbrev pub slot_has_pn : SentPacket → ℕ → Bool
slot_has_pn p pn = p.used && (p.pn == pn)

unfoldable pub find_pn : List SentPacket → ℕ → ℕ
find_pn [] pn = 0
find_pn (p ∷ ps) pn = if slot_has_pn p pn then 0 else suc (find_pn ps pn)

unfoldable pub note_acked : Sent → ℕ → Sent
note_acked s pn = record s {
  largest_acked = if not s.have_acked || ltb s.largest_acked pn then pn else s.largest_acked;
  have_acked = true;
}

-- The slot that was found, if it is one: `none` is the index past the end.
unfoldable pub on_ack : Sent → ℕ → Sent × Bool
unfolding note_acked
on_ack s pn =
    let i = find_pn s.pkts pn in
    let s' = note_acked s pn in
    elim (get_elem? s.pkts i) [
      | none ↦ (s', false)
      | some p ↦ if not (is_inflight p.state) then (s', false) else (
        record s' {
          bytes_in_flight = s'.bytes_in_flight -ᵤ p.size;
          pkts = set s.pkts i (record p { state = PacketState.acked });
        },
        true,
      )
    ]

abbrev pub threshold : ℕ
threshold = 3

unfoldable pub is_lost : SentPacket → ℕ → Bool
is_lost p largest_acked = p.used && (is_inflight p.state && leb (p.pn +ᵤ threshold) largest_acked)

-- The slots and the bytes in flight after the loop, and how many packets were lost.
unfoldable pub sweep_losses : List SentPacket → ℕ → ℕ → (List SentPacket × ℕ) × ℕ
unfolding is_lost
sweep_losses [] bytes largest_acked = (([], bytes), 0)
sweep_losses (p ∷ ps) bytes largest_acked =
    let gone = is_lost p largest_acked in
    let ((ps', bytes'), lost) =
      sweep_losses ps (if gone then bytes -ᵤ p.size else bytes) largest_acked in
    (
      ((if gone then record p { state = PacketState.lost } else p) ∷ ps', bytes'),
      if gone then suc lost else lost,
    )

unfoldable pub detect_loss : Sent → Sent × ℕ
unfolding sweep_losses
detect_loss s =
    if not s.have_acked
    then (s, 0)
    else let ((pkts, bytes), lost) = sweep_losses s.pkts s.bytes_in_flight s.largest_acked in
      (record s { pkts = pkts; bytes_in_flight = bytes }, lost)
