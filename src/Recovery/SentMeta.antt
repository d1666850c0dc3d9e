-- ===== src/Recovery/SentMeta.antt =====
-- What is kept of each sent packet (src/transport/recovery/rtx/sentmeta: record.c, on_ack.c,
-- detect_loss.c). The slots are a list, and the flags are Booleans.
pub mod Totals
use quic_vibe.Common.{
  ℕ, zero, suc, ◌+◌, ◌-◌, ◌*◌, ◌/◌, ◌%◌, ◌^◌, ◌≤◌, ◌<◌, min, max, ◌≡◌, refl, sym, ap, ap₂, ◌∙◌, ◌≢◌,
  ◌↔◌, ◌⊎◌, inl, inr, Bool, true, false, not, ◌&&◌, ◌||◌, Option, none, some, List, [], ◌∷◌, ◌++◌,
  map, append-nil, append_assoc, arith, ltb, leb, ◌==◌, if◌then◌else◌, ltb→lt, lt→ltb, leb→le,
  le→leb, ==→eq, Bool-cases, Option-cases, to_bit, length, get_elem?, get_or, set, take, drop,
  replicate, All, length-append, length-set, length-take, length-drop, length-replicate,
  get_or-set_self, get_or-set_ne, take_append, drop_append, take-append-drop, All-append, ◌>>=◌,
  ◌>>◌, guard, >>=-eq-some,
}
use quic_vibe.Common.Word.{IsByte, IsU64, u8, u32, u64, ◌+ᵤ◌, ◌-ᵤ◌, ◌*ᵤ◌}

-- quic_sentmeta_pkt
pub record MetaPacket : Type 0 where
  pub pn : ℕ
  pub time_sent : ℕ
  pub sent_bytes : ℕ
  pub ack_eliciting : Bool
  pub in_flight : Bool
  pub used : Bool

-- quic_sentmeta
pub record SentMeta : Type 0 where
  pub pkts : List MetaPacket
  pub count : ℕ
  pub total_in_flight : ℕ

abbrev pub sentmeta_cap : ℕ
sentmeta_cap = 256

unfoldable pub all_unused : List MetaPacket → List MetaPacket
all_unused [] = []
all_unused (p ∷ ps) = (record p { used = false }) ∷ all_unused ps

unfoldable pub sentmeta_init : SentMeta → SentMeta
unfolding all_unused
sentmeta_init m = record { pkts = all_unused m.pkts; count = 0; total_in_flight = 0 }

-- The first free slot, or the number of slots if there is none.
unfoldable pub free_slot : List MetaPacket → ℕ
free_slot [] = 0
free_slot (p ∷ ps) = if p.used then suc (free_slot ps) else 0

abbrev pub store : ℕ → ℕ → Bool → Bool → ℕ → MetaPacket
store pn time_sent ack_eliciting in_flight sent_bytes = record {
  pn = pn;
  time_sent = time_sent;
  sent_bytes = sent_bytes;
  ack_eliciting = ack_eliciting;
  in_flight = in_flight;
  used = true;
}

unfoldable pub on_sent : SentMeta → ℕ → ℕ → Bool → Bool → ℕ → SentMeta × Bool
on_sent m pn time_sent ack_eliciting in_flight sent_bytes =
    let i = free_slot m.pkts in
    if i == length m.pkts then (m, false) else (
      record {
        pkts = set m.pkts i (store pn time_sent ack_eliciting in_flight sent_bytes);
        count = m.count +ᵤ 1;
        total_in_flight = if in_flight then m.total_in_flight +ᵤ sent_bytes else m.total_in_flight;
      },
      true,
    )

abbrev pub holds : MetaPacket → ℕ → Bool
holds p pn = p.used && (p.pn == pn)

unfoldable pub find : List MetaPacket → ℕ → ℕ
find [] pn = 0
find (p ∷ ps) pn = if holds p pn then 0 else suc (find ps pn)

-- The slot `i` holds `p`.
unfoldable pub reclaim : SentMeta → ℕ → MetaPacket → SentMeta
reclaim m i p = record {
  pkts = set m.pkts i (record p { used = false });
  count = m.count -ᵤ 1;
  total_in_flight = if p.in_flight then m.total_in_flight -ᵤ p.sent_bytes else m.total_in_flight;
}

-- The time sent and whether the packet was ack-eliciting, or nothing if it is not tracked.
unfoldable pub on_ack : SentMeta → ℕ → SentMeta × Option (ℕ × Bool)
on_ack m acked_pn =
    let i = find m.pkts acked_pn in
    elim (get_elem? m.pkts i) [
      | none ↦ (m, none)
      | some p ↦ (reclaim m i p, some (p.time_sent, p.ack_eliciting))
    ]

unfoldable pub sentmeta_is_lost : MetaPacket → ℕ → ℕ → ℕ → Bool
sentmeta_is_lost p largest_acked now loss_delay =
    leb (p.pn +ᵤ 3) largest_acked || leb (p.time_sent +ᵤ loss_delay) now

unfoldable pub lost_slot : MetaPacket → ℕ → ℕ → ℕ → Bool
lost_slot p largest_acked now loss_delay = p.used && sentmeta_is_lost p largest_acked now loss_delay

-- The slots from here on, the two totals, and the numbers lost. `reclaim` acts on the slot at hand.
unfoldable pub detect_loop :
    List MetaPacket → ℕ → ℕ → ℕ → ℕ → ℕ → (List MetaPacket × (ℕ × ℕ)) × List ℕ
detect_loop [] count total largest_acked now loss_delay = (([], (count, total)), [])
detect_loop (p ∷ ps) count total largest_acked now loss_delay =
    let gone = lost_slot p largest_acked now loss_delay in
    let ((ps', sums), out) =
      detect_loop ps (if gone then count -ᵤ 1 else count)
        (if gone && p.in_flight then total -ᵤ p.sent_bytes else total) largest_acked now
        loss_delay in
    (
      ((if gone then record p { used = false } else p) ∷ ps', sums),
      if gone then p.pn ∷ out else out,
    )

unfoldable pub detect_loss : SentMeta → ℕ → ℕ → ℕ → SentMeta × List ℕ
unfolding detect_loop
detect_loss m largest_acked now loss_delay =
    let ((pkts, (count, total)), out) =
      detect_loop m.pkts m.count m.total_in_flight largest_acked now loss_delay in
    (record { pkts = pkts; count = count; total_in_flight = total }, out)
