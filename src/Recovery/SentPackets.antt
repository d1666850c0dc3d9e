-- ===== src/Recovery/SentPackets.antt =====
-- The table of sent packets: recording (src/transport/recovery/rtx/sentpkt/sentpkt.c), a received
-- ACK (ack_process.c there), loss (loss_detect.c there, and
-- src/transport/recovery/detect/lossdrive/lossdrive.c, lossdelay.c). A table is the list of its slots.
pub mod Acknowledge
pub mod Exact
pub mod Lose
pub mod Conservation
use quic_vibe.Common.{
  ℕ, zero, suc, ◌+◌, ◌-◌, ◌*◌, ◌/◌, ◌%◌, ◌^◌, ◌≤◌, ◌<◌, min, max, ◌≡◌, refl, sym, ap, ap₂, ◌∙◌, ◌≢◌,
  ◌↔◌, ◌⊎◌, inl, inr, Bool, true, false, not, ◌&&◌, ◌||◌, Option, none, some, List, [], ◌∷◌, ◌++◌,
  map, append-nil, append_assoc, arith, ltb, leb, ◌==◌, if◌then◌else◌, ltb→lt, lt→ltb, leb→le,
  le→leb, ==→eq, Bool-cases, Option-cases, to_bit, length, get_elem?, get_or, set, take, drop,
  replicate, All, length-append, length-set, length-take, length-drop, length-replicate,
  get_or-set_self, get_or-set_ne, take_append, drop_append, take-append-drop, All-append, ◌>>=◌,
  ◌>>◌, guard, >>=-eq-some,
}
use quic_vibe.Common.Word.{IsByte, IsU64, u8, u32, u64, ◌+ᵤ◌, ◌-ᵤ◌, ◌*ᵤ◌}

-- The states of a packet.
pub data PacketState : Type 0 where
  inflight : PacketState
  acked : PacketState
  lost : PacketState

unfoldable pub is_inflight : PacketState → Bool
is_inflight PacketState.inflight = true
is_inflight PacketState.acked = false
is_inflight PacketState.lost = false

-- quic_sentpkt_entry; the fields `ack_eliciting` and `used` are only ever 0 or 1
pub record Entry : Type 0 where
  pub pn : ℕ
  pub time_sent : ℕ
  pub size : ℕ
  pub ack_eliciting : Bool
  pub state : PacketState
  pub used : Bool

abbrev pub sentpkt_cap : ℕ
sentpkt_cap = 256

unfoldable pub sentpkt_init : List Entry → List Entry
sentpkt_init [] = []
sentpkt_init (p ∷ t) = (record p { used = false }) ∷ sentpkt_init t

-- The first free slot, or the number of slots if there is none.
unfoldable pub free_slot : List Entry → ℕ
free_slot [] = 0
free_slot (p ∷ t) = if p.used then suc (free_slot t) else 0

unfoldable pub on_send : List Entry → ℕ → ℕ → Bool → ℕ → List Entry × Bool
on_send t pn time ack_eliciting size =
    let i = free_slot t in
    if i == length t then (t, false) else (
      set t i (record {
        pn = pn;
        time_sent = time;
        size = size;
        ack_eliciting = ack_eliciting;
        state = PacketState.inflight;
        used = true;
      }),
      true,
    )

unfoldable pub count : List Entry → ℕ
count [] = 0
count (p ∷ t) = to_bit p.used + count t

abbrev pub pn_within : ℕ → ℕ → ℕ → Bool
pn_within pn lo hi = leb lo pn && leb pn hi

abbrev pub tracked : Entry → Bool
tracked p = p.used && is_inflight p.state

unfoldable pub slot_in_range : Entry → ℕ → ℕ → Bool
slot_in_range p lo hi = p.used && (is_inflight p.state && pn_within p.pn lo hi)

-- The slots after the loop, and the packet numbers appended.
unfoldable pub ack_range : List Entry → ℕ → ℕ → List Entry × List ℕ
unfolding slot_in_range
ack_range [] lo hi = ([], [])
ack_range (p ∷ t) lo hi =
    let (t', out) = ack_range t lo hi in
    if slot_in_range p lo hi
    then ((record p { state = PacketState.acked; used = false }) ∷ t', p.pn ∷ out)
    else (p ∷ t', out)

-- `for (i = 1; i + 1 < n_ranges; i += 2)`, over the values from index 1 on
unfoldable pub ranges_loop : List Entry → ℕ → List ℕ → List Entry × List ℕ
ranges_loop t lo [] = (t, [])
ranges_loop t lo (gap ∷ []) = (t, [])
ranges_loop t lo (gap ∷ (len ∷ rest)) =
    let hi = lo -ᵤ gap -ᵤ 2 in
    let lo' = hi -ᵤ len in
    let (t', out) = ack_range t lo' hi in
    let (t'', more) = ranges_loop t' lo' rest in (t'', out ++ more)

-- The table, and the newly acknowledged packet numbers.
unfoldable pub ack_process : List Entry → ℕ → List ℕ → List Entry × List ℕ
ack_process t ack_largest [] = (t, [])
ack_process t ack_largest (first ∷ rest) =
    let lo = ack_largest -ᵤ first in
    let (t', out) = ack_range t lo ack_largest in
    let (t'', more) = ranges_loop t' lo rest in (t'', out ++ more)

abbrev pub packet_threshold : ℕ
packet_threshold = 3

unfoldable pub by_packet : ℕ → ℕ → Bool
by_packet largest_acked pn = leb (pn +ᵤ packet_threshold) largest_acked

unfoldable pub by_time : ℕ → ℕ → ℕ → Bool
by_time now sent loss_delay = leb (sent +ᵤ loss_delay) now

unfoldable pub past_threshold : Entry → ℕ → ℕ → ℕ → Bool
unfolding by_packet by_time
past_threshold p largest_acked now loss_delay =
    by_packet largest_acked p.pn || by_time now p.time_sent loss_delay

unfoldable pub loss_is_lost : Entry → ℕ → ℕ → ℕ → Bool
unfolding past_threshold
loss_is_lost p largest_acked now loss_delay =
    tracked p && past_threshold p largest_acked now loss_delay

-- The table, and the numbers of the packets marked lost.
unfoldable pub loss_detect : List Entry → ℕ → ℕ → ℕ → List Entry × List ℕ
unfolding loss_is_lost
loss_detect [] largest_acked now loss_delay = ([], [])
loss_detect (p ∷ t) largest_acked now loss_delay =
    let (t', out) = loss_detect t largest_acked now loss_delay in
    if loss_is_lost p largest_acked now loss_delay
    then ((record p { state = PacketState.lost }) ∷ t', p.pn ∷ out)
    else (p ∷ t', out)

unfoldable pub is_lost_state : PacketState → Bool
is_lost_state PacketState.inflight = false
is_lost_state PacketState.acked = false
is_lost_state PacketState.lost = true

unfoldable pub drop_lost : List Entry → List Entry
drop_lost [] = []
drop_lost (p ∷ t) =
    (if p.used && is_lost_state p.state then record p { used = false } else p) ∷ drop_lost t

unfoldable pub lossdrive_on_ack : List Entry → ℕ → ℕ → ℕ → List Entry × List ℕ
lossdrive_on_ack t largest_acked now loss_delay =
    let (t', out) = loss_detect t largest_acked now loss_delay in (drop_lost t', out)

-- `max(9/8 * max(smoothed_rtt, latest_rtt), granularity)`
unfoldable pub loss_delay : ℕ → ℕ → ℕ → ℕ
loss_delay smoothed_rtt latest_rtt granularity =
    let rtt = max smoothed_rtt latest_rtt in max (rtt *ᵤ 9 / 8) granularity
