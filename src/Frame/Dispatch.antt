-- ===== src/Frame/Dispatch.antt =====
-- Received frames and their handlers (src/transport/packet/frame/framedispatch/dispatch_state.c), the
-- loop over a payload (`dispatch_all` of src/transport/conn/loop/connio/connio.c), and the other
-- way from an ACK frame to the sent table
-- (src/transport/recovery/detect/ackrange/ackrange_process.c).
pub mod Acked
pub mod Payload
pub mod Unmeasured
mod Tests
use quic_vibe.Common.{
  ℕ, zero, suc, ◌+◌, ◌-◌, ◌*◌, ◌/◌, ◌%◌, ◌^◌, ◌≤◌, ◌<◌, min, max, ◌≡◌, refl, sym, ap, ap₂, ◌∙◌, ◌≢◌,
  ◌↔◌, ◌⊎◌, inl, inr, Bool, true, false, not, ◌&&◌, ◌||◌, Option, none, some, List, [], ◌∷◌, ◌++◌,
  map, append-nil, append_assoc, arith, ltb, leb, ◌==◌, if◌then◌else◌, ltb→lt, lt→ltb, leb→le,
  le→leb, ==→eq, Bool-cases, Option-cases, to_bit, length, get_elem?, get_or, set, replicate, All,
  length-append, length-set, length-take, length-drop, length-replicate, get_or-set_self,
  get_or-set_ne, take_append, drop_append, take-append-drop, All-append, ◌>>=◌, ◌>>◌, guard,
  >>=-eq-some,
}
use quic_vibe.Common.Word.{IsByte, IsU64, u8, u32, u64, ◌+ᵤ◌, ◌-ᵤ◌, ◌*ᵤ◌}
use quic_vibe.Frame.Ack.{AckRange, AckFrame, first_range, ack_decode}
use quic_vibe.Frame.Data.{get_stream}
use quic_vibe.Frame.FlowControl.{max_data_decode}
use quic_vibe.Frame.Kinds.{Kind, classify, ack_eliciting}
use quic_vibe.Frame.Walk.{next}
use quic_vibe.Recovery.SentPackets.{Entry, ack_range, ack_process}
use quic_vibe.Stream.Flow.{FlowRecv}
use quic_vibe.Stream.Reassembly.{StreamRead, push}

-- quic_framedispatch_state, with the objects that it points to; the flags are 0 or 1 in the source
pub record DispatchState : Type 0 where
  pub stream : StreamRead
  pub sent : List Entry
  pub credit : FlowRecv
  pub ack_eliciting : Bool
  pub close : Bool
  pub has_ack : Bool
  pub largest_acked : ℕ

-- The loop of `on_ack`: a gap and a length for each range behind `prev`.
unfoldable pub wire_pairs : AckRange → List AckRange → List ℕ
wire_pairs prev [] = []
wire_pairs prev (cur ∷ rs) = (prev.lo -ᵤ cur.hi -ᵤ 2) ∷ ((cur.hi -ᵤ cur.lo) ∷ wire_pairs cur rs)

unfoldable pub wire_of : List AckRange → List ℕ
wire_of [] = []
wire_of (r ∷ rs) = (r.hi -ᵤ r.lo) ∷ wire_pairs r rs

unfoldable pub on_ack : DispatchState → List ℕ → DispatchState × Bool
on_ack st frame = elim (ack_decode frame) [
  | none ↦ (st, false)
  | some (f, n) ↦
      let largest = (first_range f).hi in
      (
        record st {
          has_ack = true;
          largest_acked = largest;
          sent = (ack_process st.sent largest (wire_of f.ranges)).0;
        },
        true,
      )
]

unfoldable pub on_max_data : DispatchState → List ℕ → DispatchState × Bool
on_max_data st frame = elim (max_data_decode frame) [
  | none ↦ (st, false)
  | some (f, n) ↦ (record st { credit = record (st.credit) { max_data = f.value } }, true)
]

unfoldable pub on_close : DispatchState → List ℕ → DispatchState × Bool
on_close st frame = (record st { close = true }, true)

unfoldable pub on_noop : DispatchState → List ℕ → DispatchState × Bool
on_noop st frame = (st, true)

-- `for each range`: the table and the numbers appended.
unfoldable pub process_ranges : List Entry → List AckRange → List Entry × List ℕ
process_ranges t [] = (t, [])
process_ranges t (r ∷ rs) =
    let (t', out) = ack_range t r.lo r.hi in
    let (t'', more) = process_ranges t' rs in (t'', out ++ more)

-- `quic_ackrange_process`; its `akr_ack_range` is the same loop as `ack_range`.
unfoldable pub ackrange_process : List Entry → List ℕ → Option (List Entry × List ℕ)
ackrange_process t ack_frame = do (f, n) ← ack_decode ack_frame; some (process_ranges t f.ranges)

module _ (reasm_cap : ℕ) where
  unfoldable pub on_stream : DispatchState → List ℕ → DispatchState × Bool
  on_stream st frame = elim (get_stream frame) [
    | none ↦ (st, false)
    | some (f, n) ↦
        let (s, fine) = push reasm_cap st.stream f.offset f.payload in
        (record st { stream = s }, fine)
  ]

  -- The rows of `handlers`; a kind without a handler is not handled.
  unfoldable pub handler : Kind → Option (DispatchState → List ℕ → DispatchState × Bool)
  handler Kind.padding = some on_noop
  handler Kind.ping = some on_noop
  handler Kind.ack = some on_ack
  handler Kind.stream = some on_stream
  handler Kind.max_data = some on_max_data
  handler Kind.connection_close = some on_close
  handler _ = none

  unfoldable pub handle : DispatchState → ℕ → List ℕ → DispatchState × Bool
  handle st type frame =
      let k = classify type in
      elim (handler k) [
        | none ↦ (st, false)
        | some h ↦ h (record st { ack_eliciting = st.ack_eliciting || ack_eliciting k }) frame
      ]

  -- The walk goes past a byte at least in each round, so that a round for each byte is enough.
  unfoldable pub dispatch_loop : ℕ → DispatchState → List ℕ → DispatchState × Bool
  dispatch_loop zero st it = (st, true)
  dispatch_loop (suc fuel) st it = elim (next it) [
    | none ↦ (st, true)
    | some (type, frame, behind) ↦
        let (st', ok) = handle st type frame in
        let (st'', all) = dispatch_loop fuel st' behind in (st'', ok && all)
  ]

  unfoldable pub dispatch_all : DispatchState → List ℕ → DispatchState × Bool
  dispatch_all st frames = dispatch_loop (length frames) st frames
