-- ===== src/Frame/Dispatch/Payload.antt =====
-- A payload of frames as they are written has the effect of its frames in turn.
use quic_vibe.Common.{
  ℕ, zero, suc, ◌≤◌, ◌<◌, ◌≡◌, refl, ap, ◌∙◌, Bool, true, false, ◌&&◌, ◌||◌, none, some, List, [],
  ◌∷◌, ◌++◌, arith, length, All, length-append, >>=-eq-some,
}
use quic_vibe.Frame.Wire.{read_back}
use quic_vibe.Frame.Ack
use quic_vibe.Frame.Data
use quic_vibe.Frame.Ack.{AckFrame, first_range, ack_type, ack_decode}
use quic_vibe.Frame.Data.{StreamFrame, stream_type, get_stream}
use quic_vibe.Frame.Data.RoundTrip.{close_type}
use quic_vibe.Frame.Ack.RoundTrip.{ack_frame_round_trip}
use quic_vibe.Frame.Data.RoundTrip.{stream_round_trip}
use quic_vibe.Frame.Every
use quic_vibe.Frame.Every.{Frame, IsWritable, tagged, decode_like}
use quic_vibe.Frame.Kinds.{Kind, classify, ack_eliciting}
use quic_vibe.Frame.Walk.{next}
use quic_vibe.Frame.Walk.Written.{
  walked_type, stream_type-classify, ack_type-classify, close_type-classify,
}
use quic_vibe.Frame.Walk.Items.{Item, IsItem, item_bytes, item_type, payload, some_inj, next_item}
use quic_vibe.Recovery.SentPackets.Acknowledge.{ack_all}
use quic_vibe.Stream.Reassembly.{push}
use quic_vibe.Frame.Dispatch.{
  DispatchState, on_ack, on_stream, on_close, on_noop, handler, handle, dispatch_loop, dispatch_all,
}
use quic_vibe.Frame.Dispatch.Acked.{in_ranges, replayed}

module _ (reasm_cap : ℕ) where
  -- The effect of one item: its data go to the reader, the packets in its ranges are acknowledged, the
  -- connection is marked as closing. CRYPTO is not handled here.
  abbrev pub effect : DispatchState → Item → DispatchState × Bool
  effect st Item.padding = (st, true)
  effect st Item.ping = (record st { ack_eliciting = true }, true)
  effect st (Item.frame (Frame.ack f)) = (
    record st {
      has_ack = true;
      largest_acked = (first_range f).hi;
      sent = ack_all (in_ranges f.ranges) st.sent;
    },
    true,
  )
  effect st (Item.frame (Frame.stream f)) =
      let (s, fine) = push reasm_cap st.stream f.offset f.payload in
      (record st { ack_eliciting = true; stream = s }, fine)
  effect st (Item.frame (Frame.conn_close f)) = (record st { close = true }, true)
  effect st (Item.frame _) = (st, false)

  abbrev pub effects : DispatchState → List Item → DispatchState × Bool
  effects st [] = (st, true)
  effects st (i ∷ is) =
      let (st', ok) = effect st i in let (st'', all) = effects st' is in (st'', ok && all)

  or_true : (b : Bool) → (b || true) ≡ true
  or_true true = refl
  or_true false = refl

  or_false : (b : Bool) → (b || false) ≡ b
  or_false true = refl
  or_false false = refl

  -- `handle`, once the kind of the frame is known.
  abbrev by_kind : DispatchState → List ℕ → Kind → DispatchState × Bool
  by_kind st buf k = elim (handler reasm_cap k) [
    | none ↦ (st, false)
    | some h ↦ h (record st { ack_eliciting = st.ack_eliciting || ack_eliciting k }) buf
  ]

  handle-by_kind :
      (st : DispatchState) (t : ℕ) (buf : List ℕ) (k : Kind)
      → classify t ≡ k
      → handle reasm_cap st t buf ≡ by_kind st buf k
  unfolding handle
  handle-by_kind st t buf k e = ap (by_kind st buf) e

  -- The handler of a frame at its start.
  handle_written :
      (cap : ℕ) (st : DispatchState) (f : Frame) (out rest : List ℕ)
      → IsWritable cap f
      → walked_type f < 64
      → Every.encode cap f ≡ some out
      → handle reasm_cap st (walked_type f) (out ++ rest) ≡ effect st (Item.frame f)
  unfolding handle handler ack_eliciting on_ack on_stream on_close classify
  handle_written cap st (Frame.ack f) out rest (v, r, c) h e =
      handle-by_kind st (ack_type f) (out ++ rest) Kind.ack (ack_type-classify f).1
      ∙ rw (or_false st.ack_eliciting) (
          rw
            (
              on_ack,
              read_back (Ack.ack_encode cap) ack_decode f out rest
                  (ack_frame_round_trip cap f rest v r c) e,
            )
            (ap
              (λ t.
                (record st { has_ack = true; largest_acked = (first_range f).hi; sent = t }, true))
              (replayed f.ranges st.sent v.some_range v.descending)))
  handle_written cap st (Frame.crypto f) out rest v h e = refl
  handle_written cap st (Frame.stream f) out rest (a, i, o, l, r, c) h e =
      handle-by_kind st (stream_type f) (out ++ rest) Kind.stream (stream_type-classify f).1
      ∙ rw (or_true st.ack_eliciting) (
          rw
            (
              on_stream,
              read_back (Data.put_stream cap) get_stream f out rest
                  (stream_round_trip cap f rest a i o l r c) e,
            )
            refl)
  handle_written cap st (Frame.conn_close f) out rest v h e =
      handle-by_kind st (close_type f) (out ++ rest) Kind.connection_close (close_type-classify f).1
      ∙ rw (or_false st.ack_eliciting) refl
  handle_written cap st _ out rest v h e = absurd (omega arith)

  handle_single :
      (st : DispatchState) (buf : List ℕ)
      → (handle reasm_cap st 0 buf ≡ effect st Item.padding)
        × (handle reasm_cap st 1 buf ≡ effect st Item.ping)
  unfolding handle handler ack_eliciting on_noop classify
  handle_single st buf = (rw (or_false st.ack_eliciting) refl, rw (or_true st.ack_eliciting) refl)

  handle_item :
      (cap : ℕ) (st : DispatchState) (i : Item) (b rest : List ℕ)
      → IsItem cap i
      → item_bytes cap i ≡ some b
      → handle reasm_cap st (item_type i) (b ++ rest) ≡ effect st i
  handle_item cap st Item.padding b rest v e = (handle_single st (b ++ rest)).0
  handle_item cap st Item.ping b rest v e = (handle_single st (b ++ rest)).1
  handle_item cap st (Item.frame f) b rest (v, h) e = handle_written cap st f b rest v h e

  loop_step :
      (fuel : ℕ) (st : DispatchState) (it : List ℕ) (type : ℕ) (behind : List ℕ)
      (r : DispatchState × Bool)
      → next it ≡ some (type, it, behind)
      → handle reasm_cap st type it ≡ r
      → dispatch_loop reasm_cap (suc fuel) st it ≡ (
        (dispatch_loop reasm_cap fuel r.0 behind).0,
        r.1 && (dispatch_loop reasm_cap fuel r.0 behind).1,
      )
  unfolding dispatch_loop
  loop_step fuel st it type behind r n h = rw (dispatch_loop, n) (rw h refl)

  loop_effects :
      (cap fuel : ℕ) (st : DispatchState) (is : List Item) (bs : List ℕ)
      → All (IsItem cap) is
      → payload cap is ≡ some bs
      → length bs ≤ fuel
      → dispatch_loop reasm_cap fuel st bs ≡ effects st is
  unfolding dispatch_loop next
  loop_effects cap zero st [] bs v e h = refl
  loop_effects cap (suc fuel) st [] bs v e h = rw (← some_inj e) refl
  loop_effects cap zero st (i ∷ is) bs (vi, v) e h =
      let (b, p, q) = >>=-eq-some (item_bytes cap i) _ e in
      let (more, p', q') = >>=-eq-some (payload cap is) _ q in
      let (_, some_byte) = next_item cap i b more vi p in
      absurd (omega (arith, ap length (some_inj q'), length-append b more))
  loop_effects cap (suc fuel) st (i ∷ is) bs (vi, v) e h =
      let (b, p, q) = >>=-eq-some (item_bytes cap i) _ e in
      let (more, p', q') = >>=-eq-some (payload cap is) _ q in
      let (n, some_byte) = next_item cap i b more vi p in
      let fits : length more ≤ fuel =
        omega (arith, ap length (some_inj q'), length-append b more) in
      rw (← some_inj q') (
        loop_step fuel st (b ++ more) (item_type i) more (effect st i) n
          (handle_item cap st i b more vi p)
        ∙ ap (λ (x : DispatchState × Bool). (x.0, (effect st i).1 && x.1))
            (loop_effects cap fuel (effect st i).0 is more v p' fits))

  -- A payload made of PADDING, PING and of ACK, CRYPTO, STREAM and CONNECTION_CLOSE frames as their
  -- encoders write them is taken apart into just these frames: dispatching its bytes has the effect
  -- of the frames in turn, and succeeds if each of them does.
  pub dispatch_all_refines :
      (cap : ℕ) (st : DispatchState) (is : List Item) (bs : List ℕ)
      → All (IsItem cap) is
      → payload cap is ≡ some bs
      → dispatch_all reasm_cap st bs ≡ effects st is
  unfolding dispatch_all
  dispatch_all_refines cap st is bs v e = loop_effects cap (length bs) st is bs v e (omega arith)
