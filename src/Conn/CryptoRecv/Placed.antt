-- ===== src/Conn/CryptoRecv/Placed.antt =====
-- CRYPTO data are placed as stream data are (Stream.Reassembly): the buffer holds the bytes of the
-- stream, and the prefix ends at the first gap.
use quic_vibe.Common.{
  ℕ, zero, suc, ◌+◌, ◌^◌, ◌≤◌, ◌<◌, ◌≡◌, refl, ap, ap₂, ◌∙◌, ◌⊎◌, inl, inr, Bool, true, false, ◌&&◌,
  List, [], ◌∷◌, arith, ltb, if◌then◌else◌, Bool-cases, length, get_or, set,
}
use quic_vibe.Common.Word.{◌+ᵤ◌}
use quic_vibe.Common.{take}
use quic_vibe.Frame.Data.{CryptoFrame}
use quic_vibe.Stream.Reassembly.{Reasm, insert_loop, deliver_loop}
use quic_vibe.Stream.Reassembly.Buffer.{
  Full, IsPart, segment, Holds, Inserted, insert_loop-Inserted, deliver_loop_lem,
}
use quic_vibe.Conn.CryptoRecv.{Crecv, place_loop, place, advance_loop, advance_prefix, message}

-- The same buffer as a `quic_reasm`.
abbrev as_reasm : Crecv → Reasm
as_reasm s = record {
  buf = s.buf;
  have = s.filled;
  delivered = s.received_to;
  final_size = 0;
  have_final = false;
}

place_loop-insert :
    (bs : List ℕ) (s : Crecv) (i : ℕ) → as_reasm (place_loop s i bs) ≡ insert_loop (as_reasm s) i bs
unfolding place_loop insert_loop
place_loop-insert [] s i = refl
place_loop-insert (b ∷ bs) s i =
    place_loop-insert bs (record s { buf = set s.buf i b; filled = set s.filled i true }) (i + 1)

advance-deliver :
    (size fuel : ℕ) (filled : List Bool) (d : ℕ)
    → advance_loop size fuel filled d ≡ deliver_loop size fuel filled d
unfolding advance_loop deliver_loop
advance-deliver size zero filled d = refl
advance-deliver size (suc fuel) filled d =
    ap (λ (x : ℕ). if ltb d size && get_or filled d false then x else d)
      (advance-deliver size fuel filled (d + 1))

module _ (stream : ℕ → ℕ) (size : ℕ) (small : size < 2 ^ 63) where
  pub record IsCrecv (s : Crecv) : Type 0 where
    pub holds : Holds stream size s.buf s.filled
    pub full : Full s.filled s.received_to
    pub top : s.received_to ≤ size

  -- What placing a frame leaves behind.
  pub record IsPlaced (s : Crecv) (f : CryptoFrame) (s' : Crecv) (ok : Bool) : Type 0 where
    pub valid : IsCrecv s'
    pub kept : (j : ℕ) → get_or s.filled j false ≡ true → get_or s'.filled j false ≡ true
    pub added :
        (j : ℕ)
        → f.offset ≤ j
        → j < f.offset + length f.payload
        → ok ≡ true
        → get_or s'.filled j false ≡ true
    pub same_prefix : s'.received_to ≡ s.received_to

  inserted :
      (s : Crecv) (f : CryptoFrame)
      → IsCrecv s
      → IsPart stream f.offset f.payload
      → f.offset + length f.payload ≤ size
      → Inserted stream size
          (as_reasm s)
          f.offset
          (length f.payload)
          (as_reasm (place_loop s f.offset f.payload))
  inserted s f v part room =
      rw (place_loop-insert f.payload s f.offset)
        (insert_loop-Inserted stream size f.payload (as_reasm s) f.offset v.holds part room)

  pub place-IsPlaced :
      (s : Crecv) (f : CryptoFrame)
      → IsCrecv s
      → IsPart stream f.offset f.payload
      → f.offset + length f.payload < 2 ^ 64
      → IsPlaced s f (place size s f).0 (place size s f).1
  unfolding place
  place-IsPlaced s f v part word = elim (Bool-cases (ltb size (f.offset +ᵤ length f.payload))) [
    | inl no_room ↦
        rw no_room (record {
          valid = v;
          kept = λ j e. e;
          added = λ j p q e. absurd (cc);
          same_prefix = refl;
        })
    | inr fine ↦
        let ins = inserted s f v part (ground arith) in
        rw fine (record {
          valid = record {
            holds = ins.holds;
            full = λ j p. ins.kept j (v.full j (omega (arith, ins.watermark)));
            top = omega (arith, ins.watermark, v.top);
          };
          kept = ins.kept;
          added = λ j p q e. ins.added j p q;
          same_prefix = ins.watermark;
        })
  ]

  -- The prefix after `advance_prefix` reaches the first gap.
  pub advance_prefix_lem :
      (s : Crecv)
      → IsCrecv s
      → let s' = advance_prefix size s in
        IsCrecv s'
        × (s.received_to ≤ s'.received_to)
        × ((s'.received_to ≡ size) ⊎ (get_or s.filled s'.received_to false ≡ false))
  unfolding advance_prefix
  advance_prefix_lem s v =
      let (full, more, top, gap) =
        rw (← advance-deliver size size s.filled s.received_to) at
          (deliver_loop_lem stream size size s.filled s.received_to v.full v.top (omega arith)) in
      (record { holds = v.holds; full = full; top = top }, more, gap)

  take-segment :
      (n i : ℕ) (bs : List ℕ)
      → n ≤ length bs
      → ((j : ℕ) → j < n → get_or bs j 0 ≡ stream (i + j))
      → take n bs ≡ segment stream i n
  take-segment zero i bs h e = refl
  take-segment (suc n) i [] h e = absurd (omega arith)
  take-segment (suc n) i (b ∷ bs) h e =
      ap₂ (λ x l. x ∷ l) (e 0 (omega arith) ∙ ap stream (omega arith))
        (take-segment n (i + 1) bs (omega arith)
          (λ j p. e (suc j) (omega arith) ∙ ap stream (omega arith)))

  -- The message handed on is the stream from its start.
  pub message-segment : (s : Crecv) → IsCrecv s → message s ≡ segment stream 0 s.received_to
  unfolding message
  message-segment s v =
      take-segment s.received_to 0 s.buf (omega (arith, v.holds.buf_size, v.top))
        (λ j p. v.holds.right j (v.full j p) ∙ ap stream (omega arith))
