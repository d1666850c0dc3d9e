-- ===== src/Stream/Reassembly/Reader.antt =====
-- The application reads the stream in order: each byte once, none skipped, up to the first gap.
use quic_vibe.Common.{
  ℕ, zero, suc, ◌+◌, ◌-◌, ◌^◌, ◌≤◌, ◌<◌, ◌≡◌, refl, sym, ap, ap₂, ◌∙◌, ◌⊎◌, inl, inr, false, List,
  [], ◌∷◌, ◌++◌, arith, ltb, if◌then◌else◌, Bool-cases, length, get_or, replicate, length-append,
  length-replicate,
}
use quic_vibe.Common.Word.{◌+ᵤ◌, ◌-ᵤ◌}
use quic_vibe.Stream.Reassembly.{
  StreamRead, copy_out, reasm_init, insert_fits, reasm_insert, reasm_set_final, deliver_loop,
  reasm_deliver, read_init, push, readable, pull,
}
use quic_vibe.Stream.Reassembly.Buffer.{
  IsPart, Holds, insert_loop-Inserted, Full, deliver_loop_lem, segment, copy_out-segment,
}

-- The calls made on a reader; `finish` is `quic_reasm_set_final` on its buffer.
pub data Call : Type 0 where
  arrive : ℕ → List ℕ → Call
  finish : ℕ → Call
  read : ℕ → Call

length-copy_out : (buf : List ℕ) (i n : ℕ) → length (copy_out buf i n) ≡ n
unfolding copy_out
length-copy_out buf i zero = refl
length-copy_out buf i (suc n) = ap suc (length-copy_out buf (i + 1) n)

get_or-replicate : (n i : ℕ) → get_or (replicate n false) i false ≡ false
get_or-replicate zero i = refl
get_or-replicate (suc n) zero = refl
get_or-replicate (suc n) (suc i) = get_or-replicate n i

segment-append :
    (stream : ℕ → ℕ) (n i m : ℕ)
    → segment stream i n ++ segment stream (i + n) m ≡ segment stream i (n + m)
segment-append stream zero i m =
    let e : i + zero ≡ i = omega arith in let e' : zero + m ≡ m = omega arith in rw (e, e')
segment-append stream (suc n) i m =
    let e : i + suc n ≡ i + 1 + n = omega arith in
    let e' : suc n + m ≡ suc (n + m) = omega arith in
    rw (e, e') (ap (λ l. stream i ∷ l) (segment-append stream n (i + 1) m))

-- How many bytes are read.
amount :
    (d off cap : ℕ)
    → off ≤ d
    → d -ᵤ off ≡ d - off
    → let n = if ltb (d -ᵤ off) cap then d -ᵤ off else cap in
      (n ≤ cap) × (off + n ≤ d) × ((n ≡ cap) ⊎ (off + n ≡ d))
amount d off cap h e = ground arith

-- All the calls in order: the reader that they leave, and all the bytes that were read.
unfoldable pub run : ℕ → StreamRead → List Call → StreamRead × List ℕ
run size s [] = (s, [])
run size s (arrive offset bytes ∷ cs) = run size (push size s offset bytes).0 cs
run size s (finish n ∷ cs) = run size (record s { r = (reasm_set_final size s.r n).0 }) cs
run size s (read cap ∷ cs) =
    let (s', out) = pull size s cap in let (s'', outs) = run size s' cs in (s'', out ++ outs)

module _ (stream : ℕ → ℕ) (size : ℕ) (small : size < 2 ^ 63) where
  pub record IsReader (s : StreamRead) : Type 0 where
    pub holds : Holds stream size s.r.buf s.r.have
    pub full : Full s.r.have s.r.delivered
    pub low : s.read_off ≤ s.r.delivered
    pub top : s.r.delivered ≤ size

  push-IsReader :
      (s : StreamRead) (offset : ℕ) (bytes : List ℕ)
      → IsReader s
      → IsPart stream offset bytes
      → offset + length bytes < 2 ^ 64
      → IsReader (push size s offset bytes).0 × ((push size s offset bytes).0.read_off ≡ s.read_off)
  unfolding push reasm_insert
  push-IsReader s offset bytes v part word =
      elim (Bool-cases (insert_fits size s.r offset (length bytes))) [
        | inl fine ↦
            let room : offset + length bytes ≤ size = unfold insert_fits in ground arith in
            let ins = insert_loop-Inserted stream size bytes s.r offset v.holds part room in
            rw fine (
              record {
                holds = ins.holds;
                full = λ j p. ins.kept j (v.full j (omega (arith, ins.watermark)));
                low = omega (arith, ins.watermark, v.low);
                top = omega (arith, ins.watermark, v.top);
              },
              refl,
            )
        | inr no_room ↦ rw no_room (v, refl)
      ]

  finish-IsReader :
      (s : StreamRead) (n : ℕ)
      → IsReader s
      → IsReader (record s { r = (reasm_set_final size s.r n).0 })
  unfolding reasm_set_final
  finish-IsReader s n v = elim (Bool-cases (ltb size n)) [
    | inl big ↦ rw big v
    | inr fine ↦ rw fine (record { holds = v.holds; full = v.full; low = v.low; top = v.top })
  ]

  -- What one read gives, and where it leaves the reader.
  pub record Read (s : StreamRead) (cap : ℕ) (s' : StreamRead) (out : List ℕ) : Type 0 where
    pub valid : IsReader s'
    pub bytes : out ≡ segment stream s.read_off (length out)
    pub moved : s'.read_off ≡ s.read_off + length out
    pub bounded : length out ≤ cap
    pub all_there :
        (length out ≡ cap) ⊎ ((s'.read_off ≡ size) ⊎ (get_or s.r.have s'.read_off false ≡ false))

  -- The same for a watermark `d` and `n` bytes below it.
  Read-of :
      (s : StreamRead) (cap n d : ℕ)
      → IsReader s
      → Full s.r.have d
      → d ≤ size
      → n ≤ cap
      → s.read_off + n ≤ d
      → (n ≡ cap) ⊎ (s.read_off + n ≡ d)
      → (d ≡ size) ⊎ (get_or s.r.have d false ≡ false)
      → Read s cap
          (record { r = record s.r { delivered = d }; read_off = s.read_off +ᵤ n })
          (copy_out s.r.buf s.read_off n)
  Read-of s cap n d v full top le fits why gap =
      let len : length (copy_out s.r.buf s.read_off n) ≡ n = length-copy_out s.r.buf s.read_off n in
      let moved : s.read_off +ᵤ n ≡ s.read_off + n = omega arith in
      record {
        valid = record { holds = v.holds; full = full; low = omega arith; top = top };
        bytes =
            rw len (copy_out-segment stream size n s.read_off d s.r.buf s.r.have v.holds full fits);
        moved = omega arith;
        bounded = omega arith;
        all_there = elim why [
          | inl most ↦ inl (len ∙ most)
          | inr last ↦ inr (elim gap [
            | inl end ↦ inl (omega arith)
            | inr hole ↦ inr (ap (λ k. get_or s.r.have k false) (moved ∙ last) ∙ hole)
          ])
        ];
      }

  -- A read gives the next bytes of the stream, as many as were asked for or all before the first gap.
  pub pull-Read :
      (s : StreamRead) (cap : ℕ) → IsReader s → Read s cap (pull size s cap).0 (pull size s cap).1
  unfolding pull readable reasm_deliver
  pull-Read s cap v =
      let d = deliver_loop size size s.r.have s.r.delivered in
      let (full, lo, top, gap) =
        deliver_loop_lem stream size size s.r.have s.r.delivered v.full v.top (omega arith) in
      let avail : d -ᵤ s.read_off ≡ d - s.read_off = omega (arith, v.low) in
      let n : ℕ = if ltb (d -ᵤ s.read_off) cap then d -ᵤ s.read_off else cap in
      let (a, b, c) = amount d s.read_off cap (omega (arith, v.low)) avail in
      Read-of s cap n d v full top a b c gap

  -- Every packet carries bytes of the stream, at an offset that a varint can give.
  abbrev pub FromStream : List Call → Type 0
  FromStream [] = Unit
  FromStream (arrive offset bytes ∷ cs) =
      IsPart stream offset bytes × (offset + length bytes < 2 ^ 64) × FromStream cs
  FromStream (finish n ∷ cs) = FromStream cs
  FromStream (read cap ∷ cs) = FromStream cs

  -- In whatever order the packets of a stream arrive, and however the application reads in between,
  -- all that it reads, put together, is the stream from where it stood, byte for byte.
  pub run_in_order :
      (cs : List Call) (s : StreamRead)
      → IsReader s
      → FromStream cs
      → IsReader (run size s cs).0
        × ((run size s cs).1 ≡ segment stream s.read_off (length (run size s cs).1))
        × ((run size s cs).0.read_off ≡ s.read_off + length (run size s cs).1)
  unfolding run
  run_in_order [] s v h = (v, refl, omega arith)
  run_in_order (arrive offset bytes ∷ cs) s v (part, word, h) =
      let (v', same) = push-IsReader s offset bytes v part word in
      let (end, bytes_read, moved) = run_in_order cs (push size s offset bytes).0 v' h in
      (
        end,
        bytes_read
            ∙ ap (λ o. segment stream o (length (run size (push size s offset bytes).0 cs).1)) same,
        omega (arith, moved, same),
      )
  run_in_order (finish n ∷ cs) s v h =
      run_in_order cs (record s { r = (reasm_set_final size s.r n).0 }) (finish-IsReader s n v) h
  run_in_order (read cap ∷ cs) s v h =
      let p = pull-Read s cap v in
      let (v', bytes, moved) = run_in_order cs (pull size s cap).0 p.valid h in
      let out = (pull size s cap).1 in
      let outs = (run size (pull size s cap).0 cs).1 in
      (
        v',
        ap₂ ◌++◌ p.bytes (bytes ∙ ap (λ a. segment stream a (length outs)) p.moved)
            ∙ segment-append stream (length out) s.read_off (length outs)
            ∙ ap (segment stream s.read_off) (sym (length-append out outs)),
        omega (arith, moved, p.moved, length-append out outs),
      )

  -- A fresh reader, whatever its memory held before, starts at the first byte.
  pub read_init-IsReader :
      (s : StreamRead)
      → length s.r.buf ≡ size
      → IsReader (read_init size s) × ((read_init size s).read_off ≡ 0)
  unfolding read_init reasm_init
  read_init-IsReader s e = (
    record {
      holds = record {
        buf_size = e;
        have_size = length-replicate size false;
        right = λ i there. absurd (ground (arith, get_or-replicate size i));
      };
      full = λ j p. absurd (omega arith);
      low = omega arith;
      top = omega arith;
    },
    refl,
  )

  -- From a fresh reader: whatever the order and the overlap of the packets, the application reads the
  -- stream from its first byte on, in order and without a gap, and the read position counts the bytes.
  pub reads_in_order :
      (s : StreamRead) (cs : List Call)
      → length s.r.buf ≡ size
      → FromStream cs
      → ((run size (read_init size s) cs).1
          ≡ segment stream 0 (length (run size (read_init size s) cs).1))
        × ((run size (read_init size s) cs).0.read_off ≡ length (run size (read_init size s) cs).1)
  reads_in_order s cs e h =
      let (v, start) = read_init-IsReader s e in
      let (end, bytes, moved) = run_in_order cs (read_init size s) v h in
      let n = length (run size (read_init size s) cs).1 in
      (bytes ∙ ap (λ o. segment stream o n) start, omega (arith, moved, start))
