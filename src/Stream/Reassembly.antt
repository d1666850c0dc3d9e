-- ===== src/Stream/Reassembly.antt =====
-- Reassembly of a stream, and reading it: src/transport/stream/flow/flow/reassemble.c and
-- stream_read.c. The capacity, QUIC_REASM_CAP (4096 in the source), is a parameter.
pub mod Buffer
pub mod Reader
mod Tests
use quic_vibe.Common.{
  ℕ, zero, suc, ◌+◌, ◌-◌, ◌*◌, ◌/◌, ◌%◌, ◌^◌, ◌≤◌, ◌<◌, min, max, ◌≡◌, refl, sym, ap, ap₂, ◌∙◌, ◌≢◌,
  ◌↔◌, ◌⊎◌, inl, inr, Bool, true, false, not, ◌&&◌, ◌||◌, Option, none, some, List, [], ◌∷◌, ◌++◌,
  map, append-nil, append_assoc, arith, ltb, leb, ◌==◌, if◌then◌else◌, ltb→lt, lt→ltb, leb→le,
  le→leb, ==→eq, Bool-cases, Option-cases, to_bit, length, get_elem?, get_or, set, take, drop,
  replicate, All, length-append, length-set, length-take, length-drop, length-replicate,
  get_or-set_self, get_or-set_ne, take_append, drop_append, take-append-drop, All-append, ◌>>=◌,
  ◌>>◌, guard, >>=-eq-some,
}
use quic_vibe.Common.Word.{IsByte, IsU64, u8, u32, u64, ◌+ᵤ◌, ◌-ᵤ◌, ◌*ᵤ◌}

-- quic_reasm
pub record Reasm : Type 0 where
  pub buf : List ℕ
  pub have : List Bool
  pub delivered : ℕ
  pub final_size : ℕ
  pub have_final : Bool

-- quic_stream_read
pub record StreamRead : Type 0 where
  pub r : Reasm
  pub read_off : ℕ

-- The loop of `quic_reasm_insert` from the index `i` on.
unfoldable pub insert_loop : Reasm → ℕ → List ℕ → Reasm
insert_loop r i [] = r
insert_loop r i (b ∷ bs) =
    insert_loop (record r { buf = set r.buf i b; have = set r.have i true }) (i + 1) bs

-- `out[i] = s->r.buf[s->read_off + i]` for `n` bytes from `i` on.
unfoldable pub copy_out : List ℕ → ℕ → ℕ → List ℕ
copy_out buf i zero = []
copy_out buf i (suc n) = get_or buf i 0 ∷ copy_out buf (i + 1) n

module _ (reasm_cap : ℕ) where
  -- `buf` is left as it is.
  unfoldable pub reasm_init : Reasm → Reasm
  reasm_init r = record r {
    have = replicate reasm_cap false;
    delivered = 0;
    final_size = 0;
    have_final = false;
  }

  unfoldable pub insert_fits : Reasm → ℕ → ℕ → Bool
  insert_fits r offset len =
      if ltb reasm_cap (offset +ᵤ len)
      then false
      else not r.have_final || leb (offset +ᵤ len) r.final_size

  unfoldable pub reasm_insert : Reasm → ℕ → List ℕ → Reasm × Bool
  reasm_insert r offset bytes =
      if insert_fits r offset (length bytes) then (insert_loop r offset bytes, true) else (r, false)

  unfoldable pub reasm_set_final : Reasm → ℕ → Reasm × Bool
  reasm_set_final r final_size =
      if ltb reasm_cap final_size
      then (r, false)
      else (record r { final_size = final_size; have_final = true }, true)

  -- `while (r->delivered < QUIC_REASM_CAP && r->have[r->delivered]) r->delivered++;`
  unfoldable pub deliver_loop : ℕ → List Bool → ℕ → ℕ
  deliver_loop zero have d = d
  deliver_loop (suc fuel) have d =
      let rest = deliver_loop fuel have (d + 1) in
      if ltb d reasm_cap && get_or have d false then rest else d

  -- The watermark climbs at most to the capacity, so that many rounds are enough.
  unfoldable pub reasm_deliver : Reasm → Reasm
  reasm_deliver r = record r { delivered = deliver_loop reasm_cap r.have r.delivered }

  unfoldable pub read_init : StreamRead → StreamRead
  read_init s = record { r = reasm_init s.r; read_off = 0 }

  unfoldable pub push : StreamRead → ℕ → List ℕ → StreamRead × Bool
  push s offset bytes = let (r, fine) = reasm_insert s.r offset bytes in (record s { r = r }, fine)

  -- The state after `quic_reasm_deliver`, and the number of bytes that may be read.
  unfoldable pub readable : StreamRead → ℕ → StreamRead × ℕ
  readable s cap =
      let r = reasm_deliver s.r in
      let avail = r.delivered -ᵤ s.read_off in
      (record s { r = r }, if ltb avail cap then avail else cap)

  -- The bytes copied to `out`.
  unfoldable pub pull : StreamRead → ℕ → StreamRead × List ℕ
  pull s cap =
      let (s', n) = readable s cap in
      (record s' { read_off = s'.read_off +ᵤ n }, copy_out s'.r.buf s'.read_off n)
