-- ===== src/Conn/CryptoRecv.antt =====
-- The CRYPTO data of a level, put together from the frames of its packets
-- (src/transport/conn/loop/crecv/collect.c, message.c). The capacity, QUIC_CRECV_BUF (2048 in the
-- source), is a parameter.
pub mod Placed
pub mod Collected
pub mod InOrder
mod Tests
use quic_vibe.Common.{
  ℕ, zero, suc, ◌+◌, ◌-◌, ◌*◌, ◌/◌, ◌%◌, ◌^◌, ◌≤◌, ◌<◌, min, max, ◌≡◌, refl, sym, ap, ap₂, ◌∙◌, ◌≢◌,
  ◌↔◌, ◌⊎◌, inl, inr, Bool, true, false, not, ◌&&◌, ◌||◌, Option, none, some, List, [], ◌∷◌, ◌++◌,
  map, append-nil, append_assoc, arith, ltb, leb, ◌==◌, if◌then◌else◌, ltb→lt, lt→ltb, leb→le,
  le→leb, ==→eq, Bool-cases, Option-cases, to_bit, length, get_elem?, get_or, set, replicate, All,
  length-append, length-set, length-take, length-drop, length-replicate, get_or-set_self,
  get_or-set_ne, take_append, drop_append, take-append-drop, All-append, ◌>>=◌, ◌>>◌, guard,
  >>=-eq-some,
}
use quic_vibe.Common.Word.{IsByte, IsU64, u8, u32, u64, ◌+ᵤ◌, ◌-ᵤ◌, ◌*ᵤ◌}
use Prim.Native.Nat.{bit_or}
use quic_vibe.Common.{take}
use quic_vibe.Frame.Data.{CryptoFrame, frame_crypto, get_crypto}
use quic_vibe.Frame.Walk.{next}

-- quic_crecv
pub record Crecv : Type 0 where
  pub buf : List ℕ
  pub filled : List Bool
  pub received_to : ℕ

-- The loop of `place` from the index `i` on.
unfoldable pub place_loop : Crecv → ℕ → List ℕ → Crecv
place_loop s i [] = s
place_loop s i (b ∷ bs) =
    place_loop (record s { buf = set s.buf i b; filled = set s.filled i true }) (i + 1) bs

unfoldable pub message : Crecv → List ℕ
message s = take s.received_to s.buf

-- `4 + ((usz)b[1] << 16 | (usz)b[2] << 8 | (usz)b[3])`
unfoldable pub msg_total : List ℕ → ℕ
msg_total b = 4 + bit_or (bit_or (get_or b 1 0 * 2 ^ 16) (get_or b 2 0 * 2 ^ 8)) (get_or b 3 0)

unfoldable pub complete_message : Crecv → Bool
complete_message s = if ltb s.received_to 4 then false else leb (msg_total s.buf) s.received_to

module _ (crecv_buf : ℕ) where
  -- `buf` is left as it is.
  unfoldable pub crecv_init : Crecv → Crecv
  crecv_init s = record s { received_to = 0; filled = replicate crecv_buf false }

  unfoldable pub place : Crecv → CryptoFrame → Crecv × Bool
  place s f =
      if ltb crecv_buf (f.offset +ᵤ length f.payload)
      then (s, false)
      else (place_loop s f.offset f.payload, true)

  -- `while (s->received_to < QUIC_CRECV_BUF && s->filled[s->received_to]) s->received_to++;`
  unfoldable pub advance_loop : ℕ → List Bool → ℕ → ℕ
  advance_loop zero filled d = d
  advance_loop (suc fuel) filled d =
      let rest = advance_loop fuel filled (d + 1) in
      if ltb d crecv_buf && get_or filled d false then rest else d

  -- The prefix grows at most to the capacity, so that many rounds are enough.
  unfoldable pub advance_prefix : Crecv → Crecv
  advance_prefix s = record s { received_to = advance_loop crecv_buf s.filled s.received_to }

  unfoldable pub take_crypto : Crecv → List ℕ → Crecv × Bool
  take_crypto s frame_start = elim (get_crypto frame_start) [
    | none ↦ (s, false)
    | some (f, n) ↦ place s f
  ]

  unfoldable pub on_frame : Crecv → ℕ → List ℕ → Crecv × Bool
  on_frame s type frame_start =
      if type == frame_crypto then take_crypto s frame_start else (s, true)

  -- The loop of `quic_crecv_collect`; the walk goes past a byte at least in each round.
  unfoldable pub collect_loop : ℕ → Crecv → List ℕ → Crecv × Bool
  collect_loop zero s it = (s, true)
  collect_loop (suc fuel) s it = elim (next it) [
    | none ↦ (s, true)
    | some (type, frame_start, behind) ↦
        let (s', ok) = on_frame s type frame_start in
        let rest = collect_loop fuel s' behind in if ok then rest else (s', false)
  ]

  unfoldable pub collect : Crecv → List ℕ → Crecv × Bool
  collect s frames =
      let (s', ok) = collect_loop (length frames) s frames in
      if ok then (advance_prefix s', true) else (s', false)
