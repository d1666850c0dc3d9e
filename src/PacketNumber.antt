-- ===== src/PacketNumber.antt =====
-- Packet numbers: their truncation and recovery (src/transport/packet/header/packet/pnum.c), and the
-- length to send (pnum.c and pnlen.c there).
pub mod Window
pub mod Length
mod Tests
use Prim.Native.Nat.{bit_and, bit_or}
use quic_vibe.Common.{
  ℕ, zero, suc, ◌+◌, ◌-◌, ◌*◌, ◌/◌, ◌%◌, ◌^◌, ◌≤◌, ◌<◌, min, max, ◌≡◌, refl, sym, ap, ap₂, ◌∙◌, ◌≢◌,
  ◌↔◌, ◌⊎◌, inl, inr, Bool, true, false, not, ◌&&◌, ◌||◌, Option, none, some, List, [], ◌∷◌, ◌++◌,
  map, append-nil, append_assoc, arith, ltb, leb, ◌==◌, if◌then◌else◌, ltb→lt, lt→ltb, leb→le,
  le→leb, ==→eq, Bool-cases, Option-cases, to_bit, length, get_elem?, get_or, set, take, drop,
  replicate, All, length-append, length-set, length-take, length-drop, length-replicate,
  get_or-set_self, get_or-set_ne, take_append, drop_append, take-append-drop, All-append, ◌>>=◌,
  ◌>>◌, guard, >>=-eq-some,
}
use quic_vibe.Common.Word.{IsByte, IsU64, u8, u32, u64, ◌+ᵤ◌, ◌-ᵤ◌, ◌*ᵤ◌}
use quic_vibe.BigEndian.{write_be, read_be}

-- `while (b < 4 && need >= ((u64)1 << (8 * b))) b++;`; three rounds are enough.
unfoldable pub len_loop : ℕ → ℕ → ℕ → ℕ
len_loop zero need b = b
len_loop (suc fuel) need b =
    let rest = len_loop fuel need (b + 1) in if ltb b 4 && leb (2 ^ (8 * b)) need then rest else b

unfoldable pub pnum_len : ℕ → ℕ → ℕ
pnum_len full_pn largest_acked = len_loop 3 ((full_pn -ᵤ largest_acked) *ᵤ 2) 1

-- `while (b < 4 && (num_unacked >> (8 * b - 1)) != 0) b++;`
unfoldable pub needed_loop : ℕ → ℕ → ℕ → ℕ
needed_loop zero num_unacked b = b
needed_loop (suc fuel) num_unacked b =
    let rest = needed_loop fuel num_unacked (b + 1) in
    if ltb b 4 && not (num_unacked / 2 ^ (8 * b - 1) == 0) then rest else b

unfoldable pub pnlen_needed : ℕ → ℕ → ℕ
pnlen_needed pn largest_acked = needed_loop 3 (pn -ᵤ largest_acked) 1

-- The `nbytes` bytes written.
unfoldable pub encode : ℕ → ℕ → List ℕ
encode full_pn nbytes = write_be nbytes full_pn []

unfoldable pub below_window : ℕ → ℕ → ℕ → Bool
below_window candidate expected win =
    leb (candidate +ᵤ win / 2) expected && ltb candidate (candidate +ᵤ win)

unfoldable pub above_window : ℕ → ℕ → ℕ → Bool
above_window candidate expected win = ltb (expected +ᵤ win / 2) candidate && leb win candidate

unfoldable pub nearest : ℕ → ℕ → ℕ → ℕ
unfolding below_window above_window
nearest candidate expected win =
    if below_window candidate expected win
    then candidate +ᵤ win
    else if above_window candidate expected win
    then candidate -ᵤ win
    else candidate

-- `(expected & ~(win - 1)) | truncated`
unfoldable pub candidate_of : ℕ → ℕ → ℕ → ℕ
candidate_of expected win truncated = bit_or (bit_and expected (2 ^ 64 - win)) truncated

unfoldable pub decode : List ℕ → ℕ → ℕ → ℕ
unfolding nearest candidate_of
decode buf nbytes largest_pn =
    let truncated = read_be nbytes 0 buf in
    let win = 2 ^ (nbytes * 8) in
    let expected = largest_pn +ᵤ 1 in nearest (candidate_of expected win truncated) expected win
