-- ===== src/Conn/RecvPn.antt =====
-- The packet numbers received (src/transport/conn/pnspace/recvpn/recvpn.c): the largest, and a window of
-- 64 bits below it. The flag `any` is a Boolean.
use quic_vibe.Common.{
  ℕ, zero, suc, ◌+◌, ◌-◌, ◌*◌, ◌/◌, ◌%◌, ◌^◌, ◌≤◌, ◌<◌, ◌≡◌, inl, inr, Bool, true, false, not, ◌&&◌,
  ◌||◌, arith, ltb, leb, ◌==◌, if◌then◌else◌, Bool-cases,
}
use quic_vibe.Common.Word.{u64, ◌-ᵤ◌}
use Prim.Native.Nat.{bit_or}
use native.Mathlib.Decide.{ℕ_discrete}

abbrev pub recvpn_window : ℕ
recvpn_window = 64

-- quic_recvpn
pub record RecvPn : Type 0 where
  pub largest : ℕ
  pub bitmap : ℕ
  pub any : Bool

unfoldable pub recvpn_init : RecvPn
recvpn_init = record { largest = 0; bitmap = 0; any = false }

-- `(bitmap >> i) & 1`
unfoldable pub bit_at : ℕ → ℕ → Bool
bit_at bitmap i = bitmap / 2 ^ i % 2 == 1

unfoldable pub below_seen : RecvPn → ℕ → Bool
unfolding bit_at
below_seen r pn =
    let delta = r.largest -ᵤ pn in
    if ltb recvpn_window delta then false else bit_at r.bitmap (delta - 1)

unfoldable pub seen_at_or_above : RecvPn → ℕ → Bool
unfolding below_seen
seen_at_or_above r pn =
    if pn == r.largest then true else if ltb r.largest pn then false else below_seen r pn

unfoldable pub seen : RecvPn → ℕ → Bool
unfolding seen_at_or_above
seen r pn = if not r.any then false else seen_at_or_above r pn

unfoldable pub recvpn_advance : RecvPn → ℕ → RecvPn
recvpn_advance r pn =
    let step = pn -ᵤ r.largest in
    let shifted = if leb 64 step then 0 else u64 (r.bitmap * 2 ^ step) in
    let old_bit = if leb step 64 then 2 ^ (step - 1) else 0 in
    record r { bitmap = bit_or shifted old_bit; largest = pn }

unfoldable pub mark_below : RecvPn → ℕ → RecvPn
mark_below r pn =
    let delta = r.largest -ᵤ pn in
    if delta == 0 || ltb recvpn_window delta
    then r
    else record r { bitmap = bit_or r.bitmap (2 ^ (delta - 1)) }

unfoldable pub record_pn : RecvPn → ℕ → RecvPn
unfolding recvpn_advance mark_below
record_pn r pn =
    if not r.any
    then record r { any = true; largest = pn }
    else if ltb r.largest pn
    then recvpn_advance r pn
    else mark_below r pn

unfoldable pub run_continues : RecvPn → ℕ → Bool
unfolding bit_at
run_continues r i = ltb i recvpn_window && bit_at r.bitmap i

-- `while (run_continues(r, count)) count++;`; the window bounds the rounds.
unfoldable pub range_loop : ℕ → RecvPn → ℕ → ℕ
unfolding run_continues
range_loop zero r count = count
range_loop (suc fuel) r count =
    let rest = range_loop fuel r (count + 1) in if run_continues r count then rest else count

unfoldable pub first_range : RecvPn → ℕ
unfolding range_loop
first_range r = if not r.any then 0 else range_loop recvpn_window r 0

range_loop_bounds :
    (fuel : ℕ) (r : RecvPn) (count : ℕ)
    → count + fuel ≡ 64
    → (count ≤ range_loop fuel r count)
      × (range_loop fuel r count ≤ 64)
      × (run_continues r (range_loop fuel r count) ≡ false)
unfolding range_loop
range_loop_bounds zero r count e = (omega arith, omega arith, unfold run_continues in ground arith)
range_loop_bounds (suc fuel) r count e =
    ground (arith, range_loop_bounds fuel r (count + 1) (omega arith))

range_loop_run :
    (fuel : ℕ) (r : RecvPn) (count i : ℕ)
    → count ≤ i
    → i < range_loop fuel r count
    → run_continues r i ≡ true
unfolding range_loop
range_loop_run zero r count i lo hi = absurd (omega arith)
range_loop_run (suc fuel) r count i lo hi = elim (Bool-cases (run_continues r count)) [
  | inr stop ↦ absurd (ground arith)
  | inl more ↦ elim (ℕ_discrete count i) [
    | yes e ↦ rw (← e) more
    | no ne ↦ range_loop_run fuel r (count + 1) i (omega arith) (ground arith)
  ]
]

-- With something recorded, the first range of an ACK counts exactly the numbers without a gap below the
-- largest one, within the window: those it counts were received, and the next one was not or is outside.
pub first_range_exact :
    (r : RecvPn) (i : ℕ)
    → r.any ≡ true
    → i < first_range r
    → (run_continues r i ≡ true) × (first_range r ≤ 64) × (run_continues r (first_range r) ≡ false)
unfolding first_range
first_range_exact r i any h =
    let e : first_range r ≡ range_loop recvpn_window r 0 = ground arith in
    let (_, top, stop) = range_loop_bounds recvpn_window r 0 (omega arith) in
    rw (any) (range_loop_run recvpn_window r 0 i (omega arith) (omega (arith, e, h)), top, stop)
