-- ===== src/Recovery/AckRanges.antt =====
-- Building the ranges of an ACK from the packet numbers received
-- (src/transport/recovery/detect/ackgen/ackrange.c). The array `ranges` is the list of the values
-- written to it so far.
pub mod Coverage
pub mod RoundTrip
use quic_vibe.Common.{
  ℕ, zero, suc, ◌+◌, ◌-◌, ◌*◌, ◌/◌, ◌%◌, ◌^◌, ◌≤◌, ◌<◌, min, max, ◌≡◌, refl, sym, ap, ap₂, ◌∙◌, ◌≢◌,
  ◌↔◌, ◌⊎◌, inl, inr, Bool, true, false, not, ◌&&◌, ◌||◌, Option, none, some, List, [], ◌∷◌, ◌++◌,
  map, append-nil, append_assoc, arith, ltb, leb, ◌==◌, if◌then◌else◌, ltb→lt, lt→ltb, leb→le,
  le→leb, ==→eq, Bool-cases, Option-cases, to_bit, length, get_elem?, get_or, set, take, drop,
  replicate, All, length-append, length-set, length-take, length-drop, length-replicate,
  get_or-set_self, get_or-set_ne, take_append, drop_append, take-append-drop, All-append, ◌>>=◌,
  ◌>>◌, guard, >>=-eq-some,
}
use quic_vibe.Common.Word.{IsByte, IsU64, u8, u32, u64, ◌+ᵤ◌, ◌-ᵤ◌, ◌*ᵤ◌}

unfoldable pub gap_of : ℕ → ℕ → ℕ
gap_of prev_lo hi = prev_lo -ᵤ hi -ᵤ 2

unfoldable pub push : List ℕ → ℕ → ℕ → Option (List ℕ)
push ranges cap v = if leb cap (length ranges) then none else some (ranges ++ v ∷ [])

unfoldable pub emit : List ℕ → ℕ → Bool → ℕ → ℕ → ℕ → Option (List ℕ)
unfolding push gap_of
emit ranges cap first prev_lo hi lo = do
  ranges' ← if first then some ranges else push ranges cap (gap_of prev_lo hi)
  push ranges' cap (hi -ᵤ lo)

-- build_st; the count of the values written is the length of `written`
pub record BuildState : Type 0 where
  pub written : List ℕ
  pub hi : ℕ
  pub prev_lo : ℕ
  pub first : Bool

unfoldable pub close_block : BuildState → ℕ → ℕ → ℕ → Option BuildState
unfolding emit
close_block s cap lo next_hi = do
  written ← emit s.written cap s.first s.prev_lo s.hi lo
  some (record { written = written; hi = next_hi; prev_lo = lo; first = false })

unfoldable pub step : BuildState → List ℕ → ℕ → ℕ → Option BuildState
unfolding close_block
step s pns i cap =
    if get_or pns i 0 -ᵤ get_or pns (i - 1) 0 == 1
    then some s
    else close_block s cap (get_or pns i 0) (get_or pns (i - 1) 0)

-- `for (i = n - 1; i > 0; i--)`
unfoldable pub descend_loop : BuildState → List ℕ → ℕ → ℕ → Option BuildState
unfolding step
descend_loop s pns zero cap = some s
descend_loop s pns (suc i) cap = step s pns (suc i) cap >>= λ s'. descend_loop s' pns i cap

unfoldable pub descend : BuildState → List ℕ → ℕ → Option (List ℕ)
unfolding descend_loop emit
descend s pns cap = do
  s' ← descend_loop s pns (length pns - 1) cap
  emit s'.written cap s'.first s'.prev_lo s'.hi (get_or pns 0 0)

-- The largest number, and the values written.
unfoldable pub build_ranges : List ℕ → ℕ → Option (ℕ × List ℕ)
unfolding descend
build_ranges received_pns cap = if length received_pns == 0 then none else do
  let largest = get_or received_pns (length received_pns - 1) 0
  ranges ←
      descend (record { written = []; hi = largest; prev_lo = 0; first = true }) received_pns cap
  some (largest, ranges)
