-- ===== src/Conn/CidPool.antt =====
-- Connection identifiers issued and retired (src/transport/conn/cid/cid/cidpool.c).
use quic_vibe.Common.{
  ℕ, suc, ◌+◌, ◌^◌, ◌≤◌, ◌<◌, ◌≡◌, refl, ◌∙◌, Bool, true, false, Option, none, some, List, [], ◌∷◌,
  arith, ltb, leb, if◌then◌else◌, length,
}
use quic_vibe.Common.Word.{◌+ᵤ◌, ◌-ᵤ◌}

-- quic_cidpool
pub record CidPool : Type 0 where
  pub limit : ℕ
  pub next_seq : ℕ
  pub retire_lo : ℕ

unfoldable pub pool_init : ℕ → CidPool
pool_init limit = record { limit = limit; next_seq = 0; retire_lo = 0 }

unfoldable pub active_count : CidPool → ℕ
active_count p = p.next_seq -ᵤ p.retire_lo

unfoldable pub issue : CidPool → CidPool × Option ℕ
unfolding active_count
issue p =
    if leb p.limit (active_count p)
    then (p, none)
    else (record p { next_seq = p.next_seq +ᵤ 1 }, some p.next_seq)

unfoldable pub retire_prior_to : CidPool → ℕ → CidPool × Bool
retire_prior_to p prior =
    if ltb p.next_seq prior
    then (p, false)
    else (if ltb p.retire_lo prior then record p { retire_lo = prior } else p, true)

pub data Call : Type 0 where
  issue_one : Call
  retire : ℕ → Call

abbrev pub handle : CidPool → Call → CidPool
handle p issue_one = (issue p).0
handle p (retire prior) = (retire_prior_to p prior).0

unfoldable pub run : CidPool → List Call → CidPool
run p [] = p
run p (c ∷ cs) = run (handle p c) cs

-- Where a sequence number stands: issued and not retired.
abbrev pub IsActive : CidPool → ℕ → Type 0
IsActive p seq = (p.retire_lo ≤ seq) × (seq < p.next_seq)

-- The active numbers are those from `retire_lo` to `next_seq`, and the limit bounds them.
pub record IsPool (p : CidPool) : Type 0 where
  pub ordered : p.retire_lo ≤ p.next_seq
  pub bounded : p.next_seq ≤ p.retire_lo + p.limit

handle-IsPool :
    (p : CidPool) (c : Call)
    → IsPool p
    → p.next_seq < 2 ^ 63
    → IsPool (handle p c)
      × ((handle p c).next_seq ≤ suc p.next_seq)
      × (p.retire_lo ≤ (handle p c).retire_lo)
      × ((handle p c).limit ≡ p.limit)
unfolding issue retire_prior_to
handle-IsPool p issue_one v h = ground arith
handle-IsPool p (retire prior) v h = ground arith

run-IsPool :
    (cs : List Call) (p : CidPool)
    → IsPool p
    → p.next_seq + length cs < 2 ^ 63
    → IsPool (run p cs)
      × ((run p cs).limit ≡ p.limit)
      × (p.retire_lo ≤ (run p cs).retire_lo)
      × ((run p cs).next_seq ≤ p.next_seq + length cs)
unfolding run
run-IsPool [] p v h = (v, refl, omega arith, omega arith)
run-IsPool (c ∷ cs) p v h =
    let (v', n, r, l) = handle-IsPool p c v (omega arith) in
    let (end, e, r', n') = run-IsPool cs (handle p c) v' (omega (arith, n)) in
    (end, e ∙ l, omega (arith, r, r'), omega (arith, n, n'))

-- Over fewer than 2^63 calls in any order, the count of active identifiers is that of the numbers
-- issued and not retired, it never passes the limit of the peer, and a retired number stays retired.
pub pool_within_limit :
    (before after : List Call) (limit : ℕ)
    → length before + length after < 2 ^ 63
    → let p = run (pool_init limit) before in
      (active_count p + p.retire_lo ≡ p.next_seq)
      × (active_count p ≤ limit)
      × (p.retire_lo ≤ (run p after).retire_lo)
unfolding active_count
pool_within_limit before after limit h =
    let start : IsPool (pool_init limit)
        × ((pool_init limit).limit ≡ limit)
        × ((pool_init limit).next_seq ≡ 0) =
      unfold pool_init in (record { ordered = omega arith; bounded = omega arith }, refl, refl) in
    let (v, l, z) = start in
    let p = run (pool_init limit) before in
    let (v', e, r, n) = run-IsPool before (pool_init limit) v (omega (arith, z)) in
    let (_, _, r', _) = run-IsPool after p v' (omega (arith, n, z)) in
    (omega (arith, v'.ordered, n, z), omega (arith, v'.ordered, v'.bounded, n, z, e, l), r')
