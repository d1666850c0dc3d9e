-- ===== src/Stream/Flow/SendLimit.antt =====
-- A sender over its whole life: what it may send, and that it never passes the limit.
use quic_vibe.Common.{ℕ, ◌+◌, ◌≤◌, max, ◌≡◌, ◌↔◌, true, List, [], ◌∷◌, arith, if◌then◌else◌}
use quic_vibe.Common.Word.{IsU64}
use quic_vibe.Stream.Flow.{FlowSend, send_record, send_update_max}

-- The calls that change a sender: new data, and a MAX_DATA frame.
pub data SendOp : Type 0 where
  send : ℕ → SendOp
  update : ℕ → SendOp

abbrev pub apply : FlowSend → SendOp → FlowSend
apply f (send n) = (send_record f n).0
apply f (update m) = send_update_max f m

unfoldable pub run : FlowSend → List SendOp → FlowSend
run f [] = f
run f (op ∷ ops) = run (apply f op) ops

-- The bytes that the calls of `send_record` accepted.
unfoldable pub accepted : FlowSend → List SendOp → ℕ
accepted f [] = 0
accepted f (send n ∷ ops) = (if (send_record f n).1 then n else 0) + accepted (apply f (send n)) ops
accepted f (update m ∷ ops) = accepted (apply f (update m)) ops

-- The largest limit that the peer ever gave.
abbrev pub granted : ℕ → List SendOp → ℕ
granted m [] = m
granted m (send n ∷ ops) = granted m ops
granted m (update k ∷ ops) = granted (max m k) ops

abbrev AllU64 : List SendOp → Type 0
AllU64 [] = Unit
AllU64 (send n ∷ ops) = IsU64 n × AllU64 ops
AllU64 (update m ∷ ops) = IsU64 m × AllU64 ops

pub record IsWithin (f : FlowSend) : Type 0 where
  pub limit : IsU64 f.max_data
  pub within : f.sent ≤ f.max_data

-- A send is accepted exactly when it fits, and then it alone is counted.
pub send_record_exact :
    (f : FlowSend) (n : ℕ)
    → IsWithin f
    → (((send_record f n).1 ≡ true) ↔ (f.sent + n ≤ f.max_data))
      × ((send_record f n).0.sent ≡ f.sent + (if (send_record f n).1 then n else 0))
      × ((send_record f n).0.max_data ≡ f.max_data)
unfolding send_record
send_record_exact f n v = (((λ e. ground arith), (λ e. ground arith)), ground arith, ground arith)

send_record-IsWithin : (f : FlowSend) (n : ℕ) → IsWithin f → IsWithin (send_record f n).0
unfolding send_record
send_record-IsWithin f n v = ground arith

send_update_max-IsWithin :
    (f : FlowSend) (m : ℕ)
    → IsU64 m
    → IsWithin f
    → IsWithin (send_update_max f m)
      × ((send_update_max f m).max_data ≡ max f.max_data m)
      × ((send_update_max f m).sent ≡ f.sent)
unfolding send_update_max
send_update_max-IsWithin f m h v = ground arith

-- Over any sequence of sends and limit updates, from a sender within its limit, what was sent grows
-- by what was accepted, the limit is the largest that was given, and what was sent never passes it.
pub run_within :
    (ops : List SendOp) (f : FlowSend)
    → IsWithin f
    → AllU64 ops
    → ((run f ops).sent ≡ f.sent + accepted f ops)
      × ((run f ops).max_data ≡ granted f.max_data ops)
      × ((run f ops).sent ≤ (run f ops).max_data)
unfolding run accepted
run_within [] f v h = omega arith
run_within (send n ∷ ops) f v (hn, h) = ground (
  arith,
  send_record_exact f n v,
  run_within ops (send_record f n).0 (send_record-IsWithin f n v) h,
)
run_within (update m ∷ ops) f v (hm, h) =
    let (v', e, e') = send_update_max-IsWithin f m hm v in
    ground (arith, run_within ops (send_update_max f m) v' h)
