-- ===== src/Stream/FinalSize.antt =====
-- The final size of a stream (src/transport/stream/flow/flow/finalsize.c).
use quic_vibe.Common.{
  ℕ, ◌+◌, ◌^◌, ◌≤◌, ◌<◌, ◌≡◌, sym, ap, ◌∙◌, inl, inr, Bool, true, false, Option, none, some, List,
  [], ◌∷◌, arith, ltb, leb, ◌==◌, if◌then◌else◌, Bool-cases, All,
}
use quic_vibe.Common.Word.{◌+ᵤ◌}

-- quic_finalsize
pub record FinalSize : Type 0 where
  pub highest : ℕ
  pub final_size : ℕ
  pub known : Bool

unfoldable pub init : FinalSize
init = record { highest = 0; final_size = 0; known = false }

-- The record after the data, and the end of the data.
unfoldable pub note_highest : FinalSize → ℕ → ℕ → FinalSize × ℕ
note_highest f offset len =
    let end = offset +ᵤ len in (if ltb f.highest end then record f { highest = end } else f, end)

unfoldable pub add_data : FinalSize → ℕ → ℕ → FinalSize × Bool
unfolding note_highest
add_data f offset len =
    let (f', end) = note_highest f offset len in
    (f', if f.known then leb end f.final_size else true)

unfoldable pub size_consistent : FinalSize → ℕ → Bool
size_consistent f size = if f.known then size == f.final_size else leb f.highest size

unfoldable pub set_size : FinalSize → ℕ → FinalSize × Bool
unfolding size_consistent
set_size f size =
    if size_consistent f size
    then (record f { final_size = size; known = true }, true)
    else (f, false)

-- What a peer sends on a stream: data, and a final size by FIN or RESET_STREAM.
pub data Event : Type 0 where
  arrive : ℕ → ℕ → Event
  finish : ℕ → Event

abbrev pub handle : FinalSize → Event → FinalSize × Bool
handle f (arrive offset len) = add_data f offset len
handle f (finish size) = set_size f size

-- The record after a sequence of events that were all accepted; `none` if one was refused.
unfoldable pub run : FinalSize → List Event → Option FinalSize
run f [] = some f
run f (e ∷ es) = let (f', fine) = handle f e in if fine then run f' es else none

abbrev IsIn : Event → Type 0
IsIn (arrive offset len) = offset + len < 2 ^ 64
IsIn (finish size) = Unit

-- The end of the last byte that the events carry, and the final sizes that they name.
abbrev pub EndsBelow : ℕ → Event → Type 0
EndsBelow n (arrive offset len) = offset + len ≤ n
EndsBelow n (finish size) = size ≡ n

pub record IsValid (f : FinalSize) : Type 0 where
  pub below : f.known ≡ true → f.highest ≤ f.final_size

handle-IsValid :
    (f : FinalSize) (e : Event)
    → IsIn e
    → IsValid f
    → (handle f e).1 ≡ true
    → IsValid (handle f e).0 × (f.highest ≤ (handle f e).0.highest)
unfolding add_data set_size
handle-IsValid f (arrive offset len) h v ok = ground arith
handle-IsValid f (finish size) h v ok = ground arith

-- Once it is known, no event changes the final size, whether it is accepted or not.
final_size_fixed :
    (f : FinalSize) (e : Event)
    → f.known ≡ true
    → ((handle f e).0.known ≡ true) × ((handle f e).0.final_size ≡ f.final_size)
unfolding add_data set_size
final_size_fixed f (arrive offset len) h = ground arith
final_size_fixed f (finish size) h = ground arith

-- What an accepted event leaves behind.
record Accepted (f : FinalSize) (e : Event) (f' : FinalSize) : Type 0 where
  valid : IsValid f'
  higher : f.highest ≤ f'.highest
  kept : f.known ≡ true → (f'.known ≡ true) × (f'.final_size ≡ f.final_size)
  noted : (n : ℕ) → f'.highest ≤ n → (f'.known ≡ true → f'.final_size ≡ n) → EndsBelow n e

handle-Accepted :
    (f : FinalSize) (e : Event)
    → IsIn e
    → IsValid f
    → (handle f e).1 ≡ true
    → Accepted f e (handle f e).0
unfolding add_data set_size
handle-Accepted f (arrive offset len) h v ok = record {
  valid = (handle-IsValid f (arrive offset len) h v ok).0;
  higher = (handle-IsValid f (arrive offset len) h v ok).1;
  kept = λ k. final_size_fixed f (arrive offset len) k;
  noted = λ n p q. ground arith;
}
handle-Accepted f (finish size) h v ok = record {
  valid = (handle-IsValid f (finish size) h v ok).0;
  higher = (handle-IsValid f (finish size) h v ok).1;
  kept = λ k. final_size_fixed f (finish size) k;
  noted = λ n p q. ground arith;
}

run_sound :
    (es : List Event) (f g : FinalSize)
    → IsValid f
    → All IsIn es
    → run f es ≡ some g
    → g.known ≡ true
    → All (EndsBelow g.final_size) es
      × (f.highest ≤ g.final_size)
      × (f.known ≡ true → f.final_size ≡ g.final_size)
unfolding run
run_sound [] f g v h e k =
    let p : f ≡ g = cc in
    (tt, rw (← p) (v.below (rw p k)), λ _. ap (λ (s : FinalSize). s.final_size) p)
run_sound (e ∷ es) f g v (he, h) r k = elim (Bool-cases (handle f e).1) [
  | inr refused ↦ absurd (ground arith)
  | inl ok ↦
      let a = handle-Accepted f e he v ok in
      let (rest, high, same) = run_sound es (handle f e).0 g a.valid h (rw ok at r) k in
      (
        (a.noted g.final_size high same, rest),
        omega (arith, a.higher),
        λ known. sym (a.kept known).1 ∙ same (a.kept known).0,
      )
]

-- If every event of a stream was accepted and its final size is known at the end, then no data went
-- past that size and every final size named was that one, in whatever order they came.
pub accepted_final_size :
    (es : List Event) (g : FinalSize)
    → All IsIn es
    → run init es ≡ some g
    → g.known ≡ true
    → All (EndsBelow g.final_size) es
unfolding init
accepted_final_size es g h r k = (run_sound es init g (record { below = λ e. cc }) h r k).0
