-- ===== src/Frame/Walk/Progress.antt =====
-- The walk advances over the payload and finds the frames that were written.
use quic_vibe.Common.{
  ℕ, ◌+◌, ◌≤◌, ◌≡◌, inl, inr, some, List, ◌++◌, arith, Option-cases, length, length-drop,
  take-append-drop,
}
use quic_vibe.Common.{take}
use quic_vibe.Varint.{decode}
use quic_vibe.Frame.Walk.{frame_len, measure, next}

-- Each step gives the type that the varint at its start names and the bytes from the frame's start on,
-- and takes the length measured off the remaining bytes: at least one and no more than there are, so that
-- what remains does not go below 0, and the walk ends.
pub next_advances :
    (it start behind : List ℕ) (type : ℕ)
    → next it ≡ some (type, start, behind)
    → (start ≡ it)
      × (type ≡ (measure it).0)
      × (1 ≤ (measure it).1)
      × ((measure it).1 ≤ length it)
      × (length behind + (measure it).1 ≡ length it)
      × (take (measure it).1 it ++ behind ≡ it)
unfolding next measure
next_advances it start behind type e = elim (Option-cases (decode it)) [
  | inl z ↦ absurd (ground arith)
  | inr ((t, used), d) ↦
      let len = frame_len t it in ground (arith, length-drop len it, take-append-drop len it)
]
