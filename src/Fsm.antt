-- ===== src/Fsm.antt =====
-- The table-driven state machine that streams and connections share
-- (src/transport/conn/lifecycle/fsm/fsm.c). States and events are their C codes here.
use quic_vibe.Common.{ℕ, Bool, true, false, ◌&&◌, List, [], ◌∷◌, ◌==◌, if◌then◌else◌}

-- quic_fsm_row
pub record Row : Type 0 where
  pub from : ℕ
  pub ev : ℕ
  pub to : ℕ

abbrev pub row : ℕ → ℕ → ℕ → Row
row a e b = record { from = a; ev = e; to = b }

-- QUIC_FSM_NONE
abbrev pub fsm_none : ℕ
fsm_none = 0xFF

unfoldable pub row_matches : Row → ℕ → ℕ → Bool
row_matches r from ev = r.from == from && r.ev == ev

-- The first row for the pair, from the rows not yet tried.
unfoldable pub lookup : List Row → ℕ → ℕ → ℕ
unfolding row_matches
lookup [] from ev = fsm_none
lookup (r ∷ rows) from ev = if row_matches r from ev then r.to else lookup rows from ev

unfoldable pub fsm_step : ℕ → List Row → ℕ → ℕ × Bool
unfolding lookup
fsm_step state rows ev =
    let to = lookup rows state ev in if to == fsm_none then (state, false) else (to, true)
