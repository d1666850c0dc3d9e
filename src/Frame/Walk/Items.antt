-- ===== src/Frame/Walk/Items.antt =====
-- Payloads of frames as they are written, for what walks over them.
use quic_vibe.Common.{
  ℕ, ◌≤◌, ◌<◌, ◌≡◌, refl, inl, inr, Option, some, List, [], ◌∷◌, ◌++◌, arith, length, ◌>>=◌,
}
use quic_vibe.Frame.Every
use quic_vibe.Frame.Every.{Frame, IsWritable}
use quic_vibe.Frame.Walk.{next}
use quic_vibe.Frame.Walk.Written.{walked_type, next_written, next_single, encode_nonempty}

-- What a payload is made of here: PADDING and PING, and the frames that the walk measures with a
-- decoder.
pub data Item : Type 0 where
  padding : Item
  ping : Item
  frame : Frame → Item

abbrev pub IsItem : ℕ → Item → Type 0
IsItem cap Item.padding = Unit
IsItem cap Item.ping = Unit
IsItem cap (Item.frame f) = IsWritable cap f × (walked_type f < 64)

-- The bytes of the items, each frame as its encoder writes it.
abbrev pub item_bytes : ℕ → Item → Option (List ℕ)
item_bytes cap Item.padding = some (0 ∷ [])
item_bytes cap Item.ping = some (1 ∷ [])
item_bytes cap (Item.frame f) = Every.encode cap f

abbrev pub payload : ℕ → List Item → Option (List ℕ)
payload cap [] = some []
payload cap (i ∷ is) = do b ← item_bytes cap i; bs ← payload cap is; some (b ++ bs)

pub some_inj : {b c : List ℕ} → some b ≡ some c → b ≡ c
some_inj e = ground arith

-- The type at the start of an item.
abbrev pub item_type : Item → ℕ
item_type Item.padding = 0
item_type Item.ping = 1
item_type (Item.frame f) = walked_type f

pub next_item :
    (cap : ℕ) (i : Item) (b rest : List ℕ)
    → IsItem cap i
    → item_bytes cap i ≡ some b
    → (next (b ++ rest) ≡ some (item_type i, b ++ rest, rest)) × (1 ≤ length b)
next_item cap Item.padding b rest v e =
    rw (← some_inj e) (next_single 0 rest (inl refl), omega arith)
next_item cap Item.ping b rest v e = rw (← some_inj e) (next_single 1 rest (inr refl), omega arith)
next_item cap (Item.frame f) [] rest (v, h) e =
    absurd (omega (arith, encode_nonempty cap f [] v h e))
next_item cap (Item.frame f) (t ∷ body) rest (v, h) e =
    (next_written cap f t body rest v h e, omega arith)
