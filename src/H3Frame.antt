-- ===== src/H3Frame.antt =====
-- HTTP/3 frames (src/app/http3/core/h3/frame.c): a type, a length and a payload.
pub mod RoundTrip
mod Tests
use quic_vibe.Common.{
  ℕ, zero, suc, ◌+◌, ◌-◌, ◌*◌, ◌/◌, ◌%◌, ◌^◌, ◌≤◌, ◌<◌, min, max, ◌≡◌, refl, sym, ap, ap₂, ◌∙◌, ◌≢◌,
  ◌↔◌, ◌⊎◌, inl, inr, Bool, true, false, not, ◌&&◌, ◌||◌, Option, none, some, List, [], ◌∷◌, ◌++◌,
  map, append-nil, append_assoc, arith, ltb, leb, ◌==◌, if◌then◌else◌, ltb→lt, lt→ltb, leb→le,
  le→leb, ==→eq, Bool-cases, Option-cases, to_bit, length, get_elem?, get_or, set, replicate, All,
  length-append, length-set, length-take, length-drop, length-replicate, get_or-set_self,
  get_or-set_ne, take_append, drop_append, take-append-drop, All-append, ◌>>=◌, ◌>>◌, guard,
  >>=-eq-some,
}
use quic_vibe.Common.Word.{IsByte, IsU64, u8, u32, u64, ◌+ᵤ◌, ◌-ᵤ◌, ◌*ᵤ◌}
use quic_vibe.Varint
use quic_vibe.Varint.{len}
use quic_vibe.Frame.Wire.{offset, write_bytes, read_bytes}

abbrev pub frame_cancel_push : ℕ
frame_cancel_push = 0x03

abbrev pub frame_settings : ℕ
frame_settings = 0x04

abbrev pub frame_goaway : ℕ
frame_goaway = 0x07

abbrev pub frame_max_push_id : ℕ
frame_max_push_id = 0x0d

abbrev pub settings_max : ℕ
settings_max = 8

-- An element of `pairs` of quic_h3_settings.
pub record Setting : Type 0 where
  pub id : ℕ
  pub value : ℕ

-- quic_h3_settings; `n` is the length of the list.
abbrev pub Settings : Type 0
Settings = List Setting

unfoldable pub put_head : ℕ → ℕ → ℕ → Option (List ℕ)
put_head cap type n = do w ← Varint.put cap [] type; Varint.put cap w n

unfoldable pub frame_put : ℕ → ℕ → List ℕ → Option (List ℕ)
frame_put cap type payload = do w ← put_head cap type (length payload); write_bytes cap w payload

-- The type, the length and the cursor behind them.
unfoldable pub get_head : List ℕ → Option (ℕ × ℕ × List ℕ)
get_head r = do (type, r') ← Varint.take r; (n, r'') ← Varint.take r'; some (type, n, r'')

-- The type, the payload and the number of bytes read.
unfoldable pub frame_get : List ℕ → Option (ℕ × List ℕ × ℕ)
frame_get buf = do
  (type, n, r) ← get_head buf
  (payload, r') ← read_bytes r n
  some (type, payload, offset buf r')

unfoldable pub put_one : ℕ → ℕ → ℕ → Option (List ℕ)
put_one cap type v = do w ← put_head cap type (len v); Varint.put cap w v

unfoldable pub get_one_head : List ℕ → ℕ → Option (ℕ × List ℕ)
get_one_head r want_type = do (type, n, r') ← get_head r; guard (type == want_type); some (n, r')

unfoldable pub get_one_body : List ℕ → ℕ → Option (ℕ × List ℕ)
get_one_body r n = do (v, r') ← Varint.take r; guard (offset r r' == n); some (v, r')

unfoldable pub get_one : List ℕ → ℕ → Option (ℕ × ℕ)
get_one buf want_type = do
  (n, r) ← get_one_head buf want_type
  (v, r') ← get_one_body r n
  some (v, offset buf r')

unfoldable pub cancel_push_put : ℕ → ℕ → Option (List ℕ)
cancel_push_put cap push_id = put_one cap frame_cancel_push push_id

unfoldable pub cancel_push_get : List ℕ → Option (ℕ × ℕ)
cancel_push_get buf = get_one buf frame_cancel_push

unfoldable pub goaway_put : ℕ → ℕ → Option (List ℕ)
goaway_put cap id = put_one cap frame_goaway id

unfoldable pub goaway_get : List ℕ → Option (ℕ × ℕ)
goaway_get buf = get_one buf frame_goaway

unfoldable pub max_push_id_put : ℕ → ℕ → Option (List ℕ)
max_push_id_put cap push_id = put_one cap frame_max_push_id push_id

unfoldable pub max_push_id_get : List ℕ → Option (ℕ × ℕ)
max_push_id_get buf = get_one buf frame_max_push_id

unfoldable pub frame_put_pair : ℕ → List ℕ → Setting → Option (List ℕ)
frame_put_pair cap w s = do w' ← Varint.put cap w s.id; Varint.put cap w' s.value

-- The pairs are read up to the end of the payload, which the cursor is cut to. `room` is how many more
-- the array holds.
unfoldable pub take_pair_id : ℕ → List ℕ → Option (ℕ × List ℕ)
take_pair_id room r = if room == 0 then none else Varint.take r

unfoldable pub frame_take_pair : ℕ → List ℕ → Option (Setting × List ℕ)
frame_take_pair room r = do
  (i, r') ← take_pair_id room r
  (v, r'') ← Varint.take r'
  some (record { id = i; value = v }, r'')

-- The payload and the cursor behind it.
unfoldable pub get_settings_head : List ℕ → Option (List ℕ × List ℕ)
get_settings_head buf = do
  (type, n, r) ← get_head buf
  guard (type == frame_settings)
  read_bytes r n

unfoldable pub settings_body_len : Settings → ℕ
settings_body_len [] = 0
settings_body_len (s ∷ ss) = len s.id + len s.value + settings_body_len ss

-- The C loop goes on after a pair that does not fit, and fails at the end.
unfoldable pub put_settings_pairs : ℕ → List ℕ → Settings → Option (List ℕ)
put_settings_pairs cap w [] = some w
put_settings_pairs cap w (s ∷ ss) = do w' ← frame_put_pair cap w s; put_settings_pairs cap w' ss

unfoldable pub put_settings_head : ℕ → Settings → Option (List ℕ)
put_settings_head cap ss =
    if ltb settings_max (length ss)
    then none
    else put_head cap frame_settings (settings_body_len ss)

unfoldable pub settings_put : ℕ → Settings → Option (List ℕ)
settings_put cap ss = do w ← put_settings_head cap ss; put_settings_pairs cap w ss

-- `while (*off < end)`: each pair takes a slot of the array, so that a round for each slot and one
-- more are enough.
unfoldable pub get_settings_pairs : ℕ → List ℕ → Option Settings
get_settings_pairs zero r = none
get_settings_pairs (suc room) [] = some []
get_settings_pairs (suc room) (b ∷ r) = do
  (s, r') ← frame_take_pair room (b ∷ r)
  ss ← get_settings_pairs room r'
  some (s ∷ ss)

unfoldable pub settings_get : List ℕ → Option (Settings × ℕ)
settings_get buf = do
  (payload, r) ← get_settings_head buf
  ss ← get_settings_pairs (suc settings_max) payload
  some (ss, offset buf r)
