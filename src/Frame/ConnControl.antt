-- ===== src/Frame/ConnControl.antt =====
-- Frames that steer the connection: NEW_TOKEN, RETIRE_CONNECTION_ID, PATH_CHALLENGE, PATH_RESPONSE
-- and HANDSHAKE_DONE (src/transport/packet/frame/frame/connctl.c), and NEW_CONNECTION_ID (ncid.c
-- beside it). The C field `length` of a token is the length of its bytes.
pub mod RoundTrip
pub mod Local
use quic_vibe.Common.{
  ℕ, zero, suc, ◌+◌, ◌-◌, ◌*◌, ◌/◌, ◌%◌, ◌^◌, ◌≤◌, ◌<◌, min, max, ◌≡◌, refl, sym, ap, ap₂, ◌∙◌, ◌≢◌,
  ◌↔◌, ◌⊎◌, inl, inr, Bool, true, false, not, ◌&&◌, ◌||◌, Option, none, some, List, [], ◌∷◌, ◌++◌,
  map, append-nil, append_assoc, arith, ltb, leb, ◌==◌, if◌then◌else◌, ltb→lt, lt→ltb, leb→le,
  le→leb, ==→eq, Bool-cases, Option-cases, to_bit, length, get_elem?, get_or, set, replicate, All,
  length-append, length-set, length-take, length-drop, length-replicate, get_or-set_self,
  get_or-set_ne, take_append, drop_append, take-append-drop, All-append, ◌>>=◌, ◌>>◌, guard,
  >>=-eq-some,
}
use quic_vibe.Common.Word.{IsByte, IsU64, u8, u32, u64, ◌+ᵤ◌, ◌-ᵤ◌, ◌*ᵤ◌}
use quic_vibe.Common.{take, drop}
use quic_vibe.Varint
use quic_vibe.Frame.Wire.{after_type, offset, write_bytes, read_bytes}

-- quic_new_token_frame
pub record NewTokenFrame : Type 0 where
  pub token : List ℕ

-- quic_ncid_frame: `cid` holds the `cid_len` bytes in use, `token` the reset token.
pub record NcidFrame : Type 0 where
  pub seq : ℕ
  pub retire_prior_to : ℕ
  pub cid : List ℕ
  pub token : List ℕ

abbrev pub frame_new_token : ℕ
frame_new_token = 0x07

abbrev pub frame_retire_cid : ℕ
frame_retire_cid = 0x19

abbrev pub frame_handshake_done : ℕ
frame_handshake_done = 0x1e

abbrev pub path_data : ℕ
path_data = 8

abbrev pub frame_new_cid : ℕ
frame_new_cid = 0x18

abbrev pub ncid_token : ℕ
ncid_token = 16

abbrev pub ncid_max_len : ℕ
ncid_max_len = 20

unfoldable pub put_new_token_head : ℕ → ℕ → Option (List ℕ)
put_new_token_head cap n = do w ← Varint.put cap [] frame_new_token; Varint.put cap w n

unfoldable pub new_token_encode : ℕ → NewTokenFrame → Option (List ℕ)
new_token_encode cap f = do w ← put_new_token_head cap (length f.token); write_bytes cap w f.token

-- The view of the token's bytes and the cursor behind them.
unfoldable pub take_token_view : List ℕ → ℕ → Option (List ℕ × List ℕ)
take_token_view r n = read_bytes r n

unfoldable pub new_token_decode : List ℕ → Option (NewTokenFrame × ℕ)
new_token_decode buf = do
  (n, r) ← Varint.take (after_type buf)
  (t, r') ← take_token_view r n
  some (record { token = t }, offset buf r')

unfoldable pub retire_cid_encode : ℕ → ℕ → Option (List ℕ)
retire_cid_encode cap seq = do w ← Varint.put cap [] frame_retire_cid; Varint.put cap w seq

unfoldable pub retire_cid_decode : List ℕ → Option (ℕ × ℕ)
retire_cid_decode buf = do (seq, r) ← Varint.take (after_type buf); some (seq, offset buf r)

-- The C code copies `QUIC_PATH_DATA` bytes from `data`, which its type says it has.
unfoldable pub path_encode : ℕ → ℕ → List ℕ → Option (List ℕ)
path_encode cap type bytes =
    if cap == 0 then none else write_bytes cap (type ∷ []) (take path_data bytes)

unfoldable pub type_is : List ℕ → ℕ → Bool
type_is buf type = not (length buf == 0) && get_or buf 0 0 == type

unfoldable pub path_decode : ℕ → List ℕ → Option (List ℕ × ℕ)
path_decode type buf = do
  guard (type_is buf type)
  (d, r) ← read_bytes (after_type buf) path_data
  some (d, offset buf r)

unfoldable pub handshake_done_encode : ℕ → Option (List ℕ)
handshake_done_encode cap = if cap == 0 then none else some (frame_handshake_done ∷ [])

-- The number of bytes read.
unfoldable pub handshake_done_decode : List ℕ → Option ℕ
handshake_done_decode buf =
    if length buf == 0 || not (get_or buf 0 0 == frame_handshake_done) then none else some 1

unfoldable pub ncid_valid : NcidFrame → Bool
ncid_valid f = leb (length f.cid) ncid_max_len && leb f.retire_prior_to f.seq

unfoldable pub put_ncid_head : ℕ → NcidFrame → Option (List ℕ)
put_ncid_head cap f = do
  w ← Varint.put cap [] frame_new_cid
  w' ← Varint.put cap w f.seq
  Varint.put cap w' f.retire_prior_to

unfoldable pub put_ncid_body : ℕ → List ℕ → NcidFrame → Option (List ℕ)
put_ncid_body cap w f = do
  guard (ltb (length w) cap)
  w' ← write_bytes cap (w ++ (length f.cid ∷ [])) f.cid
  write_bytes cap w' (take ncid_token f.token)

unfoldable pub put_ncid : ℕ → NcidFrame → Option (List ℕ)
put_ncid cap f = do w ← put_ncid_head cap f; put_ncid_body cap w f

unfoldable pub ncid_encode : ℕ → NcidFrame → Option (List ℕ)
ncid_encode cap f = if ncid_valid f then put_ncid cap f else none

-- The sequence number, `retire_prior_to` and the cursor behind them.
unfoldable pub take_ncid_head : List ℕ → Option (ℕ × ℕ × List ℕ)
take_ncid_head r = do (s, r') ← Varint.take r; (p, r'') ← Varint.take r'; some (s, p, r'')

unfoldable pub cid_len_ok : List ℕ → Bool
cid_len_ok r = ltb 0 (length r) && leb (get_or r 0 0) ncid_max_len

-- The connection id, the token and the cursor behind them.
unfoldable pub take_ncid_body : List ℕ → Option (List ℕ × List ℕ × List ℕ)
take_ncid_body r = do
  guard (cid_len_ok r)
  (c, r') ← read_bytes (drop 1 r) (get_or r 0 0)
  (t, r'') ← read_bytes r' ncid_token
  some (c, t, r'')

unfoldable pub ncid_decode : List ℕ → Option (NcidFrame × ℕ)
ncid_decode buf = do
  (s, p, r) ← take_ncid_head (after_type buf)
  (c, t, r') ← take_ncid_body r
  some (record { seq = s; retire_prior_to = p; cid = c; token = t }, offset buf r')
