-- ===== src/Retry.antt =====
-- Retry packets (src/transport/packet/header/packet/retry.c). The C lengths `dcid_len`, `scid_len` and
-- `token_len` are the lengths of the lists.
pub mod RoundTrip
mod Tests
use Prim.Native.Nat.{bit_and, bit_or}
use quic_vibe.Common.{
  ℕ, ◌+◌, ◌-◌, ◌*◌, ◌/◌, ◌^◌, Bool, false, ◌==◌, Option, none, some, List, [], ◌∷◌, ◌++◌, ltb, leb,
  if◌then◌else◌, length, get_or, take, drop, ◌>>=◌, ◌>>◌, guard,
}
use quic_vibe.Common.Word.{u8}
use quic_vibe.Frame.Wire.{read_bytes, write_bytes}
use quic_vibe.PacketHeader.{max_cid_len}

abbrev pub retry_tag_len : ℕ
retry_tag_len = 16

-- quic_retry_packet
pub record Packet : Type 0 where
  pub version : ℕ
  pub dcid : List ℕ
  pub scid : List ℕ
  pub token : List ℕ
  pub tag : List ℕ

-- `p[0] = (u8)(v >> 24); ... p[3] = (u8)v;`
unfoldable pub put_be32 : ℕ → List ℕ
put_be32 v = u8 (v / 2 ^ 24) ∷ u8 (v / 2 ^ 16) ∷ u8 (v / 2 ^ 8) ∷ u8 v ∷ []

-- `off` is the number of bytes written so far.
unfoldable pub put_cid : ℕ → List ℕ → List ℕ → Option (List ℕ)
put_cid cap w cid =
    if ltb cap (length w + 1 + length cid)
    then none
    else write_bytes cap (w ++ (length cid ∷ [])) cid

unfoldable pub retry_fits : ℕ → ℕ → ℕ → ℕ → Bool
retry_fits cap dcid_len scid_len token_len =
    leb (5 + 1 + dcid_len + 1 + scid_len + token_len + retry_tag_len) cap

-- The writers behind `retry_fits` have room, and their results are not read in C.
unfoldable pub retry_build : ℕ → Packet → Option (List ℕ)
retry_build cap r = do
  guard (retry_fits cap (length r.dcid) (length r.scid) (length r.token))
  w ← put_cid cap (0xF0 ∷ put_be32 r.version) r.dcid
  w' ← put_cid cap w r.scid
  w'' ← write_bytes cap w' r.token
  write_bytes cap w'' r.tag

-- The connection id and the cursor behind it.
unfoldable pub take_cid : List ℕ → Option (List ℕ × List ℕ)
take_cid [] = none
take_cid (len ∷ r) = if ltb max_cid_len len then none else read_bytes r len

unfoldable pub retry_head_ok : List ℕ → Bool
retry_head_ok buf =
    if ltb (length buf) (5 + 1 + 1 + retry_tag_len)
    then false
    else bit_and (get_or buf 0 0) 0xF0 == 0xF0

unfoldable pub take_cids : List ℕ → Option (List ℕ × List ℕ × List ℕ)
take_cids r = do (d, r') ← take_cid r; (s, r'') ← take_cid r'; some (d, s, r'')

-- The token and the tag, of the bytes left: `off > n - 16` where fewer than 16 are.
unfoldable pub take_token_tag : List ℕ → Option (List ℕ × List ℕ)
take_token_tag r =
    if ltb (length r) retry_tag_len
    then none
    else some (take (length r - retry_tag_len) r, drop (length r - retry_tag_len) r)

-- `(buf[1] << 24) | (buf[2] << 16) | (buf[3] << 8) | buf[4]`
unfoldable pub get_version : List ℕ → ℕ
get_version buf =
    bit_or
      (bit_or (bit_or (get_or buf 1 0 * 2 ^ 24) (get_or buf 2 0 * 2 ^ 16)) (get_or buf 3 0 * 2 ^ 8))
      (get_or buf 4 0)

unfoldable pub retry_parse_after_head : List ℕ → Option Packet
retry_parse_after_head buf = do
  (d, s, r) ← take_cids (drop 5 buf)
  (token, tag) ← take_token_tag r
  some (record { version = get_version buf; dcid = d; scid = s; token = token; tag = tag })

-- The packet and the number of bytes read, which are all.
unfoldable pub retry_parse : List ℕ → Option (Packet × ℕ)
retry_parse buf = do guard (retry_head_ok buf); r ← retry_parse_after_head buf; some (r, length buf)
