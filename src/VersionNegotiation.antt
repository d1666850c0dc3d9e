-- ===== src/VersionNegotiation.antt =====
-- Version Negotiation packets (src/transport/packet/header/packet/vneg.c). `vneg_put_cid`,
-- `vneg_take_cid` and `vneg_take_cids` are the same code as in retry.c, modelled in Retry.
pub mod RoundTrip
mod Tests
use Prim.Native.Nat.{bit_and}
use quic_vibe.Common.{
  ℕ, ◌+◌, ◌*◌, ◌/◌, ◌%◌, Bool, false, true, not, ◌&&◌, ◌==◌, Option, none, some, List, [], ◌∷◌,
  ◌++◌, ltb, leb, if◌then◌else◌, length, get_or, drop, ◌>>=◌, ◌>>◌, guard,
}
use quic_vibe.Retry.{put_be32, put_cid, take_cids, get_version}

-- quic_vneg_packet; `versions` is the rest of the buffer, four bytes for each.
pub record Packet : Type 0 where
  pub dcid : List ℕ
  pub scid : List ℕ
  pub versions : List ℕ
  pub count : ℕ

unfoldable pub vneg_fits : ℕ → ℕ → ℕ → ℕ → Bool
vneg_fits cap dcid_len scid_len count =
    not (count == 0) && leb (5 + 1 + dcid_len + 1 + scid_len + count * 4) cap

-- The bytes that the loop appends.
unfoldable pub put_versions : List ℕ → List ℕ
put_versions [] = []
put_versions (v ∷ vs) = put_be32 v ++ put_versions vs

-- The writers behind `vneg_fits` have room, and their results are not read in C.
unfoldable pub vneg_build : ℕ → List ℕ → List ℕ → List ℕ → Option (List ℕ)
vneg_build cap dcid scid versions = do
  guard (vneg_fits cap (length dcid) (length scid) (length versions))
  w ← put_cid cap (0x80 ∷ put_be32 0) dcid
  w' ← put_cid cap w scid
  some (w' ++ put_versions versions)

unfoldable pub version_zero : List ℕ → Bool
version_zero buf = get_version buf == 0

unfoldable pub vneg_head_ok : List ℕ → Bool
vneg_head_ok buf =
    if ltb (length buf) 7
    then false
    else if bit_and (get_or buf 0 0) 0x80 == 0
    then false
    else version_zero buf

unfoldable pub versions_whole : ℕ → Bool
versions_whole rest = if rest == 0 then false else rest % 4 == 0

unfoldable pub vneg_parse_after_head : List ℕ → Option Packet
vneg_parse_after_head buf = do
  (d, s, r) ← take_cids (drop 5 buf)
  guard (versions_whole (length r))
  some (record { dcid = d; scid = s; versions = r; count = length r / 4 })

-- The packet and the number of bytes read, which are all.
unfoldable pub vneg_parse : List ℕ → Option (Packet × ℕ)
vneg_parse buf = do guard (vneg_head_ok buf); v ← vneg_parse_after_head buf; some (v, length buf)

unfoldable pub vneg_respond : ℕ → List ℕ → List ℕ → List ℕ → Option (List ℕ)
vneg_respond cap recv_dcid recv_scid versions = vneg_build cap recv_scid recv_dcid versions
