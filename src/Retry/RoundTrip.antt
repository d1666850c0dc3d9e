-- ===== src/Retry/RoundTrip.antt =====
-- A Retry packet is parsed as it was built.
use quic_vibe.Common.{
  ℕ, ◌+◌, ◌-◌, ◌/◌, ◌^◌, ◌≤◌, ◌<◌, ◌≡◌, some, List, [], ◌∷◌, ◌++◌, append_assoc, arith, length,
  length-append, take_append, drop_append,
}
use quic_vibe.Common.Word.{u8}
use quic_vibe.Frame.Wire.{write_bytes, read_bytes_back, write_bytes_fits}
use quic_vibe.PacketHeader.RoundTrip.{version_back, read_cid_back}
use quic_vibe.PacketHeader.{Header, header_parse, parse_long}
use quic_vibe.Retry.{
  Packet, put_be32, put_cid, retry_fits, retry_build, take_cid, retry_head_ok, take_cids,
  take_token_tag, get_version, retry_parse_after_head, retry_parse,
}

pub put_cid_fits :
    (cap : ℕ) (w cid : List ℕ)
    → length w + 1 + length cid ≤ cap
    → put_cid cap w cid ≡ some (w ++ (length cid ∷ cid))
unfolding put_cid write_bytes
put_cid_fits cap w cid room =
    ground (arith, length-append w (length cid ∷ []), append_assoc w (length cid ∷ []) cid)

pub take_cid_back :
    (cid rest : List ℕ) → length cid ≤ 20 → take_cid (length cid ∷ (cid ++ rest)) ≡ some (cid, rest)
unfolding take_cid
take_cid_back cid rest h = ground (arith, read_bytes_back cid rest)

-- The ids, in the order of the packet.
abbrev pub cid_bytes : List ℕ → List ℕ → List ℕ → List ℕ
cid_bytes d s rest = length d ∷ (d ++ (length s ∷ (s ++ rest)))

pub take_cids_back :
    (d s rest : List ℕ)
    → length d ≤ 20
    → length s ≤ 20
    → take_cids (cid_bytes d s rest) ≡ some (d, s, rest)
unfolding take_cids
take_cids_back d s rest hd hs =
    ground (arith, take_cid_back d (length s ∷ (s ++ rest)) hd, take_cid_back s rest hs)

pub get_version_back :
    (b v : ℕ) (rest : List ℕ) → v < 2 ^ 32 → get_version (b ∷ (put_be32 v ++ rest)) ≡ v
unfolding get_version put_be32
get_version_back b v rest h = omega (
  arith,
  version_back (u8 (v / 2 ^ 24)) (u8 (v / 2 ^ 16)) (u8 (v / 2 ^ 8)) (u8 v) (omega arith)
      (omega arith) (omega arith),
)

take_token_tag_back :
    (token tag : List ℕ) → length tag ≡ 16 → take_token_tag (token ++ tag) ≡ some (token, tag)
unfolding take_token_tag
take_token_tag_back token tag h =
    let all : length (token ++ tag) - 16 ≡ length token = omega (arith, length-append token tag) in
    rw all (ground (arith, length-append token tag, take_append token tag, drop_append token tag))

-- The bytes of a Retry packet.
abbrev retry_bytes : Packet → List ℕ
retry_bytes r = 0xF0 ∷ (put_be32 r.version ++ cid_bytes r.dcid r.scid (r.token ++ r.tag))

retry_build-bytes :
    (cap : ℕ) (r : Packet)
    → length r.tag ≡ 16
    → 23 + length r.dcid + length r.scid + length r.token ≤ cap
    → retry_build cap r ≡ some (retry_bytes r)
unfolding retry_build retry_fits put_be32
retry_build-bytes cap r ht room =
    let head = 0xF0 ∷ put_be32 r.version in
    let d = length r.dcid ∷ r.dcid in
    let s = length r.scid ∷ r.scid in
    ground (
      arith,
      put_cid_fits cap head r.dcid,
      length-append head d,
      put_cid_fits cap (head ++ d) r.scid,
      length-append (head ++ d) s,
      write_bytes_fits cap ((head ++ d) ++ s) r.token,
      length-append ((head ++ d) ++ s) r.token,
      write_bytes_fits cap (((head ++ d) ++ s) ++ r.token) r.tag,
      append_assoc ((head ++ d) ++ s) r.token r.tag,
      append_assoc (head ++ d) s (r.token ++ r.tag),
      append_assoc head d (s ++ (r.token ++ r.tag)),
    )

retry_parse-bytes :
    (r : Packet)
    → r.version < 2 ^ 32
    → length r.dcid ≤ 20
    → length r.scid ≤ 20
    → length r.tag ≡ 16
    → retry_parse (retry_bytes r) ≡ some (r, length (retry_bytes r))
unfolding retry_parse retry_parse_after_head retry_head_ok put_be32
retry_parse-bytes r hv hd hs ht =
    let rest = cid_bytes r.dcid r.scid (r.token ++ r.tag) in
    ground (
      arith,
      get_version_back 0xF0 r.version rest hv,
      take_cids_back r.dcid r.scid (r.token ++ r.tag) hd hs,
      take_token_tag_back r.token r.tag ht,
      length-append r.dcid (length r.scid ∷ (r.scid ++ (r.token ++ r.tag))),
      length-append r.scid (r.token ++ r.tag),
      length-append r.token r.tag,
    )

retry_header-bytes :
    (r : Packet) (preset : Header)
    → r.version < 2 ^ 32
    → length r.dcid ≤ 20
    → length r.scid ≤ 20
    → header_parse preset (retry_bytes r)
      ≡ some (
        record { form = 1; long_type = 3; version = r.version; dcid = r.dcid; scid = r.scid },
        7 + length r.dcid + length r.scid,
      )
unfolding header_parse parse_long put_be32
retry_header-bytes r preset hv hd hs =
    let tail = r.token ++ r.tag in
    ground (
      arith,
      read_cid_back r.dcid (length r.scid ∷ (r.scid ++ tail)) hd,
      read_cid_back r.scid tail hs,
      version_back (u8 (r.version / 2 ^ 24)) (u8 (r.version / 2 ^ 16)) (u8 (r.version / 2 ^ 8))
          (u8 r.version) (omega arith) (omega arith) (omega arith),
      length-append r.dcid (length r.scid ∷ (r.scid ++ tail)),
      length-append r.scid tail,
    )

-- A Retry packet with a 32-bit version, connection ids of 20 bytes at most, any token, a tag of 16
-- bytes and room for it is parsed as it was built, and taken whole. The parser of the part that no
-- version changes reads the same version and ids of it, with type 3, and stops before the token.
pub retry_round_trip :
    (cap : ℕ) (r : Packet) (preset : Header)
    → r.version < 2 ^ 32
    → length r.dcid ≤ 20
    → length r.scid ≤ 20
    → length r.tag ≡ 16
    → 23 + length r.dcid + length r.scid + length r.token ≤ cap
    → (out : List ℕ) × (retry_build cap r ≡ some out)
      × (retry_parse out ≡ some (r, length out))
      × (header_parse preset out
          ≡ some (
            record { form = 1; long_type = 3; version = r.version; dcid = r.dcid; scid = r.scid },
            7 + length r.dcid + length r.scid,
          ))
retry_round_trip cap r preset hv hd hs ht room = (
  retry_bytes r,
  retry_build-bytes cap r ht room,
  retry_parse-bytes r hv hd hs ht,
  retry_header-bytes r preset hv hd hs,
)
