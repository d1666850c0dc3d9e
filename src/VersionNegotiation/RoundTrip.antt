-- ===== src/VersionNegotiation/RoundTrip.antt =====
-- A client reads the answer of a server that negotiates the version.
use quic_vibe.Common.{
  ℕ, ◌+◌, ◌*◌, ◌^◌, ◌≤◌, ◌<◌, ◌≡◌, refl, ap₂, All, some, List, [], ◌∷◌, ◌++◌, append_assoc, arith,
  length, length-append,
}
use quic_vibe.Retry.{put_be32}
use quic_vibe.Retry.RoundTrip.{put_cid_fits, take_cids_back, cid_bytes, get_version_back}
use quic_vibe.VersionNegotiation.{
  Packet, vneg_fits, put_versions, vneg_build, version_zero, vneg_head_ok, versions_whole,
  vneg_parse_after_head, vneg_parse, vneg_respond,
}

length-put_versions : (vs : List ℕ) → length (put_versions vs) ≡ length vs * 4
unfolding put_versions put_be32
length-put_versions [] = refl
length-put_versions (v ∷ vs) = omega (arith, length-put_versions vs)

-- The bytes of a packet.
abbrev vneg_bytes : List ℕ → List ℕ → List ℕ → List ℕ
vneg_bytes d s versions = 0x80 ∷ (put_be32 0 ++ cid_bytes d s (put_versions versions))

vneg_build-bytes :
    (cap : ℕ) (d s versions : List ℕ)
    → 1 ≤ length versions
    → 7 + length d + length s + 4 * length versions ≤ cap
    → vneg_build cap d s versions ≡ some (vneg_bytes d s versions)
unfolding vneg_build vneg_fits put_be32
vneg_build-bytes cap dcid scid versions some_version room =
    let head = 0x80 ∷ put_be32 0 in
    let d = length dcid ∷ dcid in
    let s = length scid ∷ scid in
    ground (
      arith,
      put_cid_fits cap head dcid,
      length-append head d,
      put_cid_fits cap (head ++ d) scid,
      append_assoc (head ++ d) s (put_versions versions),
      append_assoc head d (s ++ put_versions versions),
    )

vneg_parse-bytes :
    (d s versions : List ℕ)
    → 1 ≤ length versions
    → length d ≤ 20
    → length s ≤ 20
    → vneg_parse (vneg_bytes d s versions)
      ≡ some (
        record { dcid = d; scid = s; versions = put_versions versions; count = length versions },
        length (vneg_bytes d s versions),
      )
unfolding vneg_parse vneg_parse_after_head vneg_head_ok version_zero versions_whole put_be32
vneg_parse-bytes d s versions some_version hd hs = ground (
  arith,
  get_version_back 0x80 0 (cid_bytes d s (put_versions versions)) (omega arith),
  take_cids_back d s (put_versions versions) hd hs,
  length-put_versions versions,
  length-append d (length s ∷ (s ++ put_versions versions)),
  length-append s (put_versions versions),
)

-- The numbers that bytes spell, most significant byte first, four bytes each.
abbrev pub numbers : List ℕ → List ℕ
numbers (a ∷ (b ∷ (c ∷ (d ∷ rest)))) = (a * 2 ^ 24 + b * 2 ^ 16 + c * 2 ^ 8 + d) ∷ numbers rest
numbers _ = []

numbers-put_versions :
    (versions : List ℕ)
    → All (λ v. v < 2 ^ 32) versions
    → numbers (put_versions versions) ≡ versions
unfolding put_versions put_be32
numbers-put_versions [] h = refl
numbers-put_versions (v ∷ vs) (h, hs) =
    ap₂ (λ x (xs : List ℕ). x ∷ xs) (omega arith) (numbers-put_versions vs hs)

-- The answer to a packet with connection ids of 20 bytes at most, with at least one 32-bit version and
-- room for it, is parsed whole: the ids are those received with their parts swapped, and the versions
-- spelled by the bytes are those offered, in their order and number.
pub vneg_answer_round_trip :
    (cap : ℕ) (recv_dcid recv_scid versions : List ℕ)
    → length recv_dcid ≤ 20
    → length recv_scid ≤ 20
    → 1 ≤ length versions
    → All (λ v. v < 2 ^ 32) versions
    → 7 + length recv_dcid + length recv_scid + 4 * length versions ≤ cap
    → (out : List ℕ) × (p : Packet) × (vneg_respond cap recv_dcid recv_scid versions ≡ some out)
      × (vneg_parse out ≡ some (p, length out))
      × (p.dcid ≡ recv_scid)
      × (p.scid ≡ recv_dcid)
      × (numbers p.versions ≡ versions)
      × (p.count ≡ length versions)
unfolding vneg_respond
vneg_answer_round_trip cap recv_dcid recv_scid versions hd hs some_version words room = (
  vneg_bytes recv_scid recv_dcid versions,
  record {
    dcid = recv_scid;
    scid = recv_dcid;
    versions = put_versions versions;
    count = length versions;
  },
  vneg_build-bytes cap recv_scid recv_dcid versions some_version (omega arith),
  vneg_parse-bytes recv_scid recv_dcid versions some_version hs hd,
  refl,
  refl,
  numbers-put_versions versions words,
  refl,
)
