-- ===== src/PacketHeader/RoundTrip.antt =====
-- A long header is read back as it was built; what is built where it does not fit.
use Prim.Native.Nat.{bit_and, bit_or}
use quic_vibe.Common.{
  ℕ, zero, suc, ◌+◌, ◌*◌, ◌/◌, ◌^◌, ◌≤◌, ◌<◌, ◌≡◌, refl, leb, ltb, if◌then◌else◌, false, some, List,
  [], ◌∷◌, ◌++◌, append_assoc, arith, ◌==◌, length, length-append, take_append, drop_append,
}
use quic_vibe.Common.Word.{u8}
use quic_vibe.Common.Bits.{bit_or_disjoint}
use quic_vibe.PacketHeader.{
  Header, cid_fits, read_cid, parse_long, header_parse, write_cid, put_long_prefix, cids_round,
  write_cids, build_long,
}

-- Four bytes put together.
pub version_back :
    (a b c d : ℕ)
    → b < 256
    → c < 256
    → d < 256
    → bit_or (bit_or (bit_or (a * 2 ^ 24) (b * 2 ^ 16)) (c * 2 ^ 8)) d
      ≡ a * 2 ^ 24 + b * 2 ^ 16 + c * 2 ^ 8 + d
version_back a b c d hb hc hd =
    let one : bit_or (a * 2 ^ 24) (b * 2 ^ 16) ≡ (a * 2 ^ 8 + b) * 2 ^ 16 =
      omega (arith, bit_or_disjoint 24 a (b * 2 ^ 16) (omega arith)) in
    let two : bit_or ((a * 2 ^ 8 + b) * 2 ^ 16) (c * 2 ^ 8)
        ≡ ((a * 2 ^ 8 + b) * 2 ^ 8 + c) * 2 ^ 8 =
      omega (arith, bit_or_disjoint 16 (a * 2 ^ 8 + b) (c * 2 ^ 8) (omega arith)) in
    let three = bit_or_disjoint 8 ((a * 2 ^ 8 + b) * 2 ^ 8 + c) d (omega arith) in
    rw one (rw two (omega (arith, three)))

-- The first byte: the long form, the fixed bit and the type.
first_byte :
    (t : ℕ)
    → t < 4
    → let b = bit_or 0xC0 (u8 (t * 2 ^ 4)) in
      ((bit_and b 0x80 == 0) ≡ false) × (bit_and (b / 2 ^ 4) 0x3 ≡ t)
first_byte zero h = (refl, refl)
first_byte (suc zero) h = (refl, refl)
first_byte (suc (suc zero)) h = (refl, refl)
first_byte (suc (suc (suc zero))) h = (refl, refl)
first_byte (suc (suc (suc (suc t)))) h = absurd (omega arith)

pub read_cid_back :
    (cid rest : List ℕ) → length cid ≤ 20 → read_cid (length cid ∷ (cid ++ rest)) ≡ some (cid, rest)
unfolding read_cid cid_fits
read_cid_back cid rest h =
    ground (arith, length-append cid rest, take_append cid rest, drop_append cid rest)

-- The cids behind the prefix, where both fit.
write_cids_fits :
    (cap : ℕ) (w : List ℕ) (h : Header)
    → length w + 2 + length h.dcid + length h.scid ≤ cap
    → write_cids cap w h ≡ w ++ ((length h.dcid ∷ h.dcid) ++ (length h.scid ∷ h.scid))
unfolding write_cids cids_round write_cid
write_cids_fits cap w h room = ground (
  arith,
  length-append w (length h.dcid ∷ h.dcid),
  append_assoc w (length h.dcid ∷ h.dcid) (length h.scid ∷ h.scid),
)

-- The bytes of a long header.
abbrev pub long_bytes : Header → List ℕ
long_bytes h =
    bit_or 0xC0 (u8 (h.long_type * 2 ^ 4))
    ∷ (u8 (h.version / 2 ^ 24)
        ∷ (u8 (h.version / 2 ^ 16)
            ∷ (u8 (h.version / 2 ^ 8)
                ∷ (u8 h.version ∷ ((length h.dcid ∷ h.dcid) ++ (length h.scid ∷ h.scid))))))

build_long-eq :
    (cap : ℕ) (h : Header)
    → 7 + length h.dcid + length h.scid ≤ cap
    → build_long cap h ≡ long_bytes h
unfolding build_long put_long_prefix
build_long-eq cap h room = ground (
  arith,
  write_cids_fits cap
      (bit_or 0xC0 (u8 (h.long_type * 2 ^ 4))
        ∷ u8 (h.version / 2 ^ 24)
        ∷ u8 (h.version / 2 ^ 16)
        ∷ u8 (h.version / 2 ^ 8)
        ∷ u8 h.version
        ∷ [])
      h,
)

-- A long header with a type of two bits, a 32-bit version, connection ids of 20 bytes at most and
-- room for it is built and then parsed, whatever follows it and whatever the caller has preset.
pub header_round_trip :
    (cap : ℕ) (h preset : Header) (rest : List ℕ)
    → h.long_type < 4
    → h.version < 2 ^ 32
    → length h.dcid ≤ 20
    → length h.scid ≤ 20
    → 7 + length h.dcid + length h.scid ≤ cap
    → header_parse preset (build_long cap h ++ rest)
      ≡ some (record h { form = 1 }, length (build_long cap h))
unfolding header_parse parse_long
header_round_trip cap h preset rest ht hv hd hs room =
    let (long, type) = first_byte h.long_type ht in
    rw (build_long-eq cap h room) (
      ground (
        arith,
        append_assoc h.dcid (length h.scid ∷ h.scid) rest,
        read_cid_back h.dcid (length h.scid ∷ (h.scid ++ rest)) hd,
        read_cid_back h.scid rest hs,
        length-append h.dcid (length h.scid ∷ h.scid),
        length-append (h.dcid ++ (length h.scid ∷ h.scid)) rest,
        version_back (u8 (h.version / 2 ^ 24)) (u8 (h.version / 2 ^ 16)) (u8 (h.version / 2 ^ 8))
            (u8 h.version),
      ))

-- What is written, by the room there is.
abbrev pub written : ℕ → Header → List ℕ
written cap h =
    if ltb cap 5
    then []
    else if leb (7 + length h.dcid + length h.scid) cap
    then long_bytes h
    else if leb (6 + length h.dcid) cap
    then []
    else if leb (1 + length h.scid) cap
    then length h.scid ∷ h.scid
    else []

-- What the builder gives, for every header and every capacity. Below five bytes, nothing; the whole
-- header if there is room for it; nothing if only the destination id fits; and if the destination id
-- does not fit, the source id alone, over the start of the buffer, or nothing if it does not fit there.
pub build_long_cases : (cap : ℕ) (h : Header) → build_long cap h ≡ written cap h
unfolding build_long put_long_prefix write_cids cids_round write_cid
build_long_cases cap h =
    let prefix =
      bit_or 0xC0 (u8 (h.long_type * 2 ^ 4))
      ∷ u8 (h.version / 2 ^ 24)
      ∷ u8 (h.version / 2 ^ 16)
      ∷ u8 (h.version / 2 ^ 8)
      ∷ u8 h.version
      ∷ [] in
    ground (
      arith,
      length-append prefix (length h.dcid ∷ h.dcid),
      append_assoc prefix (length h.dcid ∷ h.dcid) (length h.scid ∷ h.scid),
    )
