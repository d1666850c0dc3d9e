-- ===== src/PacketHeader.antt =====
-- Packet headers, the part that no version changes (src/transport/packet/header/packet/header.c). The
-- C lengths `dcid_len` and `scid_len` are the lengths of the lists of bytes in use.
pub mod RoundTrip
mod Tests
use Prim.Native.Nat.{bit_and, bit_or}
use quic_vibe.Common.{
  ℕ, zero, suc, ◌+◌, ◌-◌, ◌*◌, ◌/◌, ◌%◌, ◌^◌, ◌≤◌, ◌<◌, min, max, ◌≡◌, refl, sym, ap, ap₂, ◌∙◌, ◌≢◌,
  ◌↔◌, ◌⊎◌, inl, inr, Bool, true, false, not, ◌&&◌, ◌||◌, Option, none, some, List, [], ◌∷◌, ◌++◌,
  map, append-nil, append_assoc, arith, ltb, leb, ◌==◌, if◌then◌else◌, ltb→lt, lt→ltb, leb→le,
  le→leb, ==→eq, Bool-cases, Option-cases, to_bit, length, get_elem?, get_or, set, take, drop,
  replicate, All, length-append, length-set, length-take, length-drop, length-replicate,
  get_or-set_self, get_or-set_ne, take_append, drop_append, take-append-drop, All-append, ◌>>=◌,
  ◌>>◌, guard, >>=-eq-some,
}
use quic_vibe.Common.Word.{IsByte, IsU64, u8, u32, u64, ◌+ᵤ◌, ◌-ᵤ◌, ◌*ᵤ◌}

abbrev pub form_long : ℕ
form_long = 1

abbrev pub form_short : ℕ
form_short = 0

abbrev pub max_cid_len : ℕ
max_cid_len = 20

-- quic_header
pub record Header : Type 0 where
  pub form : ℕ
  pub long_type : ℕ
  pub version : ℕ
  pub dcid : List ℕ
  pub scid : List ℕ

unfoldable pub cid_fits : ℕ → ℕ → ℕ → Bool
cid_fits len off n = leb len max_cid_len && leb (off + 1 + len) n

-- The cursor is the list of the bytes from `off` on; the connection id and the cursor behind it.
unfoldable pub read_cid : List ℕ → Option (List ℕ × List ℕ)
read_cid [] = none
read_cid (len ∷ r) =
    if cid_fits len 0 (length (len ∷ r)) then some (take len r, drop len r) else none

-- The C code reads the version before it knows that the bytes are there; short of them it fails at
-- the first connection id.
unfoldable pub parse_long : Header → List ℕ → Option (Header × ℕ)
parse_long h buf = do
  (d, r) ← read_cid (drop 5 buf)
  (s, r') ← read_cid r
  some (
    record {
      form = form_long;
      long_type = bit_and (get_or buf 0 0 / 2 ^ 4) 0x3;
      version =
          bit_or
            (bit_or (bit_or (get_or buf 1 0 * 2 ^ 24) (get_or buf 2 0 * 2 ^ 16))
              (get_or buf 3 0 * 2 ^ 8))
            (get_or buf 4 0);
      dcid = d;
      scid = s;
    },
    length buf - length r',
  )

unfoldable pub parse_short : Header → List ℕ → ℕ → Option (Header × ℕ)
parse_short h buf dcid_len =
    if cid_fits dcid_len 0 (length buf)
    then some
        (record h { form = form_short; dcid = take dcid_len (drop 1 buf); scid = [] }, 1 + dcid_len)
    else none

-- `h` is what the caller has preset.
unfoldable pub header_parse : Header → List ℕ → Option (Header × ℕ)
header_parse h buf =
    if length buf == 0
    then none
    else if bit_and (get_or buf 0 0) 0x80 == 0
    then parse_short h buf (length h.dcid)
    else parse_long h buf

-- The bytes below the cursor; `none` is the C result 0.
unfoldable pub write_cid : ℕ → List ℕ → List ℕ → Option (List ℕ)
write_cid cap w cid =
    if ltb cap (length w + 1 + length cid) then none else some (w ++ (length cid ∷ cid))

unfoldable pub put_long_prefix : ℕ → Header → List ℕ
put_long_prefix cap h =
    if ltb cap 5
    then []
    else bit_or 0xC0 (u8 (h.long_type * 2 ^ 4))
      ∷ u8 (h.version / 2 ^ 24)
      ∷ u8 (h.version / 2 ^ 16)
      ∷ u8 (h.version / 2 ^ 8)
      ∷ u8 h.version
      ∷ []

-- One round of the loop of `write_cids`: where the connection id does not fit, `*off = 0`, and the
-- next round goes on from there.
unfoldable pub cids_round : ℕ → List ℕ → List ℕ → List ℕ
cids_round cap w cid = elim (write_cid cap w cid) [ none ↦ [] | some w' ↦ w' ]

unfoldable pub write_cids : ℕ → List ℕ → Header → List ℕ
write_cids cap w h = cids_round cap (cids_round cap w h.dcid) h.scid

-- The bytes written; the C result is their number.
unfoldable pub build_long : ℕ → Header → List ℕ
build_long cap h = let w = put_long_prefix cap h in if length w == 0 then [] else write_cids cap w h
