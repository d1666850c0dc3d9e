-- ===== src/Varint.antt =====
-- Variable-length integers (src/common/bytes/varint/varint.c): a 2-bit class in the first byte
-- gives 1, 2, 4 or 8 bytes. An output buffer is the list of the bytes written to it so far, and an
-- input cursor `buf + *off` with `n - *off` bytes to go is the list of those bytes.
pub mod RoundTrip
pub mod Bounds
pub mod Cursor
mod Tests
use Prim.Native.Nat.{bit_and, bit_or}
use quic_vibe.Common.{
  ℕ, zero, suc, ◌+◌, ◌-◌, ◌*◌, ◌/◌, ◌^◌, Bool, true, false, ◌||◌, List, [], ◌∷◌, ◌++◌, Option, none,
  some, length, get_or, drop, ltb, ◌==◌, if◌then◌else◌,
}
use quic_vibe.Common.Word.{u8, ◌+ᵤ◌}
use quic_vibe.BigEndian.{write_be, read_be}

-- QUIC_VARINT_MAX
abbrev pub varint_max : ℕ
varint_max = 0x3FFF_FFFF_FFFF_FFFF

-- The tables `max` and `len` of `quic_varint_len`.
abbrev pub thresholds : List ℕ
thresholds = 0x3F ∷ 0x3FFF ∷ 0x3FFFFFFF ∷ varint_max ∷ []

abbrev pub lengths : List ℕ
lengths = 1 ∷ 2 ∷ 4 ∷ 8 ∷ 0 ∷ []

-- `while (i < 4 && v > max[i]) i++;` from the thresholds not yet passed.
unfoldable pub class_from : List ℕ → ℕ → ℕ
class_from [] v = 0
class_from (m ∷ ms) v = if ltb m v then suc (class_from ms v) else 0

unfoldable pub len : ℕ → ℕ
unfolding class_from
len v = get_or lengths (class_from thresholds v) 0

-- `buf[0] |= prefix`
abbrev pub or_first : ℕ → List ℕ → List ℕ
or_first prefix [] = []
or_first prefix (b ∷ bs) = bit_or b prefix ∷ bs

unfoldable pub put_be : ℕ → ℕ → ℕ → List ℕ
put_be v n prefix = or_first prefix (write_be n v [])

abbrev pub prefixes : List ℕ
prefixes = 0 ∷ 0x00 ∷ 0x40 ∷ 0 ∷ 0x80 ∷ 0 ∷ 0 ∷ 0 ∷ 0xC0 ∷ []

-- The bytes written; the C result is their number, 0 for a value out of range.
unfoldable pub encode : ℕ → List ℕ
unfolding put_be
encode v = let n = len v in if n == 0 then [] else put_be v n (get_or prefixes n 0)

unfoldable pub get_be : ℕ → List ℕ → ℕ
get_be n [] = 0
get_be n (b ∷ bs) = read_be (n - 1) (bit_and b 0x3F) bs

-- The value and the number of bytes it took; `none` is the C result 0.
unfoldable pub decode : List ℕ → Option (ℕ × ℕ)
decode [] = none
decode (b ∷ bs) =
    let need = get_or lengths (b / 2 ^ 6) 0 in
    if ltb (length (b ∷ bs)) need then none else some (get_be need (b ∷ bs), need)

-- `quic_varint_take`: the value and the cursor behind it.
unfoldable pub take : List ℕ → Option (ℕ × List ℕ)
take buf = elim (decode buf) [ none ↦ none | some (v, used) ↦ some (v, drop used buf) ]

-- `quic_varint_put` with room for `cap` bytes: `written` holds the `*off` bytes written so far.
unfoldable pub put : ℕ → List ℕ → ℕ → Option (List ℕ)
put cap written v =
    let need = len v in
    if need == 0 || ltb cap (length written +ᵤ need) then none else some (written ++ encode v)
