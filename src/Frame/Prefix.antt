-- ===== src/Frame/Prefix.antt =====
-- A frame that is cut short is not read: what a decoder takes from a buffer it takes from every
-- longer one as well, so that no proper prefix of a frame is a frame.
use quic_vibe.Common.{
  ℕ, zero, suc, ◌-◌, ◌*◌, ◌/◌, ◌^◌, ◌≤◌, ◌≡◌, refl, ap, inl, inr, Option, none, some, List, [], ◌∷◌,
  ◌++◌, append-nil, arith, ltb, Bool-cases, Option-cases, length, get_or, length-append,
  length-drop,
}
use quic_vibe.Common.Word.{u64}
use Prim.Native.Nat.{bit_and}
use quic_vibe.Common.{take, drop}
use quic_vibe.Varint
use quic_vibe.Varint.{decode, get_be, lengths}
use quic_vibe.BigEndian.{read_be}
use quic_vibe.Frame.Wire.{offset, read_bytes, RoundTrips}

read_be-append :
    (n acc : ℕ) (bs more : List ℕ) → n ≤ length bs → read_be n acc (bs ++ more) ≡ read_be n acc bs
unfolding read_be
read_be-append zero acc bs more h = refl
read_be-append (suc n) acc [] more h = absurd (omega arith)
read_be-append (suc n) acc (b ∷ bs) more h =
    read_be-append n (Prim.Native.Nat.bit_or (u64 (acc * 256)) b) bs more (omega arith)

drop_append_early :
    (n : ℕ) (xs more : List ℕ) → n ≤ length xs → drop n (xs ++ more) ≡ drop n xs ++ more
drop_append_early zero xs more h = refl
drop_append_early (suc n) [] more h = absurd (omega arith)
drop_append_early (suc n) (x ∷ xs) more h = drop_append_early n xs more (omega arith)

take_append_early : (n : ℕ) (xs more : List ℕ) → n ≤ length xs → take n (xs ++ more) ≡ take n xs
take_append_early zero xs more h = refl
take_append_early (suc n) [] more h = absurd (omega arith)
take_append_early (suc n) (x ∷ xs) more h =
    ap (λ l. x ∷ l) (take_append_early n xs more (omega arith))

get_be-append :
    (n : ℕ) (bs more : List ℕ) → 1 ≤ n → n ≤ length bs → get_be n (bs ++ more) ≡ get_be n bs
unfolding get_be
get_be-append n [] more h k = absurd (omega arith)
get_be-append n (b ∷ bs) more h k = read_be-append (n - 1) (bit_and b 0x3F) bs more (omega arith)

-- `quic_varint_decode` on a longer buffer.
pub decode_extends :
    (r more : List ℕ) (v n : ℕ)
    → decode r ≡ some (v, n)
    → (decode (r ++ more) ≡ some (v, n)) × (n ≤ length r)
unfolding decode get_be
decode_extends [] more v n e = absurd (cc)
decode_extends (b ∷ bs) more v n e =
    let need = get_or lengths (b / 2 ^ 6) 0 in
    elim (Bool-cases (ltb (length (b ∷ bs)) need)) [
      | inl short ↦ absurd (ground (arith))
      | inr fits ↦
          ground (arith, length-append bs more, read_be-append (need - 1) (bit_and b 0x3F) bs more)
    ]

-- `quic_varint_take` on a longer buffer.
pub take_extends :
    (r more : List ℕ) (x : ℕ × List ℕ)
    → Varint.take r ≡ some x
    → (Varint.take (r ++ more) ≡ some (x.0, x.1 ++ more)) × (length x.1 ≤ length r)
unfolding Varint.take
take_extends r more x e = elim (Option-cases (decode r)) [
  | inl n ↦ absurd (ground arith)
  | inr ((w, used), d) ↦
      ground
        (arith, decode_extends r more w used d, drop_append_early used r more, length-drop used r)
]

pub read_bytes_extends :
    (r more : List ℕ) (n : ℕ) (x : List ℕ × List ℕ)
    → read_bytes r n ≡ some x
    → (read_bytes (r ++ more) n ≡ some (x.0, x.1 ++ more)) × (length x.1 ≤ length r)
unfolding read_bytes
read_bytes_extends r more n x e = ground (
  arith,
  length-append r more,
  drop_append_early n r more,
  take_append_early n r more,
  length-drop n r,
)

pub offset_extends :
    (buf r more : List ℕ) → length r ≤ length buf → offset (buf ++ more) (r ++ more) ≡ offset buf r
offset_extends buf r more h = omega (arith, length-append buf more, length-append r more)

-- A decoder that does not look past the frame: what it reads from a buffer with a type byte, it
-- reads from every extension, and the frame is no longer than the buffer.
abbrev pub IsLocal : {F : Type 0} → (List ℕ → Option (F × ℕ)) → Type 0
IsLocal dec =
    (t : ℕ) (buf more : List ℕ) (f : _) (n : ℕ)
    → dec (t ∷ buf) ≡ some (f, n)
    → (dec (t ∷ (buf ++ more)) ≡ some (f, n)) × (n ≤ length (t ∷ buf))

-- Of what the encoder writes for `f`, no proper prefix that has the type byte is read.
abbrev pub RefusesPrefixes :
    {F : Type 0} → (F → Option (List ℕ)) → (List ℕ → Option (F × ℕ)) → F → Type 0
RefusesPrefixes enc dec f =
    (t : ℕ) (cut : List ℕ) (b : ℕ) (lost : List ℕ)
    → enc f ≡ some (t ∷ (cut ++ (b ∷ lost)))
    → dec (t ∷ cut) ≡ none

pub prefixes_refused :
    {F : Type 0} (enc : F → Option (List ℕ)) (dec : List ℕ → Option (F × ℕ)) (f : F)
    → IsLocal dec
    → RoundTrips enc dec f []
    → RefusesPrefixes enc dec f
prefixes_refused enc dec f loc (out, e, d) t cut b lost e' = elim (Option-cases (dec (t ∷ cut))) [
  | inl n ↦ n
  | inr ((g, n), read) ↦
      let (again, fits) = loc t cut (b ∷ lost) g n read in
      absurd (ground (arith, append-nil out, length-append cut (b ∷ lost)))
]
