-- ===== src/Frame/Framed.antt =====
-- Frames with a head of varints and bytes behind it: how they are written and read back.
use quic_vibe.Common.{
  ℕ, ◌+◌, ◌-◌, ◌^◌, ◌≤◌, ◌<◌, ◌≡◌, refl, ap, Option, some, List, [], ◌∷◌, ◌++◌, append_assoc, arith,
  length, All, ◌>>=◌,
}
use quic_vibe.Varint
use quic_vibe.Varint.{encode}
use quic_vibe.Varint.Cursor.{take-encode, encode_small}
use quic_vibe.Frame.Wire.{
  IsVarint, encodes, put_all, put_all_fits, offset-append, write_bytes, write_bytes_fits,
  RoundTrips,
}

-- A head of varints and the bytes behind it.
abbrev pub put_framed : ℕ → List ℕ → List ℕ → Option (List ℕ)
put_framed cap vs body = do w ← put_all cap [] vs; write_bytes cap w body

pub put_framed_fits :
    (cap : ℕ) (vs body : List ℕ)
    → All IsVarint vs
    → length (encodes vs) + length body ≤ cap
    → cap < 2 ^ 63
    → put_framed cap vs body ≡ some (encodes vs ++ body)
put_framed_fits cap vs body h room small =
    rw (put_all_fits cap [] vs h (omega arith) small) (write_bytes_fits cap (encodes vs) body room)

pub take-encodes :
    (v : ℕ) (vs rest : List ℕ)
    → IsVarint v
    → Varint.take (encodes (v ∷ vs) ++ rest) ≡ some (v, encodes vs ++ rest)
take-encodes v vs rest h =
    rw (append_assoc (encode v) (encodes vs) rest) (take-encode v (encodes vs ++ rest) h)

-- A frame whose encoder writes a small type, varints and bytes is read back if the decoder reads
-- what is behind the type.
pub framed_round :
    {F : Type 0} (enc : F → Option (List ℕ)) (dec : List ℕ → Option (F × ℕ)) (f : F) (cap t : ℕ)
    (vs body rest : List ℕ)
    → t < 64
    → enc f ≡ put_framed cap (t ∷ vs) body
    → All IsVarint vs
    → length (encodes (t ∷ vs)) + length body ≤ cap
    → cap < 2 ^ 63
    → (((buf : List ℕ)
        → buf ≡ t ∷ (encodes vs ++ (body ++ rest))
        → dec buf ≡ some (f, length buf - length rest)))
    → RoundTrips enc dec f rest
framed_round enc dec f cap t vs body rest small e h room c read =
    let out = t ∷ (encodes vs ++ body) in
    (
      out,
      ground (arith, encode_small t small, put_framed_fits cap (t ∷ vs) body),
      ground (
        arith,
        read (out ++ rest) (ap (λ (l : List ℕ). t ∷ l) (append_assoc (encodes vs) body rest)),
        offset-append out rest,
      ),
    )

-- The same for a frame of varints alone.
pub varints_round :
    {F : Type 0} (enc : F → Option (List ℕ)) (dec : List ℕ → Option (F × ℕ)) (f : F) (cap t : ℕ)
    (vs rest : List ℕ)
    → t < 64
    → enc f ≡ put_all cap [] (t ∷ vs)
    → All IsVarint vs
    → length (encodes (t ∷ vs)) ≤ cap
    → cap < 2 ^ 63
    → ((buf : List ℕ)
        → buf ≡ t ∷ (encodes vs ++ rest)
        → dec buf ≡ some (f, length buf - length rest))
    → RoundTrips enc dec f rest
varints_round enc dec f cap t vs rest small e h room c read =
    let out = t ∷ encodes vs in
    (
      out,
      ground (arith, encode_small t small, put_all_fits cap [] (t ∷ vs)),
      ground (arith, read (out ++ rest) refl, offset-append out rest),
    )
