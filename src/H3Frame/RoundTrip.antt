-- ===== src/H3Frame/RoundTrip.antt =====
-- HTTP/3 frames are read back as they were written.
use quic_vibe.Common.{
  ℕ, zero, suc, ◌+◌, ◌*◌, ◌^◌, ◌≤◌, ◌<◌, ◌≡◌, refl, ap, ◌∙◌, inl, inr, some, List, [], ◌∷◌, ◌++◌,
  append-nil, append_assoc, arith, Option-cases, length, All, length-append, ◌>>=◌,
}
use quic_vibe.Varint
use quic_vibe.Varint.{encode, len, varint_max}
use quic_vibe.Varint.Cursor.{encode_small, length-encode, len_bounds}
use quic_vibe.Frame.Wire.{
  IsVarint, encodes, put_all, put_all_fits, read_bytes_back, offset-append, RoundTrips,
}
use quic_vibe.Frame.Framed.{put_framed, put_framed_fits, take-encodes}
use quic_vibe.H3Frame.{
  Settings, put_head, frame_put, get_head, frame_get, put_one, get_one_head, get_one_body, get_one,
  cancel_push_put, cancel_push_get, goaway_put, goaway_get, max_push_id_put, max_push_id_get,
  frame_put_pair, take_pair_id, frame_take_pair, get_settings_head, settings_body_len,
  put_settings_pairs, put_settings_head, settings_put, get_settings_pairs, settings_get,
}

put_frame-framed :
    (cap type : ℕ) (payload : List ℕ)
    → frame_put cap type payload ≡ put_framed cap (type ∷ length payload ∷ []) payload
unfolding frame_put put_head put_all
put_frame-framed cap type payload = ground arith

get_head_back :
    (type n : ℕ) (us rest : List ℕ)
    → IsVarint type
    → IsVarint n
    → get_head (encodes (type ∷ n ∷ us) ++ rest) ≡ some (type, n, encodes us ++ rest)
unfolding get_head
get_head_back type n us rest ht hn =
    ground (arith, take-encodes type (n ∷ us) rest ht, take-encodes n us rest hn)

-- A frame of any type and payload.
pub h3_frame_round_trip :
    (cap type : ℕ) (payload rest : List ℕ)
    → IsVarint type
    → IsVarint (length payload)
    → length (encodes (type ∷ length payload ∷ [])) + length payload ≤ cap
    → cap < 2 ^ 63
    → (out : List ℕ) × (frame_put cap type payload ≡ some out)
      × (frame_get (out ++ rest) ≡ some (type, payload, length out))
unfolding frame_get
h3_frame_round_trip cap type payload rest ht hl room small =
    let head = encodes (type ∷ length payload ∷ []) in
    (
      head ++ payload,
      put_frame-framed cap type payload
          ∙ put_framed_fits cap (type ∷ length payload ∷ []) payload (ht, (hl, tt)) room small,
      ground (
        arith,
        append_assoc head payload rest,
        get_head_back type (length payload) [] (payload ++ rest) ht hl,
        read_bytes_back payload rest,
        offset-append (head ++ payload) rest,
      ),
    )

put_one-put_all : (cap t v : ℕ) → put_one cap t v ≡ put_all cap [] (t ∷ len v ∷ v ∷ [])
unfolding put_one put_head put_all
put_one-put_all cap t v = ground arith

one_round :
    (cap t v : ℕ) (rest : List ℕ)
    → IsVarint t
    → IsVarint v
    → length (encodes (t ∷ len v ∷ v ∷ [])) ≤ cap
    → cap < 2 ^ 63
    → RoundTrips (put_one cap t) (λ buf. get_one buf t) v rest
unfolding get_one get_one_head get_one_body
one_round cap t v rest ht hv room small =
    let out = encodes (t ∷ len v ∷ v ∷ []) in
    (
      out,
      put_one-put_all cap t v
          ∙ put_all_fits cap [] (t ∷ len v ∷ v ∷ [])
              (ht, (omega (arith, len_bounds v hv), (hv, tt))) (omega arith) small,
      ground (
        arith,
        len_bounds v hv,
        get_head_back t (len v) (v ∷ []) rest ht,
        take-encodes v [] rest hv,
        append-nil (encode v),
        length-encode v,
        length-append (encode v) rest,
        offset-append out rest,
      ),
    )

-- CANCEL_PUSH, GOAWAY and MAX_PUSH_ID are read back, whatever follows them.
pub h3_identifier_round_trip :
    (cap v : ℕ) (rest : List ℕ)
    → IsVarint v
    → 18 ≤ cap
    → cap < 2 ^ 63
    → RoundTrips (cancel_push_put cap) cancel_push_get v rest
      × RoundTrips (goaway_put cap) goaway_get v rest
      × RoundTrips (max_push_id_put cap) max_push_id_get v rest
unfolding cancel_push_put cancel_push_get goaway_put goaway_get max_push_id_put max_push_id_get
h3_identifier_round_trip cap v rest h room small = (
  one_round cap 3 v rest (omega arith) h (three_fit 3 (omega arith)) small,
  one_round cap 7 v rest (omega arith) h (three_fit 7 (omega arith)) small,
  one_round cap 13 v rest (omega arith) h (three_fit 13 (omega arith)) small,
)
  where
    three_fit : (t : ℕ) → t < 64 → length (encodes (t ∷ len v ∷ v ∷ [])) ≤ cap
    three_fit t small_t = omega (
      arith,
      length-append (encode t) (encode (len v) ++ (encode v ++ [])),
      length-append (encode (len v)) (encode v ++ []),
      length-append (encode v) [],
      length-encode t,
      length-encode (len v),
      length-encode v,
      len_bounds v h,
      ap length (encode_small t small_t),
      ap length (encode_small (len v) (omega (arith, len_bounds v h))),
    )

-- The identifiers and values in turn.
abbrev pub pairs_of : Settings → List ℕ
pairs_of [] = []
pairs_of (s ∷ ss) = s.id ∷ (s.value ∷ pairs_of ss)

length-pairs : (ss : Settings) → length (encodes (pairs_of ss)) ≡ settings_body_len ss
unfolding settings_body_len
length-pairs [] = refl
length-pairs (s ∷ ss) = omega (
  arith,
  length-append (encode s.id) (encode s.value ++ encodes (pairs_of ss)),
  length-append (encode s.value) (encodes (pairs_of ss)),
  length-encode s.id,
  length-encode s.value,
  length-pairs ss,
)

put_pairs-put_all :
    (cap : ℕ) (w : List ℕ) (ss : Settings)
    → put_settings_pairs cap w ss ≡ put_all cap w (pairs_of ss)
unfolding put_settings_pairs frame_put_pair put_all
put_pairs-put_all cap w [] = refl
put_pairs-put_all cap w (s ∷ ss) = elim (Option-cases (Varint.put cap w s.id)) [
  | inl n ↦ ground arith
  | inr (w', e) ↦ elim (Option-cases (Varint.put cap w' s.value)) [
    | inl n ↦ ground arith
    | inr (w'', e') ↦ ground (arith, put_pairs-put_all cap w'' ss)
  ]
]

put_settings-put_all :
    (cap : ℕ) (ss : Settings)
    → length ss ≤ 8
    → settings_put cap ss ≡ put_all cap [] (4 ∷ settings_body_len ss ∷ pairs_of ss)
unfolding settings_put put_settings_head put_head put_all
put_settings-put_all cap ss h = elim (Option-cases (Varint.put cap [] 4)) [
  | inl n ↦ ground arith
  | inr (w, e) ↦ elim (Option-cases (Varint.put cap w (settings_body_len ss))) [
    | inl n ↦ ground arith
    | inr (w', e') ↦ ground (arith, put_pairs-put_all cap w' ss)
  ]
]

pairs_step :
    (room : ℕ) (r : List ℕ)
    → 1 ≤ length r
    → get_settings_pairs (suc room) r
      ≡ (do (s, r') ← frame_take_pair room r; ss ← get_settings_pairs room r'; some (s ∷ ss))
unfolding get_settings_pairs
pairs_step room [] h = absurd (omega arith)
pairs_step room (b ∷ r) h = refl

get_pairs_back :
    (room : ℕ) (ss : Settings)
    → length ss < room
    → All IsVarint (pairs_of ss)
    → get_settings_pairs room (encodes (pairs_of ss)) ≡ some ss
unfolding get_settings_pairs frame_take_pair take_pair_id
get_pairs_back zero ss h v = absurd (omega arith)
get_pairs_back (suc room) [] h v = refl
get_pairs_back (suc room) (s ∷ ss) h (vi, (vv, v)) =
    pairs_step room (encodes (pairs_of (s ∷ ss))) (
      omega (
        arith,
        length-append (encode s.id) (encode s.value ++ encodes (pairs_of ss)),
        length-encode s.id,
        len_bounds s.id vi,
      ))
    ∙ ground (
      arith,
      take-encodes s.id (s.value ∷ pairs_of ss) [] vi,
      append-nil (encodes (s.id ∷ s.value ∷ pairs_of ss)),
      append-nil (encodes (s.value ∷ pairs_of ss)),
      take-encodes s.value (pairs_of ss) [] vv,
      append-nil (encodes (pairs_of ss)),
      get_pairs_back room ss (omega arith) v,
    )

body_len-pairs :
    (ss : Settings) → All IsVarint (pairs_of ss) → settings_body_len ss ≤ 16 * length ss
unfolding settings_body_len
body_len-pairs [] v = omega arith
body_len-pairs (s ∷ ss) (vi, (vv, v)) =
    omega (arith, len_bounds s.id vi, len_bounds s.value vv, body_len-pairs ss v)

-- Up to eight settings in a buffer that holds their frame are read back in their order.
pub settings_round_trip :
    (cap : ℕ) (ss : Settings) (rest : List ℕ)
    → length ss ≤ 8
    → All IsVarint (pairs_of ss)
    → length (encodes (4 ∷ settings_body_len ss ∷ pairs_of ss)) ≤ cap
    → cap < 2 ^ 63
    → RoundTrips (settings_put cap) settings_get ss rest
unfolding settings_get get_settings_head
settings_round_trip cap ss rest h v room small =
    let n = settings_body_len ss in
    let body : IsVarint n = omega (arith, body_len-pairs ss v) in
    let four : IsVarint 4 = omega arith in
    let out = encodes (4 ∷ n ∷ pairs_of ss) in
    (
      out,
      put_settings-put_all cap ss h
          ∙ put_all_fits cap [] (4 ∷ n ∷ pairs_of ss) (four, (body, v)) (omega arith) small,
      ground (
        arith,
        get_head_back 4 n (pairs_of ss) rest four body,
        length-pairs ss,
        read_bytes_back (encodes (pairs_of ss)) rest,
        get_pairs_back 9 ss (omega arith) v,
        offset-append out rest,
      ),
    )
