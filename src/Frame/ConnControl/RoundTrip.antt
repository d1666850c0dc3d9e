-- ===== src/Frame/ConnControl/RoundTrip.antt =====
-- The frames that steer the connection are read back as they were written.
use quic_vibe.Common.{
  ℕ, ◌+◌, ◌^◌, ◌≤◌, ◌<◌, ◌≡◌, refl, ap, some, List, [], ◌∷◌, ◌++◌, append_assoc, arith, length, All,
  length-append,
}
use quic_vibe.Common.{take}
use quic_vibe.Varint.Cursor.{encode_small}
use quic_vibe.Frame.Wire.{
  IsVarint, encodes, put_all, put_all_fits, read_bytes_back, write_bytes_fits, offset-append,
  RoundTrips,
}
use quic_vibe.Frame.Framed.{put_framed, take-encodes, framed_round, varints_round}
use quic_vibe.Frame.ConnControl.{
  NewTokenFrame, NcidFrame, put_new_token_head, new_token_encode, take_token_view, new_token_decode,
  retire_cid_encode, retire_cid_decode, path_encode, type_is, path_decode, ncid_valid,
  put_ncid_head, put_ncid_body, put_ncid, ncid_encode, take_ncid_head, cid_len_ok, take_ncid_body,
  ncid_decode,
}

put_token-framed :
    (cap : ℕ) (f : NewTokenFrame)
    → new_token_encode cap f ≡ put_framed cap (7 ∷ length f.token ∷ []) f.token
unfolding new_token_encode put_new_token_head put_all
put_token-framed cap f = ground arith

pub token_round_trip :
    (cap : ℕ) (f : NewTokenFrame) (rest : List ℕ)
    → IsVarint (length f.token)
    → length (encodes (7 ∷ length f.token ∷ [])) + length f.token ≤ cap
    → cap < 2 ^ 63
    → RoundTrips (new_token_encode cap) new_token_decode f rest
unfolding new_token_decode take_token_view
token_round_trip cap f rest h room small =
    framed_round (new_token_encode cap) new_token_decode f cap 7 (length f.token ∷ []) f.token rest
      (omega arith) (put_token-framed cap f) (h, tt) room small
      λ buf b. rw b (
        ground (
          arith,
          take-encodes (length f.token) [] (f.token ++ rest) h,
          read_bytes_back f.token rest,
        ))

put_retire-put_all : (cap seq : ℕ) → retire_cid_encode cap seq ≡ put_all cap [] (25 ∷ seq ∷ [])
unfolding retire_cid_encode put_all
put_retire-put_all cap seq = ground arith

pub retire_round_trip :
    (cap seq : ℕ) (rest : List ℕ)
    → IsVarint seq
    → length (encodes (25 ∷ seq ∷ [])) ≤ cap
    → cap < 2 ^ 63
    → RoundTrips (retire_cid_encode cap) retire_cid_decode seq rest
unfolding retire_cid_decode
retire_round_trip cap seq rest h room small =
    varints_round (retire_cid_encode cap) retire_cid_decode seq cap 25 (seq ∷ []) rest (omega arith)
      (put_retire-put_all cap seq) (h, tt) room small
      λ buf b. rw b (ground (arith, take-encodes seq [] rest h))

take_all : (d : List ℕ) → take (length d) d ≡ d
take_all [] = refl
take_all (x ∷ d) = ap (λ l. x ∷ l) (take_all d)

-- PATH_CHALLENGE and PATH_RESPONSE with any one-byte type.
pub path_round_trip :
    (cap type : ℕ) (d rest : List ℕ)
    → length d ≡ 8
    → 9 ≤ cap
    → RoundTrips (path_encode cap type) (path_decode type) d rest
unfolding path_encode path_decode type_is
path_round_trip cap type d rest h room = (
  type ∷ d,
  ground (arith, write_bytes_fits cap (type ∷ []) d, rw h at (take_all d)),
  ground (arith, rw h at (read_bytes_back d rest), offset-append (type ∷ d) rest),
)

put_ncid_head-put_all :
    (cap : ℕ) (f : NcidFrame)
    → put_ncid_head cap f ≡ put_all cap [] (0x18 ∷ f.seq ∷ f.retire_prior_to ∷ [])
unfolding put_ncid_head put_all
put_ncid_head-put_all cap f = ground arith

-- The length byte, the connection id and the reset token.
abbrev ncid_body : NcidFrame → List ℕ
ncid_body f = length f.cid ∷ (f.cid ++ f.token)

put_ncid_body_fits :
    (cap : ℕ) (w : List ℕ) (f : NcidFrame)
    → length f.token ≡ 16
    → length w + 1 + length f.cid + 16 ≤ cap
    → put_ncid_body cap w f ≡ some (w ++ ncid_body f)
unfolding put_ncid_body
put_ncid_body_fits cap w f ht room =
    let one = length f.cid ∷ [] in
    ground (
      arith,
      rw ht at (take_all f.token),
      length-append w one,
      length-append (w ++ one) f.cid,
      write_bytes_fits cap (w ++ one) f.cid,
      write_bytes_fits cap ((w ++ one) ++ f.cid) f.token,
      append_assoc (w ++ one) f.cid f.token,
      append_assoc w one (f.cid ++ f.token),
    )

take_ncid_body_back :
    (f : NcidFrame) (rest : List ℕ)
    → length f.cid ≤ 20
    → length f.token ≡ 16
    → take_ncid_body (length f.cid ∷ (f.cid ++ (f.token ++ rest))) ≡ some (f.cid, f.token, rest)
unfolding take_ncid_body cid_len_ok
take_ncid_body_back f rest hc ht =
    ground (arith, read_bytes_back f.cid (f.token ++ rest), rw ht at (read_bytes_back f.token rest))

pub ncid_round_trip :
    (cap : ℕ) (f : NcidFrame) (rest : List ℕ)
    → All IsVarint (f.seq ∷ f.retire_prior_to ∷ [])
    → length f.cid ≤ 20
    → f.retire_prior_to ≤ f.seq
    → length f.token ≡ 16
    → length (encodes (0x18 ∷ f.seq ∷ f.retire_prior_to ∷ [])) + 1 + length f.cid + 16 ≤ cap
    → cap < 2 ^ 63
    → RoundTrips (ncid_encode cap) ncid_decode f rest
unfolding ncid_encode ncid_valid put_ncid ncid_decode take_ncid_head
ncid_round_trip cap f rest h hc hr ht room small =
    let vs = f.seq ∷ f.retire_prior_to ∷ [] in
    let out = 0x18 ∷ (encodes vs ++ ncid_body f) in
    (
      out,
      ground (
        arith,
        put_ncid_head-put_all cap f,
        encode_small 0x18 (omega arith),
        put_all_fits cap [] (0x18 ∷ vs),
        put_ncid_body_fits cap (0x18 ∷ encodes vs) f ht,
      ),
      ground (
        arith,
        append_assoc (encodes vs) (ncid_body f) rest,
        append_assoc f.cid f.token rest,
        take-encodes f.seq (f.retire_prior_to ∷ []) (ncid_body f ++ rest) h.0,
        take-encodes f.retire_prior_to [] (ncid_body f ++ rest) h.1.0,
        take_ncid_body_back f rest hc ht,
        offset-append out rest,
      ),
    )
