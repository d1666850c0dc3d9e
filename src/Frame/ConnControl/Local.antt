-- ===== src/Frame/ConnControl/Local.antt =====
-- The decoders of the frames that steer the connection look at nothing behind the frame.
use quic_vibe.Common.{ℕ, ◌≤◌, ◌≡◌, some, List, [], ◌∷◌, ◌++◌, arith, length, guard, >>=-eq-some}
use quic_vibe.Varint
use quic_vibe.Frame.Wire.{read_bytes}
use quic_vibe.Frame.Prefix.{take_extends, read_bytes_extends, offset_extends, IsLocal}
use quic_vibe.Frame.ConnControl.{
  take_token_view, new_token_decode, retire_cid_decode, type_is, path_decode, take_ncid_head,
  cid_len_ok, take_ncid_body, ncid_decode,
}

pub new_token_decode-IsLocal : IsLocal new_token_decode
unfolding new_token_decode take_token_view
new_token_decode-IsLocal t buf more f n e =
    let (a, p, q) = >>=-eq-some (Varint.take buf) _ e in
    let (b, p', q') = >>=-eq-some (read_bytes a.1 a.0) _ q in
    ground (
      arith,
      take_extends buf more a p,
      read_bytes_extends a.1 more a.0 b p',
      offset_extends (t ∷ buf) b.1 more,
    )

pub retire_cid_decode-IsLocal : IsLocal retire_cid_decode
unfolding retire_cid_decode
retire_cid_decode-IsLocal t buf more f n e =
    let (a, p, q) = >>=-eq-some (Varint.take buf) _ e in
    ground (arith, take_extends buf more a p, offset_extends (t ∷ buf) a.1 more)

pub path_decode-IsLocal : (type : ℕ) → IsLocal (path_decode type)
unfolding path_decode type_is
path_decode-IsLocal type t buf more f n e =
    let (u, g, q) = >>=-eq-some (guard (type_is (t ∷ buf) type)) _ e in
    let (b, p', q') = >>=-eq-some (read_bytes buf 8) _ q in
    ground (arith, read_bytes_extends buf more 8 b p', offset_extends (t ∷ buf) b.1 more)

take_ncid_head_extends :
    (r more : List ℕ) (x : ℕ × ℕ × List ℕ)
    → take_ncid_head r ≡ some x
    → (take_ncid_head (r ++ more) ≡ some (x.0, x.1, x.2 ++ more)) × (length x.2 ≤ length r)
unfolding take_ncid_head
take_ncid_head_extends r more x e =
    let (a, p, q) = >>=-eq-some (Varint.take r) _ e in
    let (b, p', q') = >>=-eq-some (Varint.take a.1) _ q in
    ground (arith, take_extends r more a p, take_extends a.1 more b p')

take_ncid_body_extends :
    (r more : List ℕ) (x : List ℕ × List ℕ × List ℕ)
    → take_ncid_body r ≡ some x
    → (take_ncid_body (r ++ more) ≡ some (x.0, x.1, x.2 ++ more)) × (length x.2 ≤ length r)
unfolding take_ncid_body cid_len_ok
take_ncid_body_extends [] more x e = absurd (ground arith)
take_ncid_body_extends (c ∷ r) more x e =
    let (u, g, q) = >>=-eq-some (guard (cid_len_ok (c ∷ r))) _ e in
    let (a, p, q') = >>=-eq-some (read_bytes r c) _ q in
    let (b, p', q'') = >>=-eq-some (read_bytes a.1 16) _ q' in
    ground (arith, read_bytes_extends r more c a p, read_bytes_extends a.1 more 16 b p')

pub ncid_decode-IsLocal : IsLocal ncid_decode
unfolding ncid_decode
ncid_decode-IsLocal t buf more f n e =
    let (a, p, q) = >>=-eq-some (take_ncid_head buf) _ e in
    let (b, p', q') = >>=-eq-some (take_ncid_body a.2) _ q in
    ground (
      arith,
      take_ncid_head_extends buf more a p,
      take_ncid_body_extends a.2 more b p',
      offset_extends (t ∷ buf) b.2 more,
    )
