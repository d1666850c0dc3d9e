-- ===== src/Frame/Data/Local.antt =====
-- The decoders of CRYPTO, STREAM and CONNECTION_CLOSE look at nothing behind the frame.
use quic_vibe.Common.{
  ℕ, ◌≤◌, ◌≡◌, some, List, ◌∷◌, ◌++◌, arith, ◌==◌, if◌then◌else◌, length, >>=-eq-some,
}
use quic_vibe.Varint
use quic_vibe.Frame.Wire.{read_bytes}
use quic_vibe.Frame.Prefix.{take_extends, read_bytes_extends, offset_extends, IsLocal}
use quic_vibe.Frame.Data.{
  take_crypto_hdr, get_crypto, take_opt_offset, take_stream_hdr, get_stream, take_opt_frame_type,
  take_cc_hdr, get_conn_close,
}

take_crypto_hdr_extends :
    (r more : List ℕ) (x : ℕ × ℕ × List ℕ)
    → take_crypto_hdr r ≡ some x
    → (take_crypto_hdr (r ++ more) ≡ some (x.0, x.1, x.2 ++ more)) × (length x.2 ≤ length r)
unfolding take_crypto_hdr
take_crypto_hdr_extends r more x e =
    let (a, p, q) = >>=-eq-some (Varint.take r) _ e in
    let (b, p', q') = >>=-eq-some (Varint.take a.1) _ q in
    ground (arith, take_extends r more a p, take_extends a.1 more b p')

pub get_crypto-IsLocal : IsLocal get_crypto
unfolding get_crypto
get_crypto-IsLocal t buf more f n e =
    let (a, p, q) = >>=-eq-some (take_crypto_hdr buf) _ e in
    let (b, p', q') = >>=-eq-some (read_bytes a.2 a.1) _ q in
    ground (
      arith,
      take_crypto_hdr_extends buf more a p,
      read_bytes_extends a.2 more a.1 b p',
      offset_extends (t ∷ buf) b.1 more,
    )

take_opt_offset_extends :
    (t : ℕ) (r more : List ℕ) (x : ℕ × List ℕ)
    → take_opt_offset t r ≡ some x
    → (take_opt_offset t (r ++ more) ≡ some (x.0, x.1 ++ more)) × (length x.1 ≤ length r)
unfolding take_opt_offset
take_opt_offset_extends t r more x e = ground (arith, take_extends r more x)

take_stream_hdr_extends :
    (t : ℕ) (r more : List ℕ) (x : ℕ × ℕ × ℕ × List ℕ)
    → take_stream_hdr t r ≡ some x
    → (take_stream_hdr t (r ++ more) ≡ some (x.0, x.1, x.2, x.3 ++ more)) × (length x.3 ≤ length r)
unfolding take_stream_hdr
take_stream_hdr_extends t r more x e =
    let (u, p, q) = >>=-eq-some (Varint.take r) _ e in
    let (v, p', q') = >>=-eq-some (take_opt_offset t u.1) _ q in
    let (w, p'', q'') = >>=-eq-some (Varint.take v.1) _ q' in
    ground (
      arith,
      take_extends r more u p,
      take_opt_offset_extends t u.1 more v p',
      take_extends v.1 more w p'',
    )

pub get_stream-IsLocal : IsLocal get_stream
unfolding get_stream
get_stream-IsLocal t buf more f n e =
    let (a, p, q) = >>=-eq-some (take_stream_hdr t buf) _ e in
    let (b, p', q') = >>=-eq-some (read_bytes a.3 a.2) _ q in
    ground (
      arith,
      take_stream_hdr_extends t buf more a p,
      read_bytes_extends a.3 more a.2 b p',
      offset_extends (t ∷ buf) b.1 more,
    )

take_opt_frame_type_extends :
    (a : ℕ) (r more : List ℕ) (x : ℕ × List ℕ)
    → take_opt_frame_type a r ≡ some x
    → (take_opt_frame_type a (r ++ more) ≡ some (x.0, x.1 ++ more)) × (length x.1 ≤ length r)
unfolding take_opt_frame_type
take_opt_frame_type_extends a r more x e = ground (arith, take_extends r more x)

take_cc_hdr_extends :
    (a : ℕ) (r more : List ℕ) (x : ℕ × ℕ × ℕ × List ℕ)
    → take_cc_hdr a r ≡ some x
    → (take_cc_hdr a (r ++ more) ≡ some (x.0, x.1, x.2, x.3 ++ more)) × (length x.3 ≤ length r)
unfolding take_cc_hdr
take_cc_hdr_extends a r more x e =
    let (u, p, q) = >>=-eq-some (Varint.take r) _ e in
    let (v, p', q') = >>=-eq-some (take_opt_frame_type a u.1) _ q in
    let (w, p'', q'') = >>=-eq-some (Varint.take v.1) _ q' in
    ground (
      arith,
      take_extends r more u p,
      take_opt_frame_type_extends a u.1 more v p',
      take_extends v.1 more w p'',
    )

pub get_conn_close-IsLocal : IsLocal get_conn_close
unfolding get_conn_close
get_conn_close-IsLocal t buf more f n e =
    let is_app = if t == 0x1d then 1 else 0 in
    let (a, p, q) = >>=-eq-some (take_cc_hdr is_app buf) _ e in
    let (b, p', q') = >>=-eq-some (read_bytes a.3 a.2) _ q in
    ground (
      arith,
      take_cc_hdr_extends is_app buf more a p,
      read_bytes_extends a.3 more a.2 b p',
      offset_extends (t ∷ buf) b.1 more,
    )
