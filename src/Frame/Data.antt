-- ===== src/Frame/Data.antt =====
-- The frames that carry bytes (src/transport/packet/frame/frame/frame.c): CRYPTO, STREAM and
-- CONNECTION_CLOSE. The field `length` of the C structs is the length of the bytes.

pub mod RoundTrip
pub mod Local
use Prim.Native.Nat.{bit_and, bit_or}
use quic_vibe.Common.{
  ℕ, zero, suc, ◌+◌, ◌-◌, ◌*◌, ◌/◌, ◌%◌, ◌^◌, ◌≤◌, ◌<◌, min, max, ◌≡◌, refl, sym, ap, ap₂, ◌∙◌, ◌≢◌,
  ◌↔◌, ◌⊎◌, inl, inr, Bool, true, false, not, ◌&&◌, ◌||◌, Option, none, some, List, [], ◌∷◌, ◌++◌,
  map, append-nil, append_assoc, arith, ltb, leb, ◌==◌, if◌then◌else◌, ltb→lt, lt→ltb, leb→le,
  le→leb, ==→eq, Bool-cases, Option-cases, to_bit, length, get_elem?, get_or, set, replicate, All,
  length-append, length-set, length-take, length-drop, length-replicate, get_or-set_self,
  get_or-set_ne, take_append, drop_append, take-append-drop, All-append, ◌>>=◌, ◌>>◌, guard,
  >>=-eq-some,
}
use quic_vibe.Common.Word.{IsByte, IsU64, u8, u32, u64, ◌+ᵤ◌, ◌-ᵤ◌, ◌*ᵤ◌}
use quic_vibe.Varint
use quic_vibe.Frame.Wire.{after_type, offset as cursor_offset, write_bytes, read_bytes}

-- quic_crypto_frame
pub record CryptoFrame : Type 0 where
  pub offset : ℕ
  pub payload : List ℕ

-- quic_stream_frame; `fin` is 0 or 1.
pub record StreamFrame : Type 0 where
  pub stream_id : ℕ
  pub offset : ℕ
  pub payload : List ℕ
  pub fin : ℕ

-- quic_conn_close_frame; `is_app` is 0 or 1.
pub record ConnCloseFrame : Type 0 where
  pub is_app : ℕ
  pub error_code : ℕ
  pub frame_type : ℕ
  pub reason : List ℕ

abbrev pub frame_crypto : ℕ
frame_crypto = 0x06

abbrev pub frame_stream_base : ℕ
frame_stream_base = 0x08

abbrev pub frame_conn_close_tpt : ℕ
frame_conn_close_tpt = 0x1c

abbrev pub frame_conn_close_app : ℕ
frame_conn_close_app = 0x1d

abbrev pub stream_fin : ℕ
stream_fin = 0x01

abbrev pub stream_len : ℕ
stream_len = 0x02

abbrev pub stream_off : ℕ
stream_off = 0x04

unfoldable pub put_simple : ℕ → ℕ → Option (List ℕ)
put_simple cap type = if cap == 0 then none else some (type ∷ [])

unfoldable pub put_crypto_hdr : ℕ → CryptoFrame → Option (List ℕ)
put_crypto_hdr cap f = do
  w ← Varint.put cap [] frame_crypto
  w' ← Varint.put cap w f.offset
  Varint.put cap w' (length f.payload)

unfoldable pub put_crypto : ℕ → CryptoFrame → Option (List ℕ)
put_crypto cap f = do w ← put_crypto_hdr cap f; write_bytes cap w f.payload

-- The offset, the length and the cursor behind them.
unfoldable pub take_crypto_hdr : List ℕ → Option (ℕ × ℕ × List ℕ)
take_crypto_hdr r = do (o, r') ← Varint.take r; (l, r'') ← Varint.take r'; some (o, l, r'')

unfoldable pub get_crypto : List ℕ → Option (CryptoFrame × ℕ)
get_crypto buf = do
  (o, l, r) ← take_crypto_hdr (after_type buf)
  (d, r') ← read_bytes r l
  some (record { offset = o; payload = d }, cursor_offset buf r')

unfoldable pub stream_type : StreamFrame → ℕ
stream_type f =
    let t = bit_or frame_stream_base stream_len in
    let t' = if f.offset == 0 then t else bit_or t stream_off in
    if f.fin == 0 then t' else bit_or t' stream_fin

unfoldable pub put_opt_offset : ℕ → List ℕ → ℕ → Option (List ℕ)
put_opt_offset cap w o = if o == 0 then some w else Varint.put cap w o

unfoldable pub put_stream_prefix : ℕ → StreamFrame → Option (List ℕ)
put_stream_prefix cap f = do w ← Varint.put cap [] (stream_type f); Varint.put cap w f.stream_id

unfoldable pub put_stream_hdr : ℕ → StreamFrame → Option (List ℕ)
put_stream_hdr cap f = do
  w ← put_stream_prefix cap f
  w' ← put_opt_offset cap w f.offset
  Varint.put cap w' (length f.payload)

unfoldable pub put_stream : ℕ → StreamFrame → Option (List ℕ)
put_stream cap f = do w ← put_stream_hdr cap f; write_bytes cap w f.payload

unfoldable pub take_opt_offset : ℕ → List ℕ → Option (ℕ × List ℕ)
take_opt_offset type r = if bit_and type stream_off == 0 then some (0, r) else Varint.take r

-- The stream id, the offset, the length and the cursor behind them.
unfoldable pub take_stream_hdr : ℕ → List ℕ → Option (ℕ × ℕ × ℕ × List ℕ)
take_stream_hdr type r = do
  (i, r') ← Varint.take r
  (o, r'') ← take_opt_offset type r'
  (l, r''') ← Varint.take r''
  some (i, o, l, r''')

unfoldable pub get_stream : List ℕ → Option (StreamFrame × ℕ)
get_stream buf =
    let type = get_or buf 0 0 in
    do
      (i, o, l, r) ← take_stream_hdr type (after_type buf)
      (d, r') ← read_bytes r l
      some (
        record {
          stream_id = i;
          offset = o;
          payload = d;
          fin = if bit_and type stream_fin == 0 then 0 else 1;
        },
        cursor_offset buf r',
      )

unfoldable pub put_opt_frame_type : ℕ → List ℕ → ConnCloseFrame → Option (List ℕ)
put_opt_frame_type cap w f = if f.is_app == 0 then Varint.put cap w f.frame_type else some w

unfoldable pub put_cc_prefix : ℕ → ConnCloseFrame → Option (List ℕ)
put_cc_prefix cap f = do
  w ← Varint.put cap [] (if f.is_app == 0 then frame_conn_close_tpt else frame_conn_close_app)
  Varint.put cap w f.error_code

unfoldable pub put_cc_hdr : ℕ → ConnCloseFrame → Option (List ℕ)
put_cc_hdr cap f = do
  w ← put_cc_prefix cap f
  w' ← put_opt_frame_type cap w f
  Varint.put cap w' (length f.reason)

unfoldable pub put_conn_close : ℕ → ConnCloseFrame → Option (List ℕ)
put_conn_close cap f = do w ← put_cc_hdr cap f; write_bytes cap w f.reason

unfoldable pub take_opt_frame_type : ℕ → List ℕ → Option (ℕ × List ℕ)
take_opt_frame_type is_app r = if is_app == 0 then Varint.take r else some (0, r)

-- The error code, the frame type, the length of the reason and the cursor behind them.
unfoldable pub take_cc_hdr : ℕ → List ℕ → Option (ℕ × ℕ × ℕ × List ℕ)
take_cc_hdr is_app r = do
  (e, r') ← Varint.take r
  (t, r'') ← take_opt_frame_type is_app r'
  (l, r''') ← Varint.take r''
  some (e, t, l, r''')

unfoldable pub get_conn_close : List ℕ → Option (ConnCloseFrame × ℕ)
get_conn_close buf =
    let is_app = if get_or buf 0 0 == frame_conn_close_app then 1 else 0 in
    do
      (e, t, l, r) ← take_cc_hdr is_app (after_type buf)
      (d, r') ← read_bytes r l
      some (
        record { is_app = is_app; error_code = e; frame_type = t; reason = d },
        cursor_offset buf r',
      )
