-- ===== src/Frame/StreamControl.antt =====
-- RESET_STREAM and STOP_SENDING (src/transport/packet/frame/frame/stream_ctl.c).
pub mod RoundTrip
use quic_vibe.Common.{
  ℕ, zero, suc, ◌+◌, ◌-◌, ◌*◌, ◌/◌, ◌%◌, ◌^◌, ◌≤◌, ◌<◌, min, max, ◌≡◌, refl, sym, ap, ap₂, ◌∙◌, ◌≢◌,
  ◌↔◌, ◌⊎◌, inl, inr, Bool, true, false, not, ◌&&◌, ◌||◌, Option, none, some, List, [], ◌∷◌, ◌++◌,
  map, append-nil, append_assoc, arith, ltb, leb, ◌==◌, if◌then◌else◌, ltb→lt, lt→ltb, leb→le,
  le→leb, ==→eq, Bool-cases, Option-cases, to_bit, length, get_elem?, get_or, set, replicate, All,
  length-append, length-set, length-take, length-drop, length-replicate, get_or-set_self,
  get_or-set_ne, take_append, drop_append, take-append-drop, All-append, ◌>>=◌, ◌>>◌, guard,
  >>=-eq-some,
}
use quic_vibe.Common.Word.{IsByte, IsU64, u8, u32, u64, ◌+ᵤ◌, ◌-ᵤ◌, ◌*ᵤ◌}
use quic_vibe.Varint
use quic_vibe.Frame.Wire.{after_type, offset}

-- quic_reset_stream_frame
pub record ResetStreamFrame : Type 0 where
  pub stream_id : ℕ
  pub error_code : ℕ
  pub final_size : ℕ

-- quic_stop_sending_frame
pub record StopSendingFrame : Type 0 where
  pub stream_id : ℕ
  pub error_code : ℕ

abbrev pub frame_reset_stream : ℕ
frame_reset_stream = 0x04

abbrev pub frame_stop_sending : ℕ
frame_stop_sending = 0x05

unfoldable pub put_rs_head : ℕ → ResetStreamFrame → Option (List ℕ)
put_rs_head cap f = do w ← Varint.put cap [] frame_reset_stream; Varint.put cap w f.stream_id

unfoldable pub put_rs_tail : ℕ → List ℕ → ResetStreamFrame → Option (List ℕ)
put_rs_tail cap w f = do w' ← Varint.put cap w f.error_code; Varint.put cap w' f.final_size

unfoldable pub reset_stream_encode : ℕ → ResetStreamFrame → Option (List ℕ)
reset_stream_encode cap f = do w ← put_rs_head cap f; put_rs_tail cap w f

-- The stream id, the error code and the cursor behind them.
unfoldable pub take_rs_head : List ℕ → Option (ℕ × ℕ × List ℕ)
take_rs_head r = do (i, r') ← Varint.take r; (e, r'') ← Varint.take r'; some (i, e, r'')

unfoldable pub reset_stream_decode : List ℕ → Option (ResetStreamFrame × ℕ)
reset_stream_decode buf = do
  (i, e, r) ← take_rs_head (after_type buf)
  (z, r') ← Varint.take r
  some (record { stream_id = i; error_code = e; final_size = z }, offset buf r')

unfoldable pub put_ss_head : ℕ → StopSendingFrame → Option (List ℕ)
put_ss_head cap f = do w ← Varint.put cap [] frame_stop_sending; Varint.put cap w f.stream_id

unfoldable pub stop_sending_encode : ℕ → StopSendingFrame → Option (List ℕ)
stop_sending_encode cap f = do w ← put_ss_head cap f; Varint.put cap w f.error_code

unfoldable pub stop_sending_decode : List ℕ → Option (StopSendingFrame × ℕ)
stop_sending_decode buf = do
  (i, r) ← Varint.take (after_type buf)
  (e, r') ← Varint.take r
  some (record { stream_id = i; error_code = e }, offset buf r')
