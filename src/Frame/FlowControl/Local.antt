-- ===== src/Frame/FlowControl/Local.antt =====
-- The decoders of the flow-control frames look at nothing behind the frame.
use quic_vibe.Common.{
  ℕ, ◌≤◌, ◌≡◌, inl, inr, some, List, ◌∷◌, ◌++◌, arith, Option-cases, length, >>=-eq-some,
}
use quic_vibe.Varint
use quic_vibe.Frame.Prefix.{take_extends, offset_extends, IsLocal}
use quic_vibe.Frame.FlowControl.{
  get_one_varint_frame, get_two_varint_frame, max_data_decode, data_blocked_decode,
  max_stream_data_decode, stream_data_blocked_decode, max_streams_decode, streams_blocked_decode,
  data_frame_of, stream_data_frame_of, streams_frame_of,
}

get_one_extends :
    (t : ℕ) (buf more : List ℕ) (x : ℕ × List ℕ)
    → get_one_varint_frame (t ∷ buf) ≡ some x
    → (get_one_varint_frame (t ∷ (buf ++ more)) ≡ some (x.0, x.1 ++ more))
      × (length x.1 ≤ length buf)
unfolding get_one_varint_frame
get_one_extends t buf more x e = take_extends buf more x e

get_two_extends :
    (t : ℕ) (buf more : List ℕ) (x : ℕ × ℕ × List ℕ)
    → get_two_varint_frame (t ∷ buf) ≡ some x
    → (get_two_varint_frame (t ∷ (buf ++ more)) ≡ some (x.0, x.1, x.2 ++ more))
      × (length x.2 ≤ length buf)
unfolding get_two_varint_frame
get_two_extends t buf more x e =
    let (a, p, q) = >>=-eq-some (get_one_varint_frame (t ∷ buf)) _ e in
    let (b, p', q') = >>=-eq-some (Varint.take a.1) _ q in
    ground (arith, get_one_extends t buf more a p, take_extends a.1 more b p')

data_frame-IsLocal : IsLocal (λ buf. data_frame_of buf (get_one_varint_frame buf))
data_frame-IsLocal t buf more f n e = elim (Option-cases (get_one_varint_frame (t ∷ buf))) [
  | inl z ↦ absurd (ground arith)
  | inr (x, p) ↦ ground (arith, get_one_extends t buf more x p, offset_extends (t ∷ buf) x.1 more)
]

streams_frame-IsLocal : IsLocal (λ buf. streams_frame_of buf (get_one_varint_frame buf))
streams_frame-IsLocal t buf more f n e = elim (Option-cases (get_one_varint_frame (t ∷ buf))) [
  | inl z ↦ absurd (ground arith)
  | inr (x, p) ↦ ground (arith, get_one_extends t buf more x p, offset_extends (t ∷ buf) x.1 more)
]

stream_data_frame-IsLocal : IsLocal (λ buf. stream_data_frame_of buf (get_two_varint_frame buf))
stream_data_frame-IsLocal t buf more f n e = elim (Option-cases (get_two_varint_frame (t ∷ buf))) [
  | inl z ↦ absurd (ground arith)
  | inr (x, p) ↦ ground (arith, get_two_extends t buf more x p, offset_extends (t ∷ buf) x.2 more)
]

pub flow_control-IsLocal :
    IsLocal max_data_decode
    × IsLocal data_blocked_decode
    × IsLocal max_stream_data_decode
    × IsLocal stream_data_blocked_decode
    × IsLocal max_streams_decode
    × IsLocal streams_blocked_decode
unfolding max_data_decode data_blocked_decode max_stream_data_decode stream_data_blocked_decode
    max_streams_decode streams_blocked_decode
flow_control-IsLocal = (
  data_frame-IsLocal, data_frame-IsLocal, stream_data_frame-IsLocal, stream_data_frame-IsLocal,
  streams_frame-IsLocal, streams_frame-IsLocal,
)
