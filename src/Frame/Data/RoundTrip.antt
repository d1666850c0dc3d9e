-- ===== src/Frame/Data/RoundTrip.antt =====
-- CRYPTO, STREAM and CONNECTION_CLOSE frames are read back as they were written.
use quic_vibe.Common.{
  ℕ, ◌+◌, ◌^◌, ◌≤◌, ◌<◌, ◌≡◌, ◌⊎◌, inl, inr, List, [], ◌∷◌, ◌++◌, arith, ◌==◌, if◌then◌else◌,
  Bool-cases, length,
}
use Prim.Native.Nat.{bit_and}
use quic_vibe.Frame.Wire.{IsVarint, encodes, put_all, read_bytes_back, RoundTrips}
use quic_vibe.Frame.Framed.{put_framed, take-encodes, framed_round}
use quic_vibe.Frame.Data.{
  CryptoFrame, StreamFrame, ConnCloseFrame, put_crypto_hdr, put_crypto, take_crypto_hdr, get_crypto,
  stream_type, put_opt_offset, put_stream_prefix, put_stream_hdr, put_stream, take_opt_offset,
  take_stream_hdr, get_stream, put_opt_frame_type, put_cc_prefix, put_cc_hdr, put_conn_close,
  take_opt_frame_type, take_cc_hdr, get_conn_close,
}

pub put_crypto-framed :
    (cap : ℕ) (f : CryptoFrame)
    → put_crypto cap f ≡ put_framed cap (6 ∷ f.offset ∷ length f.payload ∷ []) f.payload
unfolding put_crypto put_crypto_hdr put_all
put_crypto-framed cap f = ground arith

-- The varints of a STREAM frame behind its type.
abbrev pub stream_head : StreamFrame → List ℕ
stream_head f =
    f.stream_id
    ∷ (if f.offset == 0 then length f.payload ∷ [] else f.offset ∷ length f.payload ∷ [])

pub put_stream-framed :
    (cap : ℕ) (f : StreamFrame)
    → put_stream cap f ≡ put_framed cap (stream_type f ∷ stream_head f) f.payload
unfolding put_stream put_stream_hdr put_stream_prefix put_opt_offset put_all
put_stream-framed cap f = elim (Bool-cases (f.offset == 0)) [
  | inl e ↦ rw e (ground arith)
  | inr e ↦ rw e (ground arith)
]

abbrev pub close_type : ConnCloseFrame → ℕ
close_type f = if f.is_app == 0 then 0x1c else 0x1d

-- The varints of a CONNECTION_CLOSE frame behind its type.
abbrev pub close_head : ConnCloseFrame → List ℕ
close_head f =
    f.error_code
    ∷ (if f.is_app == 0 then f.frame_type ∷ length f.reason ∷ [] else length f.reason ∷ [])

pub put_close-framed :
    (cap : ℕ) (f : ConnCloseFrame)
    → put_conn_close cap f ≡ put_framed cap (close_type f ∷ close_head f) f.reason
unfolding put_conn_close put_cc_hdr put_cc_prefix put_opt_frame_type put_all
put_close-framed cap f = elim (Bool-cases (f.is_app == 0)) [
  | inl e ↦ rw e (ground arith)
  | inr e ↦ rw e (ground arith)
]

-- A CRYPTO frame is read back.
pub crypto_round_trip :
    (cap : ℕ) (f : CryptoFrame) (rest : List ℕ)
    → IsVarint f.offset
    → IsVarint (length f.payload)
    → length (encodes (6 ∷ f.offset ∷ length f.payload ∷ [])) + length f.payload ≤ cap
    → cap < 2 ^ 63
    → RoundTrips (put_crypto cap) get_crypto f rest
unfolding get_crypto take_crypto_hdr
crypto_round_trip cap f rest ho hl room small =
    framed_round (put_crypto cap) get_crypto f cap 6 (f.offset ∷ length f.payload ∷ []) f.payload
      rest (omega arith) (put_crypto-framed cap f) (ho, (hl, tt)) room small
      λ buf e. rw e (
        ground (
          arith,
          take-encodes f.offset (length f.payload ∷ []) (f.payload ++ rest) ho,
          take-encodes (length f.payload) [] (f.payload ++ rest) hl,
          read_bytes_back f.payload rest,
        ))

-- The type byte of a STREAM frame, and the bits that the decoder reads off it.
stream_type-bits :
    (f : StreamFrame)
    → f.fin ≤ 1
    → (stream_type f < 64)
      × ((bit_and (stream_type f) 4 == 0) ≡ (f.offset == 0))
      × ((if bit_and (stream_type f) 1 == 0 then 0 else 1) ≡ f.fin)
unfolding stream_type
stream_type-bits f h = elim (Bool-cases (f.offset == 0)) [
  | inl a ↦ rw a (elim (Bool-cases (f.fin == 0)) [ inl b ↦ ground arith | inr b ↦ ground arith ])
  | inr a ↦ rw a (elim (Bool-cases (f.fin == 0)) [ inl b ↦ ground arith | inr b ↦ ground arith ])
]

-- A STREAM frame is read back.
pub stream_round_trip :
    (cap : ℕ) (f : StreamFrame) (rest : List ℕ)
    → f.fin ≤ 1
    → IsVarint f.stream_id
    → IsVarint f.offset
    → IsVarint (length f.payload)
    → length (encodes (stream_type f ∷ stream_head f)) + length f.payload ≤ cap
    → cap < 2 ^ 63
    → RoundTrips (put_stream cap) get_stream f rest
unfolding get_stream take_stream_hdr take_opt_offset
stream_round_trip cap f rest hf hi ho hl room small =
    let (t, off, fin) = stream_type-bits f hf in
    framed_round (put_stream cap) get_stream f cap (stream_type f) (stream_head f) f.payload rest t
      (put_stream-framed cap f) (hi, ground arith) room small
      λ buf b. rw b (elim (Bool-cases (f.offset == 0)) [
        | inl e ↦ rw e (
            ground (
              arith,
              take-encodes f.stream_id (length f.payload ∷ []) (f.payload ++ rest) hi,
              take-encodes (length f.payload) [] (f.payload ++ rest) hl,
              read_bytes_back f.payload rest,
            ))
        | inr e ↦ rw e (
            ground (
              arith,
              take-encodes f.stream_id (f.offset ∷ length f.payload ∷ []) (f.payload ++ rest) hi,
              take-encodes f.offset (length f.payload ∷ []) (f.payload ++ rest) ho,
              take-encodes (length f.payload) [] (f.payload ++ rest) hl,
              read_bytes_back f.payload rest,
            ))
      ])

-- A CONNECTION_CLOSE frame is read back.
pub close_round_trip :
    (cap : ℕ) (f : ConnCloseFrame) (rest : List ℕ)
    → (f.is_app ≡ 0) ⊎ ((f.is_app ≡ 1) × (f.frame_type ≡ 0))
    → IsVarint f.error_code
    → IsVarint f.frame_type
    → IsVarint (length f.reason)
    → length (encodes (close_type f ∷ close_head f)) + length f.reason ≤ cap
    → cap < 2 ^ 63
    → RoundTrips (put_conn_close cap) get_conn_close f rest
unfolding get_conn_close take_cc_hdr take_opt_frame_type
close_round_trip cap f rest app he ht hl room small =
    framed_round (put_conn_close cap) get_conn_close f cap (close_type f) (close_head f) f.reason
      rest (ground arith) (put_close-framed cap f) (he, ground arith) room small
      λ buf b. rw b (elim app [
        | inl e ↦ rw e (
            ground (
              arith,
              take-encodes f.error_code (f.frame_type ∷ length f.reason ∷ []) (f.reason ++ rest) he,
              take-encodes f.frame_type (length f.reason ∷ []) (f.reason ++ rest) ht,
              take-encodes (length f.reason) [] (f.reason ++ rest) hl,
              read_bytes_back f.reason rest,
            ))
        | inr (e, z) ↦
            rw (e, z)
              (ground (
                arith,
                take-encodes f.error_code (length f.reason ∷ []) (f.reason ++ rest) he,
                take-encodes (length f.reason) [] (f.reason ++ rest) hl,
                read_bytes_back f.reason rest,
              ))
      ])
