-- ===== src/Conn/CryptoRecv/Tests.antt =====
-- CRYPTO frames out of order, at concrete values.
use quic_vibe.Common.{
  ℕ, zero, suc, ◌+◌, ◌≤◌, ◌≡◌, refl, ap, Bool, true, false, some, List, [], ◌∷◌, arith, get_or,
  replicate, All,
}
use quic_vibe.BigEndian.{write_be, read_be}
use quic_vibe.Varint
use quic_vibe.Varint.{len, class_from, put_be, encode, get_be, decode}
use quic_vibe.Frame.Wire.{write_bytes, read_bytes}
use quic_vibe.Frame.Data.{put_crypto, put_crypto_hdr, get_crypto, take_crypto_hdr}
use quic_vibe.Frame.Every.{Frame}
use quic_vibe.Frame.Walk.Items.{Item, IsItem, payload}
use quic_vibe.Stream.Reassembly.Buffer.{segment}
use quic_vibe.Frame.Kinds.{classify, classify_in}
use quic_vibe.Frame.Walk.{next, measure, frame_len, single_byte, decoded_len, has_body, body_len}
use quic_vibe.Conn.CryptoRecv.{
  Crecv, collect, message, collect_loop, on_frame, take_crypto, place, place_loop, advance_prefix,
  advance_loop,
}
use quic_vibe.Conn.CryptoRecv.Placed.{IsCrecv}
use quic_vibe.Conn.CryptoRecv.InOrder.{IsOfStream, collect_in_order, collect_reaches}

abbrev empty : Crecv
empty = record { buf = replicate 8 0; filled = replicate 8 false; received_to = 0 }

abbrev sent : ℕ → ℕ
sent i = i + 7

-- The second half comes first.
abbrev items : List Item
items =
    Item.frame (Frame.crypto (record { offset = 2; payload = 9 ∷ 10 ∷ [] }))
    ∷ Item.ping
    ∷ Item.frame (Frame.crypto (record { offset = 0; payload = 7 ∷ 8 ∷ [] }))
    ∷ []

abbrev bytes : List ℕ
bytes = 6 ∷ 2 ∷ 2 ∷ 9 ∷ 10 ∷ 1 ∷ 6 ∷ 0 ∷ 2 ∷ 7 ∷ 8 ∷ []

bytes-payload : payload 64 items ≡ some bytes
unfolding put_crypto put_crypto_hdr write_bytes Varint.put encode len class_from put_be write_be
bytes-payload = refl

empty-get_or : (j : ℕ) → get_or empty.filled j false ≡ false
empty-get_or j = go 8 j
  where
    go : (n j : ℕ) → get_or (replicate n false) j false ≡ false
    go zero j = refl
    go (suc n) zero = refl
    go (suc n) (suc j) = go n j

empty-IsCrecv : IsCrecv sent 8 (omega arith) empty
empty-IsCrecv = record {
  holds = record { buf_size = refl; have_size = refl; right = λ i e. absurd (cc (empty-get_or i)) };
  full = λ j p. absurd (omega arith);
  top = omega arith;
}

items-IsItem : All (IsItem 64) items
unfolding encode len class_from put_be write_be
items-IsItem = ground arith

items-IsOfStream : All (IsOfStream sent 8 (omega arith)) items
items-IsOfStream = ground arith

collected : collect 8 empty bytes ≡ (
  record {
    buf = 7 ∷ 8 ∷ 9 ∷ 10 ∷ 0 ∷ 0 ∷ 0 ∷ 0 ∷ [];
    filled = true ∷ true ∷ true ∷ true ∷ false ∷ false ∷ false ∷ false ∷ [];
    received_to = 4;
  },
  true,
)
unfolding collect collect_loop on_frame take_crypto place place_loop advance_prefix advance_loop
    next measure frame_len single_byte decoded_len has_body body_len classify classify_in get_crypto
    take_crypto_hdr read_bytes Varint.take decode get_be read_be
collected = refl

collect_in_order_example :
    let s' = (collect 8 empty bytes).0 in
    IsCrecv sent 8 (omega arith) s'
    × (0 ≤ s'.received_to)
    × (message s' ≡ segment sent 0 s'.received_to)
collect_in_order_example =
    collect_in_order sent 8 (omega arith) 64 empty items bytes empty-IsCrecv items-IsItem
      items-IsOfStream bytes-payload

collect_reaches_example : 4 ≤ (collect 8 empty bytes).0.received_to
collect_reaches_example =
    collect_reaches sent 8 (omega arith) 64 empty items bytes 4 empty-IsCrecv items-IsItem
      items-IsOfStream bytes-payload (ap (λ (x : Crecv × Bool). x.1) collected) (omega arith)
      (λ j p. ground arith)
