-- ===== src/Conn/CryptoRecv/InOrder.antt =====
-- The CRYPTO data collected from payloads are the stream, in order from its start.
use quic_vibe.Common.{
  ℕ, ◌+◌, ◌^◌, ◌≤◌, ◌<◌, ◌≡◌, refl, ◌∙◌, inl, inr, Bool, true, false, ◌&&◌, ◌||◌, none, some, List,
  [], ◌∷◌, arith, ltb, leb, if◌then◌else◌, ltb→lt, Bool-cases, length, get_or, All,
}
use quic_vibe.Frame.Every.{Frame}
use quic_vibe.Frame.Walk.Items.{Item, IsItem, payload}
use quic_vibe.Stream.Reassembly.Buffer.{IsPart, segment}
use quic_vibe.Conn.CryptoRecv.{Crecv, collect, advance_prefix, message}
use quic_vibe.Conn.CryptoRecv.Placed.{IsCrecv, place-IsPlaced, advance_prefix_lem, message-segment}
use quic_vibe.Conn.CryptoRecv.Collected.{crypto_of, place_item, place_items, loop-place_items}

-- Whether a CRYPTO frame among the items has the byte at an offset.
abbrev pub item_has : Item → ℕ → Bool
item_has i j = elim (crypto_of i) [
  | none ↦ false
  | some f ↦ leb f.offset j && ltb j (f.offset + length f.payload)
]

abbrev pub has_byte : List Item → ℕ → Bool
has_byte [] j = false
has_byte (i ∷ is) j = item_has i j || has_byte is j

module _ (stream : ℕ → ℕ) (size : ℕ) (small : size < 2 ^ 63) where
  -- A CRYPTO frame carries bytes of the stream.
  abbrev pub IsOfStream : Item → Type 0
  IsOfStream (Item.frame (Frame.crypto f)) = IsPart stream f.offset f.payload
  IsOfStream _ = Unit

  -- What placing items leaves behind.
  record ArePlaced (s : Crecv) (is : List Item) (s' : Crecv) (ok : Bool) : Type 0 where
    valid : IsCrecv stream size small s'
    kept : (j : ℕ) → get_or s.filled j false ≡ true → get_or s'.filled j false ≡ true
    added : (j : ℕ) → has_byte is j ≡ true → ok ≡ true → get_or s'.filled j false ≡ true
    same_prefix : s'.received_to ≡ s.received_to

  place_item-ArePlaced :
      (cap : ℕ) (s : Crecv) (i : Item)
      → IsCrecv stream size small s
      → IsItem cap i
      → IsOfStream i
      → ArePlaced s (i ∷ []) (place_item size s i).0 (place_item size s i).1
  place_item-ArePlaced cap s (Item.frame (Frame.crypto f)) v (w, _) p =
      let r = place-IsPlaced stream size small s f v p (omega (arith, w.0, w.1)) in
      record {
        valid = r.valid;
        kept = r.kept;
        added = λ j e ok. r.added j (ground arith) (ground arith) ok;
        same_prefix = r.same_prefix;
      }
  place_item-ArePlaced cap s _ v w p = record {
    valid = v;
    kept = λ j e. e;
    added = λ j e ok. absurd (cc);
    same_prefix = refl;
  }

  place_items-ArePlaced :
      (cap : ℕ) (is : List Item) (s : Crecv)
      → IsCrecv stream size small s
      → All (IsItem cap) is
      → All IsOfStream is
      → ArePlaced s is (place_items size s is).0 (place_items size s is).1
  place_items-ArePlaced cap [] s v w p = record {
    valid = v;
    kept = λ j e. e;
    added = λ j e ok. absurd (cc);
    same_prefix = refl;
  }
  place_items-ArePlaced cap (i ∷ is) s v (wi, w) (pi, p) =
      let one = place_item-ArePlaced cap s i v wi pi in
      elim (Bool-cases (place_item size s i).1) [
        | inl ok ↦
            let rest = place_items-ArePlaced cap is (place_item size s i).0 one.valid w p in
            rw ok (record {
              valid = rest.valid;
              kept = λ j e. rest.kept j (one.kept j e);
              added = λ j e fine. elim (Bool-cases (item_has i j)) [
                | inl here ↦ rest.kept j (one.added j (ground arith) ok)
                | inr there ↦ rest.added j (rw there at e) fine
              ];
              same_prefix = rest.same_prefix ∙ one.same_prefix;
            })
        | inr bad ↦ rw bad (record {
          valid = one.valid;
          kept = one.kept;
          added = λ j e fine. absurd (cc);
          same_prefix = one.same_prefix;
        })
      ]

  collect-place_items :
      (cap : ℕ) (s : Crecv) (is : List Item) (bs : List ℕ)
      → All (IsItem cap) is
      → payload cap is ≡ some bs
      → collect size s bs ≡ (
          let (s', ok) = place_items size s is in
          if ok then (advance_prefix size s', true) else (s', false))
  unfolding collect
  collect-place_items cap s is bs w e =
      rw (collect, loop-place_items size cap (length bs) s is bs w e (omega arith)) refl

  -- From a well-formed buffer of fewer than 2^63 bytes, after any payload of PADDING, PING and of ACK,
  -- CRYPTO, STREAM and CONNECTION_CLOSE frames as they are written, whose CRYPTO frames carry bytes of
  -- the stream, in any order, repeated or overlapping, and whether or not each of them fits: the buffer
  -- is well formed, the prefix has not shrunk, and the message handed to TLS is the stream from its
  -- first byte.
  pub collect_in_order :
      (cap : ℕ) (s : Crecv) (is : List Item) (bs : List ℕ)
      → IsCrecv stream size small s
      → All (IsItem cap) is
      → All IsOfStream is
      → payload cap is ≡ some bs
      → let s' = (collect size s bs).0 in
        IsCrecv stream size small s'
        × (s.received_to ≤ s'.received_to)
        × (message s' ≡ segment stream 0 s'.received_to)
  collect_in_order cap s is bs v w p e =
      let r = place_items size s is in
      let placed = place_items-ArePlaced cap is s v w p in
      rw (collect-place_items cap s is bs w e) (elim (Bool-cases r.1) [
        | inl ok ↦
            let (v', more, _) = advance_prefix_lem stream size small r.0 placed.valid in
            rw ok (
              v',
              omega (arith, placed.same_prefix),
              message-segment stream size small (advance_prefix size r.0) v',
            )
        | inr bad ↦ rw bad (
          placed.valid,
          omega (arith, placed.same_prefix),
          message-segment stream size small r.0 placed.valid,
        )
      ])

  -- No byte is held back: from a well-formed buffer, if a payload of PADDING, PING and of ACK, CRYPTO,
  -- STREAM and CONNECTION_CLOSE frames as they are written, whose CRYPTO frames carry bytes of the
  -- stream, was accepted, and every offset below a number up to the size of the buffer was filled
  -- before or is carried by one of its CRYPTO frames, the prefix reaches that number.
  pub collect_reaches :
      (cap : ℕ) (s : Crecv) (is : List Item) (bs : List ℕ) (n : ℕ)
      → IsCrecv stream size small s
      → All (IsItem cap) is
      → All IsOfStream is
      → payload cap is ≡ some bs
      → (collect size s bs).1 ≡ true
      → n ≤ size
      → ((j : ℕ) → j < n → (get_or s.filled j false || has_byte is j) ≡ true)
      → n ≤ (collect size s bs).0.received_to
  collect_reaches cap s is bs n v w p e fine top every =
      let r = place_items size s is in
      let placed = place_items-ArePlaced cap is s v w p in
      let same = collect-place_items cap s is bs w e in
      elim (Bool-cases r.1) [
        | inl ok ↦
            let (v', more, gap) = advance_prefix_lem stream size small r.0 placed.valid in
            let m = (advance_prefix size r.0).received_to in
            let filled : (j : ℕ) → j < n → get_or r.0.filled j false ≡ true = λ j lt.
              elim (Bool-cases (get_or s.filled j false)) [
                | inl before ↦ placed.kept j before
                | inr new ↦ placed.added j (rw new at (every j lt)) ok
              ] in
            rw (same, ok)
              (elim gap [
                | inl end ↦ omega arith
                | inr hole ↦ elim (Bool-cases (ltb m n)) [
                  | inl lt ↦ absurd (cc (filled m (ltb→lt m n lt), hole))
                  | inr past ↦ ground arith
                ]
              ])
        | inr bad ↦ absurd (cc (rw (same, bad) at fine))
      ]
