-- ===== src/Conn/CryptoRecv/Collected.antt =====
-- From the bytes of payloads to the CRYPTO stream: what is collected is the stream as it was sent.
use quic_vibe.Common.{
  ℕ, zero, suc, ◌≤◌, ◌≡◌, refl, ap, ◌∙◌, Bool, true, false, Option, none, some, List, [], ◌∷◌, ◌++◌,
  arith, if◌then◌else◌, length, All, length-append, >>=-eq-some,
}
use quic_vibe.Frame.Wire.{read_back}
use quic_vibe.Frame.Ack.{ack_type}
use quic_vibe.Frame.Data.{CryptoFrame, get_crypto, stream_type}
use quic_vibe.Frame.Data
use quic_vibe.Frame.Data.RoundTrip.{crypto_round_trip}
use quic_vibe.Frame.Every.{Frame}
use quic_vibe.Frame.Walk.{next}
use quic_vibe.Frame.Walk.Items.{Item, IsItem, item_bytes, item_type, payload, some_inj, next_item}
use quic_vibe.Conn.CryptoRecv.{Crecv, place, take_crypto, on_frame, collect_loop}

-- The items that carry CRYPTO data.
abbrev pub crypto_of : Item → Option CryptoFrame
crypto_of (Item.frame (Frame.crypto f)) = some f
crypto_of _ = none

module _ (size : ℕ) where
  -- The frames placed in turn, up to one that does not fit.
  abbrev pub place_item : Crecv → Item → Crecv × Bool
  place_item s i = elim (crypto_of i) [ none ↦ (s, true) | some f ↦ place size s f ]

  abbrev pub place_items : Crecv → List Item → Crecv × Bool
  place_items s [] = (s, true)
  place_items s (i ∷ is) =
      let (s', ok) = place_item s i in
      let rest = place_items s' is in if ok then rest else (s', false)

  on_item :
      (cap : ℕ) (s : Crecv) (i : Item) (b rest : List ℕ)
      → IsItem cap i
      → item_bytes cap i ≡ some b
      → on_frame size s (item_type i) (b ++ rest) ≡ place_item s i
  unfolding on_frame take_crypto ack_type stream_type
  on_item cap s Item.padding b rest v e = refl
  on_item cap s Item.ping b rest v e = refl
  on_item cap s (Item.frame (Frame.crypto f)) b rest ((a, l, r, c), h) e =
      rw
        (
          take_crypto,
          read_back (Data.put_crypto cap) get_crypto f b rest (crypto_round_trip cap f rest a l r c)
              e,
        )
        refl
  on_item cap s (Item.frame (Frame.ack f)) b rest (v, h) e = ground arith
  on_item cap s (Item.frame (Frame.stream f)) b rest (v, h) e = ground arith
  on_item cap s (Item.frame (Frame.conn_close f)) b rest (v, h) e = ground arith
  on_item cap s (Item.frame _) b rest (v, h) e = absurd (omega arith)

  collect_step :
      (fuel : ℕ) (s : Crecv) (it : List ℕ) (type : ℕ) (behind : List ℕ) (r : Crecv × Bool)
      → next it ≡ some (type, it, behind)
      → on_frame size s type it ≡ r
      → collect_loop size (suc fuel) s it
        ≡ (if r.1 then collect_loop size fuel r.0 behind else (r.0, false))
  unfolding collect_loop
  collect_step fuel s it type behind r n h = rw (collect_loop, n) (rw h refl)

  -- The loop over the bytes of written frames places their CRYPTO data.
  pub loop-place_items :
      (cap fuel : ℕ) (s : Crecv) (is : List Item) (bs : List ℕ)
      → All (IsItem cap) is
      → payload cap is ≡ some bs
      → length bs ≤ fuel
      → collect_loop size fuel s bs ≡ place_items s is
  unfolding collect_loop next
  loop-place_items cap zero s [] bs v e h = refl
  loop-place_items cap (suc fuel) s [] bs v e h = rw (← some_inj e) refl
  loop-place_items cap zero s (i ∷ is) bs (vi, v) e h =
      let (b, p, q) = >>=-eq-some (item_bytes cap i) _ e in
      let (more, p', q') = >>=-eq-some (payload cap is) _ q in
      let (_, some_byte) = next_item cap i b more vi p in
      absurd (omega (arith, ap length (some_inj q'), length-append b more))
  loop-place_items cap (suc fuel) s (i ∷ is) bs (vi, v) e h =
      let (b, p, q) = >>=-eq-some (item_bytes cap i) _ e in
      let (more, p', q') = >>=-eq-some (payload cap is) _ q in
      let (n, some_byte) = next_item cap i b more vi p in
      let fits : length more ≤ fuel =
        omega (arith, ap length (some_inj q'), length-append b more) in
      let r = place_item s i in
      rw (← some_inj q') (
        collect_step fuel s (b ++ more) (item_type i) more r n (on_item cap s i b more vi p)
        ∙ ap (λ (x : Crecv × Bool). if r.1 then x else (r.0, false))
            (loop-place_items cap fuel r.0 is more v p' fits))
