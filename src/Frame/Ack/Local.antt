-- ===== src/Frame/Ack/Local.antt =====
-- The ACK decoder looks at nothing behind the frame.
use quic_vibe.Common.{
  ℕ, zero, suc, ◌≤◌, ◌≡◌, inl, inr, some, List, ◌∷◌, ◌++◌, arith, leb, ◌==◌, if◌then◌else◌,
  Bool-cases, length, guard, >>=-eq-some,
}
use quic_vibe.Varint
use quic_vibe.Frame.Prefix.{take_extends, offset_extends, IsLocal}
use quic_vibe.Frame.Ack.{
  AckRange, take_ack_meta, take_first, take_ack_head, take_two, take_pair, pair_fits,
  take_ack_pairs, count_fits, take_ack_prologue, take_ack_ecn, take_ack_rest, ack_decode,
}

take_two_extends :
    (r more : List ℕ) (x : ℕ × ℕ × List ℕ)
    → take_two r ≡ some x
    → (take_two (r ++ more) ≡ some (x.0, x.1, x.2 ++ more)) × (length x.2 ≤ length r)
unfolding take_two
take_two_extends r more x e =
    let (a, p, q) = >>=-eq-some (Varint.take r) _ e in
    let (b, p', q') = >>=-eq-some (Varint.take a.1) _ q in
    ground (arith, take_extends r more a p, take_extends a.1 more b p')

take_pair_extends :
    (r more : List ℕ) (lo : ℕ) (x : AckRange × List ℕ)
    → take_pair r lo ≡ some x
    → (take_pair (r ++ more) lo ≡ some (x.0, x.1 ++ more)) × (length x.1 ≤ length r)
unfolding take_pair
take_pair_extends r more lo x e =
    let (a, p, q) = >>=-eq-some (take_two r) _ e in
    let (u, g, q') = >>=-eq-some (guard (pair_fits lo a.0 a.1)) _ q in
    ground (arith, take_two_extends r more a p)

take_ack_pairs_extends :
    (count : ℕ) (r more : List ℕ) (lo : ℕ) (x : List AckRange × List ℕ)
    → take_ack_pairs r lo count ≡ some x
    → (take_ack_pairs (r ++ more) lo count ≡ some (x.0, x.1 ++ more)) × (length x.1 ≤ length r)
unfolding take_ack_pairs
take_ack_pairs_extends zero r more lo x e = ground arith
take_ack_pairs_extends (suc count) r more lo x e =
    let (a, p, q) = >>=-eq-some (take_pair r lo) _ e in
    let (b, p', q') = >>=-eq-some (take_ack_pairs a.1 a.0.lo count) _ q in
    ground
      (arith, take_pair_extends r more lo a p, take_ack_pairs_extends count a.1 more a.0.lo b p')

take_ack_meta_extends :
    (r more : List ℕ) (x : ℕ × ℕ × ℕ × List ℕ)
    → take_ack_meta r ≡ some x
    → (take_ack_meta (r ++ more) ≡ some (x.0, x.1, x.2, x.3 ++ more)) × (length x.3 ≤ length r)
unfolding take_ack_meta
take_ack_meta_extends r more x e =
    let (u, p, q) = >>=-eq-some (Varint.take r) _ e in
    let (v, p', q') = >>=-eq-some (Varint.take u.1) _ q in
    let (w, p'', q'') = >>=-eq-some (Varint.take v.1) _ q' in
    ground (arith, take_extends r more u p, take_extends u.1 more v p', take_extends v.1 more w p'')

take_first_extends :
    (r more : List ℕ) (largest : ℕ) (x : ℕ × List ℕ)
    → take_first r largest ≡ some x
    → (take_first (r ++ more) largest ≡ some (x.0, x.1 ++ more)) × (length x.1 ≤ length r)
unfolding take_first
take_first_extends r more largest x e =
    let (a, p, q) = >>=-eq-some (Varint.take r) _ e in
    let (u, g, q') = >>=-eq-some (guard (leb a.0 largest)) _ q in
    ground (arith, take_extends r more a p)

take_prologue_extends :
    (r more : List ℕ) (x : ℕ × AckRange × ℕ × List ℕ)
    → take_ack_prologue r ≡ some x
    → (take_ack_prologue (r ++ more) ≡ some (x.0, x.1, x.2, x.3 ++ more)) × (length x.3 ≤ length r)
unfolding take_ack_prologue take_ack_head
take_prologue_extends r more x e =
    let (y, p, q) = >>=-eq-some (take_ack_head r) _ e in
    let (u, g, q') = >>=-eq-some (guard (count_fits y.2)) _ q in
    let (a, p', q'') = >>=-eq-some (take_ack_meta r) _ p in
    let (b, p'', q''') = >>=-eq-some (take_first a.3 a.0) _ q'' in
    ground (arith, take_ack_meta_extends r more a p', take_first_extends a.3 more a.0 b p'')

take_ecn_extends :
    (has_ecn : ℕ) (r more : List ℕ) (x : ℕ × ℕ × ℕ × List ℕ)
    → take_ack_ecn r has_ecn ≡ some x
    → (take_ack_ecn (r ++ more) has_ecn ≡ some (x.0, x.1, x.2, x.3 ++ more))
      × (length x.3 ≤ length r)
unfolding take_ack_ecn
take_ecn_extends has_ecn r more x e = elim (Bool-cases (has_ecn == 0)) [
  | inl z ↦ ground arith
  | inr z ↦
      let (a, p, q) = >>=-eq-some (take_two r) _ (rw z at e) in
      let (b, p', q') = >>=-eq-some (Varint.take a.2) _ q in
      ground (arith, take_two_extends r more a p, take_extends a.2 more b p')
]

take_rest_extends :
    (r more : List ℕ) (lo count has_ecn : ℕ) (x : List AckRange × (ℕ × ℕ × ℕ × List ℕ))
    → take_ack_rest r lo count has_ecn ≡ some x
    → (take_ack_rest (r ++ more) lo count has_ecn
        ≡ some (x.0, (x.1.0, x.1.1, x.1.2, x.1.3 ++ more)))
      × (length x.1.3 ≤ length r)
unfolding take_ack_rest
take_rest_extends r more lo count has_ecn x e =
    let (a, p, q) = >>=-eq-some (take_ack_pairs r lo count) _ e in
    let (b, p', q') = >>=-eq-some (take_ack_ecn a.1 has_ecn) _ q in
    ground
      (arith, take_ack_pairs_extends count r more lo a p, take_ecn_extends has_ecn a.1 more b p')

pub ack_decode-IsLocal : IsLocal ack_decode
unfolding ack_decode
ack_decode-IsLocal t buf more f n e =
    let (x, p, q) = >>=-eq-some (take_ack_prologue buf) _ e in
    let (y, p', q') = >>=-eq-some (take_ack_rest x.3 x.1.lo x.2 (if t == 3 then 1 else 0)) _ q in
    ground (
      arith,
      take_prologue_extends buf more x p,
      take_rest_extends x.3 more x.1.lo x.2 (if t == 3 then 1 else 0) y p',
      offset_extends (t ∷ buf) y.1.3 more,
    )
