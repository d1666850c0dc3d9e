-- ===== src/Recovery/SentPackets/Acknowledge.antt =====
-- What a received ACK does to the table, whatever its ranges are.
use quic_vibe.Common.{
  ℕ, ◌+◌, ◌≡◌, refl, sym, ap, ap₂, ◌∙◌, Bool, false, ◌&&◌, ◌||◌, List, [], ◌∷◌, ◌++◌, arith, ◌==◌,
  not, ltb, if◌then◌else◌, to_bit,
}
use quic_vibe.Common.Word.{◌-ᵤ◌}
use quic_vibe.Recovery.SentPackets.{
  PacketState, is_inflight, Entry, ack_range, ranges_loop, ack_process,
}

-- The slot of a packet in flight whose number `f` accepts is acknowledged and freed.
unfoldable pub ack_if : (ℕ → Bool) → Entry → Entry
ack_if f p =
    if p.used && (is_inflight p.state && f p.pn)
    then record p { state = PacketState.acked; used = false }
    else p

unfoldable pub ack_all : (ℕ → Bool) → List Entry → List Entry
ack_all f [] = []
ack_all f (p ∷ t) = ack_if f p ∷ ack_all f t

-- How many packets in flight have the number `q`, if `f` accepts it.
unfoldable pub outstanding : (ℕ → Bool) → ℕ → List Entry → ℕ
outstanding f q [] = 0
outstanding f q (p ∷ t) =
    to_bit (p.used && (is_inflight p.state && (f p.pn && (p.pn == q)))) + outstanding f q t

unfoldable pub occurrences : ℕ → List ℕ → ℕ
occurrences q [] = 0
occurrences q (x ∷ xs) = to_bit (x == q) + occurrences q xs

-- Whether a number is neither below a range nor above it.
abbrev pub is_between : ℕ → ℕ → ℕ → Bool
is_between q lo hi = not (ltb q lo || ltb hi q)

-- The numbers that an ACK acknowledges, read off its values as RFC 9000 19.3 says.
unfoldable pub covered_below : ℕ → List ℕ → ℕ → Bool
covered_below lo [] q = false
covered_below lo (gap ∷ []) q = false
covered_below lo (gap ∷ (len ∷ rest)) q =
    let hi = lo -ᵤ gap -ᵤ 2 in
    let lo' = hi -ᵤ len in is_between q lo' hi || covered_below lo' rest q

unfoldable pub covered : ℕ → List ℕ → ℕ → Bool
covered ack_largest [] q = false
covered ack_largest (first ∷ rest) q =
    let lo = ack_largest -ᵤ first in is_between q lo ack_largest || covered_below lo rest q

pub occurrences-append :
    (q : ℕ) (xs ys : List ℕ) → occurrences q (xs ++ ys) ≡ occurrences q xs + occurrences q ys
unfolding occurrences
occurrences-append q [] ys = omega arith
occurrences-append q (x ∷ xs) ys = omega (arith, occurrences-append q xs ys)

pub ack_all_same :
    (f g : ℕ → Bool) (t : List Entry) → ((q : ℕ) → f q ≡ g q) → ack_all f t ≡ ack_all g t
unfolding ack_all ack_if
ack_all_same f g [] h = refl
ack_all_same f g (p ∷ t) h = ground (arith, h p.pn, ack_all_same f g t h)

pub outstanding_same :
    (f g : ℕ → Bool) (q : ℕ) (t : List Entry)
    → ((n : ℕ) → f n ≡ g n)
    → outstanding f q t ≡ outstanding g q t
unfolding outstanding
outstanding_same f g q [] h = refl
outstanding_same f g q (p ∷ t) h = ground (arith, h p.pn, outstanding_same f g q t h)

pub none_acked : (t : List Entry) → ack_all (λ q. false) t ≡ t
unfolding ack_all ack_if
none_acked [] = refl
none_acked (p ∷ t) = ground (arith, none_acked t)

pub none_outstanding : (q : ℕ) (t : List Entry) → outstanding (λ q. false) q t ≡ 0
unfolding outstanding
none_outstanding q [] = refl
none_outstanding q (p ∷ t) = ground (arith, none_outstanding q t)

-- A second range acts on what the first left.
pub ack_all_twice :
    (f g : ℕ → Bool) (t : List Entry) → ack_all g (ack_all f t) ≡ ack_all (λ q. f q || g q) t
unfolding ack_all ack_if
ack_all_twice f g [] = refl
ack_all_twice f g (p ∷ t) = ground (arith, ack_all_twice f g t)

pub outstanding_twice :
    (f g : ℕ → Bool) (q : ℕ) (t : List Entry)
    → outstanding f q t + outstanding g q (ack_all f t) ≡ outstanding (λ n. f n || g n) q t
unfolding outstanding ack_all ack_if
outstanding_twice f g q [] = refl
outstanding_twice f g q (p ∷ t) = ground (arith, outstanding_twice f g q t)

pub ack_range_lem :
    (t : List Entry) (lo hi q : ℕ)
    → ((ack_range t lo hi).0 ≡ ack_all (λ n. is_between n lo hi) t)
      × (occurrences q (ack_range t lo hi).1 ≡ outstanding (λ n. is_between n lo hi) q t)
unfolding ack_range ack_all ack_if outstanding occurrences
ack_range_lem [] lo hi q = (refl, refl)
ack_range_lem (p ∷ t) lo hi q = ground (arith, ack_range_lem t lo hi q)

ranges_loop_lem :
    (rest : List ℕ) (t : List Entry) (lo q : ℕ)
    → ((ranges_loop t lo rest).0 ≡ ack_all (covered_below lo rest) t)
      × (occurrences q (ranges_loop t lo rest).1 ≡ outstanding (covered_below lo rest) q t)
unfolding ranges_loop covered_below occurrences
ranges_loop_lem [] t lo q = (sym (none_acked t), sym (none_outstanding q t))
ranges_loop_lem (gap ∷ []) t lo q = (sym (none_acked t), sym (none_outstanding q t))
ranges_loop_lem (gap ∷ (len ∷ rest)) t lo q =
    let hi = lo -ᵤ gap -ᵤ 2 in
    let lo' = hi -ᵤ len in
    let (e, o) = ack_range_lem t lo' hi q in
    let (e', o') = ranges_loop_lem rest (ack_range t lo' hi).0 lo' q in
    (
      e'
          ∙ ap (ack_all (covered_below lo' rest)) e
          ∙ ack_all_twice (λ n. is_between n lo' hi) (covered_below lo' rest) t,
      occurrences-append q (ack_range t lo' hi).1 (ranges_loop (ack_range t lo' hi).0 lo' rest).1
          ∙ ap₂ (λ a b. a + b) o (o' ∙ ap (outstanding (covered_below lo' rest) q) e)
          ∙ outstanding_twice (λ n. is_between n lo' hi) (covered_below lo' rest) q t,
    )

-- The same of the values as they come, where the sums may wrap: an ACK acknowledges and frees exactly the packets in flight whose numbers its ranges cover, leaves
-- every other slot as it is, and reports each of their numbers as often as it was in flight.
pub ack_process-covered :
    (t : List Entry) (ack_largest q : ℕ) (ranges : List ℕ)
    → ((ack_process t ack_largest ranges).0 ≡ ack_all (covered ack_largest ranges) t)
      × (occurrences q (ack_process t ack_largest ranges).1
          ≡ outstanding (covered ack_largest ranges) q t)
unfolding ack_process covered occurrences
ack_process-covered t ack_largest q [] = (sym (none_acked t), sym (none_outstanding q t))
ack_process-covered t ack_largest q (first ∷ rest) =
    let lo = ack_largest -ᵤ first in
    let (e, o) = ack_range_lem t lo ack_largest q in
    let (e', o') = ranges_loop_lem rest (ack_range t lo ack_largest).0 lo q in
    (
      e'
          ∙ ap (ack_all (covered_below lo rest)) e
          ∙ ack_all_twice (λ n. is_between n lo ack_largest) (covered_below lo rest) t,
      occurrences-append q (ack_range t lo ack_largest).1
            (ranges_loop (ack_range t lo ack_largest).0 lo rest).1
          ∙ ap₂ (λ a b. a + b) o (o' ∙ ap (outstanding (covered_below lo rest) q) e)
          ∙ outstanding_twice (λ n. is_between n lo ack_largest) (covered_below lo rest) q t,
    )
