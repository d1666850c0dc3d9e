-- ===== src/Frame/Ack.antt =====
-- The ACK frame (src/transport/packet/frame/frame/ack.c): the acknowledged numbers as ranges from
-- the largest down, each after the first as the gap to the range before and a length. `n_ranges` is
-- the length of the list of ranges. The C loops over the ranges go on after an error and return 0 at
-- the end; the chains here stop at the error with `none`.
pub mod Decoded
pub mod Written
pub mod Local
pub mod RoundTrip
use quic_vibe.Common.{
  ℕ, zero, suc, ◌+◌, ◌-◌, ◌*◌, ◌/◌, ◌%◌, ◌^◌, ◌≤◌, ◌<◌, min, max, ◌≡◌, refl, sym, ap, ap₂, ◌∙◌, ◌≢◌,
  ◌↔◌, ◌⊎◌, inl, inr, Bool, true, false, not, ◌&&◌, ◌||◌, Option, none, some, List, [], ◌∷◌, ◌++◌,
  map, append-nil, append_assoc, arith, ltb, leb, ◌==◌, if◌then◌else◌, ltb→lt, lt→ltb, leb→le,
  le→leb, ==→eq, Bool-cases, Option-cases, to_bit, length, get_elem?, get_or, set, replicate, All,
  length-append, length-set, length-take, length-drop, length-replicate, get_or-set_self,
  get_or-set_ne, take_append, drop_append, take-append-drop, All-append, ◌>>=◌, ◌>>◌, guard,
  >>=-eq-some,
}
use quic_vibe.Common.Word.{IsByte, IsU64, u8, u32, u64, ◌+ᵤ◌, ◌-ᵤ◌, ◌*ᵤ◌}
use quic_vibe.Common.{drop}
use quic_vibe.Varint
use quic_vibe.Frame.Wire.{after_type, offset}

-- quic_ack_range
pub record AckRange : Type 0 where
  pub hi : ℕ
  pub lo : ℕ

-- quic_ack_frame; `has_ecn` is 0 or 1.
pub record AckFrame : Type 0 where
  pub ack_delay : ℕ
  pub ranges : List AckRange
  pub has_ecn : ℕ
  pub ect0 : ℕ
  pub ect1 : ℕ
  pub ce : ℕ

abbrev pub frame_ack : ℕ
frame_ack = 0x02

abbrev pub frame_ack_ecn : ℕ
frame_ack_ecn = 0x03

abbrev pub ack_max_ranges : ℕ
ack_max_ranges = 32

-- `f->ranges[0]`; the encoder has checked that it is there.
abbrev pub first_range : AckFrame → AckRange
first_range f = get_or f.ranges 0 (record { hi = 0; lo = 0 })

unfoldable pub put_pair : ℕ → List ℕ → AckRange → AckRange → Option (List ℕ)
put_pair cap w prev cur = do
  w' ← Varint.put cap w (prev.lo -ᵤ cur.hi -ᵤ 2)
  Varint.put cap w' (cur.hi -ᵤ cur.lo)

unfoldable pub ack_type : AckFrame → ℕ
ack_type f = if f.has_ecn == 0 then frame_ack else frame_ack_ecn

unfoldable pub put_ack_meta : ℕ → AckFrame → Option (List ℕ)
put_ack_meta cap f = do
  w ← Varint.put cap [] (ack_type f)
  w' ← Varint.put cap w (first_range f).hi
  Varint.put cap w' f.ack_delay

unfoldable pub put_three : ℕ → List ℕ → ℕ → ℕ → ℕ → Option (List ℕ)
put_three cap w a b c = do w' ← Varint.put cap w a; w'' ← Varint.put cap w' b; Varint.put cap w'' c

unfoldable pub put_ack_ecn : ℕ → List ℕ → AckFrame → Option (List ℕ)
put_ack_ecn cap w f = if f.has_ecn == 0 then some w else put_three cap w f.ect0 f.ect1 f.ce

unfoldable pub put_ack_head : ℕ → AckFrame → Option (List ℕ)
put_ack_head cap f = do
  w ← put_ack_meta cap f
  w' ← Varint.put cap w (length f.ranges -ᵤ 1)
  Varint.put cap w' ((first_range f).hi -ᵤ (first_range f).lo)

-- The ranges behind `prev`.
unfoldable pub put_pairs : ℕ → List ℕ → AckRange → List AckRange → Option (List ℕ)
put_pairs cap w prev [] = some w
put_pairs cap w prev (cur ∷ rs) = do w' ← put_pair cap w prev cur; put_pairs cap w' cur rs

unfoldable pub put_ack_pairs : ℕ → List ℕ → AckFrame → Option (List ℕ)
put_ack_pairs cap w f = put_pairs cap w (first_range f) (drop 1 f.ranges)

unfoldable pub ranges_ok : ℕ → Bool
ranges_ok n = not (n == 0) && leb n ack_max_ranges

unfoldable pub put_ack_pairs_ecn : ℕ → List ℕ → AckFrame → Option (List ℕ)
put_ack_pairs_ecn cap w f = do w' ← put_ack_pairs cap w f; put_ack_ecn cap w' f

unfoldable pub put_ack_body : ℕ → AckFrame → Option (List ℕ)
put_ack_body cap f = do w ← put_ack_head cap f; put_ack_pairs_ecn cap w f

unfoldable pub ack_encode : ℕ → AckFrame → Option (List ℕ)
ack_encode cap f = if ranges_ok (length f.ranges) then put_ack_body cap f else none

-- The largest number, the delay, the range count and the cursor behind them.
unfoldable pub take_ack_meta : List ℕ → Option (ℕ × ℕ × ℕ × List ℕ)
take_ack_meta r = do
  (largest, r') ← Varint.take r
  (delay, r'') ← Varint.take r'
  (count, r''') ← Varint.take r''
  some (largest, delay, count, r''')

unfoldable pub take_first : List ℕ → ℕ → Option (ℕ × List ℕ)
take_first r largest = do (first, r') ← Varint.take r; guard (leb first largest); some (first, r')

-- The delay, the first range, the range count and the cursor behind them.
unfoldable pub take_ack_head : List ℕ → Option (ℕ × AckRange × ℕ × List ℕ)
take_ack_head r = do
  (largest, delay, count, r') ← take_ack_meta r
  (first, r'') ← take_first r' largest
  some (delay, record { hi = largest; lo = largest -ᵤ first }, count, r'')

unfoldable pub pair_fits : ℕ → ℕ → ℕ → Bool
pair_fits prev_lo gap len = leb (gap +ᵤ 2) prev_lo && leb len (prev_lo -ᵤ gap -ᵤ 2)

unfoldable pub take_two : List ℕ → Option (ℕ × ℕ × List ℕ)
take_two r = do (a, r') ← Varint.take r; (b, r'') ← Varint.take r'; some (a, b, r'')

-- The range behind the one that ends at `prev_lo`.
unfoldable pub take_pair : List ℕ → ℕ → Option (AckRange × List ℕ)
take_pair r prev_lo = do
  (gap, len, r') ← take_two r
  guard (pair_fits prev_lo gap len)
  some (record { hi = prev_lo -ᵤ gap -ᵤ 2; lo = prev_lo -ᵤ gap -ᵤ 2 -ᵤ len }, r')

unfoldable pub take_ack_pairs : List ℕ → ℕ → ℕ → Option (List AckRange × List ℕ)
take_ack_pairs r prev_lo zero = some ([], r)
take_ack_pairs r prev_lo (suc count) = do
  (cur, r') ← take_pair r prev_lo
  (rs, r'') ← take_ack_pairs r' cur.lo count
  some (cur ∷ rs, r'')

unfoldable pub count_fits : ℕ → Bool
count_fits count = leb (count +ᵤ 1) ack_max_ranges

unfoldable pub take_ack_prologue : List ℕ → Option (ℕ × AckRange × ℕ × List ℕ)
take_ack_prologue r = do h ← take_ack_head r; guard (count_fits h.2); some h

-- The three counts and the cursor behind them.
unfoldable pub take_ack_ecn : List ℕ → ℕ → Option (ℕ × ℕ × ℕ × List ℕ)
take_ack_ecn r has_ecn =
    if has_ecn == 0
    then some (0, 0, 0, r)
    else do (a, b, r') ← take_two r; (c, r'') ← Varint.take r'; some (a, b, c, r'')

-- The ranges after the first, the three counts and the cursor behind them.
unfoldable pub take_ack_rest : List ℕ → ℕ → ℕ → ℕ → Option (List AckRange × (ℕ × ℕ × ℕ × List ℕ))
take_ack_rest r prev_lo count has_ecn = do
  (rs, r') ← take_ack_pairs r prev_lo count
  ecn ← take_ack_ecn r' has_ecn
  some (rs, ecn)

unfoldable pub ack_decode : List ℕ → Option (AckFrame × ℕ)
ack_decode buf =
    let has_ecn = if get_or buf 0 0 == frame_ack_ecn then 1 else 0 in
    do
      (delay, first, count, r) ← take_ack_prologue (after_type buf)
      (rs, (a, b, c, r')) ← take_ack_rest r first.lo count has_ecn
      some (
        record {
          ack_delay = delay;
          ranges = first ∷ rs;
          has_ecn = has_ecn;
          ect0 = a;
          ect1 = b;
          ce = c;
        },
        offset buf r',
      )
