-- ===== src/Stream/Ids.antt =====
-- Stream identifiers (src/transport/stream/data/stream/stream_id.c, stream_limit.c, stream_role.c).
-- A C truth value is a Boolean.
use Prim.Native.Nat.{bit_and, bit_or}
use quic_vibe.Common.{
  ℕ, ◌+◌, ◌-◌, ◌*◌, ◌/◌, ◌%◌, ◌^◌, ◌≤◌, ◌<◌, ◌≡◌, refl, ◌↔◌, Bool, true, false, not, ◌||◌, Option,
  none, some, arith, leb, ◌==◌, if◌then◌else◌, to_bit,
}
use quic_vibe.Common.Word.{IsU64, u64}
use quic_vibe.Common.Bits.{bit_and_low, bit_and_high, bit_or_disjoint}

abbrev pub initiator_bit : ℕ
initiator_bit = 0x1

abbrev pub dir_bit : ℕ
dir_bit = 0x2

unfoldable pub is_client_initiated : ℕ → Bool
is_client_initiated id = bit_and id initiator_bit == 0

unfoldable pub is_uni : ℕ → Bool
is_uni id = not (bit_and id dir_bit == 0)

-- `(index << 2) | low`
unfoldable pub stream_id : Bool → Bool → ℕ → ℕ
stream_id is_server is_uni index =
    let low = bit_or (if is_server then initiator_bit else 0) (if is_uni then dir_bit else 0) in
    bit_or (u64 (index * 4)) low

abbrev pub max_streams_limit : ℕ
max_streams_limit = 2 ^ 60

unfoldable pub max_streams_ok : ℕ → Bool
max_streams_ok max_streams = leb max_streams max_streams_limit

unfoldable pub max_id : Bool → Bool → ℕ → Option ℕ
unfolding max_streams_ok
max_id is_server is_uni max_streams =
    if max_streams == 0
    then none
    else if not (max_streams_ok max_streams)
    then none
    else some (stream_id is_server is_uni (max_streams - 1))

-- `==` on two truth values
abbrev pub same : Bool → Bool → Bool
same true b = b
same false b = not b

unfoldable pub am_initiator : Bool → ℕ → Bool
am_initiator am_client id = same am_client (is_client_initiated id)

unfoldable pub can_send : Bool → ℕ → Bool
unfolding am_initiator
can_send am_client id = if not (is_uni id) then true else am_initiator am_client id

unfoldable pub can_receive : Bool → ℕ → Bool
unfolding am_initiator
can_receive am_client id = if not (is_uni id) then true else not (am_initiator am_client id)

low_value :
    (is_server uni : Bool)
    → let low = bit_or (if is_server then initiator_bit else 0) (if uni then dir_bit else 0) in
      (low ≡ 2 * to_bit uni + to_bit is_server) × (low < 4)
low_value true true = (refl, omega arith)
low_value true false = (refl, omega arith)
low_value false true = (refl, omega arith)
low_value false false = (refl, omega arith)

id_value :
    (is_server uni : Bool) (index : ℕ)
    → index < 2 ^ 62
    → stream_id is_server uni index ≡ 4 * index + 2 * to_bit uni + to_bit is_server
unfolding stream_id
id_value is_server uni index h =
    let low = bit_or (if is_server then initiator_bit else 0) (if uni then dir_bit else 0) in
    let e : u64 (index * 4) ≡ index * 2 ^ 2 = omega arith in
    let (v, lt) = low_value is_server uni in rw e (omega (arith, bit_or_disjoint 2 index low lt, v))

bit_one : (a : ℕ) → bit_and a dir_bit ≡ a / 2 % 2 * 2
bit_one a = omega (arith, bit_and_high 1 a 1, bit_and_low 1 (a / 2))

-- The fields of an identifier are those that it was made of.
id_fields :
    (is_server uni : Bool) (index : ℕ)
    → index < 2 ^ 62
    → let id = stream_id is_server uni index in
      (is_client_initiated id ≡ not is_server) × (is_uni id ≡ uni) × (id / 4 ≡ index) × IsU64 id
unfolding is_client_initiated is_uni
id_fields is_server uni index h =
    let id = stream_id is_server uni index in
    ground (arith, id_value is_server uni index h, bit_one id, bit_and_low 1 id)

-- On every identifier, each side may send exactly when the other may receive, and somebody may send.
pub roles_agree :
    (id : ℕ) (am_client : Bool)
    → (can_send am_client id ≡ can_receive (not am_client) id)
      × ((can_send true id || can_send false id) ≡ true)
unfolding can_send can_receive
roles_agree id am_client = ground arith

-- For a legal stream count, the greatest identifier that it allows is that of the last of so many
-- streams: each stream below the count is at or under it, and each stream from the count on is over it.
pub max_id_greatest :
    (is_server uni : Bool) (count index : ℕ)
    → 0 < count
    → count ≤ max_streams_limit
    → index < 2 ^ 62
    → (top : ℕ) × (max_id is_server uni count ≡ some top)
      × ((stream_id is_server uni index ≤ top) ↔ (index < count))
unfolding max_id
max_id_greatest is_server uni count index pos legal small = (
  stream_id is_server uni (count - 1),
  ground arith,
  (
    (λ p. omega (arith, at index small, at (count - 1) (omega arith))),
    (λ p. omega (arith, at index small, at (count - 1) (omega arith))),
  ),
)
  where
    at :
        (i : ℕ) → i < 2 ^ 62 → stream_id is_server uni i ≡ 4 * i + 2 * to_bit uni + to_bit is_server
    at i h = id_value is_server uni i h
