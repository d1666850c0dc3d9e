-- ===== src/Common/Bits.antt =====
-- Laws of `&` and `|` at variables: one binary digit at a time, then masks of any width.
use Prim.Native.Nat.{ℕ, zero, suc, ◌+◌, ◌-◌, ◌*◌, ◌/◌, ◌%◌, ◌^◌, ◌≤◌, ◌<◌, min, max, digits}
use Prim.Native.Nat.{bit_and, bit_or, bit_and-bitwise, bit_or-bitwise}
use mathlib.Core.Path.{◌≡◌, refl, ap}
use native.Mathlib.Nat.{pow-suc, one-le-pow}
use native.Mathlib.Omega.{arith}

-- The recursion that the native operations stand for, with its fuel made explicit: any fuel from the
-- number on gives the same.
module _ (pad : ℕ → ℕ) (digit : ℕ → ℕ → ℕ) where
  fuel_lem : (k l x y : ℕ) → x ≤ min k l → digits pad digit k x y ≡ digits pad digit l x y
  fuel_lem zero zero x y enough = refl
  fuel_lem (suc k) (suc l) zero y enough = refl
  fuel_lem (suc k) (suc l) (suc x) y enough =
      omega (arith, fuel_lem k l (suc x / 2) (y / 2) (omega arith))
  fuel_lem zero (suc l) zero y enough = refl
  fuel_lem (suc k) zero zero y enough = refl
  fuel_lem zero (suc l) (suc x) y enough = absurd (omega arith)
  fuel_lem (suc k) zero (suc x) y enough = absurd (omega arith)

zero-bit_or : (y : ℕ) → bit_or 0 y ≡ y
zero-bit_or y = bit_or-bitwise 0 y

zero-bit_and : (y : ℕ) → bit_and 0 y ≡ 0
zero-bit_and y = bit_and-bitwise 0 y

pub bit_or_halves : (x y : ℕ) → bit_or x y ≡ max (x % 2) (y % 2) + 2 * bit_or (x / 2) (y / 2)
bit_or_halves zero y = omega (arith, zero-bit_or (y / 2), zero-bit_or y)
bit_or_halves (suc x) y =
    let half = suc x / 2 in
    omega (
      arith,
      fuel_lem (λ z. z) max x half half (y / 2) (omega arith),
      bit_or-bitwise half (y / 2),
      bit_or-bitwise (suc x) y,
    )

pub bit_and_halves : (x y : ℕ) → bit_and x y ≡ min (x % 2) (y % 2) + 2 * bit_and (x / 2) (y / 2)
bit_and_halves zero y = omega (arith, zero-bit_and (y / 2), zero-bit_and y)
bit_and_halves (suc x) y =
    let half = suc x / 2 in
    omega (
      arith,
      fuel_lem (λ z. zero) min x half half (y / 2) (omega arith),
      bit_and-bitwise half (y / 2),
      bit_and-bitwise (suc x) y,
    )

-- Induction on a bound of the first operand, since each step halves it.
bit_and-zero_below : (k x : ℕ) → x ≤ k → bit_and x 0 ≡ 0
bit_and-zero_below (suc k) (suc x) below =
    let half = bit_and-zero_below k (suc x / 2) (omega arith) in
    omega (arith, half, bit_and_halves (suc x) 0)
bit_and-zero_below k zero below = zero-bit_and 0
bit_and-zero_below zero (suc x) below = absurd (omega arith)

pub bit_and-zero : (x : ℕ) → bit_and x 0 ≡ 0
bit_and-zero x = bit_and-zero_below x x (omega arith)

bit_or-zero_below : (k x : ℕ) → x ≤ k → bit_or x 0 ≡ x
bit_or-zero_below (suc k) (suc x) below =
    let half = bit_or-zero_below k (suc x / 2) (omega arith) in
    omega (arith, half, bit_or_halves (suc x) 0)
bit_or-zero_below k zero below = zero-bit_or 0
bit_or-zero_below zero (suc x) below = absurd (omega arith)

pub bit_or-zero : (x : ℕ) → bit_or x 0 ≡ x
bit_or-zero x = bit_or-zero_below x x (omega arith)

double_shift : (q k : ℕ) → q * 2 ^ suc k ≡ 2 * (q * 2 ^ k)
double_shift q k = omega (arith, ap (λ (t : ℕ). q * t) (pow-suc 2 k))

-- A field below bit `k` joined to one above it.
pub bit_or_disjoint : (k q r : ℕ) → r < 2 ^ k → bit_or (q * 2 ^ k) r ≡ q * 2 ^ k + r
bit_or_disjoint zero q r h =
    let e : r ≡ 0 = omega arith in rw e (omega (arith, bit_or-zero (q * 2 ^ 0)))
bit_or_disjoint (suc k) q r h = ground (
  arith,
  double_shift q k,
  pow-suc 2 k,
  bit_or_halves (q * 2 ^ suc k) r,
  bit_or_disjoint k q (r / 2) (omega (arith, pow-suc 2 k)),
)

-- A mask of `k` low ones keeps the field below bit `k`.
bit_and_low_field : (k q r : ℕ) → r < 2 ^ k → bit_and (q * 2 ^ k + r) (2 ^ k - 1) ≡ r
bit_and_low_field zero q r h = omega (arith, bit_and-zero (q * 2 ^ 0 + r))
bit_and_low_field (suc k) q r h = ground (
  arith,
  double_shift q k,
  pow-suc 2 k,
  one-le-pow k 2,
  bit_and_halves (q * 2 ^ suc k + r) (2 ^ suc k - 1),
  bit_and_low_field k q (r / 2) (omega (arith, pow-suc 2 k)),
)

pub bit_and_low : (k a : ℕ) → bit_and a (2 ^ k - 1) ≡ a % 2 ^ k
bit_and_low k a = ground (arith, one-le-pow k 2, bit_and_low_field k (a / 2 ^ k) (a % 2 ^ k))

-- A mask with no ones below bit `k` acts on what stands above it.
bit_and_high_field :
    (k q r m : ℕ) → r < 2 ^ k → bit_and (q * 2 ^ k + r) (m * 2 ^ k) ≡ bit_and q m * 2 ^ k
bit_and_high_field zero q r m h =
    let e : r ≡ 0 = omega arith in
    let e₁ : q * 2 ^ 0 + r ≡ q = omega arith in
    let e₂ : m * 2 ^ 0 ≡ m = omega arith in rw (e₁, e₂) (omega arith)
bit_and_high_field (suc k) q r m h = ground (
  arith,
  double_shift q k,
  double_shift m k,
  double_shift (bit_and q m) k,
  pow-suc 2 k,
  bit_and_halves (q * 2 ^ suc k + r) (m * 2 ^ suc k),
  bit_and_high_field k q (r / 2) m (omega (arith, pow-suc 2 k)),
)

pub bit_and_high : (k a m : ℕ) → bit_and a (m * 2 ^ k) ≡ bit_and (a / 2 ^ k) m * 2 ^ k
bit_and_high k a m = ground (arith, one-le-pow k 2, bit_and_high_field k (a / 2 ^ k) (a % 2 ^ k) m)

bit_or_comm_fuel : (n a b : ℕ) → a + b ≤ n → bit_or a b ≡ bit_or b a
bit_or_comm_fuel n zero b h = omega (arith, zero-bit_or b, bit_or-zero b)
bit_or_comm_fuel n (suc a) zero h = omega (arith, zero-bit_or (suc a), bit_or-zero (suc a))
bit_or_comm_fuel zero (suc a) (suc b) h = absurd (omega arith)
bit_or_comm_fuel (suc n) (suc a) (suc b) h = omega (
  arith,
  bit_or_halves (suc a) (suc b),
  bit_or_halves (suc b) (suc a),
  bit_or_comm_fuel n (suc a / 2) (suc b / 2) (omega arith),
)

pub bit_or_comm : (a b : ℕ) → bit_or a b ≡ bit_or b a
bit_or_comm a b = bit_or_comm_fuel (a + b) a b (omega arith)
