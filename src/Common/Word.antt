-- ===== src/Common/Word.antt =====
-- Machine integers: `u8`, `u32`, `u64` and `usz` values are native numbers, and every operation
-- that can leave the range is reduced. `usz` is 64 bits wide (the program runs on x86_64 only).
use Prim.Native.Nat.{ℕ, ◌+◌, ◌-◌, ◌*◌, ◌%◌, ◌^◌, ◌<◌}

abbrev pub IsByte : ℕ → Type 0
IsByte b = b < 256

abbrev pub IsU64 : ℕ → Type 0
IsU64 n = n < 2 ^ 64

abbrev pub u8 : ℕ → ℕ
u8 n = n % 256

abbrev pub u32 : ℕ → ℕ
u32 n = n % 2 ^ 32

abbrev pub u64 : ℕ → ℕ
u64 n = n % 2 ^ 64

infixl 65 ◌+ᵤ◌ ◌-ᵤ◌
infixl 70 ◌*ᵤ◌
-- Unsigned 64-bit arithmetic of C, which wraps.
abbrev pub ◌+ᵤ◌ : ℕ → ℕ → ℕ
a +ᵤ b = (a + b) % 2 ^ 64

abbrev pub ◌-ᵤ◌ : ℕ → ℕ → ℕ
a -ᵤ b = (a + 2 ^ 64 - b) % 2 ^ 64

abbrev pub ◌*ᵤ◌ : ℕ → ℕ → ℕ
a *ᵤ b = a * b % 2 ^ 64
