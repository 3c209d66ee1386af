-- ===== src/Base/Bits.antt =====
-- Bits of a machine word: reading one, and the builtins that find the lowest and the highest set
-- bit of an `unsigned long long`.
mod Step
pub mod Single
pub mod Mask
pub mod Scan
use Prim.Native.Nat.{ℕ, zero, suc, ◌-◌, ◌/◌, ◌%◌, ◌^◌}
use mathlib.Core.Bool.{Bool}
use lobook.Base.Tests.{◌==◌, if◌then◌else◌}
use lobook.Base.Outcome.{Run, ok, fault}

-- Bit `j` of the number `w`.
unfoldable pub test_bit : ℕ → ℕ → Bool
test_bit w zero = w % 2 == 1
test_bit w (suc j) = test_bit (w / 2) j

-- `~m` on `uint64_t`.
unfoldable pub bit_not : ℕ → ℕ
bit_not m = 2 ^ 64 - 1 - m

-- The zeros below the lowest set bit, in a word of so many bits.
unfoldable pub trailing_zeros : ℕ → ℕ → ℕ
trailing_zeros zero w = 0
trailing_zeros (suc n) w = if test_bit w 0 then 0 else suc (trailing_zeros n (w / 2))

-- The zeros above the highest set bit, in a word of so many bits.
unfoldable pub leading_zeros : ℕ → ℕ → ℕ
leading_zeros zero w = 0
leading_zeros (suc n) w = if test_bit w n then 0 else suc (leading_zeros n w)

-- The builtins are undefined at zero.
unfoldable pub ctzll : ℕ → Run ℕ
ctzll w = if w == 0 then fault else ok (trailing_zeros 64 w)

unfoldable pub clzll : ℕ → Run ℕ
clzll w = if w == 0 then fault else ok (leading_zeros 64 w)
