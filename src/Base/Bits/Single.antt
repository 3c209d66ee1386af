-- ===== src/Base/Bits/Single.antt =====
-- `w | 1 << k` sets bit `k`, `w & ~(1 << k)` clears it, `(w >> k) & 1` reads it; nothing else
-- changes.
use Prim.Native.Nat.{ℕ, zero, suc, ◌-◌, ◌/◌, ◌^◌, ◌≤◌, ◌<◌, bit_and, bit_or, bit_and-bitwise}
use native.Mathlib.Nat.{pow-suc, pow-succ', one-le-pow, div-div-eq-div-mul}
use mathlib.Core.Path.{◌≡◌, refl, sym, ◌∙◌}
use mathlib.Core.Bool.{true, false, not, ◌&&◌, ◌||◌}
use native.Mathlib.Omega.{arith}
use mathlib.Core.Logic.{inl, inr}
use lobook.Base.Tests.{◌==◌, Bool-cases, ltb, ltb→lt, ltb→le}
use lobook.Base.Bits.{test_bit, bit_not}
use lobook.Base.Bits.Step.{bit_or_digit, bit_and_digit}

-- Values below `2 ^ n` stay below it.
pub bit_or-lt : (n a b : ℕ) → a < 2 ^ n → b < 2 ^ n → bit_or a b < 2 ^ n
bit_or-lt zero a b ha hb =
    let a0 : a ≡ 0 = omega arith in let b0 : b ≡ 0 = omega arith in rw (a0, b0) (omega arith)
bit_or-lt (suc n) a b ha hb = omega (
  arith,
  bit_or_digit a b,
  pow-suc 2 n,
  bit_or-lt n (a / 2) (b / 2) (omega (arith, pow-suc 2 n)) (omega (arith, pow-suc 2 n)),
)

pub zero-bit_and : (b : ℕ) → bit_and 0 b ≡ 0
zero-bit_and b = bit_and-bitwise 0 b

pub bit_and-lt : (n a b : ℕ) → a < 2 ^ n → bit_and a b < 2 ^ n
bit_and-lt zero a b ha = let a0 : a ≡ 0 = omega arith in rw a0 (omega (arith, zero-bit_and b))
bit_and-lt (suc n) a b ha = omega (
  arith,
  bit_and_digit a b,
  pow-suc 2 n,
  bit_and-lt n (a / 2) (b / 2) (omega (arith, pow-suc 2 n)),
)

pub test_bit-zero : (j : ℕ) → test_bit 0 j ≡ false
unfolding test_bit
test_bit-zero zero = refl
test_bit-zero (suc j) = test_bit-zero j

pub test_bit-bit_or : (a b j : ℕ) → test_bit (bit_or a b) j ≡ (test_bit a j || test_bit b j)
unfolding test_bit
test_bit-bit_or a b zero = ground (arith, bit_or_digit a b)
test_bit-bit_or a b (suc j) =
    let e : bit_or a b / 2 ≡ bit_or (a / 2) (b / 2) = omega (arith, bit_or_digit a b) in
    rw e (test_bit-bit_or (a / 2) (b / 2) j)

pub bit_and_zero : (a : ℕ) → bit_and a 0 ≡ 0
bit_and_zero a = omega (arith, all_zero a a (omega arith))
  where
    all_zero : (n x : ℕ) → x ≤ n → bit_and x 0 ≡ 0
    all_zero n zero h = refl
    all_zero zero (suc x) h = absurd (omega arith)
    all_zero (suc n) (suc x) h =
        omega (arith, bit_and_digit (suc x) 0, all_zero n (suc x / 2) (omega arith))

pub test_bit-bit_and : (a b j : ℕ) → test_bit (bit_and a b) j ≡ (test_bit a j && test_bit b j)
unfolding test_bit
test_bit-bit_and a b zero = ground (arith, bit_and_digit a b)
test_bit-bit_and a b (suc j) =
    let e : bit_and a b / 2 ≡ bit_and (a / 2) (b / 2) = omega (arith, bit_and_digit a b) in
    rw e (test_bit-bit_and (a / 2) (b / 2) j)

pub test_bit-two_pow : (k j : ℕ) → test_bit (2 ^ k) j ≡ (k == j)
unfolding test_bit
test_bit-two_pow zero zero = refl
test_bit-two_pow zero (suc j) = ground (arith, test_bit-zero j)
test_bit-two_pow (suc k) zero = ground (arith, pow-suc 2 k)
test_bit-two_pow (suc k) (suc j) =
    let e : 2 ^ suc k / 2 ≡ 2 ^ k = omega (arith, pow-suc 2 k) in
    rw e (test_bit-two_pow k j ∙ ground arith)

pub two_pow-lt : (k n : ℕ) → k < n → 2 ^ k < 2 ^ n
two_pow-lt k zero h = absurd (omega arith)
two_pow-lt zero (suc n) h = omega (arith, pow-suc 2 n, one-le-pow n 2 (omega arith))
two_pow-lt (suc k) (suc n) h = omega (arith, pow-suc 2 n, pow-suc 2 k, two_pow-lt k n (omega arith))

test_bit-ones : (n j : ℕ) → j < n → test_bit (2 ^ n - 1) j ≡ true
unfolding test_bit
test_bit-ones zero j h = absurd (omega arith)
test_bit-ones (suc n) zero h = ground (arith, pow-suc 2 n, one-le-pow n 2 (omega arith))
test_bit-ones (suc n) (suc j) h =
    let e : (2 ^ suc n - 1) / 2 ≡ 2 ^ n - 1 =
      omega (arith, pow-suc 2 n, one-le-pow n 2 (omega arith)) in
    rw e (test_bit-ones n j (omega arith))

test_bit-complement : (n k j : ℕ) → k < n → j < n → test_bit (2 ^ n - 1 - 2 ^ k) j ≡ not (k == j)
unfolding test_bit
test_bit-complement zero k j hk hj = absurd (omega arith)
test_bit-complement (suc n) zero zero hk hj =
    ground (arith, pow-suc 2 n, one-le-pow n 2 (omega arith))
test_bit-complement (suc n) zero (suc j) hk hj =
    let e : (2 ^ suc n - 1 - 2 ^ 0) / 2 ≡ 2 ^ n - 1 =
      omega (arith, pow-suc 2 n, one-le-pow n 2 (omega arith)) in
    rw e (test_bit-ones n j (omega arith) ∙ ground arith)
test_bit-complement (suc n) (suc k) zero hk hj =
    ground (arith, pow-suc 2 n, pow-suc 2 k, two_pow-lt k n (omega arith))
test_bit-complement (suc n) (suc k) (suc j) hk hj =
    let e : (2 ^ suc n - 1 - 2 ^ suc k) / 2 ≡ 2 ^ n - 1 - 2 ^ k =
      omega (arith, pow-suc 2 n, pow-suc 2 k, two_pow-lt k n (omega arith)) in
    rw e (test_bit-complement n k j (omega arith) (omega arith) ∙ ground arith)

pub test_bit-high : (n w j : ℕ) → w < 2 ^ n → n ≤ j → test_bit w j ≡ false
unfolding test_bit
test_bit-high zero w j hw hj = let e : w ≡ 0 = omega arith in rw e (test_bit-zero j)
test_bit-high (suc n) w zero hw hj = absurd (omega arith)
test_bit-high (suc n) w (suc j) hw hj =
    test_bit-high n (w / 2) j (omega (arith, pow-suc 2 n)) (omega arith)

-- The three uses that the code makes of a single bit.
module _ (w k j : ℕ) where
  pub test_bit-set : test_bit (bit_or w (2 ^ k)) j ≡ (test_bit w j || k == j)
  test_bit-set = rw test_bit-bit_or (rw test_bit-two_pow)

  pub test_bit-clear :
      w < 2 ^ 64
      → k < 64
      → test_bit (bit_and w (bit_not (2 ^ k))) j ≡ (test_bit w j && not (k == j))
  unfolding bit_not
  test_bit-clear hw hk = elim (Bool-cases (ltb j 64)) [
    | inl lt ↦ rw test_bit-bit_and (rw (test_bit-complement 64 k j hk (ltb→lt j 64 lt)))
    | inr ge ↦ rw (test_bit-bit_and, test_bit-high 64 w j hw (ltb→le j 64 ge))
  ]

-- `(w >> j) & 1`, converted to `bool`.
pub bit_and_shift : (w j : ℕ) → not (bit_and (w / 2 ^ j) 1 == 0) ≡ test_bit w j
unfolding test_bit
bit_and_shift w zero = ground (arith, bit_and_digit (w / 2 ^ 0) 1, bit_and_zero (w / 2 ^ 0 / 2))
bit_and_shift w (suc j) =
    let e : w / 2 ^ suc j ≡ w / 2 / 2 ^ j =
      rw (pow-succ' 2 j) (sym (div-div-eq-div-mul w 2 (2 ^ j))) in
    rw e (bit_and_shift (w / 2) j)
