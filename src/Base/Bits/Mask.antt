-- ===== src/Base/Bits/Mask.antt =====
-- `idx & (N - 1)` for a power of two.
use lobook.Base.{
  ℕ, zero, suc, ◌+◌, ◌-◌, ◌*◌, ◌/◌, ◌%◌, ◌^◌, ◌<◌, ◌≡◌, sym, ap, ◌∙◌, min, bit_and, inl, inr,
  Bool-cases, ltb, ltb→lt, ltb→le, arith,
}
use native.Mathlib.Nat.{
  mod-add-div, add-mul-mod_self_left, mod-eq_of_lt, mod-lt, mod-add-mod, mod-eq-sub-mod,
  add-mod_right, mul_assoc,
}
use lobook.Base.Bits.Step.{bit_and_digit}
use lobook.Base.Bits.Single.{bit_and_zero}

two_pow-pos : (k : ℕ) → 0 < 2 ^ k
two_pow-pos zero = omega arith
two_pow-pos (suc k) = omega (arith, two_pow-pos k)

double_mod : (n i : ℕ) → 0 < n → i / 2 % n * 2 + i % 2 ≡ i % (2 * n)
double_mod n i pos =
    let r = i / 2 % n in
    let low : r * 2 + i % 2 < 2 * n = omega (arith, mod-lt (i / 2) pos) in
    let whole : i ≡ (r * 2 + i % 2) + 2 * n * (i / 2 / n) =
      omega (arith, mod-add-div (i / 2) n, mul_assoc 2 n (i / 2 / n)) in
    sym (mod-eq_of_lt low)
    ∙ sym (add-mul-mod_self_left _ (2 * n) (i / 2 / n))
    ∙ ap (λ x. x % (2 * n)) (sym whole)

pub bit_and-mask : (k i : ℕ) → bit_and i (2 ^ k - 1) ≡ i % 2 ^ k
bit_and-mask zero i = bit_and_zero i ∙ omega arith
bit_and-mask (suc k) i =
    let half : (2 ^ suc k - 1) / 2 ≡ 2 ^ k - 1 = omega (arith, two_pow-pos k) in
    let odd : (2 ^ suc k - 1) % 2 ≡ 1 = omega (arith, two_pow-pos k) in
    let later : bit_and (i / 2) (2 ^ k - 1) * 2 + min (i % 2) 1 ≡ i / 2 % 2 ^ k * 2 + i % 2 =
      omega (arith, bit_and-mask k (i / 2)) in
    let double : 2 * 2 ^ k ≡ 2 ^ suc k = omega arith in
    bit_and_digit i (2 ^ suc k - 1)
    ∙ ap (λ x. bit_and (i / 2) x * 2 + min (i % 2) ((2 ^ suc k - 1) % 2)) half
    ∙ ap (λ x. bit_and (i / 2) (2 ^ k - 1) * 2 + min (i % 2) x) odd
    ∙ later
    ∙ double_mod (2 ^ k) i (two_pow-pos k)
    ∙ ap (λ x. i % x) double

-- Two indices less than a ring apart have the same slot only where they are the same.
pub mod-inj : (n i d : ℕ) → d < n → (i + d) % n ≡ i % n → d ≡ 0
mod-inj n i d lt e = elim (Bool-cases (ltb (i % n + d) n)) [
  | inl small ↦ omega (arith, mod-eq_of_lt (ltb→lt (i % n + d) n small), mod-add-mod i n d, e)
  | inr big ↦
      let ge = ltb→le (i % n + d) n big in
      let pos : 0 < n = omega arith in
      let r : i % n < n = mod-lt i pos in
      let lt' : i % n + d - n < n = omega arith in
      omega (arith, mod-eq-sub-mod ge, mod-eq_of_lt lt', mod-add-mod i n d, e)
]

pub add-mod_self : (n h : ℕ) → h < n → (h + n) % n ≡ h
add-mod_self n h lt = add-mod_right h n ∙ mod-eq_of_lt lt
