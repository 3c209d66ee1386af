-- ===== src/Base/Bits/Scan.antt =====
-- What the builtins find at a word that is not zero.
use Prim.Native.Nat.{ℕ, zero, suc, ◌+◌, ◌-◌, ◌/◌, ◌^◌, ◌<◌}
use native.Mathlib.Nat.{pow-suc}
use mathlib.Core.Path.{◌≡◌, sym, ◌∙◌}
use mathlib.Core.Logic.{◌≢◌, inl, inr}
use mathlib.Core.Bool.{true, false, false≢true}
use native.Mathlib.Omega.{arith}
use lobook.Base.Tests.{◌==◌, Bool-cases, ==→eq, ==→ne, ne→==}
use lobook.Base.Outcome.{Returns}
use lobook.Base.Bits.{test_bit, trailing_zeros, leading_zeros, ctzll, clzll}

-- `i` is the lowest set bit of `w`, a word of `n` bits.
pub record IsLowest (n w i : ℕ) : Type 0 where
  pub in_word : i < n
  pub is_set : test_bit w i ≡ true
  pub below : (j : ℕ) → j < i → test_bit w j ≡ false

pub record IsHighest (n w i : ℕ) : Type 0 where
  pub in_word : i < n
  pub is_set : test_bit w i ≡ true
  pub above : (j : ℕ) → i < j → j < n → test_bit w j ≡ false

below_suc :
    (w t : ℕ)
    → test_bit w 0 ≡ false
    → ((j : ℕ) → j < t → test_bit (w / 2) j ≡ false)
    → (j : ℕ) → j < suc t
    → test_bit w j ≡ false
unfolding test_bit
below_suc w t clear h zero lt = clear
below_suc w t clear h (suc j) lt = h j (omega arith)

IsLowest-suc :
    (n w t : ℕ) → test_bit w 0 ≡ false → IsLowest n (w / 2) t → IsLowest (suc n) w (suc t)
IsLowest-suc n w t clear low = record {
  in_word = omega arith;
  is_set = unfold test_bit in low.is_set;
  below = below_suc w t clear low.below;
}

half-ne_zero : (w : ℕ) → w ≢ 0 → test_bit w 0 ≡ false → w / 2 ≢ 0
unfolding test_bit
half-ne_zero w ne clear = ground arith

trailing_zeros-IsLowest : (n w : ℕ) → w < 2 ^ n → w ≢ 0 → IsLowest n w (trailing_zeros n w)
unfolding trailing_zeros
trailing_zeros-IsLowest zero w lt ne = absurd (ne (omega arith))
trailing_zeros-IsLowest (suc n) w lt ne = elim (Bool-cases (test_bit w 0)) [
  | inl low ↦
      rw low (record { in_word = omega arith; is_set = low; below = λ j h. absurd (omega arith) })
  | inr high ↦ rw high (
      IsLowest-suc n w (trailing_zeros n (w / 2)) high
        (trailing_zeros-IsLowest n (w / 2) (omega (arith, pow-suc 2 n)) (half-ne_zero w ne high)))
]

lt_of_top_clear : (n w : ℕ) → w < 2 ^ suc n → test_bit w n ≡ false → w < 2 ^ n
unfolding test_bit
lt_of_top_clear zero w lt clear = ground arith
lt_of_top_clear (suc n) w lt clear = omega (
  arith,
  pow-suc 2 n,
  pow-suc 2 (suc n),
  lt_of_top_clear n (w / 2) (omega (arith, pow-suc 2 (suc n))) clear,
)

IsHighest-suc : (n w i : ℕ) → test_bit w n ≡ false → IsHighest n w i → IsHighest (suc n) w i
IsHighest-suc n w i clear high = record {
  in_word = omega (arith, high.in_word);
  is_set = high.is_set;
  above = λ j p q. elim (Bool-cases (j == n)) [
    | inl last ↦ rw (==→eq j n last) clear
    | inr inner ↦ high.above j p (ground arith)
  ];
}

leading_zeros-IsHighest :
    (n w : ℕ) → w < 2 ^ n → w ≢ 0 → (i : ℕ) × (i + suc (leading_zeros n w) ≡ n) × IsHighest n w i
unfolding leading_zeros
leading_zeros-IsHighest zero w lt ne = absurd (ne (omega arith))
leading_zeros-IsHighest (suc n) w lt ne = elim (Bool-cases (test_bit w n)) [
  | inl top ↦ rw top (
    n,
    omega arith,
    record { in_word = omega arith; is_set = top; above = λ j p q. absurd (omega arith) },
  )
  | inr clear ↦
      let (i, e, high) = leading_zeros-IsHighest n w (lt_of_top_clear n w lt clear) ne in
      rw clear (i, omega (arith, e), IsHighest-suc n w i clear high)
]

module _ (w : ℕ) (lt : w < 2 ^ 64) (ne : w ≢ 0) where
  -- `__builtin_ctzll` gives the lowest set bit of a word that is not zero.
  pub ctzll-IsLowest : Returns (ctzll w) (IsLowest 64 w)
  unfolding ctzll
  ctzll-IsLowest = (trailing_zeros 64 w, rw (ne→== w 0 ne), trailing_zeros-IsLowest 64 w lt ne)

  -- 63 less `__builtin_clzll` is the highest set bit.
  pub clzll-IsHighest : Returns (clzll w) (λ z. (z < 64) × IsHighest 64 w (63 - z))
  unfolding clzll
  clzll-IsHighest =
      let (i, e, high) = leading_zeros-IsHighest 64 w lt ne in
      let place : 63 - leading_zeros 64 w ≡ i = omega (arith, e) in
      (leading_zeros 64 w, rw (ne→== w 0 ne), (omega (arith, e), rw place high))

-- A word with no bit set is zero.
pub eq-zero : (w : ℕ) → w < 2 ^ 64 → ((j : ℕ) → j < 64 → test_bit w j ≡ false) → w ≡ 0
eq-zero w lt clear = elim (Bool-cases (w == 0)) [
  | inl e ↦ ==→eq w 0 e
  | inr ne ↦
      let low = trailing_zeros-IsLowest 64 w lt (==→ne w 0 ne) in
      absurd (false≢true (sym (clear _ low.in_word) ∙ low.is_set))
]
