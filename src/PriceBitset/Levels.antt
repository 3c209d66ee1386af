-- ===== src/PriceBitset/Levels.antt =====
-- One level of the bitset over the next: an array of words read as one long row of bits, and a row
-- that says which words of the level below are not zero.
use lobook.Base.{
  ℕ, ◌/◌, ◌%◌, ◌^◌, ◌<◌, ◌≢◌, ◌≡◌, inl, inr, bit_and, bit_or, Bool, false, not, ◌&&◌, ◌||◌, ◌==◌,
  update, Bool-cases, ==→eq, arith,
}
use lobook.Base.Bits.{test_bit, bit_not}
use lobook.Base.Bits.Single.{test_bit-set, test_bit-clear, test_bit-zero}

-- Bit `k` of an array of 64-bit words.
abbrev pub flat : (ℕ → ℕ) → ℕ → Bool
flat l k = test_bit (l (k / 64)) (k % 64)

abbrev pub Words : (ℕ → ℕ) → Type 0
Words l = (i : ℕ) → l i < 2 ^ 64

-- `row` marks the words of `l` that are not zero.
abbrev pub Summary : (ℕ → Bool) → (ℕ → ℕ) → Type 0
Summary row l = (i : ℕ) → row i ≡ not (l i == 0)

module _ (l : ℕ → ℕ) (k q : ℕ) where
  pub flat-set :
      flat (update l (k / 64) (bit_or (l (k / 64)) (2 ^ (k % 64)))) q ≡ (flat l q || k == q)
  flat-set = elim (Bool-cases (k / 64 == q / 64)) [
    | inl same ↦
        rw (same, ==→eq _ _ same, test_bit-set (l (q / 64)) (k % 64) (q % 64))
          (ground (arith, ==→eq _ _ same))
    | inr apart ↦ rw apart (ground arith)
  ]

  pub flat-clear :
      Words l
      → flat (update l (k / 64) (bit_and (l (k / 64)) (bit_not (2 ^ (k % 64))))) q
        ≡ (flat l q && not (k == q))
  flat-clear words = elim (Bool-cases (k / 64 == q / 64)) [
    | inl same ↦
        rw
          (
            same,
            ==→eq _ _ same,
            test_bit-clear (l (q / 64)) (k % 64) (q % 64) (words (q / 64)) (omega arith),
          )
          (ground (arith, ==→eq _ _ same))
    | inr apart ↦ rw apart (ground arith)
  ]

pub Words-update : (l : ℕ → ℕ) (k w : ℕ) → Words l → w < 2 ^ 64 → Words (update l k w)
Words-update l k w words lt i = ground (arith, words i)

-- A word with a bit just set is not zero.
pub bit_or-ne_zero : (w k : ℕ) → bit_or w (2 ^ k) ≢ 0
bit_or-ne_zero w k e = ground (arith, test_bit-set w k k, test_bit-zero k, cleared)
  where
    cleared : test_bit (bit_or w (2 ^ k)) k ≡ false
    cleared = rw e (test_bit-zero k)

module _ {row row' : ℕ → Bool} (l : ℕ → ℕ) (k w : ℕ) (s : Summary row l) where
  pub Summary-set : w ≢ 0 → ((i : ℕ) → row' i ≡ (row i || k == i)) → Summary row' (update l k w)
  Summary-set ne rows i = ground (arith, rows i, s i)

  pub Summary-clear :
      w ≡ 0 → ((i : ℕ) → row' i ≡ (row i && not (k == i))) → Summary row' (update l k w)
  Summary-clear e rows i = ground (arith, rows i, s i)

pub Summary-keep :
    {row : ℕ → Bool} (l : ℕ → ℕ) (k w : ℕ)
    → Summary row l
    → w ≢ 0
    → l k ≢ 0
    → Summary row (update l k w)
Summary-keep l k w s ne old i = ground (arith, s i)
