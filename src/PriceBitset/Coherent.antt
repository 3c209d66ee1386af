-- ===== src/PriceBitset/Coherent.antt =====
-- What holds of a bitset between operations, and the set of prices that it stands for.
use lobook.Base.{ℕ, ◌^◌, ◌<◌, ◌≡◌, Bool, true}
use lobook.Base.Bits.{test_bit}
use lobook.PriceBitset.{PriceBitset, max_prices}
use lobook.PriceBitset.Levels.{flat, Words, Summary}

-- The set of prices that the lowest level holds.
abbrev pub member : PriceBitset → ℕ → Bool
member s = flat s.l2

pub record IsCoherent (s : PriceBitset) : Type 0 where
  pub l0_word : s.l0 < 2 ^ 64
  pub l1_words : Words s.l1
  pub l2_words : Words s.l2
  pub top : Summary (test_bit s.l0) s.l1
  pub middle : Summary (flat s.l1) s.l2
  pub bounded : (p : ℕ) → member s p ≡ true → p < max_prices
