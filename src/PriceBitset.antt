-- ===== src/PriceBitset.antt =====
-- src/engine/price_bitset.h: the three-level bitset of the occupied prices, and the two constants
-- of src/engine/constants.h that size it. An array of words is a function from indices, and every
-- access checks its index against the array's length.
pub mod Levels
pub mod Coherent
pub mod Update
pub mod Find
pub mod History
mod Tests
use lobook.Base.{
  ℕ, ◌+◌, ◌-◌, ◌*◌, ◌/◌, ◌%◌, ◌^◌, bit_and, bit_or, Bool, not, Option, none, some, Run, ok, ◌>>=◌,
  ◌>>◌, require, ltb, ◌==◌, if◌then◌else◌, update,
}
use lobook.Base.Bits.{bit_not, ctzll, clzll}

abbrev pub max_prices : ℕ
max_prices = 100000

abbrev pub block_size : ℕ
block_size = 64

abbrev pub l2_blocks : ℕ
l2_blocks = (max_prices + block_size - 1) / block_size

abbrev pub l1_blocks : ℕ
l1_blocks = (l2_blocks + block_size - 1) / block_size

pub record PriceBitset : Type 0 where
  pub l0 : ℕ
  pub l1 : ℕ → ℕ
  pub l2 : ℕ → ℕ

-- The word at an index of an array of so many words.
abbrev pub word : ℕ → (ℕ → ℕ) → ℕ → Run ℕ
word blocks l i = require (ltb i blocks) >> ok (l i)

-- The constructor `PriceBitset()`.
unfoldable pub initial : PriceBitset
initial = record { l0 = 0; l1 = λ _. 0; l2 = λ _. 0 }

unfoldable pub set : PriceBitset → ℕ → Run PriceBitset
set s price_idx = do
  require (ltb price_idx max_prices)
  let l2_idx = price_idx / 64
  w2 ← word l2_blocks s.l2 l2_idx
  let l1_idx = l2_idx / 64
  w1 ← word l1_blocks s.l1 l1_idx
  ok (record {
    l0 = bit_or s.l0 (2 ^ l1_idx);
    l1 = update s.l1 l1_idx (bit_or w1 (2 ^ (l2_idx % 64)));
    l2 = update s.l2 l2_idx (bit_or w2 (2 ^ (price_idx % 64)));
  })

unfoldable pub clear : PriceBitset → ℕ → Run PriceBitset
clear s price_idx = do
  require (ltb price_idx max_prices)
  let l2_idx = price_idx / 64
  w2 ← word l2_blocks s.l2 l2_idx
  let w2' = bit_and w2 (bit_not (2 ^ (price_idx % 64)))
  let l2' = update s.l2 l2_idx w2'
  if w2' == 0
      then (do
        let l1_idx = l2_idx / 64
        w1 ← word l1_blocks s.l1 l1_idx
        let w1' = bit_and w1 (bit_not (2 ^ (l2_idx % 64)))
        let l1' = update s.l1 l1_idx w1'
        if w1' == 0
            then ok (record { l0 = bit_and s.l0 (bit_not (2 ^ l1_idx)); l1 = l1'; l2 = l2' })
            else ok (record { l0 = s.l0; l1 = l1'; l2 = l2' }))
      else ok (record { l0 = s.l0; l1 = s.l1; l2 = l2' })

unfoldable pub test : PriceBitset → ℕ → Run Bool
test s price_idx = do
  require (ltb price_idx max_prices)
  w2 ← word l2_blocks s.l2 (price_idx / 64)
  ok (not (bit_and (w2 / 2 ^ (price_idx % 64)) 1 == 0))

unfoldable pub empty : PriceBitset → Bool
empty s = s.l0 == 0

unfoldable pub clear_all : PriceBitset → PriceBitset
clear_all s = record s { l0 = 0; l1 = λ _. 0; l2 = λ _. 0 }

unfoldable pub find_highest : PriceBitset → Run (Option ℕ)
find_highest s = if s.l0 == 0 then ok none else do
  z0 ← clzll s.l0
  let l1_idx = 63 - z0
  w1 ← word l1_blocks s.l1 l1_idx
  z1 ← clzll w1
  let l2_idx = l1_idx * 64 + (63 - z1)
  w2 ← word l2_blocks s.l2 l2_idx
  z2 ← clzll w2
  ok (some ((64 * l2_idx + (63 - z2)) % 2 ^ 32))

unfoldable pub find_lowest : PriceBitset → Run (Option ℕ)
find_lowest s = if s.l0 == 0 then ok none else do
  l1_idx ← ctzll s.l0
  w1 ← word l1_blocks s.l1 l1_idx
  z1 ← ctzll w1
  let l2_idx = l1_idx * 64 + z1
  w2 ← word l2_blocks s.l2 l2_idx
  z2 ← ctzll w2
  ok (some ((64 * l2_idx + z2) % 2 ^ 32))
