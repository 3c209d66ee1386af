-- ===== src/Benchmarks/Operations.antt =====
-- src/benchmark_replace.cpp: the operations on the seeded book and the loops of its two scenarios. The
-- numbers drawn in round `i` are parameters.
use lobook.Base.{
  ℕ, zero, suc, ◌/◌, ◌%◌, ◌≤◌, ◌<◌, Returns, refl, Bool, true, false, List, [], ◌∷◌, Run, ok, ◌>>=◌,
  ◌==◌, if◌then◌else◌, arith,
}
use native.Mathlib.Nat.{mod-lt}
use lobook.PriceBitset.{max_prices}
use lobook.BitsetBook.{Book, cancel_order, replace_order}
use lobook.BitsetBook.Resting.{IsLiveBook, replace_order-IsLiveBook}
use lobook.BitsetBook.Match.{submit_order}
use lobook.Benchmarks.{seed_book}

pub record Operation : Type 0 where
  pub id : ℕ
  pub new_price : ℕ
  pub new_qty : ℕ
  pub is_buy : Bool

-- The loops of scenario A and of scenario B.
unfoldable pub replace_each : Book → List Operation → Run Book
replace_each b [] = ok b
replace_each b (op ∷ ops) = do
  b' ← replace_order b op.id op.new_price op.new_qty
  replace_each b' ops

unfoldable pub cancel_and_submit : Book → List Operation → Run Book
cancel_and_submit b [] = ok b
cancel_and_submit b (op ∷ ops) = do
  b1 ← cancel_order b op.id
  b2 ← submit_order b1 op.id op.new_price op.new_qty op.is_buy
  cancel_and_submit b2 ops

-- The sides are apart: bids below the middle of the ladder, asks at or above it.
abbrev pub IsApart : Bool → ℕ → Type 0
IsApart true price = price < max_prices / 2
IsApart false price = (max_prices / 2 ≤ price) × (price < max_prices)

-- Operations on ids below `live`, on the side of their new price, and with a quantity.
abbrev pub AreSided : ℕ → List Operation → Type 0
AreSided live [] = Unit
AreSided live (op ∷ ops) =
    (op.id < live) × IsApart op.is_buy op.new_price × (0 < op.new_qty) × AreSided live ops

-- Operations on ids of `Live`, with new prices inside the ladder.
abbrev pub AreOnLive : (ℕ → Type 0) → List Operation → Type 0
AreOnLive Live [] = Unit
AreOnLive Live (op ∷ ops) = Live op.id × (op.new_price < max_prices) × AreOnLive Live ops

pub apart-lt : (is_buy : Bool) (price : ℕ) → IsApart is_buy price → price < max_prices
apart-lt true price bid = omega arith
apart-lt false price ask = ask.1

module _ (bid_dist ask_dist qty_dist : ℕ → ℕ) where
  module _ (rng : ℕ → ℕ) (live : ℕ) where
    -- `live` is kLiveOrders; `rng i` is the number drawn for the target of round `i`.
    unfoldable pub generate_ops : ℕ → ℕ → List Operation
    generate_ops i zero = []
    generate_ops i (suc count) =
        let target_id = rng i % live in
        let is_buy = target_id % 2 == 0 in
        record {
          id = target_id;
          new_price = if is_buy then bid_dist i else ask_dist i;
          new_qty = qty_dist i;
          is_buy = is_buy;
        }
        ∷ generate_ops (suc i) count

  -- Scenario A and scenario B, each on a book that was not used before; the draws are those of the
  -- seeding.
  unfoldable pub scenario_replace : ℕ → List Operation → Run Book
  scenario_replace live ops = do b ← seed_book bid_dist ask_dist qty_dist live; replace_each b ops

  unfoldable pub scenario_cancel_submit : ℕ → List Operation → Run Book
  scenario_cancel_submit live ops = do
    b ← seed_book bid_dist ask_dist qty_dist live
    cancel_and_submit b ops

-- The ranges of the distributions: bids below the middle, asks from there on.
abbrev pub AreInRange : (ℕ → ℕ) → (ℕ → ℕ) → Type 0
AreInRange bid_dist ask_dist =
    ((i : ℕ) → IsApart true (bid_dist i)) × ((i : ℕ) → IsApart false (ask_dist i))

module _ (bid_dist ask_dist qty_dist : ℕ → ℕ) (in_range : AreInRange bid_dist ask_dist) where
  pub drawn-IsApart :
      (is_buy : Bool) (i : ℕ) → IsApart is_buy (if is_buy then bid_dist i else ask_dist i)
  drawn-IsApart true i = in_range.0 i
  drawn-IsApart false i = in_range.1 i

  pub generate_ops-AreOnLive :
      (rng : ℕ → ℕ) (live : ℕ)
      → 0 < live
      → (i count : ℕ)
      → AreOnLive (λ id. id < live) (generate_ops bid_dist ask_dist qty_dist rng live i count)
  unfolding generate_ops
  generate_ops-AreOnLive rng live pos i zero = tt
  generate_ops-AreOnLive rng live pos i (suc count) =
      let is_buy = rng i % live % 2 == 0 in
      (
        mod-lt (rng i) pos,
        apart-lt is_buy (if is_buy then bid_dist i else ask_dist i) (drawn-IsApart is_buy i),
        generate_ops-AreOnLive rng live pos (suc i) count,
      )

  pub generate_ops-AreSided :
      (rng : ℕ → ℕ) (live : ℕ)
      → ((i : ℕ) → 0 < qty_dist i)
      → 0 < live
      → (i count : ℕ) → AreSided live (generate_ops bid_dist ask_dist qty_dist rng live i count)
  unfolding generate_ops
  generate_ops-AreSided rng live some_qty pos i zero = tt
  generate_ops-AreSided rng live some_qty pos i (suc count) = (
    mod-lt (rng i) pos,
    drawn-IsApart (rng i % live % 2 == 0) i,
    some_qty i,
    generate_ops-AreSided rng live some_qty pos (suc i) count,
  )

-- The loop of scenario A, on a well-formed book where no first order of a level has a `prev` and all
-- live ids rest, and with operations on live ids at prices below MAX_PRICES, runs without a fault. The
-- book that it leaves is such a book again.
pub replace_each-IsLiveBook :
    (Live : ℕ → Type 0) (b : Book) (ops : List Operation)
    → IsLiveBook Live b
    → AreOnLive Live ops
    → Returns (replace_each b ops) (IsLiveBook Live)
unfolding replace_each
replace_each-IsLiveBook Live b [] v known = (b, refl, v)
replace_each-IsLiveBook Live b (op ∷ ops) v (live, lt, known) =
    let (b', e, v') = replace_order-IsLiveBook Live b op.id op.new_price op.new_qty v live lt in
    rw e (replace_each-IsLiveBook Live b' ops v' known)
