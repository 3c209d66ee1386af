-- ===== src/Benchmarks.antt =====
-- src/benchmark_book.cpp and src/benchmark_replace.cpp: the orders that their scenarios submit, and the
-- books behind one interface, as in src/bench_runners. The generators of random numbers are parameters,
-- and times and hardware counters are left out. A runner's book is taken before its first scenario.
pub mod Churn
pub mod Operations
pub mod Orders
pub mod Scenarios
pub mod Seeding
pub mod Sides
mod Tests
use lobook.Base.{
  ℕ, zero, suc, ◌+◌, ◌-◌, ◌*◌, ◌/◌, ◌%◌, Bool, true, false, List, [], ◌∷◌, ◌++◌, Run, ok, ◌>>=◌,
  ◌==◌, if◌then◌else◌,
}
use lobook.PriceBitset.{max_prices}
use lobook.BitsetBook
use lobook.BitsetBook.{Book}
use lobook.BitsetBook.Match
use lobook.BitsetBook.Session.{Incoming}
use lobook.FastBook
use lobook.FastBook.{FastBook}

-- `BookOps`, on the book that a runner keeps.
pub record BookOps (B : Type 0) : Type 0 where
  pub init : ℕ → Run B
  pub submit_order : B → ℕ → ℕ → ℕ → Bool → Run B
  pub cancel_order : B → ℕ → Run B
  pub get_quantity : B → ℕ → Run ℕ

abbrev pub bitset_ops : BookOps Book
bitset_ops = record {
  init = Match.init;
  submit_order = Match.submit_order;
  cancel_order = BitsetBook.cancel_order;
  get_quantity = BitsetBook.get_quantity;
}

-- The fuel is for a scan of the ladder.
abbrev pub fast_ops : ℕ → BookOps FastBook
fast_ops fuel = record {
  init = FastBook.init;
  submit_order = FastBook.submit_order fuel;
  cancel_order = FastBook.cancel_order;
  get_quantity = FastBook.get_quantity;
}

-- `kMaxOrders`, `kSparseLevels` and `kSparseOrdersPerLevel` of src/benchmark_book.cpp
abbrev pub max_orders : ℕ
max_orders = 500000

abbrev pub sparse_levels : ℕ
sparse_levels = 50

abbrev pub sparse_orders_per_level : ℕ
sparse_orders_per_level = 20

-- `prices[i]`
abbrev pub sparse_price : ℕ → ℕ
sparse_price i = i * (max_prices / sparse_levels) + 1

-- The innermost loop of the insert phase: sells of 1 at a price.
unfoldable pub level_orders : ℕ → ℕ → ℕ → List Incoming
level_orders next_id price zero = []
level_orders next_id price (suc count) =
    record { id = next_id; price = price; qty = 1; is_buy = false }
    ∷ level_orders (suc next_id) price count

-- The loop over the levels, from level `i` on.
unfoldable pub round_orders : ℕ → ℕ → ℕ → List Incoming
round_orders next_id i zero = []
round_orders next_id i (suc levels) =
    level_orders next_id (sparse_price i) sparse_orders_per_level
    ++ round_orders (next_id + sparse_orders_per_level) (suc i) levels

unfoldable pub sparse_orders : ℕ → ℕ → List Incoming
sparse_orders next_id zero = []
sparse_orders next_id (suc rounds) =
    round_orders next_id 0 sparse_levels
    ++ sparse_orders (next_id + sparse_levels * sparse_orders_per_level) rounds

-- The two phases of scenario 2: asks at the ten highest prices, and buys at the highest.
unfoldable pub wide_asks : ℕ → ℕ → List Incoming
wide_asks i zero = []
wide_asks i (suc count) =
    record { id = i; price = max_prices - 1 - i % 10; qty = 1; is_buy = false }
    ∷ wide_asks (suc i) count

unfoldable pub wide_buys : ℕ → ℕ → List Incoming
wide_buys next_id zero = []
wide_buys next_id (suc count) =
    record { id = next_id; price = max_prices - 1; qty = 1; is_buy = true }
    ∷ wide_buys (suc next_id) count

module _ {B : Type 0} (ops : BookOps B) where
  open ops use {init, submit_order}

  unfoldable pub submit_each : B → List Incoming → Run B
  submit_each b [] = ok b
  submit_each b (o ∷ os) = do b' ← submit_order b o.id o.price o.qty o.is_buy; submit_each b' os

  -- The insert phase of scenario 1, and the scenario: `rounds` is kSparseRounds.
  unfoldable pub insert_sparse : ℕ → Run B
  insert_sparse rounds = do b ← init max_orders; submit_each b (sparse_orders 0 rounds)

  unfoldable pub scenario_sparse : ℕ → Run B
  scenario_sparse rounds = do
    b ← insert_sparse rounds
    let total_inserted = rounds * sparse_levels * sparse_orders_per_level
    submit_order b total_inserted (max_prices - 1) total_inserted true

  -- Scenario 2: `count` is kWideOrders.
  unfoldable pub insert_wide : ℕ → Run B
  insert_wide count = do b ← init max_orders; submit_each b (wide_asks 0 count)

  unfoldable pub scenario_wide : ℕ → Run B
  scenario_wide count = do b ← insert_wide count; submit_each b (wide_buys count count)

-- src/benchmark_replace.cpp. The prices and quantities drawn in round `i` are parameters.
module _ (bid_dist ask_dist qty_dist : ℕ → ℕ) where
  unfoldable pub seed_orders : ℕ → ℕ → List Incoming
  seed_orders i zero = []
  seed_orders i (suc count) =
      let is_buy = i % 2 == 0 in
      record {
        id = i;
        price = if is_buy then bid_dist i else ask_dist i;
        qty = qty_dist i;
        is_buy = is_buy;
      }
      ∷ seed_orders (suc i) count

  -- `kMaxOrders` is 100'000 here; `live` is kLiveOrders.
  unfoldable pub seed_book : ℕ → Run Book
  seed_book live = do b ← Match.init 100000; submit_each bitset_ops b (seed_orders 0 live)
