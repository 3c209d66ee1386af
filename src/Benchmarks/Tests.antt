-- ===== src/Benchmarks/Tests.antt =====
-- The scenarios with the constants of the benchmarks.
use lobook.Base.{ℕ, ◌+◌, ◌<◌, ◌≡◌, List, [], ◌∷◌, refl, true, Returns, map_run, arith}
use lobook.BitsetBook.Uncrossed.{Uncrossed}
use lobook.FastBook.Forget.{forget}
use lobook.Benchmarks.{
  max_orders, bitset_ops, fast_ops, insert_sparse, insert_wide, scenario_sparse, scenario_wide,
  seed_book,
}
use lobook.Benchmarks.Churn.{Draw, churn_requests, start}
use lobook.Benchmarks.Churn.Tracked.{AreTracked, churn_requests-AreTracked}
use lobook.Benchmarks.Operations.{generate_ops, Operation, replace_each, replace_each-IsLiveBook}
use lobook.Benchmarks.Operations.{scenario_replace, scenario_cancel_submit}
use lobook.Benchmarks.Seeding.{
  IsSidedBook, scenario_replace-IsLiveBook, scenario_cancel_submit-IsSidedBook,
}
use lobook.BitsetBook.Resting.{IsLiveBook}
use lobook.BitsetBook.Samples.{one_bid, one_bid-IsLiveBook}
use lobook.Benchmarks.Scenarios.{
  scenario_wide-Uncrossed, scenario_sparse-Uncrossed, seed_book-Uncrossed, insert-forget,
}

scenario_wide-Uncrossed_example : Returns (scenario_wide bitset_ops 10000) Uncrossed
scenario_wide-Uncrossed_example = scenario_wide-Uncrossed 10000 (omega arith)

scenario_sparse-Uncrossed_example : Returns (scenario_sparse bitset_ops 200) Uncrossed
scenario_sparse-Uncrossed_example = scenario_sparse-Uncrossed 200 (omega arith)

seed_book-Uncrossed_example : Returns (seed_book (λ i. 100) (λ i. 60000) (λ i. 5) 10000) Uncrossed
seed_book-Uncrossed_example =
    seed_book-Uncrossed (λ i. 100) (λ i. 60000) (λ i. 5) 10000 (omega arith) (λ i. omega arith)
      (λ i. omega arith)

insert-forget_example :
    (insert_sparse (fast_ops 200000) 200 ≡ map_run forget (insert_sparse bitset_ops 200))
    × (insert_wide (fast_ops 200000) 10000 ≡ map_run forget (insert_wide bitset_ops 10000))
insert-forget_example = insert-forget 200000 (omega arith) 200 10000 (omega arith) (omega arith)

-- An order that rests, its cancel, and a marketable order.
abbrev three_draws : List Draw
three_draws =
    record { price = 7; side = 1; action = 13; choice = 4 }
    ∷ record { price = 9; side = 0; action = 7; choice = 5 }
    ∷ record { price = 9; side = 0; action = 8; choice = 5 }
    ∷ []

churn_requests-AreTracked_example : AreTracked max_orders 0 [] (churn_requests start three_draws)
churn_requests-AreTracked_example =
    churn_requests-AreTracked three_draws (omega arith, (omega arith, (omega arith, tt)))
      (omega arith)

abbrev drawn_bid : ℕ → ℕ
drawn_bid i = 100

abbrev drawn_ask : ℕ → ℕ
drawn_ask i = 60000

abbrev drawn_target : ℕ → ℕ
drawn_target i = i + 12345

-- The order of the sample book goes up to 101, and gets more at that price.
abbrev two_operations : List Operation
two_operations =
    record { id = 1; new_price = 101; new_qty = 5; is_buy = true }
    ∷ record { id = 1; new_price = 101; new_qty = 9; is_buy = true }
    ∷ []

replace_each-IsLiveBook_example :
    Returns (replace_each one_bid two_operations) (IsLiveBook (λ id. id ≡ 1))
replace_each-IsLiveBook_example =
    replace_each-IsLiveBook (λ id. id ≡ 1) one_bid two_operations one_bid-IsLiveBook
      (refl, omega arith, (refl, omega arith, tt))

scenario_replace-IsLiveBook_example :
    Returns
      (scenario_replace drawn_bid drawn_ask drawn_bid 10000
        (generate_ops drawn_bid drawn_ask drawn_bid drawn_target 10000 0 1000000))
      (IsLiveBook (λ id. id < 10000))
scenario_replace-IsLiveBook_example =
    scenario_replace-IsLiveBook drawn_bid drawn_ask drawn_bid drawn_bid drawn_ask drawn_bid
      drawn_target 10000 1000000 (λ i. omega arith, λ i. (omega arith, omega arith))
      (λ i. omega arith) (λ i. omega arith, λ i. (omega arith, omega arith)) (omega arith)
      (omega arith)

scenario_cancel_submit-IsSidedBook_example :
    Returns
      (scenario_cancel_submit drawn_bid drawn_ask drawn_bid 10000
        (generate_ops drawn_bid drawn_ask drawn_bid drawn_target 10000 0 1000000))
      (IsSidedBook 100000 10000)
scenario_cancel_submit-IsSidedBook_example =
    scenario_cancel_submit-IsSidedBook drawn_bid drawn_ask drawn_bid drawn_bid drawn_ask drawn_bid
      drawn_target 10000 1000000 (λ i. omega arith, λ i. (omega arith, omega arith))
      (λ i. omega arith) (λ i. omega arith, λ i. (omega arith, omega arith)) (λ i. omega arith)
      (omega arith) (omega arith)
