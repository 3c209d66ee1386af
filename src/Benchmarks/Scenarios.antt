-- ===== src/Benchmarks/Scenarios.antt =====
-- The scenarios run without a fault on the bitset book, and their insert phases leave both books alike.
use lobook.Base.{
  ℕ, ◌-◌, ◌*◌, ◌≤◌, ◌<◌, ◌≡◌, refl, sym, ap, ◌∙◌, fun_ext, true, List, [], ◌∷◌, ◌++◌, Run, ok,
  fault, out_of_fuel, ◌>>=◌, Returns, map_run, arith,
}
use lobook.PriceBitset.{max_prices}
use lobook.Chain.Lists.{length}
use lobook.BitsetBook.{Book}
use lobook.BitsetBook.Match
use lobook.BitsetBook.Session
use lobook.BitsetBook.Session.{Incoming, session-Uncrossed}
use lobook.BitsetBook.Consecutive.{
  Consecutive, Consecutive-append, Consecutive-IsValid, length-append,
}
use lobook.BitsetBook.Uncrossed.{Uncrossed}
use lobook.FastBook
use lobook.FastBook.{FastBook}
use lobook.FastBook.Forget.{forget}
use lobook.FastBook.Session as FastSession
use lobook.FastBook.Session.{AreLimits, session-forget}
use lobook.Benchmarks.{
  bitset_ops, fast_ops, max_orders, sparse_orders, wide_asks, wide_buys, seed_orders, submit_each,
  insert_sparse, scenario_sparse, insert_wide, scenario_wide, seed_book,
}
use lobook.Benchmarks.Orders.{
  length-sparse_orders, sparse_orders-Consecutive, sparse_orders-AreLimits, wide_asks-Consecutive,
  length-wide_asks, wide_asks-AreLimits, wide_buys-Consecutive, length-wide_buys,
  length-seed_orders, seed_orders-Consecutive,
}

submit_each-bitset :
    (b : Book) (os : List Incoming) → submit_each bitset_ops b os ≡ Session.submit_all b os
unfolding submit_each Session.submit_all
submit_each-bitset b [] = refl
submit_each-bitset b (o ∷ os) =
    ap (λ f. Match.submit_order b o.id o.price o.qty o.is_buy >>= f)
      (fun_ext λ b'. submit_each-bitset b' os)

submit_each-fast :
    (fuel : ℕ) (b : FastBook) (os : List Incoming)
    → submit_each (fast_ops fuel) b os ≡ FastSession.submit_all fuel b os
unfolding submit_each FastSession.submit_all
submit_each-fast fuel b [] = refl
submit_each-fast fuel b (o ∷ os) =
    ap (λ f. FastBook.submit_order fuel b o.id o.price o.qty o.is_buy >>= f)
      (fun_ext λ b'. submit_each-fast fuel b' os)

bind_assoc :
    {S T U : Type 0} (r : Run S) (f : S → Run T) (g : T → Run U)
    → (r >>= f >>= g) ≡ (r >>= λ a. f a >>= g)
bind_assoc fault f g = refl
bind_assoc out_of_fuel f g = refl
bind_assoc (ok a) f g = refl

-- One list of orders behind another.
submit_all-append :
    (b : Book) (xs ys : List Incoming)
    → (Session.submit_all b xs >>= λ b'. Session.submit_all b' ys) ≡ Session.submit_all b (xs ++ ys)
unfolding Session.submit_all
submit_all-append b [] ys = refl
submit_all-append b (o ∷ os) ys =
    bind_assoc (Match.submit_order b o.id o.price o.qty o.is_buy) _ _
    ∙ ap (λ f. Match.submit_order b o.id o.price o.qty o.is_buy >>= f)
        (fun_ext λ b'. submit_all-append b' os ys)

-- A new book with two lists of orders submitted to it.
two_phases :
    (n : ℕ) (xs ys : List Incoming)
    → (Match.init n >>= (λ b. submit_each bitset_ops b xs) >>= λ b. submit_each bitset_ops b ys)
      ≡ (do b ← Match.init n; Session.submit_all b (xs ++ ys))
two_phases n xs ys =
    ap (λ f. Match.init n >>= f >>= (λ b. submit_each bitset_ops b ys))
      (fun_ext λ b. submit_each-bitset b xs)
    ∙ ap (λ f. Match.init n >>= (λ b. Session.submit_all b xs) >>= f)
        (fun_ext λ b. submit_each-bitset b ys)
    ∙ bind_assoc (Match.init n) _ _
    ∙ ap (λ f. Match.init n >>= f) (fun_ext λ b. submit_all-append b xs ys)

-- Scenario 2 with up to 250'000 orders in each phase, on a new bitset book, runs without a fault, and
-- leaves a well-formed book that is not crossed.
pub scenario_wide-Uncrossed :
    (count : ℕ) → 2 * count ≤ max_orders → Returns (scenario_wide bitset_ops count) Uncrossed
unfolding scenario_wide insert_wide
scenario_wide-Uncrossed count le =
    let asks = wide_asks 0 count in
    let buys = wide_buys count count in
    rw (two_phases max_orders asks buys) (
      session-Uncrossed max_orders (asks ++ buys) (omega arith) (omega arith) (
        Consecutive-IsValid max_orders 0 (asks ++ buys)
          (Consecutive-append 0 count asks buys (wide_asks-Consecutive 0 count)
            (omega (arith, length-wide_asks 0 count)) (wide_buys-Consecutive count count))
          (omega (
            arith,
            length-append asks buys,
            length-wide_asks 0 count,
            length-wide_buys count count,
          ))))

bind_ok : {S : Type 0} (r : Run S) → r ≡ (r >>= ok)
bind_ok fault = refl
bind_ok out_of_fuel = refl
bind_ok (ok a) = refl

-- The order that sweeps scenario 1.
abbrev sweep_order : ℕ → List Incoming
sweep_order total = record { id = total; price = max_prices - 1; qty = total; is_buy = true } ∷ []

sweep_submitted :
    (b : Book) (total : ℕ)
    → Match.submit_order b total (max_prices - 1) total true
      ≡ submit_each bitset_ops b (sweep_order total)
unfolding submit_each
sweep_submitted b total = bind_ok (Match.submit_order b total (max_prices - 1) total true)

-- Scenario 1 with up to 499 rounds of its 1'000 sells, and the buy that sweeps them, on a new bitset book
-- runs without a fault, and leaves a well-formed book that is not crossed.
pub scenario_sparse-Uncrossed :
    (rounds : ℕ) → rounds < 500 → Returns (scenario_sparse bitset_ops rounds) Uncrossed
unfolding scenario_sparse insert_sparse
scenario_sparse-Uncrossed rounds lt =
    let total = rounds * 50 * 20 in
    let sells = sparse_orders 0 rounds in
    let orders = sells ++ sweep_order total in
    let runs : (Match.init max_orders >>= (λ b. submit_each bitset_ops b sells) >>= λ b.
    Match.submit_order b total (max_prices - 1) total true)
        ≡ (do b ← Match.init max_orders; Session.submit_all b orders) =
      ap (λ f. Match.init max_orders >>= (λ b. submit_each bitset_ops b sells) >>= f)
        (fun_ext λ b. sweep_submitted b total)
      ∙ two_phases max_orders sells (sweep_order total) in
    rw runs (
      session-Uncrossed max_orders orders (omega arith) (omega arith) (
        Consecutive-IsValid max_orders 0 orders
          (Consecutive-append 0 total sells (sweep_order total) (sparse_orders-Consecutive 0 rounds)
            (omega (arith, length-sparse_orders 0 rounds)) (refl, omega arith, tt))
          (omega (arith, length-append sells (sweep_order total), length-sparse_orders 0 rounds))))

-- `seed_book` of src/benchmark_replace.cpp with up to 100'000 live orders, prices drawn inside the ladder and any
-- quantities, runs without a fault, and leaves a well-formed book that is not crossed.
pub seed_book-Uncrossed :
    (bid_dist ask_dist qty_dist : ℕ → ℕ) (live : ℕ)
    → live ≤ 100000
    → ((i : ℕ) → bid_dist i < max_prices)
    → ((i : ℕ) → ask_dist i < max_prices)
    → Returns (seed_book bid_dist ask_dist qty_dist live) Uncrossed
unfolding seed_book
seed_book-Uncrossed bid_dist ask_dist qty_dist live le bids asks =
    let orders = seed_orders bid_dist ask_dist qty_dist 0 live in
    let runs : (do b ← Match.init 100000; submit_each bitset_ops b orders)
        ≡ (do b ← Match.init 100000; Session.submit_all b orders) =
      ap (λ f. Match.init 100000 >>= f) (fun_ext λ b. submit_each-bitset b orders) in
    rw runs (
      session-Uncrossed 100000 orders (omega arith) (omega arith) (
        Consecutive-IsValid 100000 0 orders
          (seed_orders-Consecutive bid_dist ask_dist qty_dist bids asks 0 live)
          (omega (arith, length-seed_orders bid_dist ask_dist qty_dist 0 live))))

module _ (fuel : ℕ) (enough : max_prices < fuel) where
  same_inserts :
      (os : List Incoming)
      → Consecutive 0 os
      → length os ≤ max_orders
      → AreLimits os
      → (do b ← FastBook.init max_orders; submit_each (fast_ops fuel) b os)
        ≡ map_run forget (do b ← Match.init max_orders; submit_each bitset_ops b os)
  same_inserts os c le limits =
      ap (λ f. FastBook.init max_orders >>= f) (fun_ext λ b. submit_each-fast fuel b os)
      ∙ session-forget fuel max_orders os enough (omega arith) (omega arith)
          (Consecutive-IsValid max_orders 0 os c (omega arith)) limits
      ∙ ap (λ f. map_run forget (Match.init max_orders >>= f))
          (fun_ext λ b. sym (submit_each-bitset b os))

  -- The insert phases of scenario 1 with up to 500 rounds, and of scenario 2 with up to 500'000 orders,
  -- leave a new book of src/engine/fast_book.h as they leave a new book of
  -- src/engine/fast_bitset_book.h, but for the bitsets. More fuel than MAX_PRICES is enough for a scan.
  pub insert-forget :
      (rounds count : ℕ)
      → rounds ≤ 500
      → count ≤ max_orders
      → (insert_sparse (fast_ops fuel) rounds ≡ map_run forget (insert_sparse bitset_ops rounds))
        × (insert_wide (fast_ops fuel) count ≡ map_run forget (insert_wide bitset_ops count))
  unfolding insert_sparse insert_wide
  insert-forget rounds count le le' = (
    same_inserts (sparse_orders 0 rounds) (sparse_orders-Consecutive 0 rounds)
        (omega (arith, length-sparse_orders 0 rounds)) (sparse_orders-AreLimits 0 rounds),
    same_inserts (wide_asks 0 count) (wide_asks-Consecutive 0 count)
        (omega (arith, length-wide_asks 0 count)) (wide_asks-AreLimits 0 count),
  )
