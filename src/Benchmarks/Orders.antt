-- ===== src/Benchmarks/Orders.antt =====
-- The orders of the scenarios: consecutive ids, prices inside the ladder.
use lobook.Base.{
  ℕ, zero, suc, ◌+◌, ◌*◌, ◌%◌, ◌≤◌, ◌<◌, ◌≡◌, refl, ap, inl, inr, Bool-cases, ◌==◌, List, [], ◌∷◌,
  ◌++◌, if◌then◌else◌, arith,
}
use lobook.PriceBitset.{max_prices}
use lobook.Chain.Lists.{length}
use lobook.BitsetBook.Session.{Incoming}
use lobook.BitsetBook.Consecutive.{Consecutive, Consecutive-append, length-append}
use lobook.FastBook.Session.{AreLimits}
use lobook.Benchmarks.{
  sparse_levels, sparse_orders_per_level, sparse_price, level_orders, round_orders, sparse_orders,
  wide_asks, wide_buys, seed_orders,
}

level_orders-Consecutive : (i p count : ℕ) → p < max_prices → Consecutive i (level_orders i p count)
unfolding level_orders
level_orders-Consecutive i p zero lt = tt
level_orders-Consecutive i p (suc count) lt =
    (refl, lt, level_orders-Consecutive (suc i) p count lt)

length-level_orders : (i p count : ℕ) → length (level_orders i p count) ≡ count
unfolding level_orders
length-level_orders i p zero = refl
length-level_orders i p (suc count) = ap suc (length-level_orders (suc i) p count)

length-round_orders :
    (next_id i levels : ℕ)
    → length (round_orders next_id i levels) ≡ levels * sparse_orders_per_level
unfolding round_orders
length-round_orders next_id i zero = omega arith
length-round_orders next_id i (suc levels) = omega (
  arith,
  length-append (level_orders next_id (sparse_price i) sparse_orders_per_level)
      (round_orders (next_id + sparse_orders_per_level) (suc i) levels),
  length-level_orders next_id (sparse_price i) sparse_orders_per_level,
  length-round_orders (next_id + sparse_orders_per_level) (suc i) levels,
)

round_orders-Consecutive :
    (next_id i levels : ℕ)
    → i + levels ≤ sparse_levels
    → Consecutive next_id (round_orders next_id i levels)
unfolding round_orders
round_orders-Consecutive next_id i zero le = tt
round_orders-Consecutive next_id i (suc levels) le =
    Consecutive-append next_id (next_id + sparse_orders_per_level)
      (level_orders next_id (sparse_price i) sparse_orders_per_level)
      (round_orders (next_id + sparse_orders_per_level) (suc i) levels)
      (level_orders-Consecutive next_id (sparse_price i) sparse_orders_per_level (omega arith))
      (omega (arith, length-level_orders next_id (sparse_price i) sparse_orders_per_level))
      (round_orders-Consecutive (next_id + sparse_orders_per_level) (suc i) levels (omega arith))

pub length-sparse_orders :
    (next_id rounds : ℕ) → length (sparse_orders next_id rounds) ≡ rounds * 1000
unfolding sparse_orders
length-sparse_orders next_id zero = omega arith
length-sparse_orders next_id (suc rounds) = omega (
  arith,
  length-append (round_orders next_id 0 sparse_levels)
      (sparse_orders (next_id + sparse_levels * sparse_orders_per_level) rounds),
  length-round_orders next_id 0 sparse_levels,
  length-sparse_orders (next_id + sparse_levels * sparse_orders_per_level) rounds,
)

pub sparse_orders-Consecutive :
    (next_id rounds : ℕ) → Consecutive next_id (sparse_orders next_id rounds)
unfolding sparse_orders
sparse_orders-Consecutive next_id zero = tt
sparse_orders-Consecutive next_id (suc rounds) =
    Consecutive-append next_id (next_id + sparse_levels * sparse_orders_per_level)
      (round_orders next_id 0 sparse_levels)
      (sparse_orders (next_id + sparse_levels * sparse_orders_per_level) rounds)
      (round_orders-Consecutive next_id 0 sparse_levels (omega arith))
      (omega (arith, length-round_orders next_id 0 sparse_levels))
      (sparse_orders-Consecutive (next_id + sparse_levels * sparse_orders_per_level) rounds)

pub wide_asks-Consecutive : (i count : ℕ) → Consecutive i (wide_asks i count)
unfolding wide_asks
wide_asks-Consecutive i zero = tt
wide_asks-Consecutive i (suc count) = (refl, omega arith, wide_asks-Consecutive (suc i) count)

pub length-wide_asks : (i count : ℕ) → length (wide_asks i count) ≡ count
unfolding wide_asks
length-wide_asks i zero = refl
length-wide_asks i (suc count) = ap suc (length-wide_asks (suc i) count)

pub wide_buys-Consecutive : (i count : ℕ) → Consecutive i (wide_buys i count)
unfolding wide_buys
wide_buys-Consecutive i zero = tt
wide_buys-Consecutive i (suc count) = (refl, omega arith, wide_buys-Consecutive (suc i) count)

pub length-wide_buys : (i count : ℕ) → length (wide_buys i count) ≡ count
unfolding wide_buys
length-wide_buys i zero = refl
length-wide_buys i (suc count) = ap suc (length-wide_buys (suc i) count)

-- Sells above 0: the scan of the ladder ends at each of them.
AreLimits-append : (xs ys : List Incoming) → AreLimits xs → AreLimits ys → AreLimits (xs ++ ys)
AreLimits-append [] ys lx ly = ly
AreLimits-append (x ∷ xs) ys (l, lx) ly = (l, AreLimits-append xs ys lx ly)

level_orders-AreLimits : (i p count : ℕ) → 0 < p → AreLimits (level_orders i p count)
unfolding level_orders
level_orders-AreLimits i p zero lt = tt
level_orders-AreLimits i p (suc count) lt = (lt, level_orders-AreLimits (suc i) p count lt)

round_orders-AreLimits : (next_id i levels : ℕ) → AreLimits (round_orders next_id i levels)
unfolding round_orders
round_orders-AreLimits next_id i zero = tt
round_orders-AreLimits next_id i (suc levels) =
    AreLimits-append (level_orders next_id (sparse_price i) sparse_orders_per_level)
      (round_orders (next_id + sparse_orders_per_level) (suc i) levels)
      (level_orders-AreLimits next_id (sparse_price i) sparse_orders_per_level (omega arith))
      (round_orders-AreLimits (next_id + sparse_orders_per_level) (suc i) levels)

pub sparse_orders-AreLimits : (next_id rounds : ℕ) → AreLimits (sparse_orders next_id rounds)
unfolding sparse_orders
sparse_orders-AreLimits next_id zero = tt
sparse_orders-AreLimits next_id (suc rounds) =
    AreLimits-append (round_orders next_id 0 sparse_levels)
      (sparse_orders (next_id + sparse_levels * sparse_orders_per_level) rounds)
      (round_orders-AreLimits next_id 0 sparse_levels)
      (sparse_orders-AreLimits (next_id + sparse_levels * sparse_orders_per_level) rounds)

pub wide_asks-AreLimits : (i count : ℕ) → AreLimits (wide_asks i count)
unfolding wide_asks
wide_asks-AreLimits i zero = tt
wide_asks-AreLimits i (suc count) = (omega arith, wide_asks-AreLimits (suc i) count)

module _ (bid_dist ask_dist qty_dist : ℕ → ℕ) where
  pub length-seed_orders :
      (i count : ℕ) → length (seed_orders bid_dist ask_dist qty_dist i count) ≡ count
  unfolding seed_orders
  length-seed_orders i zero = refl
  length-seed_orders i (suc count) = ap suc (length-seed_orders (suc i) count)

  pub seed_orders-Consecutive :
      ((j : ℕ) → bid_dist j < max_prices)
      → ((j : ℕ) → ask_dist j < max_prices)
      → (i count : ℕ) → Consecutive i (seed_orders bid_dist ask_dist qty_dist i count)
  unfolding seed_orders
  seed_orders-Consecutive bids asks i zero = tt
  seed_orders-Consecutive bids asks i (suc count) =
      (refl, inside, seed_orders-Consecutive bids asks (suc i) count)
    where
      inside : (if i % 2 == 0 then bid_dist i else ask_dist i) < max_prices
      inside = elim (Bool-cases (i % 2 == 0)) [ inl e ↦ rw e (bids i) | inr e ↦ rw e (asks i) ]
