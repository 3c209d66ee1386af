-- ===== src/Benchmarks/Seeding.antt =====
-- The scenarios of src/benchmark_replace.cpp: no two of the seeded orders cross, and neither do the orders
-- that the operations put in.
use lobook.Base.{
  ℕ, zero, suc, ◌+◌, ◌%◌, ◌≤◌, ◌<◌, ◌≡◌, ◌≢◌, refl, ◌∙◌, ◌⊎◌, inl, inr, Bool, List, [], ◌∷◌, ◌==◌,
  if◌then◌else◌, Returns, Bool-cases, ==→eq, ==→ne, arith,
}
use mathlib.Core.Path.{subst}
use lobook.BitsetBook.{Book}
use lobook.BitsetBook.Represents.{IsBook}
use lobook.BitsetBook.Init.{slots, no_queues, init-IsBook}
use lobook.BitsetBook.Resting.{IsLiveBook}
use lobook.Benchmarks.{bitset_ops, submit_each, seed_orders, seed_book}
use lobook.Benchmarks.Operations.{
  Operation, AreInRange, AreSided, generate_ops, scenario_replace, cancel_and_submit,
  scenario_cancel_submit, drawn-IsApart, generate_ops-AreOnLive, generate_ops-AreSided,
  replace_each-IsLiveBook,
}
use lobook.Benchmarks.Sides.{
  IsSided, IsSided-map, at_next_free, submit_order-IsSided, cancel_order-IsSided,
}

-- A book whose sides are apart, with the ids below `live` and no others at rest.
abbrev pub IsSidedBook : ℕ → ℕ → Book → Type 0
IsSidedBook capacity live b =
    (queues : Bool → ℕ → List ℕ) × (free : List ℕ) × IsSided (λ id. id < live) b queues free
    × (b.pool.capacity ≡ capacity)

new-IsSided :
    (n : ℕ) (b : Book)
    → IsBook b no_queues (slots 0 n)
    → IsSided (λ id. id < 0) b no_queues (slots 0 n)
new-IsSided n b v = record {
  book = v;
  fresh = λ k p. tt;
  apart = λ k p h. cc;
  live = λ k p j h. cc;
  rests = λ id lt. absurd (omega arith);
}

-- The ids below `i` and `i` itself.
one_more : (i id : ℕ) → (id < i) ⊎ (id ≡ i) → id < suc i
one_more i id (inl lt) = omega arith
one_more i id (inr e) = omega arith

one_less : (i id : ℕ) → id < suc i → (id < i) ⊎ (id ≡ i)
one_less i id lt = elim (Bool-cases (id == i)) [
  | inl e ↦ inr (==→eq id i e)
  | inr ne ↦ inl (omega (arith, ==→ne id i ne))
]

module _ (bid_dist ask_dist qty_dist : ℕ → ℕ) (in_range : AreInRange bid_dist ask_dist)
    (some_qty : (i : ℕ) → 0 < qty_dist i) where
  seed_orders-IsSided :
      (i count left capacity : ℕ) (b : Book) (queues : Bool → ℕ → List ℕ)
      → IsSided (λ id. id < i) b queues (slots i left)
      → b.pool.capacity ≡ capacity
      → capacity ≡ i + left
      → count ≤ left
      → Returns
          (submit_each bitset_ops b (seed_orders bid_dist ask_dist qty_dist i count))
          (IsSidedBook capacity (i + count))
  unfolding submit_each seed_orders
  seed_orders-IsSided i zero left capacity b queues s cap size le = (
    b,
    refl,
    (queues, slots i left, IsSided-map (λ id lt. omega arith) (λ id lt. omega arith) s, cap),
  )
  seed_orders-IsSided i (suc count) zero capacity b queues s cap size le = absurd (omega arith)
  seed_orders-IsSided i (suc count) (suc left) capacity b queues s cap size le =
      let is_buy = i % 2 == 0 in
      let price = if is_buy then bid_dist i else ask_dist i in
      let (b', runs, (s', cap')) =
        submit_order-IsSided (λ id. id < i) b queues (slots (suc i) left) i is_buy price
          (qty_dist i) (at_next_free (slots (suc i) left) s)
          (drawn-IsApart bid_dist ask_dist qty_dist in_range is_buy i) (λ lt. omega arith)
          (some_qty i) (omega (arith, cap)) in
      let again =
        seed_orders-IsSided (suc i) count left capacity b' _
          (IsSided-map (one_more i) (one_less i) s') (cap' ∙ cap) (omega arith) (omega arith) in
      let sum : suc i + count ≡ i + suc count = omega arith in
      rw runs (
        subst
          (λ n.
            Returns
              (submit_each bitset_ops b' (seed_orders bid_dist ask_dist qty_dist (suc i) count))
              (IsSidedBook capacity n))
          sum again)

  seed_book-IsSided :
      (live : ℕ)
      → live ≤ 100000
      → Returns (seed_book bid_dist ask_dist qty_dist live) (IsSidedBook 100000 live)
  unfolding seed_book
  seed_book-IsSided live le =
      let (b, e, (cap, v)) = init-IsBook 100000 (omega arith) (omega arith) in
      let sum : 0 + live ≡ live = omega arith in
      rw e (
        subst
          (λ n.
            Returns (submit_each bitset_ops b (seed_orders bid_dist ask_dist qty_dist 0 live))
              (IsSidedBook 100000 n))
          sum
          (seed_orders-IsSided 0 live 100000 100000 b no_queues (new-IsSided 100000 b v) cap
            (omega arith) le))

-- The ids below `live` once one of them has been put back.
put_back : (live id x : ℕ) → id < live → ((x < live) × (x ≢ id)) ⊎ (x ≡ id) → x < live
put_back live id x lt (inl before) = before.0
put_back live id x lt (inr e) = omega arith

taken_out : (live id x : ℕ) → x < live → ((x < live) × (x ≢ id)) ⊎ (x ≡ id)
taken_out live id x lt = elim (Bool-cases (x == id)) [
  | inl e ↦ inr (==→eq x id e)
  | inr ne ↦ inl (lt, ==→ne x id ne)
]

-- The loop of scenario B.
cancel_and_submit-IsSided :
    (capacity live : ℕ) (b : Book) (ops : List Operation)
    → IsSidedBook capacity live b
    → AreSided live ops
    → Returns (cancel_and_submit b ops) (IsSidedBook capacity live)
unfolding cancel_and_submit
cancel_and_submit-IsSided capacity live b [] s known = (b, refl, s)
cancel_and_submit-IsSided capacity live b (op ∷ ops) (queues, free, s, cap)
      (lt, at, some_left, known) =
    let (b1, cancels, (queues1, i, s1, cap1, inside)) =
      cancel_order-IsSided (λ id. id < live) b queues free op.id s lt in
    let (b2, submits, (s2, cap2)) =
      submit_order-IsSided (λ id. (id < live) × (id ≢ op.id)) b1 queues1 free op.id op.is_buy
        op.new_price op.new_qty (at_next_free free s1) at (λ gone. gone.1 refl) some_left
        (omega (arith, cap1, inside)) in
    rw (cancels, submits)
      (cancel_and_submit-IsSided capacity live b2 ops
        (
          _,
          free,
          IsSided-map (λ x. put_back live op.id x lt) (taken_out live op.id) s2,
          cap2 ∙ cap1 ∙ cap,
        )
        known)

-- Scenario A on a new book, with between 1 and 100'000 live orders, bids drawn below MAX_PRICES / 2, asks
-- from there to below MAX_PRICES and seeded quantities above 0, runs without a fault: the seeding and
-- every operation that `generate_ops` draws. The book that it leaves is well formed, no first order of
-- a level has a `prev`, and every seeded order still rests.
pub scenario_replace-IsLiveBook :
    (bid_dist ask_dist qty_dist op_bid_dist op_ask_dist op_qty_dist rng : ℕ → ℕ) (live count : ℕ)
    → AreInRange bid_dist ask_dist
    → ((i : ℕ) → 0 < qty_dist i)
    → AreInRange op_bid_dist op_ask_dist
    → 0 < live
    → live ≤ 100000
    → Returns
        (scenario_replace bid_dist ask_dist qty_dist live
          (generate_ops op_bid_dist op_ask_dist op_qty_dist rng live 0 count))
        (IsLiveBook (λ id. id < live))
unfolding scenario_replace
scenario_replace-IsLiveBook bid_dist ask_dist qty_dist op_bid_dist op_ask_dist op_qty_dist rng live
      count in_range some_qty op_in_range pos le =
    let ops = generate_ops op_bid_dist op_ask_dist op_qty_dist rng live 0 count in
    let (b, e, (queues, free, s, cap)) =
      seed_book-IsSided bid_dist ask_dist qty_dist in_range some_qty live le in
    let known =
      generate_ops-AreOnLive op_bid_dist op_ask_dist op_qty_dist op_in_range rng live pos 0 count in
    rw e (
      replace_each-IsLiveBook (λ id. id < live) b ops (queues, free, s.book, s.fresh, s.rests)
        known)

-- Scenario B on a new book, with between 1 and 100'000 live orders, for the seeding and the operations
-- bids drawn below MAX_PRICES / 2 and asks from there to below MAX_PRICES, and quantities above 0, runs
-- without a fault: the seeding, and the cancel and the submit of every operation that `generate_ops`
-- draws. In the book that it leaves the sides are still apart, every bid below MAX_PRICES / 2 and every
-- ask from there on, the ids of the seeded orders and no others rest, the book is well formed, and no
-- first order of a level has a `prev`.
pub scenario_cancel_submit-IsSidedBook :
    (bid_dist ask_dist qty_dist op_bid_dist op_ask_dist op_qty_dist rng : ℕ → ℕ) (live count : ℕ)
    → AreInRange bid_dist ask_dist
    → ((i : ℕ) → 0 < qty_dist i)
    → AreInRange op_bid_dist op_ask_dist
    → ((i : ℕ) → 0 < op_qty_dist i)
    → 0 < live
    → live ≤ 100000
    → Returns
        (scenario_cancel_submit bid_dist ask_dist qty_dist live
          (generate_ops op_bid_dist op_ask_dist op_qty_dist rng live 0 count))
        (IsSidedBook 100000 live)
unfolding scenario_cancel_submit
scenario_cancel_submit-IsSidedBook bid_dist ask_dist qty_dist op_bid_dist op_ask_dist op_qty_dist
      rng live count in_range some_qty op_in_range some_op_qty pos le =
    let ops = generate_ops op_bid_dist op_ask_dist op_qty_dist rng live 0 count in
    let (b, e, s) = seed_book-IsSided bid_dist ask_dist qty_dist in_range some_qty live le in
    rw e (
      cancel_and_submit-IsSided 100000 live b ops s (
        generate_ops-AreSided op_bid_dist op_ask_dist op_qty_dist op_in_range rng live some_op_qty
          pos 0 count))
