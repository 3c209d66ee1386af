-- ===== src/BitsetBook/Replace.antt =====
-- `replace_order` of an order that rests in the book, on every branch.
use lobook.Base.{
  ℕ, ◌<◌, ◌≡◌, refl, inl, inr, Bool, true, false, not, ◌||◌, List, ◌==◌, if◌then◌else◌, ltb,
  Bool-cases, ==→eq, ==→ne, lt→ltb, Returns, arith,
}
use mathlib.Core.Path.{subst}
use lobook.PriceBitset.{max_prices}
use lobook.Pool.{null_idx, Order}
use lobook.Chain.Lists.{has}
use lobook.BitsetBook.{Book, side, replace_order}
use lobook.BitsetBook.Represents.{prev_of, IsBook}
use lobook.BitsetBook.Cancelled.{in_book, unknown}
use lobook.BitsetBook.Moves.{set_terms-with_terms}
use lobook.BitsetBook.Replaced.{IsReplaced, move_queue}
use lobook.BitsetBook.Terms.{kept-IsReplaced, move_queue-only}
use lobook.BitsetBook.Requeue.{is_only, only_or_more, in_pool, old_price, price_changed, qty_raised}

module _ {b : Book} {queues : Bool → ℕ → List ℕ} {free : List ℕ} (i qty : ℕ)
    (v : IsBook b queues free)
    (h : has i (queues (b.pool.orders i).is_buy (b.pool.orders i).price) ≡ true)
    (head_fresh : ((side b (b.pool.orders i).is_buy).levels (b.pool.orders i).price).head ≡ i
      → prev_of b.pool i ≡ null_idx) where
  abbrev o : Order
  o = b.pool.orders i

  abbrev k : Bool
  k = o.is_buy

  abbrev c : List ℕ
  c = queues k o.price

  -- The quantity alone is written, at the tests that come to that.
  qty_written :
      (raised : Bool)
      → ltb o.qty qty ≡ raised
      → (raised ≡ true → is_only ((side b k).levels o.price) i ≡ true)
      → Returns (replace_order b o.id o.price qty) (IsReplaced b queues i qty queues free)
  unfolding replace_order
  qty_written true more only =
      let same : (o.price == o.price) ≡ true = ground arith in
      rw
        (
          unknown i v h head_fresh,
          (in_book i v h head_fresh).mapped,
          lt→ltb i b.pool.capacity (in_pool i qty v h head_fresh),
          lt→ltb o.price max_prices (old_price i qty v h head_fresh),
          same,
          more,
          only refl,
          set_terms-with_terms b i o.price qty (in_pool i qty v h head_fresh),
        )
        (_, refl, kept-IsReplaced i qty v h)
  qty_written false more only =
      let same : (o.price == o.price) ≡ true = ground arith in
      rw
        (
          unknown i v h head_fresh,
          (in_book i v h head_fresh).mapped,
          lt→ltb i b.pool.capacity (in_pool i qty v h head_fresh),
          lt→ltb o.price max_prices (old_price i qty v h head_fresh),
          same,
          more,
          set_terms-with_terms b i o.price qty (in_pool i qty v h head_fresh),
        )
        (_, refl, kept-IsReplaced i qty v h)

  same_price : Returns (replace_order b o.id o.price qty) (
      IsReplaced b queues i qty
        (if ltb o.qty qty then move_queue queues k o.price i o.price else queues)
        free)
  same_price = elim (Bool-cases (ltb o.qty qty)) [
    | inr lower ↦ rw lower (qty_written false lower (λ e. cc))
    | inl raised ↦
        elim (only_or_more i ((side b k).levels o.price) c
          ((v.sides k).at o.price (old_price i qty v h head_fresh)).level h) [
            | inl (only, test) ↦
                rw (raised, move_queue-only queues o.price k i only)
                  (qty_written true raised (λ e. test))
            | inr (more, test) ↦ rw raised (qty_raised i qty v h head_fresh more raised test)
          ]
  ]

  -- In a well-formed book, `replace_order` of the id of an order that rests in the queue of its side and
  -- price, to a price below MAX_PRICES and any quantity, returns without a fault, provided that the
  -- order's `prev` is NULL_IDX where it is the head of its level. Where the price is another one or the
  -- quantity is raised, the order has left its queue and is last in that of the new price; else every
  -- queue is as before. Its slot holds its id and the new quantity, every other slot the id and quantity
  -- it had, the free list is the same, and the book is well formed again. Where the `prev` of the first
  -- order of every level is NULL_IDX, it is so again.
  pub replace_order-Replaced :
      (price : ℕ)
      → price < max_prices
      → Returns (replace_order b o.id price qty) (
          IsReplaced b queues i qty
            (if not (o.price == price) || ltb o.qty qty
              then move_queue queues k o.price i price
              else queues)
            free)
  replace_order-Replaced price lt = elim (Bool-cases (o.price == price)) [
    | inl e ↦
        subst
          (λ p. Returns (replace_order b o.id p qty) (
            IsReplaced b queues i qty
              (if not (o.price == p) || ltb o.qty qty
                then move_queue queues k o.price i p
                else queues)
              free))
          (==→eq o.price price e)
          (let same : (o.price == o.price) ≡ true = ground arith in rw same same_price)
    | inr ne ↦ rw ne (price_changed i qty v h head_fresh price lt (==→ne o.price price ne))
  ]
