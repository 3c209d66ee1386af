-- ===== src/BitsetBook/Add.antt =====
-- `add_order` on every branch.
use lobook.Base.{
  ℕ, ◌<◌, ◌≡◌, ◌≢◌, refl, sym, ap, ◌∙◌, inl, inr, ◌⊎◌, Bool, true, false, ◌||◌, List, [], ◌∷◌, ◌++◌,
  ◌==◌, if◌then◌else◌, update, update_ne, Bool-cases, ==→eq, ne→==, lt→ltb, Returns, arith,
}
use lobook.PriceBitset.{max_prices}
use lobook.Pool.{null_idx, Order, PriceLevel, Pool}
use lobook.Pool.Access.{with_next, with_prev, set_next-with_next, set_prev-with_prev}
use lobook.PriceBitset.History.{Holds, Holds-ext}
use lobook.BitsetBook.Write.{pool_kept, set_level_self, set_level_ne}
use lobook.Chain.Lists.{has, occupied}
use lobook.Chain.Frame.{has-tail}
use lobook.BitsetBook.{Side, Book, side, set_side, set_level, add_order}
use lobook.BitsetBook.Index.{set_index-Indexed}
use lobook.BitsetBook.Represents.{entry, head_null, IsQueue, IsBook, put}
use lobook.BitsetBook.Fresh.{AreFresh}
use lobook.BitsetBook.Added.{IsAdded, added-IsBook, added-AreFresh, added-entry}

-- The order with a new quantity of the incoming one, alone in its slot.
abbrev pub incoming : ℕ → ℕ → ℕ → Bool → Order
incoming id price qty k = record {
  id = id;
  price = price;
  qty = qty;
  is_buy = k;
  next = null_idx;
  prev = null_idx;
}

module _ {b : Book} {queues : Bool → ℕ → List ℕ} {free : List ℕ} (id price qty : ℕ) (k : Bool)
    (v : IsBook b queues (b.pool.next_free ∷ free)) (lt : price < max_prices)
    (known : id < b.pool.capacity)
    (new : (k' : Bool) (q i : ℕ) → has i (queues k' q) ≡ true → (b.pool.orders i).id ≢ id) where
  open b.pool use {capacity, orders, id_map, next_free}

  abbrev l : PriceLevel
  l = (side b k).levels price

  f_in_pool : next_free < capacity
  f_in_pool = v.pool.in_pool next_free (ground arith)

  old : IsQueue b.pool k price l (queues k price)
  old = (v.sides k).at price lt

  abbrev alone : Pool
  alone = record {
    capacity = capacity;
    orders = update orders next_free (incoming id price qty k);
    id_map = update id_map id next_free;
    next_free = (orders next_free).next;
  }

  alone-IsAdded :
      occupied (queues k price) ≡ false
      → IsAdded b.pool alone next_free id price qty k l (queues k price)
  alone-IsAdded idle = record {
    cap = refl;
    next_free = refl;
    id_map = refl;
    new_id = ground arith;
    new_price = ground arith;
    new_qty = ground arith;
    new_side = ground arith;
    new_next = ground arith;
    new_prev = λ busy. ground arith;
    first_prev = λ idle. ground arith;
    linked_on = λ busy. ground arith;
    same = λ i ne other. update_ne orders _ i _ (λ e. ne (sym e));
  }

  abbrev behind : Pool
  behind = with_prev (with_next alone l.tail next_free) next_free l.tail

  behind-IsAdded :
      occupied (queues k price) ≡ true
      → IsAdded b.pool behind next_free id price qty k l (queues k price)
  behind-IsAdded here = record {
    cap = refl;
    next_free = refl;
    id_map = refl;
    new_id = ground (arith, tail_ne here);
    new_price = ground (arith, tail_ne here);
    new_qty = ground (arith, tail_ne here);
    new_side = ground (arith, tail_ne here);
    new_next = ground (arith, tail_ne here);
    new_prev = λ busy. ground (arith, tail_ne here);
    first_prev = λ idle. ground arith;
    linked_on = λ busy. ground (arith, tail_ne busy);
    same = λ i ne other. ground (arith, other here);
  }
    where
      tail_ne : occupied (queues k price) ≡ true → l.tail ≢ next_free
      tail_ne busy e =
          ground (arith, v.apart k price l.tail (has-tail l.tail _ old.level.tail busy))

  -- What the two branches leave: the book with the order in it.
  abbrev Added : Book → Type 0
  Added b' =
      IsBook b' (put queues k price (queues k price ++ (next_free ∷ []))) free
      × (entry b'.pool next_free ≡ (id, qty))
      × ((i : ℕ) → i ≢ next_free → entry b'.pool i ≡ entry b.pool i)
      × (b'.pool.capacity ≡ capacity)
      × (AreFresh b.pool queues
          → AreFresh b'.pool (put queues k price (queues k price ++ (next_free ∷ []))))

  in_book :
      (m' : Pool) (s' : Side)
      → IsAdded b.pool m' next_free id price qty k l (queues k price)
      → ((q : ℕ) → q ≢ price → s'.levels q ≡ (side b k).levels q)
      → s'.levels price ≡ (
          if l.head == null_idx
          then record { head = next_free; tail = next_free }
          else record { head = l.head; tail = next_free })
      → Holds (λ q. occupied (queues k q) || price == q) s'.index
      → Added (set_side (record b { pool = m' }) k s')
  in_book m' s' a others at index = (
    added-IsBook v lt known new a s' others at index,
    rw (pool_kept b m' s' k) (added-entry v lt known new a).0,
    rw (pool_kept b m' s' k) (added-entry v lt known new a).1,
    rw (pool_kept b m' s' k) a.cap,
    λ fresh. rw (pool_kept b m' s' k) (added-AreFresh v lt known new a s' others at index fresh),
  )

  marked :
      occupied (queues k price) ≡ true
      → Holds (λ q. occupied (queues k q) || price == q) (side b k).index
  marked busy = Holds-ext (λ q. at q (Bool-cases (price == q))) (v.sides k).indexed
    where
      at :
          (q : ℕ)
          → ((price == q) ≡ true) ⊎ ((price == q) ≡ false)
          → occupied (queues k q) ≡ (occupied (queues k q) || price == q)
      at q (inl e) = rw (← ==→eq price q e, busy)
      at q (inr ne) = ground (arith, ne)

  -- In a well-formed book with a free slot, `add_order` of a price below MAX_PRICES and an id below the
  -- capacity that no resting order has returns without a fault. The order's slot, the first free one,
  -- is last in the queue of its side and price and holds its id and quantity; the other queues, the
  -- ids and quantities of the other slots and the capacity are as before, and the book is well formed
  -- with one free slot less. Where the `prev` of the first order of every level is NULL_IDX, it is so
  -- again.
  pub add_order-append : Returns (add_order b id price qty k) Added
  unfolding add_order
  add_order-append =
      rw
        (
          ne→== next_free null_idx (omega (arith, f_in_pool, v.pool.small)),
          lt→ltb _ _ f_in_pool,
          lt→ltb _ _ known,
          lt→ltb price max_prices lt,
          head_null _ v.pool.small old,
        )
        (elim (Bool-cases (occupied (queues k price))) [
          | inl busy ↦
              rw
                (
                  busy,
                  set_next-with_next alone l.tail next_free (tail_in_pool busy),
                  set_prev-with_prev (with_next alone l.tail next_free) next_free l.tail f_in_pool,
                )
                (
                  _,
                  refl,
                  in_book behind
                      (set_level (side b k) price (record { head = l.head; tail = next_free }))
                      (behind-IsAdded busy) (set_level_ne (side b k) price _)
                      (set_level_self (side b k) price _ ∙ rw (head_null _ v.pool.small old, busy))
                      (marked busy),
                )
          | inr idle ↦
              let (s', e, x) =
                set_index-Indexed
                  (set_level (side b k) price (record { head = next_free; tail = next_free })) price
                  (v.sides k).indexed lt in
              rw (idle, e)
                (
                  _,
                  refl,
                  in_book alone s' (alone-IsAdded idle)
                      (λ q ne. ap (λ g. g q) x.levels ∙ set_level_ne (side b k) price _ q ne)
                      (ap (λ g. g price) x.levels
                        ∙ set_level_self (side b k) price _
                        ∙ rw (head_null _ v.pool.small old, idle))
                      x.holds,
                )
        ])
    where
      tail_in_pool : occupied (queues k price) ≡ true → l.tail < capacity
      tail_in_pool busy = (old.resting l.tail (has-tail l.tail _ old.level.tail busy)).in_pool
