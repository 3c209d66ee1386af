-- ===== src/BitsetBook/Rejected.antt =====
-- `add_order` of a price beyond the ladder.
use lobook.Base.{
  ℕ, ◌≤◌, ◌<◌, ◌≡◌, ◌≢◌, refl, sym, ap, ◌∙◌, Bool, true, false, List, ◌∷◌, update, update_self,
  update_ne, ltb, lt→ltb, ne→==, ok, fault, Returns, arith,
}
use lobook.PriceBitset.{max_prices}
use lobook.Pool.{null_idx, Order, Pool}
use lobook.Chain.Lists.{has}
use lobook.Chain.Frame.{Linked-frame}
use lobook.BitsetBook.{
  Book, side, is_unknown, add_order, cancel_order, get_quantity, remove_from_level,
}
use lobook.BitsetBook.Represents.{IsSide, IsBook}
use lobook.BitsetBook.Write.{IsQueue-frame}
use lobook.BitsetBook.Add.{incoming}

module _ {b : Book} {queues : Bool → ℕ → List ℕ} {free : List ℕ} (id price qty : ℕ) (k : Bool)
    (v : IsBook b queues (b.pool.next_free ∷ free)) (beyond : max_prices ≤ price)
    (known : id < b.pool.capacity)
    (new : (k' : Bool) (q i : ℕ) → has i (queues k' q) ≡ true → (b.pool.orders i).id ≢ id) where
  open b.pool use {capacity, orders, id_map, next_free}

  abbrev taken : Pool
  taken = record {
    capacity = capacity;
    orders = update orders next_free (incoming id price qty k);
    id_map = update id_map id next_free;
    next_free = (orders next_free).next;
  }

  slot_in_pool : next_free < capacity
  slot_in_pool = v.pool.in_pool next_free (ground arith)

  queued_ne : (k' : Bool) (q i : ℕ) → has i (queues k' q) ≡ true → i ≢ next_free
  queued_ne k' q i h e = ground (arith, v.apart k' q i h)

  taken-IsSide : (k' : Bool) → IsSide taken k' (side b k') (queues k')
  taken-IsSide k' = record {
    at = λ q lt.
        IsQueue-frame refl (queues k' q)
          (λ i h. update_ne orders next_free i _ (λ e. queued_ne k' q i h (sym e)))
          (λ i h.
            update_ne id_map id (orders i).id next_free (λ e. new k' q i h (sym e))
            ∙ (((v.sides k').at q lt).resting i h).mapped)
          ((v.sides k').at q lt);
    outside = (v.sides k').outside;
    indexed = (v.sides k').indexed;
  }

  taken-IsBook : IsBook (record b { pool = taken }) queues free
  taken-IsBook = record {
    sides = taken-IsSide;
    pool = record {
      small = v.pool.small;
      linked =
          Linked-frame (orders next_free).next free
            (λ i h.
              ap (λ (o : Order). o.next)
                (update_ne orders next_free i _ (λ e. ground (arith, v.pool.distinct.0))))
            v.pool.linked.1;
      distinct = v.pool.distinct.1;
      in_pool = λ i h. v.pool.in_pool i (ground arith);
    };
    apart = λ k' q i h. ground (arith, v.apart k' q i h);
  }

  abbrev IsLost : Book → Type 0
  IsLost b' = IsBook b' queues free × (get_quantity b' id ≡ ok qty) × (cancel_order b' id ≡ fault)

  lost : IsLost (record b { pool = taken })
  unfolding get_quantity cancel_order remove_from_level
  lost =
      let here : update id_map id next_free id ≡ next_free = update_self id_map id next_free in
      let order : update orders next_free (incoming id price qty k) next_free
          ≡ incoming id price qty k =
        update_self orders next_free _ in
      let found : is_unknown (record b { pool = taken }) id ≡ false =
        ground (arith, v.pool.small, slot_in_pool) in
      let outside : ltb price max_prices ≡ false = ground arith in
      (
        taken-IsBook,
        rw (found, here, lt→ltb next_free capacity slot_in_pool, order) refl,
        rw (found, here, lt→ltb next_free capacity slot_in_pool, order, outside) refl,
      )

  -- In a well-formed book with a free slot, `add_order` of a price of MAX_PRICES or more and an id below
  -- the capacity that no resting order has returns without a fault and with a well-formed book, but the
  -- slot is lost: it has left the free list and is in no queue. `get_quantity` of the id is the whole
  -- quantity, and `cancel_order` of it is a fault.
  pub add_order-Lost : Returns (add_order b id price qty k) IsLost
  unfolding add_order
  add_order-Lost =
      let outside : ltb price max_prices ≡ false = ground arith in
      rw
        (
          ne→== next_free null_idx (omega (arith, slot_in_pool, v.pool.small)),
          lt→ltb next_free capacity slot_in_pool,
          lt→ltb id capacity known,
          outside,
        )
        (_, refl, lost)
