-- ===== src/BitsetBook/Moved.antt =====
-- The pool after `replace_order` has put an order behind the others of a level: that of the order
-- cancelled and added again.
use lobook.Base.{
  ℕ, ◌≡◌, ◌≢◌, refl, inl, inr, Bool, true, false, List, ◌==◌, update, Bool-cases, ==→eq, fun_ext,
  arith,
}
use lobook.Pool.{null_idx, Order, PriceLevel, Pool}
use lobook.Pool.Access.{with_next, with_prev}
use lobook.Chain.Lists.{has, occupied}
use lobook.BitsetBook.{Book, side}
use lobook.BitsetBook.Represents.{prev_of, IsBook}
use lobook.BitsetBook.Unlinked.{IsUnlinkedPool}
use lobook.BitsetBook.Cancelled.{left_pool, in_book}
use lobook.BitsetBook.Added.{IsAdded}

abbrev pub with_terms : Pool → ℕ → ℕ → ℕ → Pool
with_terms m i price qty = record m {
  orders = update m.orders i (record (m.orders i) { price = price; qty = qty });
}

abbrev pub alone : Pool → ℕ → Pool
alone m i = with_next (with_prev m i null_idx) i null_idx

abbrev pub behind : Pool → ℕ → ℕ → Pool
behind m i tail = with_next (with_next (with_prev m i tail) tail i) i null_idx

module _ {b : Book} {queues : Bool → ℕ → List ℕ} {free : List ℕ} (i : ℕ) (v : IsBook b queues free)
    (h : has i (queues (b.pool.orders i).is_buy (b.pool.orders i).price) ≡ true)
    (head_fresh : ((side b (b.pool.orders i).is_buy).levels (b.pool.orders i).price).head ≡ i
      → prev_of b.pool i ≡ null_idx)
    (m1 : Pool) (u : IsUnlinkedPool b.pool m1 i) (price qty : ℕ) (l : PriceLevel) (c : List ℕ) where
  abbrev o : Order
  o = b.pool.orders i

  abbrev freed_pool : Pool
  freed_pool = left_pool i v h head_fresh m1 u

  ids_restored : m1.id_map ≡ update freed_pool.id_map o.id i
  ids_restored = fun_ext λ id. elim (Bool-cases (o.id == id)) [
    | inl e ↦ rw (e, ← ==→eq o.id id e, u.id_map) (in_book i v h head_fresh).mapped
    | inr ne ↦ rw ne refl
  ]

  pub alone-IsAdded :
      occupied c ≡ false
      → IsAdded freed_pool (with_terms (alone m1 i) i price qty) i o.id price qty o.is_buy l c
  alone-IsAdded idle = record {
    cap = refl;
    next_free = ground arith;
    id_map = ids_restored;
    new_id = ground (arith, (u.place i).id);
    new_price = ground arith;
    new_qty = ground arith;
    new_side = ground (arith, (u.place i).is_buy);
    new_next = ground arith;
    new_prev = λ busy. ground arith;
    first_prev = λ idle. ground arith;
    linked_on = λ busy. ground arith;
    same = λ j ne other. rest j ne;
  }
    where
      rest : (j : ℕ) → j ≢ i → (with_terms (alone m1 i) i price qty).orders j ≡ freed_pool.orders j
      rest j ne = ground arith

  pub behind-IsAdded :
      occupied c ≡ true
      → l.tail ≢ i
      → IsAdded freed_pool
          (with_terms (behind m1 i l.tail) i price qty)
          i
          o.id
          price
          qty
          o.is_buy
          l
          c
  behind-IsAdded busy apart = record {
    cap = refl;
    next_free = ground arith;
    id_map = ids_restored;
    new_id = ground (arith, (u.place i).id);
    new_price = ground arith;
    new_qty = ground arith;
    new_side = ground (arith, (u.place i).is_buy);
    new_next = ground arith;
    new_prev = λ _. ground arith;
    first_prev = λ idle. ground arith;
    linked_on = λ _. linked;
    same = λ j ne other. rest j ne (other busy);
  }
    where
      rest :
          (j : ℕ)
          → j ≢ i
          → j ≢ l.tail
          → (with_terms (behind m1 i l.tail) i price qty).orders j ≡ freed_pool.orders j
      rest j ne other = ground arith

      linked :
          (with_terms (behind m1 i l.tail) i price qty).orders l.tail
          ≡ record (freed_pool.orders l.tail) { next = i }
      linked = ground arith
