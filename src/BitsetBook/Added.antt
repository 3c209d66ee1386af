-- ===== src/BitsetBook/Added.antt =====
-- The links of the book after an order has been put behind the others of its price, in the first
-- free slot.
use lobook.Base.{
  ℕ, ◌<◌, ◌≡◌, ◌≢◌, refl, sym, ap, ◌∙◌, inl, inr, Bool, true, false, ◌||◌, List, [], ◌∷◌, ◌++◌,
  ◌==◌, if◌then◌else◌, update, update_self, update_ne, ◌&&◌, Bool-cases, ==→eq, ==→ne, arith,
}
use lobook.PriceBitset.{max_prices}
use lobook.PriceBitset.History.{Holds, Holds-ext}
use lobook.Pool.{null_idx, Order, PriceLevel, Pool}
use lobook.Chain.Lists.{has, occupied, occupied_of_ne, occupied-append, has-append}
use lobook.Chain.Unlink.{NoNull}
use lobook.Chain.Frame.{Linked-frame, has-tail}
use lobook.Chain.Append.{IsAppended, append-IsLevel}
use lobook.BitsetBook.{Side, Book, side, set_side}
use lobook.BitsetBook.Represents.{next_of, prev_of, entry, IsResting, IsQueue, IsFree, IsBook, put}
use lobook.BitsetBook.Fresh.{AreFresh, AreFresh-write, IsFresh-append}
use lobook.BitsetBook.Write.{IsWrite, SamePlace, IsResting-frame, IsBook-write, in_ladder}

-- Two orders that differ at most in `next`.
pub record OnlyNext (o' o : Order) : Type 0 where
  pub id : o'.id ≡ o.id
  pub price : o'.price ≡ o.price
  pub is_buy : o'.is_buy ≡ o.is_buy
  pub qty : o'.qty ≡ o.qty
  pub prev : o'.prev ≡ o.prev

-- A pool with the new order in slot `f`, behind the last order of the level `l`.
pub record IsAdded (m m' : Pool) (f id price qty : ℕ) (k : Bool) (l : PriceLevel) (c : List ℕ)
    : Type 0 where
  pub cap : m'.capacity ≡ m.capacity
  pub next_free : m'.next_free ≡ next_of m f
  pub id_map : m'.id_map ≡ update m.id_map id f
  pub new_id : (m'.orders f).id ≡ id
  pub new_price : (m'.orders f).price ≡ price
  pub new_qty : (m'.orders f).qty ≡ qty
  pub new_side : (m'.orders f).is_buy ≡ k
  pub new_next : next_of m' f ≡ null_idx
  pub new_prev : occupied c ≡ true → prev_of m' f ≡ l.tail
  pub first_prev : occupied c ≡ false → prev_of m' f ≡ null_idx
  pub linked_on : occupied c ≡ true → m'.orders l.tail ≡ record (m.orders l.tail) { next = f }
  pub same : (i : ℕ) → i ≢ f → (occupied c ≡ true → i ≢ l.tail) → m'.orders i ≡ m.orders i

module _ {b : Book} {queues : Bool → ℕ → List ℕ} {f : ℕ} {free : List ℕ} {id price qty : ℕ}
    {k : Bool} {m' : Pool} (v : IsBook b queues (f ∷ free)) (lt : price < max_prices)
    (known : id < b.pool.capacity)
    (new : (k' : Bool) (q i : ℕ) → has i (queues k' q) ≡ true → (b.pool.orders i).id ≢ id)
    (a : IsAdded b.pool m' f id price qty k ((side b k).levels price) (queues k price)) where
  abbrev c : List ℕ
  c = queues k price

  abbrev l : PriceLevel
  l = (side b k).levels price

  old : IsQueue b.pool k price l c
  old = (v.sides k).at price lt

  f_outside : (k' : Bool) (q i : ℕ) → has i (queues k' q) ≡ true → i ≢ f
  f_outside k' q i h e = ground (arith, v.apart k' q i h)

  tail_inside : occupied c ≡ true → has l.tail c ≡ true
  tail_inside = has-tail l.tail c old.level.tail

  -- A slot that is not the new one keeps everything but its `next`.
  kept : (i : ℕ) → i ≢ f → OnlyNext (m'.orders i) (b.pool.orders i)
  kept i ne = elim (Bool-cases (occupied c && i == l.tail)) [
    | inl last ↦
        let e : i ≡ l.tail = ground arith in
        rw (e, a.linked_on (ground arith))
          (record { id = refl; price = refl; is_buy = refl; qty = refl; prev = refl })
    | inr other ↦
        rw (a.same i ne (λ busy e. ground arith))
          (record { id = refl; price = refl; is_buy = refl; qty = refl; prev = refl })
  ]

  place : (i : ℕ) → i ≢ f → SamePlace (m'.orders i) (b.pool.orders i)
  place i ne = let o = kept i ne in record { id = o.id; price = o.price; is_buy = o.is_buy }

  mapped :
      (i : ℕ)
      → (b.pool.orders i).id ≢ id
      → b.pool.id_map (b.pool.orders i).id ≡ i
      → m'.id_map (b.pool.orders i).id ≡ i
  mapped i ne e = rw a.id_map (update_ne b.pool.id_map _ _ f (λ q. ne (sym q)) ∙ e)

  appended : IsAppended (next_of b.pool) (prev_of b.pool) (next_of m') (prev_of m') l c f
  appended = record {
    ends = a.new_next;
    follows = λ ne.
        let busy = occupied_of_ne c ne in
        (ap (λ (o : Order). o.next) (a.linked_on busy), a.new_prev busy);
    next_same = λ j h ne. ap (λ (o : Order). o.next) (a.same j (f_outside k price j h) (λ _. ne));
    prev_same = λ j h. (kept j (f_outside k price j h)).prev;
  }

  resting : (i : ℕ) → has i (c ++ (f ∷ [])) ≡ true → IsResting m' k price i
  resting i h = elim (Bool-cases (i == f)) [
    | inl e ↦ rw (==→eq i f e) record {
      in_pool = rw a.cap (v.pool.in_pool f (ground arith));
      at_price = a.new_price;
      on_side = a.new_side;
      id_known = rw (a.new_id, a.cap) known;
      mapped = rw (a.id_map, a.new_id) (update_self b.pool.id_map id f);
    }
    | inr ne ↦
        let inside : has i c ≡ true = ground (arith, has-append i c (f ∷ [])) in
        let r = old.resting i inside in
        IsResting-frame a.cap (place i (==→ne i f ne)) (mapped i (new k price i inside) r.mapped) r
  ]

  queue :
      (l' : PriceLevel)
      → l' ≡ (
          if l.head == null_idx
          then record { head = f; tail = f }
          else record { head = l.head; tail = f })
      → IsQueue m' k price l' (c ++ (f ∷ []))
  queue l' e = record {
    level = append-IsLevel l l' f c old.level no_null f_new appended e;
    resting = resting;
  }
    where
      no_null : NoNull c
      no_null j h = omega (arith, (old.resting j h).in_pool, v.pool.small)

      f_new : has f c ≡ false
      f_new = elim (Bool-cases (has f c)) [
        | inl h ↦ absurd (f_outside k price f h refl)
        | inr h ↦ h
      ]

  rest-IsFree : IsFree m' free
  rest-IsFree = record {
    small = rw a.cap v.pool.small;
    linked = rw a.next_free (
        Linked-frame _ free
          (λ i h.
            ap (λ (o : Order). o.next)
              (a.same i (λ e. ground (arith, v.pool.distinct.0)) (λ busy e. not_tail i h busy e)))
          v.pool.linked.1);
    distinct = v.pool.distinct.1;
    in_pool = λ i h. rw a.cap (v.pool.in_pool i (ground arith));
  }
    where
      not_tail : (i : ℕ) → has i free ≡ true → occupied c ≡ true → i ≡ l.tail → ⊥
      not_tail i h busy e = ground (arith, v.apart k price l.tail (tail_inside busy))

  -- The side with the level rewritten and its bitset holding the price.
  module _ (s' : Side) (others : (q : ℕ) → q ≢ price → s'.levels q ≡ (side b k).levels q)
      (at_price : s'.levels price ≡ (
        if l.head == null_idx
        then record { head = f; tail = f }
        else record { head = l.head; tail = f }))
      (index : Holds (λ q. occupied (queues k q) || price == q) s'.index) where
    added-IsWrite : IsWrite b queues (f ∷ free) k price m' s' (c ++ (f ∷ [])) free
    added-IsWrite = record {
      in_range = lt;
      cap = a.cap;
      kept_levels = others;
      queue = queue (s'.levels price) at_price;
      indexed = Holds-ext (λ q. marks q) index;
      same = λ i out out_free.
          a.same i (λ e. ground arith) (λ busy e. ground (arith, tail_inside busy));
      mapped = λ k' q i h out.
          mapped i (new k' q i h) (((v.sides k').at q (in_ladder v k' q i h)).resting i h).mapped;
      pool = rest-IsFree;
      fresh = λ i h. ground (arith, has-append i c (f ∷ []), v.apart k price i, v.pool.distinct.0);
      others = λ i out out_free. ground arith;
    }
      where
        marks :
            (q : ℕ)
            → (occupied (queues k q) || price == q)
              ≡ occupied (if price == q then c ++ (f ∷ []) else queues k q)
        marks q = ground (arith, occupied-append c f)

    pub added-IsBook :
        IsBook (set_side (record b { pool = m' }) k s') (put queues k price (c ++ (f ∷ []))) free
    added-IsBook = IsBook-write v added-IsWrite

    pub added-AreFresh : AreFresh b.pool queues → AreFresh m' (put queues k price (c ++ (f ∷ [])))
    added-AreFresh fresh = AreFresh-write v added-IsWrite fresh (
        IsFresh-append f c (λ j inside. (kept j (f_outside k price j inside)).prev) a.first_prev
          (fresh k price))

  -- The new slot holds the new order's id and quantity, every other slot what it held.
  pub added-entry : (entry m' f ≡ (id, qty)) × ((i : ℕ) → i ≢ f → entry m' i ≡ entry b.pool i)
  added-entry =
      (ground (arith, a.new_id, a.new_qty), λ i ne. ground (arith, (kept i ne).id, (kept i ne).qty))
