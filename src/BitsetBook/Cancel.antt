-- ===== src/BitsetBook/Cancel.antt =====
-- `cancel_order` of an order that rests in the book.
use lobook.Base.{
  ℕ, ◌<◌, ◌≡◌, ◌≢◌, refl, sym, ap, ◌∙◌, inl, inr, Bool, true, false, List, [], ◌∷◌, ◌==◌,
  if◌then◌else◌, update, update_ne, Bool-cases, ==→eq, arith,
}
use lobook.PriceBitset.{max_prices}
use lobook.PriceBitset.History.{Holds}
use lobook.Pool.{null_idx, Order, PriceLevel, Pool}
use lobook.Chain.{IsLevel}
use lobook.Chain.Lists.{has, occupied, erase, has-erase, not_has-erase}
use lobook.Chain.Frame.{Linked-frame, BackTail-frame}
use lobook.Chain.Unlink.{has_prev, has_next, unlink-IsLevel, NoNull}
use lobook.BitsetBook.{Side, Book, side}
use lobook.BitsetBook.Represents.{next_of, prev_of, entry, IsResting, IsQueue, IsFree, IsBook, put}
use lobook.BitsetBook.Write.{IsResting-frame, IsWrite, in_ladder}
use lobook.BitsetBook.Fresh.{AreFresh, AreFresh-write, IsFresh-frame, IsFresh-erase}
use lobook.BitsetBook.Unlinked.{IsUnlinkedPool}

module _ {b : Book} {queues : Bool → ℕ → List ℕ} {free : List ℕ} (k : Bool) (p i : ℕ)
    (v : IsBook b queues free) (h : has i (queues k p) ≡ true)
    (head_fresh : ((side b k).levels p).head ≡ i → prev_of b.pool i ≡ null_idx) where
  abbrev c : List ℕ
  c = queues k p

  abbrev o : Order
  o = b.pool.orders i

  abbrev l : PriceLevel
  l = (side b k).levels p

  abbrev pub removed_level : PriceLevel
  removed_level = record {
    head = if l.head == i then o.next else l.head;
    tail = if l.tail == i then o.prev else l.tail;
  }

  pub price_in_ladder : p < max_prices
  price_in_ladder = in_ladder v k p i h

  old : IsQueue b.pool k p l c
  old = (v.sides k).at p price_in_ladder

  pub cancelled-IsResting : IsResting b.pool k p i
  cancelled-IsResting = old.resting i h

  no_null : NoNull c
  no_null j inside = omega (arith, (old.resting j inside).in_pool, v.pool.small)

  pub prev_inside : prev_of b.pool i ≢ null_idx → has (prev_of b.pool i) c ≡ true
  prev_inside = at c old.level h
    where
      at :
          (xs : List ℕ)
          → IsLevel (next_of b.pool) (prev_of b.pool) l xs
          → has i xs ≡ true
          → prev_of b.pool i ≢ null_idx
          → has (prev_of b.pool i) xs ≡ true
      at [] level inside ne = cc
      at (x ∷ xs) level inside ne = elim (Bool-cases (i == x)) [
        | inl e ↦ absurd (ne (head_fresh (level.linked.0 ∙ sym (==→eq i x e))))
        | inr other ↦ has_prev (prev_of b.pool) i x xs level.back (ground arith)
      ]

  pub next_inside : next_of b.pool i ≢ null_idx → has (next_of b.pool i) c ≡ true
  next_inside ne = elim (has_next (next_of b.pool) i l.head c old.level.linked h) [
    | inl e ↦ absurd (ne e)
    | inr inside ↦ inside
  ]

  -- The pool once the order is out of its list, and its slot at the head of the free list.
  module _ (m1 : Pool) (u : IsUnlinkedPool b.pool m1 i) where
    abbrev pub freed : Pool
    freed = record {
      capacity = m1.capacity;
      orders = update m1.orders i (record (m1.orders i) { prev = null_idx; next = m1.next_free });
      id_map = update m1.id_map o.id null_idx;
      next_free = i;
    }

    pub freed-entry : (j : ℕ) → entry freed j ≡ entry b.pool j
    freed-entry j = ground (arith, u.entry j)

    same_slot : (j : ℕ) → j ≢ i → freed.orders j ≡ m1.orders j
    same_slot j ne = update_ne m1.orders i j _ (λ e. ne (sym e))

    outside : (j : ℕ) → has j c ≡ false → freed.orders j ≡ b.pool.orders j
    outside j out =
        same_slot j (λ e. ground arith)
        ∙ u.same j (λ ne e. ground (arith, prev_inside ne)) (λ ne e. ground (arith, next_inside ne))

    still_mapped :
        (j : ℕ)
        → j ≢ i
        → b.pool.id_map (b.pool.orders j).id ≡ j
        → freed.id_map (b.pool.orders j).id ≡ j
    still_mapped j ne e =
        update_ne m1.id_map _ _ null_idx
          (λ same. ne (sym e ∙ ap b.pool.id_map (sym same) ∙ cancelled-IsResting.mapped))
        ∙ ap (λ g. g (b.pool.orders j).id) u.id_map
        ∙ e

    left_ne : (j : ℕ) → has j (erase i c) ≡ true → j ≢ i
    left_ne j inside e = ground (arith, not_has-erase i c old.level.distinct)

    pub freed-IsQueue : IsQueue freed k p removed_level (erase i c)
    freed-IsQueue = record {
      level = record {
        linked =
            Linked-frame removed_level.head (erase i c)
              (λ j inside. ap (λ (x : Order). x.next) (same_slot j (left_ne j inside)))
              level.linked;
        back =
            BackTail-frame (erase i c)
              (λ j inside. ap (λ (x : Order). x.prev) (same_slot j (left_ne j inside))) level.back;
        tail = level.tail;
        distinct = level.distinct;
      };
      resting = λ j inside.
          let ne = left_ne j inside in
          let before = old.resting j (has-erase j i c inside) in
          IsResting-frame u.cap (rw (same_slot j ne) (u.place j)) (still_mapped j ne before.mapped)
            before;
    }
      where
        level : IsLevel (next_of m1) (prev_of m1) removed_level (erase i c)
        level = unlink-IsLevel u.links l removed_level c old.level no_null h head_fresh refl refl

    pub freed-IsFree : IsFree freed (i ∷ free)
    freed-IsFree = record {
      small = rw u.cap v.pool.small;
      linked = (
        refl,
        let at : next_of freed i ≡ b.pool.next_free = ground (arith, u.next_free) in
            rw at (
              Linked-frame b.pool.next_free free
                (λ j inside. ap (λ (x : Order). x.next) (outside j (not_queued j inside)))
                v.pool.linked),
      );
      distinct = (v.apart k p i h, v.pool.distinct);
      in_pool = λ j inside. elim (Bool-cases (j == i)) [
        | inl e ↦ rw (==→eq j i e, u.cap) cancelled-IsResting.in_pool
        | inr ne ↦ rw u.cap (v.pool.in_pool j (ground arith))
      ];
    }
      where
        not_queued : (j : ℕ) → has j free ≡ true → has j c ≡ false
        not_queued j inside = ground (arith, v.apart k p j)

    pub freed-IsWrite :
        (s' : Side)
        → ((q : ℕ) → q ≢ p → s'.levels q ≡ (side b k).levels q)
        → s'.levels p ≡ removed_level
        → Holds (λ q. occupied (if p == q then erase i c else queues k q)) s'.index
        → IsWrite b queues free k p freed s' (erase i c) (i ∷ free)
    freed-IsWrite s' others here index = record {
      in_range = price_in_ladder;
      cap = u.cap;
      kept_levels = others;
      queue = rw here freed-IsQueue;
      indexed = index;
      same = λ j out _. outside j out;
      mapped = λ k' q j inside out.
          still_mapped j (λ e. ground arith)
            (((v.sides k').at q (in_ladder v k' q j inside)).resting j inside).mapped;
      pool = freed-IsFree;
      fresh = λ j inside. ground (arith, left_ne j inside, has-erase j i c inside, v.apart k p j);
      others = λ j out out_free. ground arith;
    }

    pub freed-AreFresh :
        (s' : Side)
        → IsWrite b queues free k p freed s' (erase i c) (i ∷ free)
        → AreFresh b.pool queues
        → AreFresh freed (put queues k p (erase i c))
    freed-AreFresh s' w fresh = AreFresh-write v w fresh (
        IsFresh-frame (erase i c)
          (λ j inside. ap (λ (x : Order). x.prev) (same_slot j (left_ne j inside)))
          (IsFresh-erase l.head c u.links old.level.linked old.level.back no_null h (fresh k p)))
