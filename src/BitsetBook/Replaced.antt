-- ===== src/BitsetBook/Replaced.antt =====
-- `replace_order` where the order moves to the end of a level: the book is that of the order cancelled
-- and added again.
use lobook.Base.{
  ℕ, ◌<◌, ◌≡◌, ◌≢◌, sym, ap, ◌∙◌, Bool, inl, inr, true, false, not, Bool-cases, ◌||◌, List, [], ◌∷◌,
  ◌++◌, ◌==◌, if◌then◌else◌, update_self, arith,
}
use mathlib.Core.Path.{subst}
use lobook.PriceBitset.{max_prices}
use lobook.PriceBitset.History.{Holds}
use lobook.Pool.{null_idx, Order, PriceLevel, Pool}
use lobook.Chain.Lists.{has, occupied, erase}
use lobook.BitsetBook.{Side, Book, side}
use lobook.BitsetBook.Represents.{prev_of, entry, head_null, IsQueue, IsBook, put}
use lobook.BitsetBook.Fresh.{AreFresh}
use lobook.BitsetBook.Write.{pool_kept, in_ladder}
use lobook.BitsetBook.MatchBest.{book_of}
use lobook.BitsetBook.Traded.{side_kept, book_of_again}
use lobook.BitsetBook.Unlinked.{IsUnlinkedPool}
use lobook.BitsetBook.Cancel.{removed_level, freed-entry}
use lobook.BitsetBook.Cancelled.{IsRemoved, left_pool, in_book, cancelled}
use lobook.BitsetBook.Moved.{with_terms, alone-IsAdded, behind-IsAdded}
use lobook.BitsetBook.Moves.{with_behind}
use lobook.Chain.Frame.{has-tail}
use lobook.BitsetBook.Added.{IsAdded, added-IsBook, added-AreFresh, added-entry}

-- The queues with the order at `i` taken from one and put at the end of another.
abbrev pub move_queue : (Bool → ℕ → List ℕ) → Bool → ℕ → ℕ → ℕ → Bool → ℕ → List ℕ
move_queue queues k p i price =
    let left = put queues k p (erase i (queues k p)) in put left k price (left k price ++ (i ∷ []))

-- A book whose order at `i` has new terms, with the queues and the free list given.
abbrev pub IsReplaced :
    Book → (Bool → ℕ → List ℕ) → ℕ → ℕ → (Bool → ℕ → List ℕ) → List ℕ → Book → Type 0
IsReplaced b queues i qty queues' free b' =
    IsBook b' queues' free
    × (entry b'.pool i ≡ ((b.pool.orders i).id, qty))
    × ((j : ℕ) → j ≢ i → entry b'.pool j ≡ entry b.pool j)
    × (AreFresh b.pool queues → AreFresh b'.pool queues')

module _ {b : Book} {queues : Bool → ℕ → List ℕ} {free : List ℕ} (i : ℕ) (v : IsBook b queues free)
    (h : has i (queues (b.pool.orders i).is_buy (b.pool.orders i).price) ≡ true)
    (head_fresh : ((side b (b.pool.orders i).is_buy).levels (b.pool.orders i).price).head ≡ i
      → prev_of b.pool i ≡ null_idx)
    (m1 : Pool) (u : IsUnlinkedPool b.pool m1 i) (s' : Side)
    (x : IsRemoved b queues
      (b.pool.orders i).is_buy
      (b.pool.orders i).price
      (removed_level (b.pool.orders i).is_buy (b.pool.orders i).price i v h head_fresh)
      (erase i (queues (b.pool.orders i).is_buy (b.pool.orders i).price))
      s') where
  abbrev o : Order
  o = b.pool.orders i

  abbrev c : List ℕ
  c = queues o.is_buy o.price

  abbrev freed_pool : Pool
  freed_pool = left_pool i v h head_fresh m1 u

  -- The book of the order cancelled.
  abbrev without : Book
  without = book_of b o.is_buy s' freed_pool

  abbrev left : Bool → ℕ → List ℕ
  left = put queues o.is_buy o.price (erase i c)

  without-IsBook : IsBook without left (i ∷ free)
  without-IsBook = (cancelled i v h head_fresh m1 u s' x).0

  without-AreFresh : AreFresh b.pool queues → AreFresh without.pool left
  without-AreFresh = (cancelled i v h head_fresh m1 u s' x).3

  without_pool : without.pool ≡ freed_pool
  without_pool = pool_kept b freed_pool s' o.is_buy

  others_new : (k : Bool) (q j : ℕ) → has j (left k q) ≡ true → (without.pool.orders j).id ≢ o.id
  others_new k q j inside e =
      let r =
        ((without-IsBook.sides k).at q (in_ladder without-IsBook k q j inside)).resting j inside in
      let gone : without.pool.id_map o.id ≡ null_idx =
        ap (λ (m : Pool). m.id_map o.id) without_pool ∙ update_self m1.id_map o.id null_idx in
      let null : j ≡ null_idx = sym r.mapped ∙ ap without.pool.id_map e ∙ gone in
      omega (arith, r.in_pool, without-IsBook.pool.small, null)

  known : o.id < without.pool.capacity
  known = rw (without_pool, u.cap) (in_book i v h head_fresh).id_known

  pub moved-IsReplaced :
      (price qty : ℕ) (m' : Pool) (s3 : Side)
      → price < max_prices
      → IsAdded freed_pool m' i o.id price qty o.is_buy (s'.levels price) (left o.is_buy price)
      → ((q : ℕ) → q ≢ price → s3.levels q ≡ s'.levels q)
      → s3.levels price ≡ (
          if (s'.levels price).head == null_idx
          then record { head = i; tail = i }
          else record { head = (s'.levels price).head; tail = i })
      → Holds (λ q. occupied (left o.is_buy q) || price == q) s3.index
      → IsReplaced b queues i qty
          (move_queue queues o.is_buy o.price i price)
          free
          (book_of b o.is_buy s3 m')
  moved-IsReplaced price qty m' s3 lt a others at_price index =
      let here : side without o.is_buy ≡ s' = side_kept b o.is_buy s' freed_pool in
      let a' : IsAdded without.pool m' i o.id price qty o.is_buy
          ((side without o.is_buy).levels price) (left o.is_buy price) =
        rw (without_pool, here) a in
      let again = book_of_again b o.is_buy s' s3 freed_pool m' in
      let entries = added-entry without-IsBook lt known others_new a' in
      let final_pool = pool_kept b m' s3 o.is_buy in
      (
        subst (λ y. IsBook y (move_queue queues o.is_buy o.price i price) free) again
            (added-IsBook without-IsBook lt known others_new a' s3 (rw here others)
              (at_price ∙ ap appended (sym here)) index),
        rw final_pool entries.0,
        λ j ne. rw final_pool (
            entries.1 j ne
            ∙ ap (λ m. entry m j) without_pool
            ∙ freed-entry o.is_buy o.price i v h head_fresh m1 u j),
        λ fresh. rw final_pool (
            added-AreFresh without-IsBook lt known others_new a' s3 (rw here others)
              (at_price ∙ ap appended (sym here)) index (without-AreFresh fresh)),
      )
    where
      appended : Side → PriceLevel
      appended t =
          if (t.levels price).head == null_idx
          then record { head = i; tail = i }
          else record { head = (t.levels price).head; tail = i }

  module _ (price : ℕ) (lt : price < max_prices) where
    abbrev l : PriceLevel
    l = s'.levels price

    left-IsQueue : IsQueue freed_pool o.is_buy price l (left o.is_buy price)
    left-IsQueue =
        subst (λ m. IsQueue m o.is_buy price l (left o.is_buy price)) without_pool
          (subst
            (λ (t : Side).
              IsQueue without.pool o.is_buy price (t.levels price) (left o.is_buy price))
            (side_kept b o.is_buy s' freed_pool) ((without-IsBook.sides o.is_buy).at price lt))

    pub head_null-left : (l.head == null_idx) ≡ not (occupied (left o.is_buy price))
    head_null-left = head_null (left o.is_buy price) (rw u.cap v.pool.small) left-IsQueue

    tail_inside : occupied (left o.is_buy price) ≡ true → has l.tail (left o.is_buy price) ≡ true
    tail_inside = has-tail l.tail (left o.is_buy price) left-IsQueue.level.tail

    pub left_tail_in_pool : (l.head == null_idx) ≡ false → l.tail < m1.capacity
    left_tail_in_pool busy =
        (left-IsQueue.resting l.tail (tail_inside (ground (arith, head_null-left)))).in_pool

    pub with_behind-IsAdded :
        (qty : ℕ)
        → IsAdded freed_pool
            (with_terms (with_behind m1 i l) i price qty)
            i
            o.id
            price
            qty
            o.is_buy
            l
            (left o.is_buy price)
    with_behind-IsAdded qty = elim (Bool-cases (occupied (left o.is_buy price))) [
      | inl busy ↦
          rw (head_null-left, busy)
            (behind-IsAdded i v h head_fresh m1 u price qty l (left o.is_buy price) busy
              (λ e. ground (arith, without-IsBook.apart o.is_buy price l.tail (tail_inside busy))))
      | inr idle ↦
          rw (head_null-left, idle)
            (alone-IsAdded i v h head_fresh m1 u price qty l (left o.is_buy price) idle)
    ]
