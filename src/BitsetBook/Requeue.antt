-- ===== src/BitsetBook/Requeue.antt =====
-- `replace_order` where the order goes to the end of a queue.
use lobook.Base.{
  ℕ, ◌<◌, ◌≡◌, ◌≢◌, refl, sym, ap, ◌∙◌, inl, inr, ◌⊎◌, Bool, true, false, not, ◌&&◌, ◌||◌, List, [],
  ◌∷◌, ◌==◌, if◌then◌else◌, ltb, Bool-cases, ==→eq, ne→==, lt→ltb, Returns, arith,
}
use mathlib.Core.Path.{subst}
use lobook.PriceBitset.{max_prices}
use lobook.PriceBitset.History.{Holds-ext}
use lobook.Pool.{null_idx, Order, PriceLevel, Pool, unlink_nodes, unlink_level}
use lobook.Chain.{IsLevel}
use lobook.Chain.Lists.{has, occupied, erase, has-last_of}
use lobook.BitsetBook.{Side, Book, side, set_level, replace_order}
use lobook.BitsetBook.Represents.{prev_of, IsBook, put}
use lobook.BitsetBook.Write.{set_level_self, set_level_ne}
use lobook.BitsetBook.Unlinked.{IsUnlinkedPool, unlink_nodes-Unlinked}
use lobook.BitsetBook.Cancel.{price_in_ladder, removed_level, prev_inside, next_inside}
use lobook.BitsetBook.Cancelled.{
  IsRemoved, in_book, unknown, removed, neighbour, empty_test, occupied-erase, left_pool,
}
use lobook.BitsetBook.Moved.{behind, with_terms}
use lobook.BitsetBook.Moves.{
  remove_runs, with_behind, append_to_level-AppendedTo, set_terms-book_of, move_to_end_runs,
}
use lobook.BitsetBook.Added.{IsAdded}
use lobook.BitsetBook.Replaced.{
  IsReplaced, move_queue, moved-IsReplaced, left_tail_in_pool, with_behind-IsAdded,
}

-- The two tests that find an order alone in its level.
abbrev pub is_only : PriceLevel → ℕ → Bool
is_only l i = l.head == i && l.tail == i

pub only_or_more :
    {nx pv : ℕ → ℕ} (i : ℕ) (l : PriceLevel) (c : List ℕ)
    → IsLevel nx pv l c
    → has i c ≡ true
    → ((c ≡ i ∷ []) × (is_only l i ≡ true))
      ⊎ ((occupied (erase i c) ≡ true) × (is_only l i ≡ false))
only_or_more i l [] level h = cc
only_or_more i l (x ∷ []) level h =
    let e : i ≡ x = ground arith in
    inl (ap (λ y. y ∷ []) (sym e), ground (arith, level.linked.0, level.tail))
only_or_more i l (x ∷ y ∷ ys) level h =
    inr
      (ground arith, ground (arith, level.linked.0, level.tail, level.distinct.0, has-last_of y ys))

put_here :
    (queues : Bool → ℕ → List ℕ) (k : Bool) (p : ℕ) (c' : List ℕ) (q : ℕ)
    → put queues k p c' k q ≡ (if p == q then c' else queues k q)
put_here queues true p c' q = refl
put_here queues false p c' q = refl

with_behind-capacity :
    (m : Pool) (i : ℕ) (l : PriceLevel) → (with_behind m i l).capacity ≡ m.capacity
with_behind-capacity m i l = ground arith

module _ {b : Book} {queues : Bool → ℕ → List ℕ} {free : List ℕ} (i qty : ℕ)
    (v : IsBook b queues free)
    (h : has i (queues (b.pool.orders i).is_buy (b.pool.orders i).price) ≡ true)
    (head_fresh : ((side b (b.pool.orders i).is_buy).levels (b.pool.orders i).price).head ≡ i
      → prev_of b.pool i ≡ null_idx) where
  abbrev o : Order
  o = b.pool.orders i

  abbrev k : Bool
  k = o.is_buy

  abbrev c : List ℕ
  c = queues k o.price

  abbrev left : Bool → ℕ → List ℕ
  left = put queues k o.price (erase i c)

  pub in_pool : i < b.pool.capacity
  in_pool = (in_book i v h head_fresh).in_pool

  pub old_price : o.price < max_prices
  old_price = price_in_ladder k o.price i v h head_fresh

  unlinked : Returns (unlink_nodes b.pool o) (λ m1. IsUnlinkedPool b.pool m1 i)
  unlinked =
      unlink_nodes-Unlinked b.pool i
        (λ ne. neighbour i v h head_fresh _ (prev_inside k o.price i v h head_fresh ne))
        (λ ne. neighbour i v h head_fresh _ (next_inside k o.price i v h head_fresh ne))

  pub price_changed :
      (price : ℕ)
      → price < max_prices
      → o.price ≢ price
      → Returns
          (replace_order b o.id price qty)
          (IsReplaced b queues i qty (move_queue queues k o.price i price) free)
  unfolding replace_order unlink_level
  price_changed price lt ne =
      let (m1, e1, u) = unlinked in
      let (s', e2, x) = removed i v h head_fresh m1 u in
      let held =
        Holds-ext (λ q. ap occupied (sym (put_here queues k o.price (erase i c) q))) x.index in
      let (b2, e3, y) =
        append_to_level-AppendedTo b s' m1 i price held lt (rw u.cap in_pool) k (u.place i).is_buy
          (left_tail_in_pool i v h head_fresh m1 u s' x price lt) in
      let l = s'.levels price in
      rw
        (
          unknown i v h head_fresh,
          (in_book i v h head_fresh).mapped,
          lt→ltb i b.pool.capacity in_pool,
          lt→ltb o.price max_prices old_price,
          ne→== o.price price ne,
          remove_runs b i o m1 s' old_price e1 e2,
          e3,
          y.book,
          set_terms-book_of b k y.new_side (with_behind m1 i l) i price qty
              (rw (with_behind-capacity m1 i l, u.cap) in_pool),
        )
        (
          _,
          refl,
          moved-IsReplaced i v h head_fresh m1 u s' x price qty _ y.new_side lt
              (with_behind-IsAdded i v h head_fresh m1 u s' x price lt qty)
              (λ q other. ap (λ g. g q) y.levels ∙ set_level_ne s' price _ q other)
              (ap (λ g. g price) y.levels ∙ set_level_self s' price _) y.holds,
        )

  -- The order is behind others of its level, or ahead of them.
  module _ (more : occupied (erase i c) ≡ true) (raised : ltb o.qty qty ≡ true)
      (not_only : is_only ((side b k).levels o.price) i ≡ false) where
    abbrev l1 : PriceLevel
    l1 = removed_level k o.price i v h head_fresh

    abbrev s1 : Side
    s1 = set_level (side b k) o.price l1

    marks_kept :
        (q : ℕ) → occupied (queues k q) ≡ occupied (if o.price == q then erase i c else queues k q)
    marks_kept q = elim (Bool-cases (o.price == q)) [
      | inl e ↦ rw (e, ← ==→eq o.price q e, more) (occupied-erase i c more)
      | inr ne ↦ rw ne refl
    ]

    still_there : IsRemoved b queues k o.price l1 (erase i c) s1
    still_there = record {
      others = set_level_ne (side b k) o.price l1;
      here = set_level_self (side b k) o.price l1;
      index = Holds-ext marks_kept (v.sides k).indexed;
    }

    marks_again : (q : ℕ) → occupied (queues k q) ≡ (occupied (left k q) || o.price == q)
    marks_again q = ground (arith, marks_kept q, put_here queues k o.price (erase i c) q)

    pub qty_raised :
        Returns
          (replace_order b o.id o.price qty)
          (IsReplaced b queues i qty (move_queue queues k o.price i o.price) free)
    unfolding replace_order unlink_level
    qty_raised =
        let (m1, e1, u) = unlinked in
        let at = set_level_self (side b k) o.price l1 in
        let full : (l1.head == null_idx) ≡ false = empty_test i v h head_fresh m1 u ∙ ap not more in
        let tail : l1.tail < m1.capacity =
          subst (λ (t : PriceLevel). t.tail < m1.capacity) at
            (left_tail_in_pool i v h head_fresh m1 u s1 still_there o.price old_price
              (ap (λ (t : PriceLevel). t.head == null_idx) at ∙ full)) in
        let s3 = set_level (side b k) o.price (record { head = l1.head; tail = i }) in
        let same : (o.price == o.price) ≡ true = ground arith in
        let last : with_behind m1 i (s1.levels o.price) ≡ behind m1 i l1.tail =
          rw (at, full) refl in
        rw
          (
            unknown i v h head_fresh,
            (in_book i v h head_fresh).mapped,
            lt→ltb i b.pool.capacity in_pool,
            lt→ltb o.price max_prices old_price,
            same,
            raised,
            not_only,
            move_to_end_runs b i o m1 e1 (rw u.cap in_pool) tail,
            set_terms-book_of b k s3 (behind m1 i l1.tail) i o.price qty (rw u.cap in_pool),
          )
          (
            _,
            refl,
            moved-IsReplaced i v h head_fresh m1 u s1 still_there o.price qty _ s3 old_price
                (subst
                  (λ m.
                    IsAdded (left_pool i v h head_fresh m1 u) (with_terms m i o.price qty) i o.id
                      o.price qty k (s1.levels o.price) (left k o.price))
                  last
                  (with_behind-IsAdded i v h head_fresh m1 u s1 still_there o.price old_price qty))
                (λ q ne. set_level_ne (side b k) o.price _ q ne ∙ sym (still_there.others q ne))
                (set_level_self (side b k) o.price _ ∙ rw (at, full) refl)
                (Holds-ext marks_again (v.sides k).indexed),
          )
