-- ===== src/BitsetBook/Cancelled.antt =====
-- `cancel_order` ends, with the order out of the book.
use lobook.Base.{
  ℕ, ◌<◌, ◌≡◌, ◌≢◌, refl, sym, ap, ◌∙◌, inl, inr, ◌⊎◌, Bool, true, false, not, List, [], ◌∷◌, ◌==◌,
  if◌then◌else◌, update, update_self, Bool-cases, ==→eq, lt→ltb, ok, Returns, arith,
}
use mathlib.Core.Path.{subst}
use lobook.PriceBitset.{max_prices}
use lobook.PriceBitset.History.{Holds, Holds-ext}
use lobook.Pool.{null_idx, Order, PriceLevel, Pool, unlink_nodes, free_slot, unlink_level}
use lobook.Chain.Lists.{has, occupied, erase}
use lobook.BitsetBook.{
  Side, Book, side, set_side, set_level, clear_index, remove_from_level, cancel_order,
  replace_order, get_quantity, is_unknown,
}
use lobook.BitsetBook.Index.{clear_index-Indexed}
use lobook.BitsetBook.Represents.{prev_of, entry, head_null, IsResting, IsQueue, IsBook, put}
use lobook.BitsetBook.Fresh.{AreFresh}
use lobook.BitsetBook.Write.{IsWrite, IsBook-write, pool_kept, set_level_self, set_level_ne}
use lobook.BitsetBook.Unlinked.{IsUnlinkedPool, unlink_nodes-Unlinked}
use lobook.BitsetBook.Cancel.{
  price_in_ladder, cancelled-IsResting, removed_level, prev_inside, next_inside, freed,
  freed-IsQueue, freed-IsWrite, freed-AreFresh, freed-entry, freed-IsFree,
}

pub pool_again :
    (b : Book) (k : Bool) (m m' : Pool) (s : Side)
    → record (set_side (record b { pool = m }) k s) { pool = m' }
      ≡ set_side (record b { pool = m' }) k s
pool_again b true m m' s = refl
pool_again b false m m' s = refl

-- A side whose level at `p` is rewritten and whose bitset is right again.
pub record IsRemoved (b : Book) (queues : Bool → ℕ → List ℕ) (k : Bool) (p : ℕ) (l' : PriceLevel)
    (c' : List ℕ) (s' : Side) : Type 0 where
  pub others : (q : ℕ) → q ≢ p → s'.levels q ≡ (side b k).levels q
  pub here : s'.levels p ≡ l'
  pub index : Holds (λ q. occupied (if p == q then c' else queues k q)) s'.index

pub side-IsRemoved :
    {b : Book} {queues : Bool → ℕ → List ℕ} (k : Bool) (p : ℕ) (l' : PriceLevel) (c' : List ℕ)
    → p < max_prices
    → Holds (λ q. occupied (queues k q)) (side b k).index
    → (l'.head == null_idx) ≡ not (occupied c')
    → (occupied c' ≡ true → occupied (queues k p) ≡ true)
    → Returns
        (if l'.head == null_idx
          then clear_index (set_level (side b k) p l') p
          else ok (set_level (side b k) p l'))
        (IsRemoved b queues k p l' c')
side-IsRemoved {b} {queues} k p l' c' lt held empty before =
    rw empty (elim (Bool-cases (occupied c')) [
      | inl busy ↦ rw busy (
        _,
        refl,
        record {
          others = set_level_ne (side b k) p l';
          here = set_level_self (side b k) p l';
          index = Holds-ext (λ q. stays busy q (Bool-cases (p == q))) held;
        },
      )
      | inr idle ↦
          let (s', e, x) = clear_index-Indexed (set_level (side b k) p l') p held lt in
          rw (idle, e)
            (
              s',
              refl,
              record {
                others = λ q ne. ap (λ g. g q) x.levels ∙ set_level_ne (side b k) p l' q ne;
                here = ap (λ g. g p) x.levels ∙ set_level_self (side b k) p l';
                index = Holds-ext (λ q. ground (arith, idle)) x.holds;
              },
            )
    ])
  where
    stays :
        occupied c' ≡ true
        → (q : ℕ) → ((p == q) ≡ true) ⊎ ((p == q) ≡ false)
        → occupied (queues k q) ≡ occupied (if p == q then c' else queues k q)
    stays busy q (inl e) = rw (e, ← ==→eq p q e, busy) (before busy)
    stays busy q (inr ne) = rw ne refl

pub occupied-erase : (i : ℕ) (c : List ℕ) → occupied (erase i c) ≡ true → occupied c ≡ true
occupied-erase i [] busy = busy
occupied-erase i (x ∷ xs) busy = refl

-- An id that the book does not know: `cancel_order` and `replace_order` of it leave the book as it is,
-- and `get_quantity` is 0.
abbrev pub IsGone : ℕ → Book → Type 0
IsGone id b =
    (get_quantity b id ≡ ok 0)
    × (cancel_order b id ≡ ok b)
    × ((price qty : ℕ) → replace_order b id price qty ≡ ok b)

unmapped-IsGone : (b : Book) (id : ℕ) → b.pool.id_map id ≡ null_idx → IsGone id b
unfolding get_quantity cancel_order replace_order
unmapped-IsGone b id e =
    let gone : is_unknown b id ≡ true = ground arith in
    (rw gone refl, rw gone refl, λ price qty. rw gone refl)

module _ {b : Book} {queues : Bool → ℕ → List ℕ} {free : List ℕ} (i : ℕ) (v : IsBook b queues free)
    (h : has i (queues (b.pool.orders i).is_buy (b.pool.orders i).price) ≡ true)
    (head_fresh : ((side b (b.pool.orders i).is_buy).levels (b.pool.orders i).price).head ≡ i
      → prev_of b.pool i ≡ null_idx) where
  abbrev o : Order
  o = b.pool.orders i

  abbrev c : List ℕ
  c = queues o.is_buy o.price

  abbrev pub IsCancelled : Book → Type 0
  IsCancelled b' =
      IsBook b' (put queues o.is_buy o.price (erase i c)) (i ∷ free)
      × ((j : ℕ) → entry b'.pool j ≡ entry b.pool j)
      × IsGone o.id b'
      × (AreFresh b.pool queues → AreFresh b'.pool (put queues o.is_buy o.price (erase i c)))
      × (b'.pool.capacity ≡ b.pool.capacity)

  pub in_book : IsResting b.pool o.is_buy o.price i
  in_book = cancelled-IsResting o.is_buy o.price i v h head_fresh

  pub unknown : is_unknown b o.id ≡ false
  unknown = ground (arith, in_book.id_known, in_book.mapped, in_book.in_pool, v.pool.small)

  module _ (m1 : Pool) (u : IsUnlinkedPool b.pool m1 i) where
    abbrev pub left_pool : Pool
    left_pool = freed o.is_buy o.price i v h head_fresh m1 u

    left-IsQueue :
        IsQueue left_pool o.is_buy o.price
          (removed_level o.is_buy o.price i v h head_fresh)
          (erase i c)
    left-IsQueue = freed-IsQueue o.is_buy o.price i v h head_fresh m1 u

    pub empty_test :
        ((removed_level o.is_buy o.price i v h head_fresh).head == null_idx)
        ≡ not (occupied (erase i c))
    empty_test =
        head_null (erase i c) (freed-IsFree o.is_buy o.price i v h head_fresh m1 u).small
          left-IsQueue

    pub cancelled :
        (s' : Side)
        → IsRemoved b queues o.is_buy o.price
            (removed_level o.is_buy o.price i v h head_fresh)
            (erase i c)
            s'
        → IsCancelled (set_side (record b { pool = left_pool }) o.is_buy s')
    cancelled s' x = (
      IsBook-write v write,
      λ j. ap (λ m. entry m j) at_pool ∙ freed-entry o.is_buy o.price i v h head_fresh m1 u j,
      unmapped-IsGone _ o.id
          (ap (λ (m : Pool). m.id_map o.id) at_pool ∙ update_self m1.id_map o.id null_idx),
      λ fresh. rw at_pool (freed-AreFresh o.is_buy o.price i v h head_fresh m1 u s' write fresh),
      ap (λ (m : Pool). m.capacity) at_pool ∙ u.cap,
    )
      where
        write : IsWrite b queues free o.is_buy o.price left_pool s' (erase i c) (i ∷ free)
        write = freed-IsWrite o.is_buy o.price i v h head_fresh m1 u s' x.others x.here x.index

        at_pool : (set_side (record b { pool = left_pool }) o.is_buy s').pool ≡ left_pool
        at_pool = pool_kept b left_pool s' o.is_buy

    pub removed :
        Returns
          (if (removed_level o.is_buy o.price i v h head_fresh).head == null_idx
            then clear_index
                (set_level
                  (side b o.is_buy)
                  o.price
                  (removed_level o.is_buy o.price i v h head_fresh))
                o.price
            else ok (
                set_level
                  (side b o.is_buy)
                  o.price
                  (removed_level o.is_buy o.price i v h head_fresh)))
          (IsRemoved b queues o.is_buy o.price
            (removed_level o.is_buy o.price i v h head_fresh)
            (erase i c))
    removed =
        side-IsRemoved o.is_buy o.price (removed_level o.is_buy o.price i v h head_fresh)
          (erase i c) (price_in_ladder o.is_buy o.price i v h head_fresh) (v.sides o.is_buy).indexed
          empty_test (occupied-erase i c)

    slot_freed :
        free_slot m1 i
        ≡ ok (record m1 {
          orders =
              update m1.orders i (record (m1.orders i) { prev = null_idx; next = m1.next_free });
          next_free = i;
        })
    unfolding free_slot
    slot_freed = rw (lt→ltb i m1.capacity (rw u.cap in_book.in_pool))

    runs :
        (s' : Side)
        → unlink_nodes b.pool o ≡ ok m1
        → (if (removed_level o.is_buy o.price i v h head_fresh).head == null_idx
            then clear_index
                (set_level
                  (side b o.is_buy)
                  o.price
                  (removed_level o.is_buy o.price i v h head_fresh))
                o.price
            else ok (
                set_level
                  (side b o.is_buy)
                  o.price
                  (removed_level o.is_buy o.price i v h head_fresh)))
          ≡ ok s'
        → cancel_order b o.id
          ≡ ok (record (set_side (record b { pool = m1 }) o.is_buy s') { pool = left_pool })
    unfolding cancel_order remove_from_level unlink_level
    runs s' e1 e2 = rw (
      unknown,
      in_book.mapped,
      lt→ltb i b.pool.capacity in_book.in_pool,
      lt→ltb o.price max_prices (price_in_ladder o.is_buy o.price i v h head_fresh),
      e1,
      e2,
      pool_kept b m1 s' o.is_buy,
      slot_freed,
      lt→ltb o.id m1.capacity (rw u.cap in_book.id_known),
    )

  pub neighbour : (j : ℕ) → has j c ≡ true → j < b.pool.capacity
  neighbour j inside =
      (((v.sides o.is_buy).at o.price (price_in_ladder o.is_buy o.price i v h head_fresh)).resting j
        inside).in_pool

  -- In a well-formed book, `cancel_order` of the id of an order that rests in the queue of its side
  -- and price returns without a fault, provided that the order's `prev` is NULL_IDX where it is the
  -- head of its level. The order is gone from its queue, the other queues and the id and quantity in
  -- every slot and the capacity are as before, its slot is the first free one, and the book is well
  -- formed again. The id
  -- is gone: its `get_quantity` is 0, and cancelling or replacing it leaves the book as it is. Where the
  -- `prev` of the first order of every level is NULL_IDX, it is so again.
  pub cancel_order-Cancelled : Returns (cancel_order b o.id) IsCancelled
  cancel_order-Cancelled =
      let (m1, e1, u) =
        unlink_nodes-Unlinked b.pool i
          (λ ne. neighbour _ (prev_inside o.is_buy o.price i v h head_fresh ne))
          (λ ne. neighbour _ (next_inside o.is_buy o.price i v h head_fresh ne)) in
      let (s', e2, x) = removed m1 u in
      (
        _,
        runs m1 u s' e1 e2,
        subst IsCancelled (sym (pool_again b o.is_buy m1 (left_pool m1 u) s'))
            (cancelled m1 u s' x),
      )
