-- ===== src/FastBook/Forget.antt =====
-- The bitset book without its bitsets is a book of src/engine/fast_book.h: each operation that does not
-- match does the same on both.
use lobook.Base.{
  map_run, bind_agrees, nested_agrees, ℕ, ◌<◌, ◌≡◌, refl, sym, ap, ◌∙◌, inl, inr, Bool, true, false,
  ◌==◌, if◌then◌else◌, update, Bool-cases, ltb, ltb→lt, ok, ◌>>=◌, Returns,
}
use lobook.PriceBitset.{max_prices}
use lobook.PriceBitset.History.{Holds}
use lobook.Pool.{
  null_idx, Order, PriceLevel, Pool, load, store, map_id, unlink_level, unlink_nodes, free_slot,
  set_next, set_prev,
}
use lobook.BitsetBook
use lobook.BitsetBook.{
  Side, Book, side, set_side, set_level, clear_index, set_index, is_unknown, remove_from_level,
}
use lobook.BitsetBook.Index.{clear_index-Indexed, set_index-Indexed}
use lobook.BitsetBook.Match
use lobook.BitsetBook.Write.{pool_kept}
use lobook.FastBook
use lobook.FastBook.{FastBook, ladder, set_ladder}

abbrev pub forget : Book → FastBook
forget b = record { pool = b.pool; bids = b.bids.levels; asks = b.asks.levels }

-- The bitsets of both sides are coherent.
abbrev pub Coherent : Book → (Bool → ℕ → Bool) → Type 0
Coherent b marks = (k : Bool) → Holds (marks k) (side b k).index

pub ladder-forget : (b : Book) (k : Bool) → ladder (forget b) k ≡ (side b k).levels
ladder-forget b true = refl
ladder-forget b false = refl

forget-set_side :
    (b : Book) (k : Bool) (m m' : Pool) (s : Side) (levels : ℕ → PriceLevel)
    → s.levels ≡ levels
    → forget (record (set_side (record b { pool = m }) k s) { pool = m' })
      ≡ set_ladder (record (forget b) { pool = m' }) k levels
forget-set_side b true m m' s levels e = rw (← e)
forget-set_side b false m m' s levels e = rw (← e)

forget-set_side_at :
    (b : Book) (k : Bool) (m : Pool) (s : Side) (levels : ℕ → PriceLevel)
    → s.levels ≡ levels
    → forget (set_side (record b { pool = m }) k s)
      ≡ set_ladder (record (forget b) { pool = m }) k levels
forget-set_side_at b true m s levels e = rw (← e)
forget-set_side_at b false m s levels e = rw (← e)

-- A bitset that is cleared or not leaves the levels.
pub cleared_levels :
    {marks : ℕ → Bool} (s : Side) (p : ℕ) (x : Bool)
    → Holds marks s.index
    → p < max_prices
    → Returns (if x then clear_index s p else ok s) (λ s'. s'.levels ≡ s.levels)
cleared_levels s p true h lt = let (s', e, x) = clear_index-Indexed s p h lt in (s', e, x.levels)
cleared_levels s p false h lt = (s, refl, refl)

pub init-forget : (n : ℕ) → map_run forget (Match.init n) ≡ FastBook.init n
unfolding Match.init FastBook.init
init-forget n = elim (Bool-cases (ltb 0 n)) [ inl e ↦ rw e refl | inr e ↦ rw e refl ]

pub get_quantity-forget :
    (b : Book) (id : ℕ) → BitsetBook.get_quantity b id ≡ FastBook.get_quantity (forget b) id
unfolding BitsetBook.get_quantity FastBook.get_quantity
get_quantity-forget b id = refl

-- `cancel_order` from the bitset on.
removed_agrees :
    (b : Book) {marks : Bool → ℕ → Bool} (id : ℕ)
    → Coherent b marks
    → (order : Order) → order.price < max_prices
    → (pool1 : Pool)
    → let idx = b.pool.id_map id in
      let s = side b order.is_buy in
      let l' = unlink_level (s.levels order.price) idx order in
      map_run forget (
        ((if l'.head == null_idx
            then clear_index (set_level s order.price l') order.price
            else ok (set_level s order.price l'))
          >>= λ s''. ok (set_side (record b { pool = pool1 }) order.is_buy s''))
        >>= λ b'. free_slot b'.pool idx >>= λ pool'.
            map_id pool' id null_idx >>= λ pool''. ok (record b' { pool = pool'' }))
      ≡ (free_slot pool1 idx >>= λ pool2. map_id pool2 id null_idx >>= λ pool3. ok (
          set_ladder
            (record (forget b) { pool = pool3 })
            order.is_buy
            (update
              (ladder (forget b) order.is_buy)
              order.price
              (unlink_level (ladder (forget b) order.is_buy order.price) idx order))))
removed_agrees b id held order lt pool1 =
    let idx = b.pool.id_map id in
    let s = side b order.is_buy in
    let l' = unlink_level (s.levels order.price) idx order in
    let (s', e, kept) =
      cleared_levels (set_level s order.price l') order.price (l'.head == null_idx)
        (held order.is_buy) lt in
    rw (e, pool_kept b pool1 s' order.is_buy)
      (bind_agrees forget (free_slot pool1 idx) _ _ λ pool2.
        bind_agrees forget (map_id pool2 id null_idx) _ _ λ pool3. ap ok (
          forget-set_side b order.is_buy pool1 pool3 s' _ (
            kept
            ∙ ap (λ f. update f order.price (unlink_level (f order.price) idx order))
                (sym (ladder-forget b order.is_buy)))))

-- Where the bitsets of a book are coherent, `cancel_order` of any id does to the book without its
-- bitsets what it does to the book, faults included.
pub cancel_order-forget :
    (b : Book) {marks : Bool → ℕ → Bool} (id : ℕ)
    → Coherent b marks
    → map_run forget (BitsetBook.cancel_order b id) ≡ FastBook.cancel_order (forget b) id
unfolding BitsetBook.cancel_order FastBook.cancel_order remove_from_level
cancel_order-forget b id held = elim (Bool-cases (is_unknown b id)) [
  | inl e ↦ rw e refl
  | inr e ↦ rw e (
      bind_agrees forget (load b.pool (b.pool.id_map id)) _ _ λ order.
        elim (Bool-cases (ltb order.price max_prices)) [
          | inr out ↦ rw out refl
          | inl inside ↦ rw inside (
              nested_agrees forget (unlink_nodes b.pool order) _ _ _ λ pool1.
                removed_agrees b id held order (ltb→lt order.price max_prices inside) pool1)
        ])
]

-- `add_order` from the level on.
appended_agrees :
    (b : Book) {marks : Bool → ℕ → Bool} (price idx : ℕ) (is_buy : Bool)
    → Coherent b marks
    → price < max_prices
    → (pool2 : Pool)
    → let s = side b is_buy in
      let level = s.levels price in
      map_run forget (
        if level.head == null_idx
        then (set_index (set_level s price (record { head = idx; tail = idx })) price >>= λ s'.
            ok (set_side (record b { pool = pool2 }) is_buy s'))
        else (set_next pool2 level.tail idx >>= λ pool3. set_prev pool3 idx level.tail >>= λ pool4.
            ok (
              set_side
                (record b { pool = pool4 })
                is_buy
                (set_level s price (record { head = level.head; tail = idx })))))
      ≡ (if (ladder (forget b) is_buy price).head == null_idx
          then ok (
              set_ladder
                (record (forget b) { pool = pool2 })
                is_buy
                (update (ladder (forget b) is_buy) price (record { head = idx; tail = idx })))
          else (set_next pool2 (ladder (forget b) is_buy price).tail idx >>= λ pool3.
              set_prev pool3 idx (ladder (forget b) is_buy price).tail >>= λ pool4. ok (
                set_ladder
                  (record (forget b) { pool = pool4 })
                  is_buy
                  (update
                    (ladder (forget b) is_buy)
                    price
                    (record { head = (ladder (forget b) is_buy price).head; tail = idx })))))
appended_agrees b price idx is_buy held lt pool2 =
    let s = side b is_buy in
    let level = s.levels price in
    elim (Bool-cases (level.head == null_idx)) [
      | inl empty ↦
          let (s', e, x) =
            set_index-Indexed (set_level s price (record { head = idx; tail = idx })) price
              (held is_buy) lt in
          rw (ladder-forget b is_buy, empty, e)
            (ap ok (forget-set_side_at b is_buy pool2 s' _ x.levels))
      | inr busy ↦
          rw (ladder-forget b is_buy, busy)
            (bind_agrees forget (set_next pool2 level.tail idx) _ _ λ pool3.
              bind_agrees forget (set_prev pool3 idx level.tail) _ _
                λ pool4. ap ok (forget-set_side_at b is_buy pool4 _ _ refl))
    ]

-- Where the bitsets of a book are coherent, `add_order` of any order does to the book without its
-- bitsets what it does to the book, faults included.
pub add_order-forget :
    (b : Book) {marks : Bool → ℕ → Bool} (id price qty : ℕ) (is_buy : Bool)
    → Coherent b marks
    → map_run forget (BitsetBook.add_order b id price qty is_buy)
      ≡ FastBook.add_order (forget b) id price qty is_buy
unfolding BitsetBook.add_order FastBook.add_order
add_order-forget b id price qty is_buy held = elim (Bool-cases (b.pool.next_free == null_idx)) [
  | inl e ↦ rw e refl
  | inr e ↦ rw e (
      bind_agrees forget (load b.pool b.pool.next_free) _ _ λ o.
        bind_agrees forget (store (record b.pool { next_free = o.next }) b.pool.next_free _) _ _
          λ pool1. bind_agrees forget (map_id pool1 id b.pool.next_free) _ _ λ pool2.
            elim (Bool-cases (ltb price max_prices)) [
              | inr out ↦ rw out refl
              | inl inside ↦ rw inside (
                  appended_agrees b price b.pool.next_free is_buy held
                    (ltb→lt price max_prices inside) pool2)
            ])
]
