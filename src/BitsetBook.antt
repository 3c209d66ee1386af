-- ===== src/BitsetBook.antt =====
-- src/engine/fast_bitset_book.h: `FastBitsetOrderBook`. One side of the book is its ladder of price
-- levels with its bitset. An operation takes the book and gives the new one; `fault` is an access
-- outside the pool, the id map, a ladder or the bitset. The loops of `match` run on fuel.
pub mod Match
pub mod Represents
pub mod Write
pub mod Index
pub mod Fill
pub mod MatchLevel
pub mod MatchRun
pub mod MatchBest
pub mod Trades
pub mod MatchLoop
pub mod Traded
pub mod Submit
pub mod Uncrossed
pub mod Init
pub mod Rejected
pub mod Session
pub mod Consecutive
pub mod Unlinked
pub mod Cancel
pub mod Fresh
pub mod Cancelled
pub mod Moved
pub mod Moves
pub mod Replaced
pub mod Terms
pub mod Quiet
pub mod Requeue
pub mod Replace
pub mod Resting
pub mod Added
pub mod Add
pub mod Samples
mod Tests
use lobook.Base.{
  ℕ, zero, suc, ◌+◌, ◌-◌, ◌%◌, ◌^◌, min, Bool, true, false, not, ◌&&◌, ◌||◌, Option, none, some,
  Run, ok, out_of_fuel, ◌>>=◌, ◌>>◌, require, ltb, ◌==◌, if◌then◌else◌, update,
}
use lobook.PriceBitset
use lobook.PriceBitset.{PriceBitset, max_prices}
use lobook.Pool.{
  null_idx, Order, PriceLevel, Pool, load, store, set_next, set_prev, map_id, level_at,
  unlink_level, unlink_nodes, free_slot,
}

pub record Side : Type 0 where
  pub levels : ℕ → PriceLevel
  pub index : PriceBitset

pub record Book : Type 0 where
  pub pool : Pool
  pub bids : Side
  pub asks : Side

-- `is_buy ? bid_levels : ask_levels`, and likewise for the index.
abbrev pub side : Book → Bool → Side
side b is_buy = if is_buy then b.bids else b.asks

abbrev pub set_side : Book → Bool → Side → Book
set_side b is_buy s = if is_buy then record b { bids = s } else record b { asks = s }

abbrev pub set_level : Side → ℕ → PriceLevel → Side
set_level s price l = record s { levels = update s.levels price l }

-- `index.clear(price)` and `index.set(price)`: the argument is converted to `uint32_t`.
unfoldable pub clear_index : Side → ℕ → Run Side
clear_index s price = do
  index ← PriceBitset.clear s.index (price % 2 ^ 32)
  ok (record s { index = index })

unfoldable pub set_index : Side → ℕ → Run Side
set_index s price = do
  index ← PriceBitset.set s.index (price % 2 ^ 32)
  ok (record s { index = index })

-- `id >= id_map.size() || id_map[id] == NULL_IDX`
abbrev pub is_unknown : Book → ℕ → Bool
is_unknown b id = not (ltb id b.pool.capacity) || b.pool.id_map id == null_idx

-- Lines 47 to 77: the order leaves its level, and an emptied level leaves the index.
unfoldable pub remove_from_level : Book → ℕ → Order → Run Book
remove_from_level b idx order = do
  let s = side b order.is_buy
  level ← level_at s.levels order.price
  let level' = unlink_level level idx order
  let s' = set_level s order.price level'
  pool' ← unlink_nodes b.pool order
  s'' ← if level'.head == null_idx then clear_index s' order.price else ok s'
  ok (set_side (record b { pool = pool' }) order.is_buy s'')

unfoldable pub cancel_order : Book → ℕ → Run Book
cancel_order b id = if is_unknown b id then ok b else do
  let idx = b.pool.id_map id
  order ← load b.pool idx
  b' ← remove_from_level b idx order
  pool' ← free_slot b'.pool idx
  pool'' ← map_id pool' id null_idx
  ok (record b' { pool = pool'' })

-- Lines 120 to 134: the order goes to the end of its new level.
unfoldable pub append_to_level : Book → ℕ → ℕ → Run Book
append_to_level b idx new_price = do
  order ← load b.pool idx
  let s = side b order.is_buy
  level ← level_at s.levels new_price
  let empty = level.head == null_idx
  let level' =
      if empty then record { head = idx; tail = idx } else record { head = level.head; tail = idx }
  pool1 ←
      if empty
      then set_prev b.pool idx null_idx
      else (set_prev b.pool idx level.tail >>= λ m. set_next m level.tail idx)
  s' ← set_index (set_level s new_price level') new_price
  pool2 ← set_next pool1 idx null_idx
  ok (set_side (record b { pool = pool2 }) order.is_buy s')

-- Lines 135 to 164: the order moves to the end of its level, which stays in the index.
unfoldable pub move_to_end : Book → ℕ → Order → PriceLevel → Run Book
move_to_end b idx order level = do
  let level1 = unlink_level level idx order
  pool1 ← unlink_nodes b.pool order
  pool2 ← set_prev pool1 idx level1.tail
  pool3 ← set_next pool2 level1.tail idx
  pool4 ← set_next pool3 idx null_idx
  let s = side b order.is_buy
  ok (
      set_side (record b { pool = pool4 }) order.is_buy
        (set_level s order.price (record { head = level1.head; tail = idx })))

-- `order.qty = qty; order.price = price;`
unfoldable pub set_terms : Book → ℕ → ℕ → ℕ → Run Book
set_terms b idx price qty = do
  o ← load b.pool idx
  pool' ← store b.pool idx (record o { price = price; qty = qty })
  ok (record b { pool = pool' })

unfoldable pub replace_order : Book → ℕ → ℕ → ℕ → Run Book
replace_order b id new_price new_qty = if is_unknown b id then ok b else do
  let idx = b.pool.id_map id
  order ← load b.pool idx
  level ← level_at (side b order.is_buy).levels order.price
  if not (order.price == new_price)
      then (do
        b1 ← remove_from_level b idx order
        b2 ← append_to_level b1 idx new_price
        set_terms b2 idx new_price new_qty)
      else if ltb order.qty new_qty
      then (if level.head == idx && level.tail == idx
          then set_terms b idx order.price new_qty
          else (do b1 ← move_to_end b idx order level; set_terms b1 idx new_price new_qty))
      else set_terms b idx new_price new_qty

unfoldable pub get_quantity : Book → ℕ → Run ℕ
get_quantity b id =
    if is_unknown b id then ok 0 else do o ← load b.pool (b.pool.id_map id); ok o.qty

unfoldable pub add_order : Book → ℕ → ℕ → ℕ → Bool → Run Book
add_order b id price qty is_buy = if b.pool.next_free == null_idx then ok b else do
  let idx = b.pool.next_free
  o ← load b.pool idx
  pool1 ←
      store (record b.pool { next_free = o.next }) idx
        (record {
          id = id;
          price = price;
          qty = qty;
          is_buy = is_buy;
          next = null_idx;
          prev = null_idx;
        })
  pool2 ← map_id pool1 id idx
  let s = side b is_buy
  if not (ltb price max_prices) then ok (record b { pool = pool2 }) else do
    level ← level_at s.levels price
    if level.head == null_idx
        then (do
          s' ← set_index (set_level s price (record { head = idx; tail = idx })) price
          ok (set_side (record b { pool = pool2 }) is_buy s'))
        else (do
          pool3 ← set_next pool2 level.tail idx
          pool4 ← set_prev pool3 idx level.tail
          ok (
              set_side (record b { pool = pool4 }) is_buy
                (set_level s price (record { head = level.head; tail = idx }))))
