-- ===== src/FastBook.antt =====
-- src/engine/fast_book.h: `FastOrderBook`, the book without a bitset. Its pool and its levels are
-- those of src/engine/fast_bitset_book.h, written out again; `match` scans the ladder from its end.
pub mod Agree
pub mod Forget
pub mod Ladder
pub mod Rounds
pub mod Scan
pub mod Session
mod Tests
use lobook.Base.{
  ℕ, zero, suc, ◌+◌, ◌-◌, Bool, false, true, not, ◌&&◌, ◌||◌, Run, ok, out_of_fuel, ◌>>=◌, ◌>>◌,
  require, ltb, ◌==◌, if◌then◌else◌, update,
}
use lobook.PriceBitset.{max_prices}
use lobook.Pool.{
  null_idx, Order, PriceLevel, Pool, load, store, set_next, set_prev, map_id, level_at,
  unlink_level, unlink_nodes, free_slot,
}
use lobook.BitsetBook.Match.{match_level, init_orders}

pub record FastBook : Type 0 where
  pub pool : Pool
  pub bids : ℕ → PriceLevel
  pub asks : ℕ → PriceLevel

-- `is_buy ? bids : asks`
abbrev pub ladder : FastBook → Bool → ℕ → PriceLevel
ladder b is_buy = if is_buy then b.bids else b.asks

abbrev pub set_ladder : FastBook → Bool → (ℕ → PriceLevel) → FastBook
set_ladder b is_buy levels =
    if is_buy then record b { bids = levels } else record b { asks = levels }

abbrev pub is_unknown : FastBook → ℕ → Bool
is_unknown b id = not (ltb id b.pool.capacity) || b.pool.id_map id == null_idx

unfoldable pub cancel_order : FastBook → ℕ → Run FastBook
cancel_order b id = if is_unknown b id then ok b else do
  let idx = b.pool.id_map id
  order ← load b.pool idx
  level ← level_at (ladder b order.is_buy) order.price
  let levels = update (ladder b order.is_buy) order.price (unlink_level level idx order)
  pool1 ← unlink_nodes b.pool order
  pool2 ← free_slot pool1 idx
  pool3 ← map_id pool2 id null_idx
  ok (set_ladder (record b { pool = pool3 }) order.is_buy levels)

unfoldable pub get_quantity : FastBook → ℕ → Run ℕ
get_quantity b id =
    if is_unknown b id then ok 0 else do o ← load b.pool (b.pool.id_map id); ok o.qty

unfoldable pub add_order : FastBook → ℕ → ℕ → ℕ → Bool → Run FastBook
add_order b id price qty is_buy = if b.pool.next_free == null_idx then ok b else do
  let idx = b.pool.next_free
  o ← load b.pool idx
  pool1 ←
      store (record b.pool { next_free = o.next }) idx
        (record {
          id = id;
          price = price;
          qty = qty;
          is_buy = is_buy;
          next = null_idx;
          prev = null_idx;
        })
  pool2 ← map_id pool1 id idx
  let levels = ladder b is_buy
  if not (ltb price max_prices) then ok (record b { pool = pool2 }) else do
    level ← level_at levels price
    if level.head == null_idx
        then ok (
            set_ladder (record b { pool = pool2 }) is_buy
              (update levels price (record { head = idx; tail = idx })))
        else (do
          pool3 ← set_next pool2 level.tail idx
          pool4 ← set_prev pool3 idx level.tail
          ok (
              set_ladder (record b { pool = pool4 }) is_buy
                (update levels price (record { head = level.head; tail = idx }))))

-- The loop variable of `match`, a price or a number below zero. Below zero every number is out of
-- the ladder, and the loop goes further down.
pub data Position : Type 0 where
  below : Position
  at : ℕ → Position

abbrev pub next_position : Bool → Position → Position
next_position true below = at 0
next_position true (at p) = at (suc p)
next_position false below = below
next_position false (at zero) = below
next_position false (at (suc p)) = at p

-- One round at a price of the ladder that is not beyond the limit.
unfoldable pub match_price : ℕ → ℕ → (ℕ → PriceLevel) → Pool → Run (ℕ × (ℕ → PriceLevel) × Pool)
match_price p incoming_qty levels m = do
  level ← level_at levels p
  (qty', level', m') ← match_level (m.capacity + 1) incoming_qty level m
  ok (qty', update levels p level', m')

abbrev pub is_beyond : Bool → ℕ → ℕ → Bool
is_beyond is_buy p end_price = is_buy && ltb end_price p || not is_buy && ltb p end_price

unfoldable pub scan :
    ℕ → Position → ℕ → ℕ → Bool → (ℕ → PriceLevel) → Pool → Run (ℕ × (ℕ → PriceLevel) × Pool)
scan zero position end_price incoming_qty is_buy levels m = out_of_fuel
scan (suc fuel) below end_price incoming_qty is_buy levels m =
    let rest = scan fuel (next_position is_buy below) end_price incoming_qty is_buy levels m in
    if incoming_qty == 0 then ok (incoming_qty, levels, m) else rest
scan (suc fuel) (at p) end_price incoming_qty is_buy levels m =
    let skip = scan fuel (next_position is_buy (at p)) end_price incoming_qty is_buy levels m in
    if incoming_qty == 0
    then ok (incoming_qty, levels, m)
    else if not (ltb p max_prices)
    then skip
    else if is_beyond is_buy p end_price
    then ok (incoming_qty, levels, m)
    else do
      (qty', levels', m') ← match_price p incoming_qty levels m
      scan fuel (next_position is_buy (at p)) end_price qty' is_buy levels' m'

-- The scan starts at the best end of the ladder. It need not end, so its rounds are a parameter.
unfoldable pub match : ℕ → FastBook → ℕ → ℕ → Bool → Run (ℕ × FastBook)
match fuel b incoming_price incoming_qty is_buy = do
  let start = at (if is_buy then 0 else max_prices - 1)
  (qty', levels', m') ←
      scan fuel start incoming_price incoming_qty is_buy (ladder b (not is_buy)) b.pool
  ok (qty', set_ladder (record b { pool = m' }) (not is_buy) levels')

unfoldable pub submit_order : ℕ → FastBook → ℕ → ℕ → ℕ → Bool → Run FastBook
submit_order fuel b id price qty is_buy = do
  (qty', b') ← match fuel b price qty is_buy
  if ltb 0 qty' then add_order b' id price qty' is_buy else ok b'

unfoldable pub init : ℕ → Run FastBook
init max_orders = do
  require (ltb 0 max_orders)
  ok (record {
    pool = record {
      capacity = max_orders;
      orders = init_orders max_orders;
      id_map = λ _. 0;
      next_free = 0;
    };
    bids = λ _. record { head = null_idx; tail = null_idx };
    asks = λ _. record { head = null_idx; tail = null_idx };
  })
