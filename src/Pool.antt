-- ===== src/Pool.antt =====
-- The types and the memory of src/engine/fast_bitset_book.h (those of src/engine/fast_book.h are
-- the same): orders in a pool, linked by indices, the price levels of one side, and the vector from
-- order ids to pool indices. Both vectors are resized to `max_orders`, the `capacity` here; every
-- access checks its index against it, and every access to a level checks it against the ladder.
pub mod Access
use lobook.Base.{ℕ, ◌-◌, ◌^◌, Bool, Run, ok, ◌>>=◌, ◌>>◌, require, ltb, ◌==◌, if◌then◌else◌, update}
use lobook.PriceBitset.{max_prices}

-- UINT32_MAX
abbrev pub null_idx : ℕ
null_idx = 2 ^ 32 - 1

pub record Order : Type 0 where
  pub id : ℕ
  pub price : ℕ
  pub qty : ℕ
  pub is_buy : Bool
  pub next : ℕ
  pub prev : ℕ

pub record PriceLevel : Type 0 where
  pub head : ℕ
  pub tail : ℕ

-- `orders`, `id_map` and `next_free_order_idx`.
pub record Pool : Type 0 where
  pub capacity : ℕ
  pub orders : ℕ → Order
  pub id_map : ℕ → ℕ
  pub next_free : ℕ

-- `orders[i]`, read and written.
abbrev pub load : Pool → ℕ → Run Order
load m i = require (ltb i m.capacity) >> ok (m.orders i)

abbrev pub store : Pool → ℕ → Order → Run Pool
store m i o = require (ltb i m.capacity) >> ok (record m { orders = update m.orders i o })

unfoldable pub set_next : Pool → ℕ → ℕ → Run Pool
set_next m i v = do o ← load m i; store m i (record o { next = v })

unfoldable pub set_prev : Pool → ℕ → ℕ → Run Pool
set_prev m i v = do o ← load m i; store m i (record o { prev = v })

-- `id_map[id] = idx`
abbrev pub map_id : Pool → ℕ → ℕ → Run Pool
map_id m id idx = require (ltb id m.capacity) >> ok (record m { id_map = update m.id_map id idx })

-- `levels[price]`
abbrev pub level_at : (ℕ → PriceLevel) → ℕ → Run PriceLevel
level_at levels price = require (ltb price max_prices) >> ok (levels price)

-- The head and the tail of a level once the order at `idx` is taken out of it.
unfoldable pub unlink_level : PriceLevel → ℕ → Order → PriceLevel
unlink_level l idx o = record {
  head = if l.head == idx then o.next else l.head;
  tail = if l.tail == idx then o.prev else l.tail;
}

-- The two guarded writes that link the neighbours of an order to one another.
unfoldable pub unlink_nodes : Pool → Order → Run Pool
unlink_nodes m o = do
  m' ← if o.prev == null_idx then ok m else set_next m o.prev o.next
  if o.next == null_idx then ok m' else set_prev m' o.next o.prev

-- An order whose slot goes back to the free list.
unfoldable pub free_slot : Pool → ℕ → Run Pool
free_slot m idx = do
  o ← load m idx
  m' ← store m idx (record o { prev = null_idx; next = m.next_free })
  ok (record m' { next_free = idx })
