-- ===== src/BitsetBook/Match.antt =====
-- src/engine/fast_bitset_book.h: `match`, `submit_order` and `init`. The inner loop pops one order
-- in a round, so `capacity + 1` rounds are enough; the outer one finds a strictly worse price in
-- each round, so `max_prices + 1` rounds are enough.
use lobook.Base.{
  ℕ, zero, suc, ◌+◌, ◌-◌, ◌%◌, ◌^◌, min, Bool, false, not, ◌&&◌, ◌||◌, Option, none, some, Run, ok,
  out_of_fuel, ◌>>=◌, ◌>>◌, require, ltb, ◌==◌, if◌then◌else◌,
}
use lobook.PriceBitset
use lobook.PriceBitset.{max_prices}
use lobook.Pool.{null_idx, Order, PriceLevel, Pool, load, store, map_id, level_at}
use lobook.BitsetBook.{Side, Book, side, set_side, set_level, clear_index, add_order}

-- Lines 204 to 211: the filled order at the head of a level leaves the level and the pool. The new
-- head keeps its `prev`.
unfoldable pub pop_filled : Pool → ℕ → Order → PriceLevel → Run (PriceLevel × Pool)
pop_filled m idx resting level = do
  m1 ← map_id m resting.id null_idx
  let level' : PriceLevel = record {
    head = resting.next;
    tail = if resting.next == null_idx then null_idx else level.tail;
  }
  m2 ← store m1 idx (record resting { qty = 0; next = m.next_free })
  ok (level', record m2 { next_free = idx })

-- Lines 196 to 215, the inner loop at one price level.
unfoldable pub match_level : ℕ → ℕ → PriceLevel → Pool → Run (ℕ × PriceLevel × Pool)
match_level zero incoming_qty level m = out_of_fuel
match_level (suc fuel) incoming_qty level m =
    if level.head == null_idx || incoming_qty == 0 then ok (incoming_qty, level, m) else do
      let idx = level.head
      resting ← load m idx
      let trade_qty = min incoming_qty resting.qty
      if resting.qty - trade_qty == 0
          then (do
            (level', m') ← pop_filled m idx resting level
            match_level fuel (incoming_qty - trade_qty) level' m')
          else (do
            m' ← store m idx (record resting { qty = resting.qty - trade_qty })
            ok (incoming_qty - trade_qty, level, m'))

-- `is_buy ? index.find_lowest() : index.find_highest()`
abbrev pub find_best : Bool → Side → Run (Option ℕ)
find_best is_buy s =
    if is_buy then PriceBitset.find_lowest s.index else PriceBitset.find_highest s.index

-- Line 192: no resting order at this price can fill the incoming one.
abbrev pub is_worse : Bool → ℕ → ℕ → Bool
is_worse is_buy best incoming_price =
    is_buy && ltb incoming_price best || not is_buy && ltb best incoming_price

-- Lines 195 to 219: one round of the outer loop, on the opposite side.
unfoldable pub match_best : ℕ → ℕ → Side → Pool → Run (ℕ × Side × Pool)
unfolding match_level
match_best best incoming_qty s m = do
  level ← level_at s.levels best
  (qty', level', m') ← match_level (m.capacity + 1) incoming_qty level m
  let s' = set_level s best level'
  s'' ← if level'.head == null_idx then clear_index s' best else ok s'
  ok (qty', s'', m')

unfoldable pub match_loop : ℕ → ℕ → ℕ → Bool → Side → Pool → Run (ℕ × Side × Pool)
match_loop zero incoming_price incoming_qty is_buy s m = out_of_fuel
match_loop (suc fuel) incoming_price incoming_qty is_buy s m =
    if incoming_qty == 0 then ok (incoming_qty, s, m) else do
      best? ← find_best is_buy s
      elim best? [
        | none ↦ ok (incoming_qty, s, m)
        | some best ↦ if is_worse is_buy best incoming_price then ok (incoming_qty, s, m) else do
          (qty', s', m') ← match_best best incoming_qty s m
          match_loop fuel incoming_price qty' is_buy s' m'
      ]

-- The incoming id is not used; the incoming price is not changed.
unfoldable pub match : Book → ℕ → ℕ → Bool → Run (ℕ × Book)
unfolding match_loop
match b incoming_price incoming_qty is_buy = do
  (qty', s', m') ←
      match_loop (max_prices + 1) incoming_price incoming_qty is_buy (side b (not is_buy)) b.pool
  ok (qty', set_side (record b { pool = m' }) (not is_buy) s')

unfoldable pub submit_order : Book → ℕ → ℕ → ℕ → Bool → Run Book
submit_order b id price qty is_buy = do
  (qty', b') ← match b price qty is_buy
  if ltb 0 qty' then add_order b' id price qty' is_buy else ok b'

-- `init` of a new book: `resize` fills both vectors with zeros.
unfoldable pub init_orders : ℕ → ℕ → Order
init_orders max_orders i = record {
  id = 0;
  price = 0;
  qty = 0;
  is_buy = false;
  next = if i == max_orders - 1 then null_idx else (i + 1) % 2 ^ 32;
  prev = 0;
}

abbrev pub init_side : Side
init_side = record {
  levels = λ _. record { head = null_idx; tail = null_idx };
  index = PriceBitset.clear_all PriceBitset.initial;
}

unfoldable pub init : ℕ → Run Book
init max_orders = do
  require (ltb 0 max_orders)
  ok (record {
    pool = record {
      capacity = max_orders;
      orders = init_orders max_orders;
      id_map = λ _. 0;
      next_free = 0;
    };
    bids = init_side;
    asks = init_side;
  })
