-- ===== src/SimpleBook.antt =====
-- src/engine/simple_book.h: `NaiveOrderBook`. A sorted map from prices to lists is an association list
-- in the map's order, the map of ids an association list. An iterator into a list is the number of the
-- node it points at; `fault` is the use of an iterator that points at nothing. A loop of `match` looks
-- at another price in each round but the last, so one round more than there are prices is enough.
pub mod Process
mod Tests
use lobook.Base.{
  ℕ, zero, suc, ◌+◌, ◌-◌, min, Bool, true, false, not, ◌&&◌, ◌||◌, Option, none, some, List, [],
  ◌∷◌, ◌++◌, Run, fault, ok, out_of_fuel, ◌>>=◌, ltb, ◌==◌, if◌then◌else◌,
}
use lobook.Chain.Lists.{length}

pub record Order : Type 0 where
  pub id : ℕ
  pub price : ℕ
  pub qty : ℕ
  pub is_buy : Bool

-- An order in a list, with the number of its node.
pub record Node : Type 0 where
  pub number : ℕ
  pub order : Order

pub record OrderLocation : Type 0 where
  pub price : ℕ
  pub is_buy : Bool
  pub itr : ℕ

abbrev pub Levels : Type 0
Levels = List (ℕ × List Node)

abbrev pub Lookup : Type 0
Lookup = List (ℕ × OrderLocation)

pub record NaiveOrderBook : Type 0 where
  pub total_trades : ℕ
  pub bids : Levels
  pub asks : Levels
  pub order_lookup : Lookup
  pub next_node : ℕ

-- `std::greater` for bids, `std::less` for asks.
abbrev pub comes_before : Bool → ℕ → ℕ → Bool
comes_before is_buy p q = if is_buy then ltb q p else ltb p q

-- `levels[price]` with the list changed; a missing price is inserted in its place with an empty list.
unfoldable pub at_level : Bool → Levels → ℕ → (List Node → List Node) → Levels
at_level is_buy [] price f = (price, f []) ∷ []
at_level is_buy ((p, l) ∷ levels) price f =
    let rest = at_level is_buy levels price f in
    if p == price
    then (p, f l) ∷ levels
    else if comes_before is_buy price p
    then (price, f []) ∷ (p, l) ∷ levels
    else (p, l) ∷ rest

unfoldable pub find : Lookup → ℕ → Option OrderLocation
find [] id = none
find ((i, loc) ∷ lookup) id = if i == id then some loc else find lookup id

unfoldable pub erase_id : Lookup → ℕ → Lookup
erase_id [] id = []
erase_id ((i, loc) ∷ lookup) id =
    let rest = erase_id lookup id in if i == id then lookup else (i, loc) ∷ rest

-- `order_lookup[id] = loc`
abbrev pub assign_id : Lookup → ℕ → OrderLocation → Lookup
assign_id lookup id loc = (id, loc) ∷ erase_id lookup id

abbrev pub erase_node : ℕ → List Node → List Node
erase_node n [] = []
erase_node n (x ∷ xs) = if x.number == n then xs else x ∷ erase_node n xs

-- What the loop over one list leaves: the open quantity, the list, the ids and the count of trades.
pub record Processed : Type 0 where
  pub qty : ℕ
  pub list : List Node
  pub lookup : Lookup
  pub trades : ℕ

unfoldable pub process_list : List Node → ℕ → Lookup → ℕ → Run Processed
process_list [] qty lookup trades =
    ok (record { qty = qty; list = []; lookup = lookup; trades = trades })
process_list (x ∷ xs) qty lookup trades =
    if qty == 0
    then ok (record { qty = qty; list = x ∷ xs; lookup = lookup; trades = trades })
    else do
      let traded_qty = min qty x.order.qty
      let resting = record (x.order) { qty = x.order.qty - traded_qty }
      if resting.qty == 0
          then (elim (find lookup resting.id) [
            | none ↦ fault
            | some loc ↦
                process_list xs (qty - traded_qty) (erase_id lookup resting.id) (trades + 1)
          ])
          else ok (record {
            qty = qty - traded_qty;
            list = record x { order = resting } ∷ xs;
            lookup = lookup;
            trades = trades + 1;
          })

abbrev pub is_worse : Bool → ℕ → ℕ → Bool
is_worse is_buy price best = if is_buy then ltb price best else ltb best price

-- The two loops of `match` are the same up to the side that they look at.
unfoldable pub match_levels : ℕ → Bool → Levels → ℕ → ℕ → Lookup → ℕ → Run (ℕ × Levels × Lookup × ℕ)
match_levels zero is_buy levels price qty lookup trades = out_of_fuel
match_levels (suc fuel) is_buy [] price qty lookup trades = ok (qty, [], lookup, trades)
match_levels (suc fuel) is_buy ((best, list) ∷ levels) price qty lookup trades =
    if qty == 0 || is_worse is_buy price best
    then ok (qty, (best, list) ∷ levels, lookup, trades)
    else do
      done ← process_list list qty lookup trades
      let levels' : Levels = elim done.list [ [] ↦ levels | x ∷ xs ↦ (best, x ∷ xs) ∷ levels ]
      match_levels fuel is_buy levels' price done.qty done.lookup done.trades

unfoldable pub match : NaiveOrderBook → Order → Run (ℕ × NaiveOrderBook)
match b incoming = do
  let opposite = if incoming.is_buy then b.asks else b.bids
  (qty', levels', lookup', trades') ←
      match_levels (length opposite + 1) incoming.is_buy opposite incoming.price incoming.qty
        b.order_lookup b.total_trades
  let b' = record b { order_lookup = lookup'; total_trades = trades' }
  ok (qty', if incoming.is_buy then record b' { asks = levels' } else record b' { bids = levels' })

unfoldable pub add_order : NaiveOrderBook → ℕ → ℕ → ℕ → Bool → Run NaiveOrderBook
add_order b id price qty is_buy = do
  (qty', b') ← match b (record { id = id; price = price; qty = qty; is_buy = is_buy })
  if qty' == 0 then ok b' else do
    let node : Node = record {
      number = b'.next_node;
      order = record { id = id; price = price; qty = qty'; is_buy = is_buy };
    }
    let levels = at_level is_buy (if is_buy then b'.bids else b'.asks) price (λ l. l ++ (node ∷ []))
    let b'' = record b' {
      order_lookup =
          assign_id b'.order_lookup id
            (record { price = price; is_buy = is_buy; itr = b'.next_node });
      next_node = b'.next_node + 1;
    }
    ok (if is_buy then record b'' { bids = levels } else record b'' { asks = levels })

-- The emptied list of a price stays in the map.
unfoldable pub cancel_order : NaiveOrderBook → ℕ → NaiveOrderBook
cancel_order b id = elim (find b.order_lookup id) [
  | none ↦ b
  | some loc ↦
      let b' = record b { order_lookup = erase_id b.order_lookup id } in
      if loc.is_buy
      then record b' { bids = at_level true b.bids loc.price (erase_node loc.itr) }
      else record b' { asks = at_level false b.asks loc.price (erase_node loc.itr) }
]

abbrev pub has_order : NaiveOrderBook → ℕ → Bool
has_order b id = elim (find b.order_lookup id) [ none ↦ false | some loc ↦ true ]

abbrev pub initial : NaiveOrderBook
initial = record { total_trades = 0; bids = []; asks = []; order_lookup = []; next_node = 0 }
