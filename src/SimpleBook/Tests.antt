-- ===== src/SimpleBook/Tests.antt =====
-- Runs of the naive book.
use lobook.Base.{ℕ, ◌≡◌, refl, Bool, true, false, List, [], ◌∷◌, Run, ok, ◌>>=◌, Returns}
use lobook.SimpleBook.{
  Node, Lookup, process_list, match_levels, match, add_order, cancel_order, has_order, initial,
  find, erase_id, at_level,
}
use lobook.SimpleBook.Process.{IsProcessed, process_list-Processed}

traded_and_cancelled : Run (Bool × Bool × ℕ)
unfolding process_list match_levels match add_order cancel_order find erase_id at_level
traded_and_cancelled = do
  b1 ← add_order initial 1 100 10 true
  b2 ← add_order b1 2 99 10 true
  b3 ← add_order b2 3 99 15 false
  let b4 = cancel_order b3 2
  ok (has_order b4 1, has_order b4 2, b4.total_trades)

traded_and_cancelled_runs : traded_and_cancelled ≡ ok (false, false, 2)
unfolding traded_and_cancelled
traded_and_cancelled_runs = refl

abbrev resting : List Node
resting =
    record { number = 0; order = record { id = 1; price = 9; qty = 10; is_buy = true } }
    ∷ record { number = 1; order = record { id = 2; price = 9; qty = 10; is_buy = true } }
    ∷ []

abbrev locations : Lookup
locations =
    (1, record { price = 9; is_buy = true; itr = 0 })
    ∷ (2, record { price = 9; is_buy = true; itr = 1 })
    ∷ []

process_list-Processed_example :
    Returns (process_list resting 15 locations 0) (IsProcessed resting 15)
unfolding find
process_list-Processed_example =
    process_list-Processed resting 15 locations 0 (refl, refl, (refl, refl, tt))
