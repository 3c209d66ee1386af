-- ===== src/FastBook/Tests.antt =====
-- Runs of the book without a bitset.
use lobook.Base.{
  map_run, ℕ, List, [], ◌∷◌, ◌≡◌, refl, true, false, Run, ok, out_of_fuel, ◌>>=◌, arith,
}
use lobook.Pool.{null_idx, set_next, set_prev, unlink_level, unlink_nodes, free_slot}
use lobook.BitsetBook.Match.{match_level, pop_filled, init_orders}
use lobook.FastBook.{
  FastBook, cancel_order, get_quantity, add_order, match_price, scan, match, submit_order, init,
}
use lobook.FastBook.Scan.{match_endless}
use lobook.FastBook
use lobook.FastBook.Forget.{forget, cancel_order-forget}
use lobook.FastBook.Agree.{submit_order-forget}
use lobook.FastBook.Session
use lobook.FastBook.Session.{session-forget}
use lobook.BitsetBook
use lobook.BitsetBook.Match
use lobook.BitsetBook.Session as BitsetSession
use lobook.BitsetBook.Session.{Incoming}
use lobook.BitsetBook.Samples.{one_bid, one_bid-IsBook}

cancelled_and_filled : Run (ℕ × ℕ × ℕ)
unfolding cancel_order get_quantity add_order match_price scan match submit_order init init_orders
    match_level pop_filled set_next set_prev unlink_level unlink_nodes free_slot
cancelled_and_filled = do
  b0 ← init 8
  b1 ← submit_order 10 b0 1 5 10 false
  b2 ← submit_order 10 b1 2 5 10 false
  b3 ← cancel_order b2 1
  b4 ← submit_order 10 b3 3 7 4 true
  q1 ← get_quantity b4 1
  q2 ← get_quantity b4 2
  q3 ← get_quantity b4 3
  ok (q1, q2, q3)

abbrev no_orders : FastBook
no_orders = record {
  pool = record { capacity = 4; orders = init_orders 4; id_map = λ _. 0; next_free = 0 };
  bids = λ _. record { head = null_idx; tail = null_idx };
  asks = λ _. record { head = null_idx; tail = null_idx };
}

match_endless_example : match 200000 no_orders 0 5 false ≡ out_of_fuel
match_endless_example =
    match_endless 200000 no_orders 0 5 false (omega arith) (λ e. cc) (λ e. refl) (λ p lt. refl)

submit_order-forget_example :
    FastBook.submit_order 200000 (forget one_bid) 2 99 25 false
    ≡ map_run forget (Match.submit_order one_bid 2 99 25 false)
submit_order-forget_example =
    submit_order-forget 200000 one_bid 2 99 25 false one_bid-IsBook (omega arith) (omega arith)

cancel_order-forget_example :
    map_run forget (BitsetBook.cancel_order one_bid 1) ≡ FastBook.cancel_order (forget one_bid) 1
cancel_order-forget_example = cancel_order-forget one_bid 1 (λ k. (one_bid-IsBook.sides k).indexed)

abbrev orders_in : List Incoming
orders_in =
    record { id = 1; price = 100; qty = 10; is_buy = true }
    ∷ record { id = 2; price = 99; qty = 15; is_buy = false }
    ∷ record { id = 3; price = 99; qty = 5; is_buy = true }
    ∷ []

session-forget_example :
    (do b ← FastBook.init 16; Session.submit_all 200000 b orders_in)
    ≡ map_run forget (do b ← Match.init 16; BitsetSession.submit_all b orders_in)
session-forget_example =
    session-forget 200000 16 orders_in (omega arith) (omega arith) (omega arith)
      (
        omega arith,
        omega arith,
        refl,
        (omega arith, omega arith, refl, (omega arith, omega arith, refl, tt)),
      )
      (omega arith, (omega arith, (omega arith, tt)))
