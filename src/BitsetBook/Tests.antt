-- ===== src/BitsetBook/Tests.antt =====
-- Runs of the book, as in tests/test_match.cpp, tests/test_cancel.cpp and tests/test_replace.cpp.
use lobook.Base.{
  ℕ, ◌≡◌, ◌≢◌, refl, true, false, List, [], ◌∷◌, Run, ok, fault, ◌>>=◌, Returns, arith,
}
use lobook.BitsetBook.{cancel_order, get_quantity, replace_order, add_order}
use lobook.BitsetBook.Match.{submit_order, init, match}
use lobook.BitsetBook.Represents.{IsBook, put, entry}
use lobook.BitsetBook.Samples.{
  code_runs, new_book, new_book-IsBook, one_bid, bid_queue, one_bid-IsBook, one_bid-capacity,
  one_bid-fresh,
}
use lobook.BitsetBook.Init.{init-IsBook, no_queues, slots}
use lobook.BitsetBook.Add.{add_order-append}
use lobook.BitsetBook.Traded.{match-Traded, MatchTraded}
use lobook.BitsetBook.Submit.{submit_order-Submitted, Submitted}
use lobook.BitsetBook.Fresh.{AreFresh}
use lobook.BitsetBook.Cancelled.{cancel_order-Cancelled, IsGone}
use lobook.BitsetBook.Replaced.{IsReplaced, move_queue}
use lobook.BitsetBook.Replace.{replace_order-Replaced}
use lobook.BitsetBook.Rejected.{add_order-Lost}
use lobook.BitsetBook.Session.{Incoming, submit_all, session-Uncrossed}
use lobook.BitsetBook.Uncrossed.{Uncrossed}

-- test_sweep_multiple_levels
sweep : Run (ℕ × ℕ × ℕ × ℕ)
unfolding code_runs
sweep = do
  b0 ← init 16
  b1 ← submit_order b0 1 100 10 true
  b2 ← submit_order b1 2 99 10 true
  b3 ← submit_order b2 3 98 10 true
  b4 ← submit_order b3 4 99 15 false
  q1 ← get_quantity b4 1
  q2 ← get_quantity b4 2
  q3 ← get_quantity b4 3
  q4 ← get_quantity b4 4
  ok (q1, q2, q3, q4)

sweep_runs : sweep ≡ ok (0, 5, 10, 0)
unfolding sweep
sweep_runs = refl

init-IsBook_example : Returns (init 4) λ b. (b.pool.capacity ≡ 4) × IsBook b no_queues (slots 0 4)
init-IsBook_example = init-IsBook 4 (omega arith) (omega arith)

add_order-append_example : Returns (add_order new_book 1 100 10 true) λ b'.
    IsBook b' (bid_queue (0 ∷ [])) (slots 1 3)
    × (entry b'.pool 0 ≡ (1, 10))
    × ((i : ℕ) → i ≢ 0 → entry b'.pool i ≡ entry new_book.pool i)
    × (b'.pool.capacity ≡ 4)
    × (AreFresh new_book.pool no_queues → AreFresh b'.pool (bid_queue (0 ∷ [])))
add_order-append_example =
    add_order-append 1 100 10 true new_book-IsBook (omega arith) (omega arith) (λ k q i h. cc)

-- A sell of 25 at 99 takes the 10, and the other 15 rest.
submit_order-Submitted_example :
    Returns
      (submit_order one_bid 2 99 25 false)
      (Submitted one_bid (bid_queue (0 ∷ [])) 2 99 25 false)
submit_order-Submitted_example =
    submit_order-Submitted one_bid 2 99 25 false one_bid-IsBook (omega arith)
      (omega (arith, one_bid-capacity)) one_bid-fresh

match-Traded_example :
    Returns (match one_bid 99 4 false) (MatchTraded one_bid (bid_queue (0 ∷ [])) false 99 4)
match-Traded_example = match-Traded one_bid 99 4 false one_bid-IsBook

cancel_order-Cancelled_example : Returns (cancel_order one_bid (one_bid.pool.orders 0).id) λ b'.
    IsBook b' (put (bid_queue (0 ∷ [])) true 100 []) (0 ∷ slots 1 3)
    × ((j : ℕ) → entry b'.pool j ≡ entry one_bid.pool j)
    × IsGone (one_bid.pool.orders 0).id b'
    × (AreFresh one_bid.pool (bid_queue (0 ∷ []))
        → AreFresh b'.pool (put (bid_queue (0 ∷ [])) true 100 []))
    × (b'.pool.capacity ≡ one_bid.pool.capacity)
unfolding one_bid
cancel_order-Cancelled_example = cancel_order-Cancelled 0 one_bid-IsBook refl (λ e. refl)

abbrev orders_in : List Incoming
orders_in =
    record { id = 1; price = 100; qty = 10; is_buy = true }
    ∷ record { id = 2; price = 99; qty = 10; is_buy = true }
    ∷ record { id = 3; price = 99; qty = 15; is_buy = false }
    ∷ []

session-Uncrossed_example : Returns (do b ← init 16; submit_all b orders_in) Uncrossed
session-Uncrossed_example = session-Uncrossed 16 orders_in (omega arith) (omega arith) (
  omega arith,
  omega arith,
  refl,
  (omega arith, omega arith, refl, (omega arith, omega arith, refl, tt)),
)

-- The order goes to 101 with a quantity of 20.
replace_order-Replaced_example : Returns (replace_order one_bid (one_bid.pool.orders 0).id 101 20) (
    IsReplaced one_bid
      (bid_queue (0 ∷ []))
      0
      20
      (move_queue (bid_queue (0 ∷ [])) true 100 0 101)
      (slots 1 3))
unfolding one_bid
replace_order-Replaced_example =
    replace_order-Replaced 0 20 one_bid-IsBook refl (λ e. refl) 101 (omega arith)

add_order-Lost_example : Returns (add_order new_book 1 100000 10 true) λ b'.
    IsBook b' no_queues (slots 1 3) × (get_quantity b' 1 ≡ ok 10) × (cancel_order b' 1 ≡ fault)
add_order-Lost_example =
    add_order-Lost 1 100000 10 true new_book-IsBook (omega arith) (omega arith) (λ k q i h. cc)
