-- ===== src/BitsetBook/Samples.antt =====
-- Books that the tests use: an empty one, and one with a single order.
use lobook.Base.{
  ℕ, ◌≡◌, ◌≢◌, refl, sym, ap, ◌∙◌, Bool, true, List, [], ◌∷◌, Run, fault, out_of_fuel, ok, arith,
}
use mathlib.Core.Path.{subst}
use lobook.PriceBitset
use lobook.Base.Bits.{ctzll, clzll, test_bit, trailing_zeros, leading_zeros, bit_not}
use lobook.Pool.{set_next, set_prev, unlink_level, unlink_nodes, free_slot}
use lobook.BitsetBook.{
  cancel_order, get_quantity, replace_order, clear_index, set_index, add_order, remove_from_level,
  append_to_level, move_to_end, set_terms,
}
use lobook.BitsetBook.Match.{
  submit_order, init, match, match_loop, match_best, match_level, pop_filled, init_orders,
}
use lobook.Chain.Lists.{has}
use lobook.BitsetBook.{Book}
use lobook.BitsetBook.Represents.{prev_of, IsBook, put}
use lobook.BitsetBook.Init.{fresh_book, fresh_book-IsBook, no_queues, slots}
use lobook.BitsetBook.Fresh.{IsFresh, at_queue}
use lobook.BitsetBook.Resting.{IsLiveBook}
use lobook.BitsetBook.Add.{add_order-append}

unfoldable pub code_runs : ℕ
unfolding submit_order init match match_loop match_best match_level pop_filled init_orders
    cancel_order get_quantity replace_order clear_index set_index add_order remove_from_level
    append_to_level move_to_end set_terms set_next set_prev unlink_level unlink_nodes free_slot
    ctzll clzll test_bit trailing_zeros leading_zeros bit_not PriceBitset.set PriceBitset.clear
    PriceBitset.find_lowest PriceBitset.find_highest PriceBitset.clear_all PriceBitset.initial
code_runs = 0

-- The book that a run returns.
abbrev pub value_of : Run Book → Book → Book
value_of (ok b) other = b
value_of out_of_fuel other = other
value_of fault other = other

abbrev pub new_book : Book
new_book = fresh_book 4 (omega arith) (omega arith)

pub new_book-IsBook : IsBook new_book no_queues (0 ∷ slots 1 3)
new_book-IsBook = fresh_book-IsBook 4 (omega arith) (omega arith)

-- A buy of 10 at 100 in slot 0.
unfoldable pub one_bid : Book
unfolding code_runs
one_bid = value_of (add_order new_book 1 100 10 true) new_book

abbrev pub bid_queue : List ℕ → Bool → ℕ → List ℕ
bid_queue c = put no_queues true 100 c

pub one_bid-IsBook : IsBook one_bid (bid_queue (0 ∷ [])) (slots 1 3)
unfolding one_bid
one_bid-IsBook =
    let (b', e, post) =
      add_order-append 1 100 10 true new_book-IsBook (omega arith) (omega arith) (λ k q i h. cc) in
    subst (λ b. IsBook b (bid_queue (0 ∷ [])) (slots 1 3)) (sym (ap (λ r. value_of r new_book) e))
      post.0

pub one_bid-id : (one_bid.pool.orders 0).id ≡ 1
unfolding one_bid
one_bid-id = refl

pub one_bid-capacity : one_bid.pool.capacity ≡ 4
unfolding one_bid
one_bid-capacity = refl

pub one_bid-fresh :
    (k : Bool) (q i : ℕ) → has i (bid_queue (0 ∷ []) k q) ≡ true → (one_bid.pool.orders i).id ≢ 2
one_bid-fresh k q i h = ground (arith, one_bid-id)

pub one_bid-IsLiveBook : IsLiveBook (λ id. id ≡ 1) one_bid
unfolding one_bid
one_bid-IsLiveBook = (
  bid_queue (0 ∷ []),
  slots 1 3,
  one_bid-IsBook,
  λ k q.
      at_queue (λ _ _. IsFresh (prev_of one_bid.pool)) no_queues true 100 (0 ∷ []) k q refl
        (λ _. tt),
  λ id e. (true, 100, 0, refl, one_bid-id ∙ sym e),
)
