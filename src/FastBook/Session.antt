-- ===== src/FastBook/Session.antt =====
-- A session on the book of src/engine/fast_book.h: a new book and the orders submitted to it.
use lobook.Base.{map_run, ℕ, ◌<◌, ◌≡◌, refl, ◌∙◌, Bool, true, List, [], ◌∷◌, Run, ok, ◌>>=◌, arith}
use lobook.PriceBitset.{max_prices}
use lobook.Pool.{null_idx}
use lobook.Chain.Lists.{has}
use lobook.BitsetBook.{Book}
use lobook.BitsetBook.Represents.{IsBook}
use lobook.BitsetBook.Match
use lobook.BitsetBook.Submit.{submit_order-Submitted}
use lobook.BitsetBook.Init.{init-IsBook, no_queues}
use lobook.BitsetBook.Session
use lobook.BitsetBook.Session.{Incoming, IsValid}
use lobook.FastBook
use lobook.FastBook.{FastBook}
use lobook.FastBook.Forget.{forget, init-forget}
use lobook.FastBook.Ladder.{IsLimit}
use lobook.FastBook.Agree.{submit_order-forget}

unfoldable pub submit_all : ℕ → FastBook → List Incoming → Run FastBook
submit_all fuel b [] = ok b
submit_all fuel b (o ∷ os) = do
  b' ← FastBook.submit_order fuel b o.id o.price o.qty o.is_buy
  submit_all fuel b' os

-- Limits from which each scan ends.
abbrev pub AreLimits : List Incoming → Type 0
AreLimits [] = Unit
AreLimits (o ∷ os) = IsLimit o.is_buy o.price × AreLimits os

submit_all-forget :
    (fuel n : ℕ) (used : List ℕ) (os : List Incoming) (b : Book) (queues : Bool → ℕ → List ℕ)
    (free : List ℕ)
    → max_prices < fuel
    → b.pool.capacity ≡ n
    → IsBook b queues free
    → ((k : Bool) (q i : ℕ) → has i (queues k q) ≡ true → has (b.pool.orders i).id used ≡ true)
    → IsValid n used os
    → AreLimits os
    → submit_all fuel (forget b) os ≡ map_run forget (Session.submit_all b os)
unfolding submit_all Session.submit_all
submit_all-forget fuel n used [] b queues free enough kept v ids valid limits = refl
submit_all-forget fuel n used (o ∷ os) b queues free enough kept v ids (lt, known, new, valid)
      (limit, limits) =
    let (b', e, (qty', queues', free', s)) =
      submit_order-Submitted b o.id o.price o.qty o.is_buy v lt (rw kept known)
        (λ k q i h same. ground (arith, ids k q i h)) in
    rw (submit_order-forget fuel b o.id o.price o.qty o.is_buy v limit enough, e)
      (submit_all-forget fuel n (o.id ∷ used) os b' queues' free' enough (s.cap ∙ kept) s.book
        (s.ids (λ x. has x (o.id ∷ used)) (λ k q i h. ground (arith, ids k q i h)) (ground arith))
        valid limits)

-- From `init` of a book with between 1 and UINT32_MAX - 1 orders, any orders submitted one after
-- another, with prices below MAX_PRICES, different ids below the number of orders and limits from
-- which each scan ends, leave the book of src/engine/fast_book.h as they leave that of
-- src/engine/fast_bitset_book.h, but for the bitsets. More fuel than MAX_PRICES is enough for a scan.
pub session-forget :
    (fuel n : ℕ) (os : List Incoming)
    → max_prices < fuel
    → 0 < n
    → n < null_idx
    → IsValid n [] os
    → AreLimits os
    → (do b ← FastBook.init n; submit_all fuel b os)
      ≡ map_run forget (do b ← Match.init n; Session.submit_all b os)
session-forget fuel n os enough some_slots small valid limits =
    let (b, e, (kept, v)) = init-IsBook n some_slots small in
    rw (← init-forget n, e)
      (submit_all-forget fuel n [] os b no_queues _ enough kept v (λ k q i h. cc) valid limits)
