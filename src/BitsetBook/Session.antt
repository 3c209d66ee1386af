-- ===== src/BitsetBook/Session.antt =====
-- A session: a new book and the orders submitted to it one after another.
use lobook.Base.{
  ℕ, ◌<◌, ◌≡◌, refl, ◌∙◌, Bool, true, false, List, [], ◌∷◌, Run, ok, ◌>>=◌, Returns, arith,
}
use lobook.PriceBitset.{max_prices}
use lobook.Pool.{null_idx}
use lobook.Chain.Lists.{has}
use lobook.BitsetBook.{Book}
use lobook.BitsetBook.Represents.{IsBook}
use lobook.BitsetBook.Match.{submit_order, init}
use lobook.BitsetBook.Submit.{submit_order-Submitted}
use lobook.BitsetBook.Uncrossed.{IsUncrossed, Uncrossed, submitted-IsUncrossed}
use lobook.BitsetBook.Init.{init-IsBook, no_queues}

pub record Incoming : Type 0 where
  pub id : ℕ
  pub price : ℕ
  pub qty : ℕ
  pub is_buy : Bool

unfoldable pub submit_all : Book → List Incoming → Run Book
submit_all b [] = ok b
submit_all b (o ∷ os) = do b' ← submit_order b o.id o.price o.qty o.is_buy; submit_all b' os

-- Prices inside the ladder, ids inside the id map, and no id among `used` or twice.
abbrev pub IsValid : ℕ → List ℕ → List Incoming → Type 0
IsValid n used [] = Unit
IsValid n used (o ∷ os) =
    (o.price < max_prices) × (o.id < n) × (has o.id used ≡ false) × IsValid n (o.id ∷ used) os

submit_all-Uncrossed :
    (n : ℕ) (used : List ℕ) (os : List Incoming) (b : Book) (queues : Bool → ℕ → List ℕ)
    (free : List ℕ)
    → b.pool.capacity ≡ n
    → IsBook b queues free
    → IsUncrossed b queues
    → ((k : Bool) (q i : ℕ) → has i (queues k q) ≡ true → has (b.pool.orders i).id used ≡ true)
    → IsValid n used os
    → Returns (submit_all b os) Uncrossed
unfolding submit_all
submit_all-Uncrossed n used [] b queues free kept v u ids valid = (b, refl, (queues, free, v, u))
submit_all-Uncrossed n used (o ∷ os) b queues free kept v u ids (lt, known, new, valid) =
    let (b', e, (qty', queues', free', s)) =
      submit_order-Submitted b o.id o.price o.qty o.is_buy v lt (rw kept known)
        (λ k q i h same. ground (arith, ids k q i h)) in
    rw e (
      submit_all-Uncrossed n (o.id ∷ used) os b' queues' free' (s.cap ∙ kept) s.book
        (submitted-IsUncrossed o.is_buy u s)
        (s.ids (λ x. has x (o.id ∷ used)) (λ k q i h. ground (arith, ids k q i h)) (ground arith))
        valid)

-- From `init` of a book with between 1 and UINT32_MAX - 1 orders, any orders submitted one after
-- another, with prices below MAX_PRICES and different ids below the number of orders, run without a
-- fault, and the book that they leave is well formed and not crossed.
pub session-Uncrossed :
    (n : ℕ) (os : List Incoming)
    → 0 < n
    → n < null_idx
    → IsValid n [] os
    → Returns (do b ← init n; submit_all b os) Uncrossed
session-Uncrossed n os some_slots small valid =
    let (b, e, (kept, v)) = init-IsBook n some_slots small in
    rw e (submit_all-Uncrossed n [] os b no_queues _ kept v (λ p q hp hq. cc) (λ k q i h. cc) valid)
