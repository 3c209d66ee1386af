-- ===== src/BitsetBook/Consecutive.antt =====
-- Orders whose ids count up: what the harnesses submit.
use lobook.Base.{
  ℕ, suc, ◌+◌, ◌≤◌, ◌<◌, ◌≡◌, inl, inr, true, false, List, [], ◌∷◌, ◌++◌, Bool-cases, arith,
}
use lobook.PriceBitset.{max_prices}
use lobook.Chain.Lists.{has, length}
use lobook.BitsetBook.Session.{Incoming, IsValid}

-- Ids from `i` on, and prices inside the ladder.
abbrev pub Consecutive : ℕ → List Incoming → Type 0
Consecutive i [] = Unit
Consecutive i (o ∷ os) = (o.id ≡ i) × (o.price < max_prices) × Consecutive (suc i) os

pub length-append : (xs ys : List Incoming) → length (xs ++ ys) ≡ length xs + length ys
length-append [] ys = omega arith
length-append (x ∷ xs) ys = ground (arith, length-append xs ys)

pub Consecutive-append :
    (i j : ℕ) (xs ys : List Incoming)
    → Consecutive i xs
    → j ≡ i + length xs
    → Consecutive j ys
    → Consecutive i (xs ++ ys)
Consecutive-append i j [] ys cx e cy = let same : j ≡ i = omega arith in rw (← same) cy
Consecutive-append i j (x ∷ xs) ys (same, lt, cx) e cy =
    (same, lt, Consecutive-append (suc i) j xs ys cx (omega arith) cy)

unused : (i : ℕ) (used : List ℕ) → ((x : ℕ) → has x used ≡ true → x < i) → has i used ≡ false
unused i used below = elim (Bool-cases (has i used)) [
  | inl h ↦ absurd (omega (arith, below i h))
  | inr h ↦ h
]

IsValid-behind :
    (n i : ℕ) (os : List Incoming) (used : List ℕ)
    → Consecutive i os
    → i + length os ≤ n
    → ((x : ℕ) → has x used ≡ true → x < i)
    → IsValid n used os
IsValid-behind n i [] used c le below = tt
IsValid-behind n i (o ∷ os) used (same, lt, c) le below = (
  lt,
  omega arith,
  rw same (unused i used below),
  IsValid-behind n (suc i) os (o.id ∷ used) c (omega arith) λ x h. ground (arith, below x),
)

pub Consecutive-IsValid :
    (n i : ℕ) (os : List Incoming) → Consecutive i os → i + length os ≤ n → IsValid n [] os
Consecutive-IsValid n i os c le = IsValid-behind n i os [] c le (λ x h. cc)
