-- ===== src/Chain.antt =====
-- The lists that run through the pool of the order books: from a first index along `next` to
-- NULL_IDX, and back along `prev`.
pub mod Lists
pub mod Frame
pub mod Unlink
pub mod Append
use lobook.Base.{ℕ, ◌≡◌, List, [], ◌∷◌}
use lobook.Pool.{null_idx, PriceLevel}
use lobook.Chain.Lists.{Distinct, last_of}

-- From `h` along `nx`, exactly the indices `xs`.
abbrev pub Linked : (ℕ → ℕ) → ℕ → List ℕ → Type 0
Linked nx h [] = h ≡ null_idx
Linked nx h (x ∷ xs) = (h ≡ x) × Linked nx (nx x) xs

-- Each index of the list points back to the one before it, the first to `before`.
abbrev pub Back : (ℕ → ℕ) → ℕ → List ℕ → Type 0
Back pv before [] = Unit
Back pv before (x ∷ xs) = (pv x ≡ before) × Back pv x xs

-- The same with nothing said of the first.
abbrev pub BackTail : (ℕ → ℕ) → List ℕ → Type 0
BackTail pv [] = Unit
BackTail pv (x ∷ xs) = Back pv x xs

-- `t` is the last index, if there is one.
abbrev pub IsTail : ℕ → List ℕ → Type 0
IsTail t [] = Unit
IsTail t (x ∷ xs) = t ≡ last_of x xs

-- A price level with its orders, oldest first. Of the first order's `prev` nothing is said.
pub record IsLevel (nx pv : ℕ → ℕ) (l : PriceLevel) (c : List ℕ) : Type 0 where
  pub linked : Linked nx l.head c
  pub back : BackTail pv c
  pub tail : IsTail l.tail c
  pub distinct : Distinct c
