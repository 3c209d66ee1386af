-- ===== src/BitsetBook/Init.antt =====
-- `init`: an empty book with every slot free.
use lobook.Base.{
  ℕ, zero, suc, ◌+◌, ◌≤◌, ◌<◌, ◌≡◌, refl, sym, Bool, true, false, List, [], ◌∷◌, if◌then◌else◌,
  Returns, arith, lt→ltb,
}
use mathlib.Core.Path.{subst}
use lobook.PriceBitset.{max_prices}
use lobook.PriceBitset
use lobook.PriceBitset.History.{initial-Holds}
use lobook.PriceBitset.Update.{initial-eq-clear_all}
use lobook.Pool.{null_idx, Pool}
use lobook.Chain.{Linked}
use lobook.Chain.Lists.{has, Distinct}
use lobook.BitsetBook.{Book}
use lobook.BitsetBook.Represents.{IsSide, IsBook, next_of}
use lobook.BitsetBook.Match.{init, init_orders, init_side}

-- `count` slots from `start` on.
abbrev pub slots : ℕ → ℕ → List ℕ
slots start zero = []
slots start (suc count) = start ∷ slots (suc start) count

abbrev pub no_queues : Bool → ℕ → List ℕ
no_queues k p = []

has-slots :
    (i start count : ℕ) → has i (slots start count) ≡ true → (start ≤ i) × (i < start + count)
has-slots i start zero h = cc
has-slots i start (suc count) h =
    (ground (arith, has-slots i (suc start) count), ground (arith, has-slots i (suc start) count))

Distinct-slots : (start count : ℕ) → Distinct (slots start count)
Distinct-slots start zero = tt
Distinct-slots start (suc count) =
    (ground (arith, has-slots start (suc start) count), Distinct-slots (suc start) count)

empty-IsSide : (m : Pool) (k : Bool) → IsSide m k init_side (no_queues k)
empty-IsSide m k = record {
  at = λ p lt. record {
    level = record { linked = refl; back = tt; tail = tt; distinct = tt };
    resting = λ i h. cc;
  };
  outside = λ p ge. refl;
  indexed = rw (← initial-eq-clear_all PriceBitset.initial) initial-Holds;
}

module _ (n : ℕ) (some_slots : 0 < n) (small : n < null_idx) where
  abbrev fresh : Pool
  fresh = record { capacity = n; orders = init_orders n; id_map = λ _. 0; next_free = 0 }

  next_last : (i : ℕ) → i + 1 ≡ n → next_of fresh i ≡ null_idx
  unfolding init_orders
  next_last i e = ground arith

  next_inner : (i : ℕ) → i + 1 < n → next_of fresh i ≡ suc i
  unfolding init_orders
  next_inner i lt = ground arith

  Linked-slots :
      (count start : ℕ)
      → start + suc count ≡ n
      → Linked (next_of fresh) start (slots start (suc count))
  Linked-slots zero start e = (refl, next_last start (omega arith))
  Linked-slots (suc count) start e = (
    refl,
    subst (λ h. Linked (next_of fresh) h (slots (suc start) (suc count)))
        (sym (next_inner start (omega arith))) (Linked-slots count (suc start) (omega arith)),
  )

  all-Linked : (count : ℕ) → count ≡ n → Linked (next_of fresh) 0 (slots 0 count)
  all-Linked zero e = absurd (omega arith)
  all-Linked (suc count) e = Linked-slots count 0 (omega arith)

  abbrev pub fresh_book : Book
  fresh_book = record { pool = fresh; bids = init_side; asks = init_side }

  pub fresh_book-IsBook : IsBook fresh_book no_queues (slots 0 n)
  fresh_book-IsBook = record {
    sides = λ k. by_side k;
    pool = record {
      small = small;
      linked = all-Linked n refl;
      distinct = Distinct-slots 0 n;
      in_pool = λ i h. omega (arith, (has-slots i 0 n h).1);
    };
    apart = λ k p i h. cc;
  }
    where
      by_side : (k : Bool) → IsSide fresh k (if k then init_side else init_side) (no_queues k)
      by_side true = empty-IsSide fresh true
      by_side false = empty-IsSide fresh false

  -- For a number of orders between 1 and UINT32_MAX - 1, `init` returns a book with no queues, whose
  -- free list is every slot of the pool in order.
  pub init-IsBook : Returns (init n) λ b. (b.pool.capacity ≡ n) × IsBook b no_queues (slots 0 n)
  unfolding init
  init-IsBook = rw (lt→ltb 0 n some_slots) (fresh_book, refl, (refl, fresh_book-IsBook))
