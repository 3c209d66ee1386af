-- ===== src/Engine/Samples.antt =====
-- A sort, percentiles and a clock for the tests.
use lobook.Base.{
  ℕ, suc, ◌<◌, ◌*◌, ◌/◌, ◌+◌, ltb, if◌then◌else◌, Bool-cases, inl, inr, ◌∙◌, ap, arith, ◌≡◌, refl,
  List, [], ◌∷◌,
}
use lobook.Chain.Lists.{length}
use lobook.Engine.Latency.{Timespec, Percentile, p50, p99, p999}

-- An insertion sort, and the percentiles of whole numbers.
abbrev insert : ℕ → List ℕ → List ℕ
insert x [] = x ∷ []
insert x (y ∷ ys) = if ltb x y then x ∷ y ∷ ys else y ∷ insert x ys

abbrev pub insertion_sort : List ℕ → List ℕ
insertion_sort [] = []
insertion_sort (x ∷ xs) = insert x (insertion_sort xs)

length-insert : (x : ℕ) (xs : List ℕ) → length (insert x xs) ≡ suc (length xs)
length-insert x [] = refl
length-insert x (y ∷ ys) = elim (Bool-cases (ltb x y)) [
  | inl e ↦ rw e refl
  | inr e ↦ rw e (ap suc (length-insert x ys))
]

pub length-insertion_sort : (xs : List ℕ) → length (insertion_sort xs) ≡ length xs
length-insertion_sort [] = refl
length-insertion_sort (x ∷ xs) =
    length-insert x (insertion_sort xs) ∙ ap suc (length-insertion_sort xs)

abbrev pub thousandths : Percentile → ℕ
thousandths p50 = 500
thousandths p99 = 990
thousandths p999 = 999

abbrev pub whole_index : Percentile → ℕ → ℕ
whole_index p n = n * thousandths p / 1000

pub whole_index_lt : (p : Percentile) (n : ℕ) → 0 < n → whole_index p n < n
whole_index_lt p50 n lt = omega arith
whole_index_lt p99 n lt = omega arith
whole_index_lt p999 n lt = omega arith

abbrev pub tick : ℕ → Timespec
tick i = record { tv_sec = 1; tv_nsec = i * 100 + 60 }
