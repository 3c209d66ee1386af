-- ===== src/BitsetBook/MatchRun.antt =====
-- The inner loop of `match` ends within its fuel and does what `Fill` says.
use lobook.Base.{
  ℕ, zero, suc, ◌-◌, ◌≤◌, ◌<◌, ◌≡◌, ◌≢◌, refl, inl, inr, Bool, true, false, List, [], ◌∷◌, ◌==◌,
  Bool-cases, ==→ne, ne→==, lt→ltb, min, Returns, arith,
}
use mathlib.Core.Path.{subst}
use lobook.Pool.{null_idx, PriceLevel, Pool}
use lobook.Chain.Lists.{has, length}
use lobook.BitsetBook.Represents.{head_null, IsResting, IsQueue, IsFree}
use lobook.BitsetBook.Match.{match_level}
use lobook.BitsetBook.MatchLevel.{
  IsMatched, pop_filled-popped, popped_level, popped, popped-IsQueue, popped-IsFree, IsMatched-pop,
  IsMatched-reduce, IsMatched-stop,
}

-- A result of the loop, with the queue and the free list that it leaves.
abbrev pub Matched : Pool → Bool → ℕ → List ℕ → List ℕ → ℕ → ℕ × PriceLevel × Pool → Type 0
Matched m k p c free qty (qty', l', m') =
    (c' : List ℕ) × (free' : List ℕ) × IsMatched m k p c free qty m' l' c' free' qty'

-- One round at a queue that is not empty; `more` is the loop on the rest of it.
step-Matched :
    (fuel : ℕ) {m : Pool} {k : Bool} {p : ℕ} {l : PriceLevel} (xs free : List ℕ) (qty : ℕ)
    → IsQueue m k p l (l.head ∷ xs)
    → IsFree m free
    → ((i : ℕ) → has i (l.head ∷ xs) ≡ true → has i free ≡ false)
    → ((m' : Pool) (l' : PriceLevel) (free' : List ℕ) (qty' : ℕ)
        → IsQueue m' k p l' xs
        → IsFree m' free'
        → ((i : ℕ) → has i xs ≡ true → has i free' ≡ false)
        → Returns (match_level fuel qty' l' m') (Matched m' k p xs free' qty'))
    → Returns (match_level (suc fuel) qty l m) (Matched m k p (l.head ∷ xs) free qty)
unfolding match_level
step-Matched fuel {m} {k} {p} {l} xs free qty q v apart more =
    rw (ne→== l.head null_idx not_null) (elim (Bool-cases (qty == 0)) [
      | inl none_wanted ↦
          rw none_wanted
            (_, refl, (_, free, IsMatched-stop q v apart (ground arith) (ground arith)))
      | inr wanted ↦
          rw (wanted, lt→ltb l.head m.capacity r.in_pool)
            (elim (Bool-cases ((m.orders l.head).qty - min qty (m.orders l.head).qty == 0)) [
              | inl filled ↦
                  let le : (m.orders l.head).qty ≤ qty = ground (arith, filled) in
                  let all : min qty (m.orders l.head).qty ≡ (m.orders l.head).qty = omega arith in
                  let (result, e, (c', free', done)) =
                    more (popped q v apart) (popped_level q v apart) (l.head ∷ free)
                      (qty - (m.orders l.head).qty) (popped-IsQueue q v apart)
                      (popped-IsFree q v apart) popped_apart in
                  rw (filled, pop_filled-popped q v apart, all, e)
                    (
                      result,
                      refl,
                      (c', free', IsMatched-pop q v apart (==→ne qty 0 wanted) le done),
                    )
              | inr partly ↦
                  let lt : qty < (m.orders l.head).qty = ground (arith, partly) in
                  let all : min qty (m.orders l.head).qty ≡ qty = omega arith in
                  let spent : qty - qty ≡ 0 = omega arith in
                  rw (partly, all, spent)
                    (_, refl, (_, free, IsMatched-reduce q v apart qty (==→ne qty 0 wanted) lt))
            ])
    ])
  where
    r : IsResting m k p l.head
    r = q.resting l.head (ground arith)

    popped_apart : (i : ℕ) → has i xs ≡ true → has i (l.head ∷ free) ≡ false
    popped_apart i h = ground (arith, apart i, q.level.distinct.0)

    not_null : l.head ≢ null_idx
    not_null = omega (arith, r.in_pool, v.small)

-- More rounds than the queue is long are enough.
pub match_level-Matched :
    (fuel : ℕ) {m : Pool} {k : Bool} {p : ℕ} {l : PriceLevel} (c free : List ℕ) (qty : ℕ)
    → length c < fuel
    → IsQueue m k p l c
    → IsFree m free
    → ((i : ℕ) → has i c ≡ true → has i free ≡ false)
    → Returns (match_level fuel qty l m) (Matched m k p c free qty)
unfolding match_level
match_level-Matched zero c free qty enough q v apart = absurd (omega arith)
match_level-Matched (suc fuel) [] free qty enough q v apart =
    rw (head_null [] v.small q) (_, refl, ([], free, IsMatched-stop q v apart refl refl))
match_level-Matched (suc fuel) {m} {k} {p} {l} (x ∷ xs) free qty enough q v apart =
    subst
      (λ y.
        IsQueue m k p l (y ∷ xs)
        → ((i : ℕ) → has i (y ∷ xs) ≡ true → has i free ≡ false)
        → Returns (match_level (suc fuel) qty l m) (Matched m k p (y ∷ xs) free qty))
      q.level.linked.0
      (λ q' apart'. step-Matched fuel xs free qty q' v apart' λ m' l' free' qty' q'' v' apart''.
        match_level-Matched fuel {m = m'} {k = k} {p = p} {l = l'} xs free' qty' (omega arith) q''
          v' apart'')
      q apart
