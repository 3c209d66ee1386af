-- ===== src/BitsetBook/Fresh.antt =====
-- The `prev` of the first order of every level, where no `match` has left it at an order that is gone.
use lobook.Base.{
  ℕ, ◌≡◌, ◌≢◌, refl, sym, ap, ◌∙◌, inl, inr, Bool, true, false, List, [], ◌∷◌, ◌++◌, ◌==◌,
  Bool-cases, ==→eq, ==→ne, arith,
}
use mathlib.Core.Path.{subst}
use lobook.Pool.{null_idx, PriceLevel, Order, Pool}
use lobook.Chain.{Linked, IsLevel, BackTail}
use lobook.Chain.Lists.{has, occupied, erase}
use lobook.Chain.Unlink.{IsUnlinked, NoNull}
use lobook.BitsetBook.{Side, Book}
use lobook.BitsetBook.Represents.{prev_of, IsBook, put}
use lobook.BitsetBook.Write.{IsWrite, elsewhere}

abbrev pub IsFresh : (ℕ → ℕ) → List ℕ → Type 0
IsFresh pv [] = Unit
IsFresh pv (x ∷ xs) = pv x ≡ null_idx

abbrev pub AreFresh : Pool → (Bool → ℕ → List ℕ) → Type 0
AreFresh m queues = (k : Bool) (q : ℕ) → IsFresh (prev_of m) (queues k q)

pub IsFresh-frame :
    {pv pv' : ℕ → ℕ} (c : List ℕ)
    → ((i : ℕ) → has i c ≡ true → pv' i ≡ pv i)
    → IsFresh pv c
    → IsFresh pv' c
IsFresh-frame [] same e = tt
IsFresh-frame (x ∷ xs) same e = same x (ground arith) ∙ e

pub IsFresh-head :
    {nx pv : ℕ → ℕ} {l : PriceLevel} {i : ℕ} (c : List ℕ)
    → IsLevel nx pv l c
    → has i c ≡ true
    → l.head ≡ i
    → IsFresh pv c
    → pv i ≡ null_idx
IsFresh-head [] level inside first e = ground arith
IsFresh-head {pv} (x ∷ xs) level inside first e = ap pv (sym first ∙ level.linked.0) ∙ e

-- The order that follows another points back to it.
back_of_next :
    (nx pv : ℕ → ℕ) (i h : ℕ) (c : List ℕ)
    → Linked nx h c
    → BackTail pv c
    → has i c ≡ true
    → nx i ≢ null_idx
    → pv (nx i) ≡ i
back_of_next nx pv i h [] l b inside ne = ground arith
back_of_next nx pv i h (x ∷ []) l b inside ne = absurd (ne (ground (arith, l.1)))
back_of_next nx pv i h (x ∷ (y ∷ ys)) l b inside ne = elim (Bool-cases (i == x)) [
  | inl e ↦ rw (==→eq i x e, l.1.0) b.0
  | inr other ↦ back_of_next nx pv i (nx x) (y ∷ ys) l.1 b.1 (ground arith) ne
]

-- Taking an order out keeps the first one fresh.
pub IsFresh-erase :
    {nx pv nx' pv' : ℕ → ℕ} {i : ℕ} (h : ℕ) (c : List ℕ)
    → IsUnlinked nx pv nx' pv' i
    → Linked nx h c
    → BackTail pv c
    → NoNull c
    → has i c ≡ true
    → IsFresh pv c
    → IsFresh pv' (erase i c)
IsFresh-erase h [] u l b some_index inside e = tt
IsFresh-erase {nx} {pv} {nx'} {pv'} {i} h (x ∷ xs) u l b some_index inside e =
    elim (Bool-cases (i == x)) [
      | inl first ↦ rw first (second xs l.1 (==→eq i x first) some_index)
      | inr other ↦ rw other (u.prev_same x (λ next. follows next) ∙ e)
    ]
  where
    second : (ys : List ℕ) → Linked nx (nx x) ys → i ≡ x → NoNull (x ∷ ys) → IsFresh pv' ys
    second [] l1 first some = tt
    second (y ∷ ys) l1 first some =
        let at : nx i ≡ y = ap nx first ∙ l1.0 in
        rw (← at) (u.prev_moved (rw at (some y (ground arith))) ∙ ap pv first ∙ e)

    follows : x ≡ nx i → ⊥
    follows next =
        let back =
          back_of_next nx pv i h (x ∷ xs) l b inside (rw (← next) (some_index x (ground arith))) in
        some_index i inside (sym back ∙ ap pv (sym next) ∙ e)

-- An order put behind the others: fresh where it is the first.
pub IsFresh-append :
    {pv pv' : ℕ → ℕ} (f : ℕ) (c : List ℕ)
    → ((i : ℕ) → has i c ≡ true → pv' i ≡ pv i)
    → (occupied c ≡ false → pv' f ≡ null_idx)
    → IsFresh pv c
    → IsFresh pv' (c ++ (f ∷ []))
IsFresh-append f [] same first e = first refl
IsFresh-append f (x ∷ xs) same first e = same x (ground arith) ∙ e

pub at_queue :
    (P : Bool → ℕ → List ℕ → Type 0) (queues : Bool → ℕ → List ℕ) (k : Bool) (p : ℕ) (c' : List ℕ)
    (k' : Bool) (q : ℕ)
    → P k p c'
    → ((k' ≡ k → q ≢ p) → P k' q (queues k' q))
    → P k' q (put queues k p c' k' q)
at_queue P queues true p c' true q new old = elim (Bool-cases (p == q)) [
  | inl e ↦ rw e (subst (λ x. P true x c') (==→eq p q e) new)
  | inr ne ↦ rw ne (old (λ _ e. ==→ne p q ne (sym e)))
]
at_queue P queues true p c' false q new old = old (λ e. cc)
at_queue P queues false p c' true q new old = old (λ e. cc)
at_queue P queues false p c' false q new old = elim (Bool-cases (p == q)) [
  | inl e ↦ rw e (subst (λ x. P false x c') (==→eq p q e) new)
  | inr ne ↦ rw ne (old (λ _ e. ==→ne p q ne (sym e)))
]

module _ {b : Book} {queues : Bool → ℕ → List ℕ} {free : List ℕ} {k : Bool} {p : ℕ} {m' : Pool}
    {s' : Side} {c' free' : List ℕ} (v : IsBook b queues free)
    (w : IsWrite b queues free k p m' s' c' free') (fresh : AreFresh b.pool queues)
    (new : IsFresh (prev_of m') c') where
  other_queue : (k' : Bool) (q : ℕ) → (k' ≡ k → q ≢ p) → IsFresh (prev_of m') (queues k' q)
  other_queue k' q other =
      IsFresh-frame (queues k' q)
        (λ i h.
          ap (λ (o : Order). o.prev)
            (w.same i (elsewhere v k k' p q i w.in_range other h) (v.apart k' q i h)))
        (fresh k' q)

  pub AreFresh-write : AreFresh m' (put queues k p c')
  AreFresh-write k' q =
      at_queue (λ _ _. IsFresh (prev_of m')) queues k p c' k' q new (other_queue k' q)
