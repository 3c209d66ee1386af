-- ===== src/Chain/Frame.antt =====
-- A list survives every write outside it.
use lobook.Base.{ℕ, ◌≡◌, ap, ◌∙◌, true, List, [], ◌∷◌, arith}
use lobook.Chain.{Linked, Back, BackTail, IsTail}
use lobook.Chain.Lists.{has, occupied, has-last_of}

pub Linked-frame :
    {nx nx' : ℕ → ℕ} (h : ℕ) (xs : List ℕ)
    → ((i : ℕ) → has i xs ≡ true → nx' i ≡ nx i)
    → Linked nx h xs
    → Linked nx' h xs
Linked-frame h [] same l = l
Linked-frame {nx} {nx'} h (x ∷ xs) same l =
    let e : nx' x ≡ nx x = same x (ground arith) in
    (l.0, rw e (Linked-frame {nx = nx} {nx' = nx'} (nx x) xs (λ i m. same i (ground arith)) l.1))

pub Back-frame :
    {pv pv' : ℕ → ℕ} (a : ℕ) (xs : List ℕ)
    → ((i : ℕ) → has i xs ≡ true → pv' i ≡ pv i)
    → Back pv a xs
    → Back pv' a xs
Back-frame a [] same b = tt
Back-frame {pv} {pv'} a (x ∷ xs) same b = (
  same x (ground arith) ∙ b.0,
  Back-frame {pv = pv} {pv' = pv'} x xs (λ i m. same i (ground arith)) b.1,
)

pub BackTail-frame :
    {pv pv' : ℕ → ℕ} (xs : List ℕ)
    → ((i : ℕ) → has i xs ≡ true → pv' i ≡ pv i)
    → BackTail pv xs
    → BackTail pv' xs
BackTail-frame [] same b = tt
BackTail-frame (x ∷ xs) same b = Back-frame x xs (λ i m. same i (ground arith)) b

pub has-tail : (t : ℕ) (xs : List ℕ) → IsTail t xs → occupied xs ≡ true → has t xs ≡ true
has-tail t [] e busy = cc
has-tail t (x ∷ xs) e busy = ap (λ j. has j (x ∷ xs)) e ∙ has-last_of x xs
