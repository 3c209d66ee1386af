-- ===== src/Chain/Append.antt =====
-- Linking one more index behind the last.
use lobook.Base.{
  ℕ, ◌≡◌, ◌≢◌, refl, sym, ap, ◌∙◌, ◌==◌, if◌then◌else◌, true, false, List, [], ◌∷◌, ◌++◌, arith,
}
use lobook.Pool.{null_idx, PriceLevel}
use lobook.Chain.{Linked, Back, IsLevel}
use lobook.Chain.Lists.{has, Distinct, last_of, has-last_of, last_of-append, Distinct-append}
use lobook.Chain.Unlink.{NoNull}

module _ {nx nx' : ℕ → ℕ} (idx : ℕ) where
  pub Linked-append :
      (x : ℕ) (xs : List ℕ)
      → Linked nx (nx x) xs
      → Distinct (x ∷ xs)
      → nx' (last_of x xs) ≡ idx
      → nx' idx ≡ null_idx
      → ((j : ℕ) → has j (x ∷ xs) ≡ true → j ≢ last_of x xs → nx' j ≡ nx j)
      → Linked nx' (nx' x) (xs ++ (idx ∷ []))
  Linked-append x [] l d e end same = (e, end)
  Linked-append x (y ∷ ys) l d e end same = (
    same x (ground arith) (λ q. ground (arith, d.0, has-last_of y ys)) ∙ l.0,
    Linked-append y ys l.1 d.1 e end (λ j m. same j (ground arith)),
  )

pub Back-append :
    {pv pv' : ℕ → ℕ} (idx x : ℕ) (xs : List ℕ)
    → Back pv x xs
    → pv' idx ≡ last_of x xs
    → ((j : ℕ) → has j xs ≡ true → pv' j ≡ pv j)
    → Back pv' x (xs ++ (idx ∷ []))
Back-append idx x [] b e same = (e, tt)
Back-append {pv} {pv'} idx x (y ∷ ys) b e same = (
  same y (ground arith) ∙ b.0,
  Back-append {pv = pv} {pv' = pv'} idx y ys b.1 e (λ j m. same j (ground arith)),
)

-- The links after `idx` has been put behind the last index of a level.
pub record IsAppended (nx pv nx' pv' : ℕ → ℕ) (l : PriceLevel) (c : List ℕ) (idx : ℕ) : Type 0 where
  pub ends : nx' idx ≡ null_idx
  pub follows : c ≢ [] → (nx' l.tail ≡ idx) × (pv' idx ≡ l.tail)
  pub next_same : (j : ℕ) → has j c ≡ true → j ≢ l.tail → nx' j ≡ nx j
  pub prev_same : (j : ℕ) → has j c ≡ true → pv' j ≡ pv j

module _ {nx pv nx' pv' : ℕ → ℕ} (l l' : PriceLevel) (idx : ℕ) where
  pub append-IsLevel :
      (c : List ℕ)
      → IsLevel nx pv l c
      → NoNull c
      → has idx c ≡ false
      → IsAppended nx pv nx' pv' l c idx
      → l' ≡ (
          if l.head == null_idx
          then record { head = idx; tail = idx }
          else record { head = l.head; tail = idx })
      → IsLevel nx' pv' l' (c ++ (idx ∷ []))
  append-IsLevel [] v n out a e = record {
    linked = (ground (arith, v.linked), a.ends);
    back = tt;
    tail = ground (arith, v.linked);
    distinct = (refl, tt);
  }
  append-IsLevel (x ∷ xs) v n out a e = record {
    linked = (
      ground (arith, v.linked.0, n x (ground arith)),
      Linked-append {nx = nx} {nx' = nx'} idx x xs v.linked.1 v.distinct
          (rw (← v.tail) (a.follows (λ h. ground arith)).0) a.ends
          (λ j m ne. a.next_same j m (λ q. ne (q ∙ v.tail))),
    );
    back =
        Back-append {pv = pv} {pv' = pv'} idx x xs v.back
          ((a.follows (λ h. ground arith)).1 ∙ v.tail) (λ j m. a.prev_same j (ground arith));
    tail = ap (λ (t : PriceLevel). t.tail) e ∙ ground arith ∙ sym (last_of-append x idx xs);
    distinct = Distinct-append idx (x ∷ xs) v.distinct out;
  }
