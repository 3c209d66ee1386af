-- ===== src/Chain/Unlink.antt =====
-- Taking one index out of a list: the index before it is given its `next`, the one after it is
-- given its `prev`.
use lobook.Base.{
  ℕ, ◌≡◌, ◌≢◌, sym, ap, ◌∙◌, ◌⊎◌, inl, inr, true, false, List, [], ◌∷◌, ◌==◌, if◌then◌else◌,
  Bool-cases, ==→eq, arith,
}
use lobook.Pool.{null_idx, PriceLevel}
use lobook.Chain.{Linked, Back, IsLevel}
use lobook.Chain.Lists.{has, Distinct, erase, last_of, has-last_of, has-erase, Distinct-erase}
use lobook.Chain.Frame.{Linked-frame, Back-frame}

abbrev pub NoNull : List ℕ → Type 0
NoNull xs = (j : ℕ) → has j xs ≡ true → j ≢ null_idx

-- The links after the index `i` has been taken out.
pub record IsUnlinked (nx pv nx' pv' : ℕ → ℕ) (i : ℕ) : Type 0 where
  pub next_same : (j : ℕ) → j ≢ pv i → nx' j ≡ nx j
  pub next_moved : pv i ≢ null_idx → nx' (pv i) ≡ nx i
  pub prev_same : (j : ℕ) → j ≢ nx i → pv' j ≡ pv j
  pub prev_moved : nx i ≢ null_idx → pv' (nx i) ≡ pv i

module _ (pv : ℕ → ℕ) (i : ℕ) where
  pub has_prev : (x : ℕ) (xs : List ℕ) → Back pv x xs → has i xs ≡ true → has (pv i) (x ∷ xs) ≡ true
  has_prev x [] b h = ground arith
  has_prev x (y ∷ ys) b h = elim (Bool-cases (i == y)) [
    | inl same ↦ ground (arith, b.0, ==→eq i y same)
    | inr apart ↦ ground (arith, has_prev y ys b.1 (ground arith))
  ]

module _ (nx : ℕ → ℕ) (i : ℕ) where
  pub has_next :
      (h : ℕ) (xs : List ℕ)
      → Linked nx h xs
      → has i xs ≡ true
      → (nx i ≡ null_idx) ⊎ (has (nx i) xs ≡ true)
  has_next h [] l m = ground arith
  has_next h (y ∷ ys) l m = elim (Bool-cases (i == y)) [
    | inl same ↦ after ys (rw (==→eq i y same) l.1)
    | inr apart ↦ elim (has_next (nx y) ys l.1 (ground arith)) [
      | inl e ↦ inl e
      | inr e ↦ inr (ground arith)
    ]
  ]
    where
      after : (zs : List ℕ) → Linked nx (nx i) zs → (nx i ≡ null_idx) ⊎ (has (nx i) (y ∷ zs) ≡ true)
      after [] e = inl e
      after (z ∷ zs) e = inr (ground (arith, e.0))

module _ {nx pv nx' pv' : ℕ → ℕ} {i : ℕ} (u : IsUnlinked nx pv nx' pv' i) where
  open u use {next_same, next_moved, prev_same, prev_moved}

  -- An index that follows another stays linked when `i`, behind it, goes.
  Linked-erase :
      (x : ℕ) (xs : List ℕ)
      → Linked nx (nx x) xs
      → Back pv x xs
      → Distinct (x ∷ xs)
      → NoNull (x ∷ xs)
      → has i xs ≡ true
      → Linked nx' (nx' x) (erase i xs)
  Linked-erase x [] l b d n h = absurd (ground arith)
  Linked-erase x (y ∷ ys) l b d n h = elim (Bool-cases (i == y)) [
    | inl same ↦
        let at : pv i ≡ x = rw (==→eq i y same) b.0 in
        let moved : nx' x ≡ nx i = rw (← at) (next_moved (rw at (n x (ground arith)))) in
        rw (same, moved)
          (Linked-frame (nx i) ys (λ j m. next_same j (rw at (λ e. ground arith)))
            (rw (==→eq i y same) l.1))
    | inr apart ↦
        let later : has i ys ≡ true = ground arith in
        let kept : nx' x ≡ nx x = next_same x (λ e. ground (arith, has_prev pv i y ys b.1 later)) in
        rw apart (kept ∙ l.0, Linked-erase y ys l.1 b.1 d.1 (λ j m. n j (ground arith)) later)
  ]

  Back-erase :
      (x h : ℕ) (xs : List ℕ)
      → Linked nx h xs
      → Back pv x xs
      → Distinct xs
      → NoNull xs
      → has i xs ≡ true
      → Back pv' x (erase i xs)
  Back-erase x h [] l b d n m = absurd (ground arith)
  Back-erase x h (y ∷ ys) l b d n m = elim (Bool-cases (i == y)) [
    | inl same ↦
        let at : pv i ≡ x = rw (==→eq i y same) b.0 in
        rw same (
          after ys (rw (==→eq i y same) l.1) (rw (==→eq i y same) b.1) d.1
            (λ j q. n j (ground arith)) at)
    | inr apart ↦
        let later : has i ys ≡ true = ground arith in
        rw apart (
          prev_same y (not_next later) ∙ b.0,
          Back-erase y (nx y) ys l.1 b.1 d.1 (λ j q. n j (ground arith)) later,
        )
  ]
    where
      not_next : has i ys ≡ true → y ≢ nx i
      not_next later e = elim (has_next nx i (nx y) ys l.1 later) [
        | inl end ↦ n y (ground arith) (e ∙ end)
        | inr inside ↦ ground (arith, d.0)
      ]

      after :
          (zs : List ℕ)
          → Linked nx (nx i) zs
          → Back pv i zs
          → Distinct zs
          → NoNull zs
          → pv i ≡ x
          → Back pv' x zs
      after [] l' b' d' n' at = tt
      after (z ∷ zs) l' b' d' n' at = (
        rw (← l'.0) (prev_moved (rw l'.0 (n' z (ground arith)))) ∙ at,
        Back-frame z zs (λ j q. prev_same j (rw l'.0 (λ e. ground (arith, d'.0)))) b'.1,
      )

  last_of-drop :
      (x y : ℕ) (zs : List ℕ)
      → i ≡ y
      → pv i ≡ x
      → has y zs ≡ false
      → (if last_of y zs == i then pv i else last_of y zs) ≡ last_of x zs
  last_of-drop x y [] e at out = ground arith
  last_of-drop x y (z ∷ zs) e at out = ground (arith, has-last_of z zs)

  last_of-erase :
      (x : ℕ) (xs : List ℕ)
      → Back pv x xs
      → Distinct (x ∷ xs)
      → has i xs ≡ true
      → (if last_of x xs == i then pv i else last_of x xs) ≡ last_of x (erase i xs)
  last_of-erase x [] b d h = absurd (ground arith)
  last_of-erase x (y ∷ ys) b d h = elim (Bool-cases (i == y)) [
    | inl same ↦ let e = ==→eq i y same in rw same (last_of-drop x y ys e (rw e b.0) d.1.0)
    | inr apart ↦ rw apart (last_of-erase y ys b.1 d.1 (ground arith))
  ]

  -- `i` at the head of a level.
  unlink_head :
      (l l' : PriceLevel) (xs : List ℕ)
      → IsLevel nx pv l (i ∷ xs)
      → NoNull (i ∷ xs)
      → pv i ≡ null_idx
      → l'.head ≡ nx i
      → l'.tail ≡ (if l.tail == i then pv i else l.tail)
      → IsLevel nx' pv' l' xs
  unlink_head l l' [] v n at head tail = record {
    linked = head ∙ v.linked.1;
    back = tt;
    tail = tt;
    distinct = tt;
  }
  unlink_head l l' (z ∷ zs) v n at head tail = record {
    linked =
        Linked-frame l'.head (z ∷ zs) (λ j m. next_same j (rw at (n j (ground arith))))
          (rw head v.linked.1);
    back =
        Back-frame z zs (λ j m. prev_same j (rw v.linked.1.0 (λ e. ground (arith, v.distinct.1.0))))
          v.back.1;
    tail = ground (arith, v.tail, v.distinct.0, has-last_of z zs);
    distinct = v.distinct.1;
  }

  unlink_inner :
      (l l' : PriceLevel) (x : ℕ) (xs : List ℕ)
      → IsLevel nx pv l (x ∷ xs)
      → NoNull (x ∷ xs)
      → has i xs ≡ true
      → l'.head ≡ x
      → l'.tail ≡ (if l.tail == i then pv i else l.tail)
      → IsLevel nx' pv' l' (x ∷ erase i xs)
  unlink_inner l l' x xs v n m head tail = record {
    linked = (head, Linked-erase x xs v.linked.1 v.back v.distinct n m);
    back = Back-erase x (nx x) xs v.linked.1 v.back v.distinct.1 (λ j q. n j (ground arith)) m;
    tail =
        tail ∙ ap (λ t. if t == i then pv i else t) v.tail ∙ last_of-erase x xs v.back v.distinct m;
    distinct = (ground (arith, has-erase x i xs, v.distinct.0), Distinct-erase i xs v.distinct.1);
  }

  -- A level is a list again, without `i`, if the head of the level has no stale `prev`.
  pub unlink-IsLevel :
      (l l' : PriceLevel) (c : List ℕ)
      → IsLevel nx pv l c
      → NoNull c
      → has i c ≡ true
      → (l.head ≡ i → pv i ≡ null_idx)
      → l'.head ≡ (if l.head == i then nx i else l.head)
      → l'.tail ≡ (if l.tail == i then pv i else l.tail)
      → IsLevel nx' pv' l' (erase i c)
  unlink-IsLevel l l' [] v n m fresh head tail = absurd (ground arith)
  unlink-IsLevel l l' (x ∷ xs) v n m fresh head tail = elim (Bool-cases (i == x)) [
    | inl same ↦
        let e : i ≡ x = ==→eq i x same in
        let at_head : l.head ≡ i = v.linked.0 ∙ sym e in
        rw same (unlink_head l l' xs (rw e v) (rw e n) (fresh at_head) (head ∙ ground arith) tail)
    | inr apart ↦
        rw apart
          (unlink_inner l l' x xs v n (ground arith) (head ∙ ground (arith, v.linked.0)) tail)
  ]
