-- ===== src/BitsetBook/Terms.antt =====
-- `replace_order` where the order keeps its place: only its quantity changes.
use lobook.Base.{
  ℕ, ◌≡◌, refl, sym, ap, inl, inr, Bool, true, false, List, [], ◌∷◌, ◌++◌, ◌==◌, if◌then◌else◌,
  update_ne, Bool-cases, ==→eq, fun_ext, arith,
}
use mathlib.Core.Path.{subst}
use lobook.Pool.{Order, PriceLevel, Pool}
use lobook.Chain.Lists.{has, occupied, erase}
use lobook.Chain.Frame.{Linked-frame, BackTail-frame}
use lobook.PriceBitset.History.{Holds-ext}
use lobook.BitsetBook.{Book, side, set_side}
use lobook.BitsetBook.Represents.{next_of, prev_of, IsQueue, IsBook, put}
use lobook.BitsetBook.Fresh.{IsFresh-frame}
use lobook.BitsetBook.Write.{SamePlace, IsResting-frame, IsBook-write, in_ladder}
use lobook.BitsetBook.Moved.{with_terms}
use lobook.BitsetBook.Replaced.{IsReplaced, move_queue}

-- Lists with one of them put where it was.
same_list : (f : ℕ → List ℕ) (p q : ℕ) → (if p == q then f p else f q) ≡ f q
same_list f p q = elim (Bool-cases (p == q)) [
  | inl e ↦ rw (e, ==→eq p q e) refl
  | inr ne ↦ rw ne refl
]

-- A list of one, taken out and put back at the end.
only_again :
    (f : ℕ → List ℕ) (p i q : ℕ)
    → f p ≡ i ∷ []
    → (if p == q
        then (if p == p then erase i (f p) else f p) ++ (i ∷ [])
        else (if p == q then erase i (f p) else f q))
      ≡ f q
only_again f p i q only = elim (Bool-cases (p == q)) [
  | inl e ↦
      let here : (p == p) ≡ true = ground arith in
      let own : (i == i) ≡ true = ground arith in rw (e, ← ==→eq p q e, here, only, own) refl
  | inr ne ↦ rw ne refl
]

module _ (queues : Bool → ℕ → List ℕ) (p : ℕ) where
  put_self : (k : Bool) → put queues k p (queues k p) ≡ queues
  put_self k = fun_ext λ k'. fun_ext λ q. by_side k k' q
    where
      by_side : (k k' : Bool) (q : ℕ) → put queues k p (queues k p) k' q ≡ queues k' q
      by_side true true q = same_list (queues true) p q
      by_side true false q = refl
      by_side false true q = refl
      by_side false false q = same_list (queues false) p q

  -- The only order of its queue is where it was once it has gone to the end.
  pub move_queue-only :
      (k : Bool) (i : ℕ) → queues k p ≡ i ∷ [] → move_queue queues k p i p ≡ queues
  move_queue-only k i only = fun_ext λ k'. fun_ext λ q. by_side k only k' q
    where
      by_side :
          (k : Bool)
          → queues k p ≡ i ∷ []
          → (k' : Bool) (q : ℕ) → move_queue queues k p i p k' q ≡ queues k' q
      by_side true only true q = only_again (queues true) p i q only
      by_side true only false q = refl
      by_side false only true q = refl
      by_side false only false q = only_again (queues false) p i q only

side_again :
    (b : Book) (k : Bool) (m : Pool)
    → set_side (record b { pool = m }) k (side b k) ≡ record b { pool = m }
side_again b true m = refl
side_again b false m = refl

module _ {b : Book} {queues : Bool → ℕ → List ℕ} {free : List ℕ} (i qty : ℕ)
    (v : IsBook b queues free)
    (h : has i (queues (b.pool.orders i).is_buy (b.pool.orders i).price) ≡ true) where
  abbrev o : Order
  o = b.pool.orders i

  abbrev c : List ℕ
  c = queues o.is_buy o.price

  abbrev l : PriceLevel
  l = (side b o.is_buy).levels o.price

  abbrev pub changed : Pool
  changed = with_terms b.pool i o.price qty

  links : (j : ℕ) → (next_of changed j ≡ next_of b.pool j) × (prev_of changed j ≡ prev_of b.pool j)
  links j = ground arith

  place : (j : ℕ) → SamePlace (changed.orders j) (b.pool.orders j)
  place j = record { id = ground arith; price = ground arith; is_buy = ground arith }

  old : IsQueue b.pool o.is_buy o.price l c
  old = (v.sides o.is_buy).at o.price (in_ladder v o.is_buy o.price i h)

  changed-IsQueue : IsQueue changed o.is_buy o.price l c
  changed-IsQueue = record {
    level = record {
      linked = Linked-frame l.head c (λ j inside. (links j).0) old.level.linked;
      back = BackTail-frame c (λ j inside. (links j).1) old.level.back;
      tail = old.level.tail;
      distinct = old.level.distinct;
    };
    resting = λ j inside.
        IsResting-frame refl (place j) (old.resting j inside).mapped (old.resting j inside);
  }

  changed-IsBook : IsBook (record b { pool = changed }) queues free
  changed-IsBook =
      subst (λ qs. IsBook (record b { pool = changed }) qs free) (put_self queues o.price o.is_buy)
        (subst (λ y. IsBook y (put queues o.is_buy o.price c) free) (side_again b o.is_buy changed)
          (IsBook-write v record {
            in_range = in_ladder v o.is_buy o.price i h;
            cap = refl;
            kept_levels = λ q ne. refl;
            queue = changed-IsQueue;
            indexed =
                Holds-ext (λ q. ap occupied (sym (same_list (queues o.is_buy) o.price q)))
                  (v.sides o.is_buy).indexed;
            same = λ j out _. update_ne b.pool.orders i j _ (λ e. ground arith);
            mapped = λ k' q j inside out.
                (((v.sides k').at q (in_ladder v k' q j inside)).resting j inside).mapped;
            pool = record {
              small = v.pool.small;
              linked = Linked-frame b.pool.next_free free (λ j inside. (links j).0) v.pool.linked;
              distinct = v.pool.distinct;
              in_pool = v.pool.in_pool;
            };
            fresh = v.apart o.is_buy o.price;
            others = λ j out out_free. out_free;
          }))

  pub kept-IsReplaced : IsReplaced b queues i qty queues free (record b { pool = changed })
  kept-IsReplaced = (
    changed-IsBook,
    ground arith,
    λ j ne. ground arith,
    λ fresh k q. IsFresh-frame (queues k q) (λ j inside. (links j).1) (fresh k q),
  )
