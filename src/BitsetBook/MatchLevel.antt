-- ===== src/BitsetBook/MatchLevel.antt =====
-- The inner loop of `match` at one level.
use lobook.Base.{
  ℕ, ◌-◌, ◌≤◌, ◌<◌, ◌≡◌, ◌≢◌, refl, sym, ap, ◌∙◌, inl, inr, Bool, true, false, List, [], ◌∷◌, ◌==◌,
  if◌then◌else◌, update, update_ne, Bool-cases, ==→eq, lt→ltb, ok, arith,
}
use lobook.Pool.{null_idx, Order, PriceLevel, Pool}
use lobook.Chain.{IsLevel}
use lobook.Chain.Lists.{has}
use lobook.Chain.Unlink.{NoNull}
use lobook.Chain.Frame.{Linked-frame, Back-frame, BackTail-frame}
use lobook.BitsetBook.Represents.{next_of, prev_of, IsResting, IsQueue, IsFree}
use lobook.BitsetBook.Write.{SamePlace, SamePlace-refl, IsResting-frame}
use lobook.BitsetBook.Fill.{entries, entries_same, left, rest}
use lobook.BitsetBook.Match.{pop_filled}

-- The level and the pool after matching against the queue `c`.
pub record IsMatched (m : Pool) (k : Bool) (p : ℕ) (c free : List ℕ) (qty : ℕ) (m' : Pool)
    (l' : PriceLevel) (c' free' : List ℕ) (qty' : ℕ) : Type 0 where
  pub cap : m'.capacity ≡ m.capacity
  pub queue : IsQueue m' k p l' c'
  pub pool : IsFree m' free'
  pub same : (i : ℕ) → has i c ≡ false → m'.orders i ≡ m.orders i
  pub ids : (i : ℕ) → (m'.orders i).id ≡ (m.orders i).id
  pub id_map :
      (id : ℕ) → ((i : ℕ) → has i c ≡ true → (m.orders i).id ≢ id) → m'.id_map id ≡ m.id_map id
  pub fresh : (i : ℕ) → has i c' ≡ true → has i free' ≡ false
  pub others : (i : ℕ) → has i c ≡ false → has i free ≡ false → has i free' ≡ false
  pub kept : (i : ℕ) → has i c' ≡ true → has i c ≡ true
  pub qty_left : qty' ≡ left qty (entries m c)
  pub entries_left : entries m' c' ≡ rest qty (entries m c)

-- The head of a queue, filled.
module _ {m : Pool} {k : Bool} {p : ℕ} {l : PriceLevel} {x : ℕ} {xs free : List ℕ}
    (q : IsQueue m k p l (x ∷ xs)) (v : IsFree m free)
    (apart : (i : ℕ) → has i (x ∷ xs) ≡ true → has i free ≡ false) where
  x-IsResting : IsResting m k p x
  x-IsResting = q.resting x (ground arith)

  abbrev pub popped_level : PriceLevel
  popped_level = record {
    head = next_of m x;
    tail = if next_of m x == null_idx then null_idx else l.tail;
  }

  abbrev pub popped : Pool
  popped = record {
    capacity = m.capacity;
    orders = update m.orders x (record (m.orders x) { qty = 0; next = m.next_free });
    id_map = update m.id_map (m.orders x).id null_idx;
    next_free = x;
  }

  pub pop_filled-popped : pop_filled m x (m.orders x) l ≡ ok (popped_level, popped)
  unfolding pop_filled
  pop_filled-popped = rw (lt→ltb _ _ x-IsResting.id_known, lt→ltb _ _ x-IsResting.in_pool)

  popped_same : (i : ℕ) → has i xs ≡ true → popped.orders i ≡ m.orders i
  popped_same i h = update_ne m.orders x i _ (λ e. ground (arith, q.level.distinct.0))

  id_ne : (i : ℕ) → has i xs ≡ true → (m.orders i).id ≢ (m.orders x).id
  id_ne i h e =
      let r = q.resting i (ground arith) in
      let same : i ≡ x = sym r.mapped ∙ ap m.id_map e ∙ x-IsResting.mapped in
      ground (arith, q.level.distinct.0)

  pub popped-IsQueue : IsQueue popped k p popped_level xs
  popped-IsQueue = record {
    level =
        at xs q.level popped_same
          (λ i h. omega (arith, (q.resting i (ground arith)).in_pool, v.small));
    resting = λ i h.
        IsResting-frame refl (rw (popped_same i h) SamePlace-refl)
          (update_ne m.id_map _ _ null_idx (λ e. id_ne i h (sym e))
            ∙ (q.resting i (ground arith)).mapped)
          (q.resting i (ground arith));
  }
    where
      at :
          (zs : List ℕ)
          → IsLevel (next_of m) (prev_of m) l (x ∷ zs)
          → ((i : ℕ) → has i zs ≡ true → popped.orders i ≡ m.orders i)
          → NoNull zs
          → IsLevel (next_of popped) (prev_of popped) popped_level zs
      at [] v same n = record { linked = v.linked.1; back = tt; tail = tt; distinct = tt }
      at (z ∷ zs) v same n = record {
        linked =
            Linked-frame (next_of m x) (z ∷ zs) (λ i h. ap (λ (o : Order). o.next) (same i h))
              v.linked.1;
        back = Back-frame z zs (λ i h. ap (λ (o : Order). o.prev) (same i (ground arith))) v.back.1;
        tail = ground (arith, v.tail, v.linked.1.0, n z (ground arith));
        distinct = v.distinct.1;
      }

  pub popped-IsFree : IsFree popped (x ∷ free)
  popped-IsFree = record {
    small = v.small;
    linked = (
      refl,
      let at : next_of popped x ≡ m.next_free = ground arith in
          rw at (
            Linked-frame m.next_free free
              (λ i h.
                ap (λ (o : Order). o.next)
                  (update_ne m.orders x i _ (λ e. ground (arith, apart x))))
              v.linked),
    );
    distinct = (apart x (ground arith), v.distinct);
    in_pool = λ i h. elim (Bool-cases (i == x)) [
      | inl e ↦ rw (==→eq i x e) x-IsResting.in_pool
      | inr ne ↦ v.in_pool i (ground arith)
    ];
  }

  -- The rest of the loop, from the popped head on.
  pub IsMatched-pop :
      {qty qty' : ℕ} {m' : Pool} {l' : PriceLevel} {c' free' : List ℕ}
      → qty ≢ 0
      → (m.orders x).qty ≤ qty
      → IsMatched popped k p xs (x ∷ free) (qty - (m.orders x).qty) m' l' c' free' qty'
      → IsMatched m k p (x ∷ xs) free qty m' l' c' free' qty'
  IsMatched-pop {qty} ne le r = record {
    cap = r.cap;
    queue = r.queue;
    pool = r.pool;
    same = λ i out. r.same i (ground arith) ∙ update_ne m.orders x i _ (λ e. ground arith);
    ids = λ i. r.ids i ∙ ground arith;
    id_map = λ id other.
        r.id_map id
          (λ i h e. other i (ground arith) (ap (λ (o : Order). o.id) (sym (popped_same i h)) ∙ e))
        ∙ update_ne m.id_map _ id null_idx (other x (ground arith));
    fresh = r.fresh;
    others = λ i out out_free. r.others i (ground arith) (ground arith);
    kept = λ i h. ground (arith, r.kept i h);
    qty_left = r.qty_left ∙ ap (left (qty - (m.orders x).qty)) later ∙ ground arith;
    entries_left = r.entries_left ∙ ap (rest (qty - (m.orders x).qty)) later ∙ ground arith;
  }
    where
      later : entries popped xs ≡ entries m xs
      later = entries_same m popped xs popped_same

  -- The head of a queue, filled in part.
  abbrev pub reduced : ℕ → Pool
  reduced qty = record m {
    orders = update m.orders x (record (m.orders x) { qty = (m.orders x).qty - qty });
  }

  reduced_links :
      (qty i : ℕ)
      → (next_of (reduced qty) i ≡ next_of m i) × (prev_of (reduced qty) i ≡ prev_of m i)
  reduced_links qty i = ground arith

  pub IsMatched-reduce :
      (qty : ℕ)
      → qty ≢ 0
      → qty < (m.orders x).qty
      → IsMatched m k p (x ∷ xs) free qty (reduced qty) l (x ∷ xs) free 0
  IsMatched-reduce qty ne lt = record {
    cap = refl;
    queue = record {
      level = record {
        linked = Linked-frame l.head (x ∷ xs) (λ i h. (reduced_links qty i).0) q.level.linked;
        back = BackTail-frame (x ∷ xs) (λ i h. (reduced_links qty i).1) q.level.back;
        tail = q.level.tail;
        distinct = q.level.distinct;
      };
      resting = λ i h. IsResting-frame refl (place i) (q.resting i h).mapped (q.resting i h);
    };
    pool = record {
      small = v.small;
      linked = Linked-frame m.next_free free (λ i h. (reduced_links qty i).0) v.linked;
      distinct = v.distinct;
      in_pool = v.in_pool;
    };
    same = λ i out. update_ne m.orders x i _ (λ e. ground arith);
    ids = λ i. ground arith;
    id_map = λ id other. refl;
    fresh = apart;
    others = λ i out out_free. out_free;
    kept = λ i h. h;
    qty_left = ground arith;
    entries_left = ground (arith, behind);
  }
    where
      place : (i : ℕ) → SamePlace ((reduced qty).orders i) (m.orders i)
      place i = record { id = ground arith; price = ground arith; is_buy = ground arith }

      behind : entries (reduced qty) xs ≡ entries m xs
      behind =
          entries_same m (reduced qty) xs
            λ i h. update_ne m.orders x i _ (λ e. ground (arith, q.level.distinct.0))

pub IsMatched-stop :
    {m : Pool} {k : Bool} {p : ℕ} {l : PriceLevel} {c free : List ℕ} {qty : ℕ}
    → IsQueue m k p l c
    → IsFree m free
    → ((i : ℕ) → has i c ≡ true → has i free ≡ false)
    → qty ≡ left qty (entries m c)
    → entries m c ≡ rest qty (entries m c)
    → IsMatched m k p c free qty m l c free qty
IsMatched-stop q v apart e e' = record {
  cap = refl;
  queue = q;
  pool = v;
  same = λ i out. refl;
  ids = λ i. refl;
  id_map = λ id other. refl;
  fresh = apart;
  others = λ i out out_free. out_free;
  kept = λ i h. h;
  qty_left = e;
  entries_left = e';
}
