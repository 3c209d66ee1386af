-- ===== src/BitsetBook/Write.antt =====
-- One queue of the book rewritten: what a write to one level must keep so that the book is one
-- again.
use lobook.Base.{
  ℕ, ◌<◌, ◌≡◌, ◌≢◌, refl, sym, ap, ◌∙◌, inl, inr, ◌⊎◌, Bool, true, false, List, [], ◌==◌,
  if◌then◌else◌, update_self, update_ne, Bool-cases, ==→eq, ==→ne, ltb, ltb→lt, ltb→le, arith,
}
use lobook.PriceBitset.{max_prices}
use lobook.PriceBitset.History.{Holds}
use lobook.Pool.{Order, PriceLevel, Pool}
use lobook.Chain.Lists.{has, occupied}
use lobook.Chain.Frame.{Linked-frame, BackTail-frame}
use lobook.BitsetBook.{Side, Book, side, set_side, set_level}
use lobook.BitsetBook.Represents.{IsResting, IsQueue, IsSide, IsFree, IsBook, put}

module _ (s : Side) (p : ℕ) (l : PriceLevel) where
  pub set_level_self : (set_level s p l).levels p ≡ l
  set_level_self = update_self s.levels p l

  pub set_level_ne : (q : ℕ) → q ≢ p → (set_level s p l).levels q ≡ s.levels q
  set_level_ne q ne = update_ne s.levels p q l (λ e. ne (sym e))

-- The fields of an order that say where it rests.
pub record SamePlace (o' o : Order) : Type 0 where
  pub id : o'.id ≡ o.id
  pub price : o'.price ≡ o.price
  pub is_buy : o'.is_buy ≡ o.is_buy

pub SamePlace-refl : {o : Order} → SamePlace o o
SamePlace-refl = record { id = refl; price = refl; is_buy = refl }

-- A queue survives writes to other slots.
module _ {m m' : Pool} (cap : m'.capacity ≡ m.capacity) where
  pub IsResting-frame :
      {k : Bool} {p i : ℕ}
      → SamePlace (m'.orders i) (m.orders i)
      → m'.id_map (m.orders i).id ≡ i
      → IsResting m k p i
      → IsResting m' k p i
  IsResting-frame {i} same mapped r = record {
    in_pool = rw cap r.in_pool;
    at_price = same.price ∙ r.at_price;
    on_side = same.is_buy ∙ r.on_side;
    id_known = rw (same.id, cap) r.id_known;
    mapped = rw same.id mapped;
  }

  pub IsQueue-frame :
      {k : Bool} {p : ℕ} {l : PriceLevel} (c : List ℕ)
      → ((i : ℕ) → has i c ≡ true → m'.orders i ≡ m.orders i)
      → ((i : ℕ) → has i c ≡ true → m'.id_map (m.orders i).id ≡ i)
      → IsQueue m k p l c
      → IsQueue m' k p l c
  IsQueue-frame {l} c same mapped q = record {
    level = record {
      linked = Linked-frame l.head c (λ i h. ap (λ (o : Order). o.next) (same i h)) q.level.linked;
      back = BackTail-frame c (λ i h. ap (λ (o : Order). o.prev) (same i h)) q.level.back;
      tail = q.level.tail;
      distinct = q.level.distinct;
    };
    resting = λ i h. IsResting-frame (rw (same i h) SamePlace-refl) (mapped i h) (q.resting i h);
  }

module _ {b : Book} {queues : Bool → ℕ → List ℕ} {free : List ℕ} (v : IsBook b queues free) where
  -- A slot is in one queue only.
  pub queue_unique :
      (k k' : Bool) (p p' i : ℕ)
      → p < max_prices
      → p' < max_prices
      → has i (queues k p) ≡ true
      → has i (queues k' p') ≡ true
      → (k ≡ k') × (p ≡ p')
  queue_unique k k' p p' i lt lt' h h' =
      let r = ((v.sides k).at p lt).resting i h in
      let r' = ((v.sides k').at p' lt').resting i h' in
      (sym r.on_side ∙ r'.on_side, sym r.at_price ∙ r'.at_price)

  pub in_ladder : (k : Bool) (p i : ℕ) → has i (queues k p) ≡ true → p < max_prices
  in_ladder k p i h = elim (Bool-cases (ltb p max_prices)) [
    | inl lt ↦ ltb→lt p max_prices lt
    | inr ge ↦
        let e : queues k p ≡ [] = (v.sides k).outside p (ltb→le p max_prices ge) in
        absurd (false_true (sym (ap (has i) e) ∙ h))
  ]
    where
      false_true : false ≡ true → ⊥
      false_true e = cc

  pub elsewhere :
      (k k' : Bool) (p q i : ℕ)
      → p < max_prices
      → (k' ≡ k → q ≢ p)
      → has i (queues k' q) ≡ true
      → has i (queues k p) ≡ false
  elsewhere k k' p q i lt other h = elim (Bool-cases (has i (queues k p))) [
    | inl both ↦
        let (ek, ep) = queue_unique k' k q p i (in_ladder k' q i h) lt h both in
        absurd (other ek ep)
    | inr out ↦ out
  ]

-- The pool, the side and the free list after one queue has been rewritten.
pub record IsWrite (b : Book) (queues : Bool → ℕ → List ℕ) (free : List ℕ) (k : Bool) (p : ℕ)
    (m' : Pool) (s' : Side) (c' free' : List ℕ) : Type 0 where
  pub in_range : p < max_prices
  pub cap : m'.capacity ≡ b.pool.capacity
  pub kept_levels : (q : ℕ) → q ≢ p → s'.levels q ≡ (side b k).levels q
  pub queue : IsQueue m' k p (s'.levels p) c'
  pub indexed : Holds (λ q. occupied (if p == q then c' else queues k q)) s'.index
  pub same :
      (i : ℕ) → has i (queues k p) ≡ false → has i free ≡ false → m'.orders i ≡ b.pool.orders i
  pub mapped :
      (k' : Bool) (q i : ℕ)
      → has i (queues k' q) ≡ true
      → has i (queues k p) ≡ false
      → m'.id_map (b.pool.orders i).id ≡ i
  pub pool : IsFree m' free'
  pub fresh : (i : ℕ) → has i c' ≡ true → has i free' ≡ false
  pub others : (i : ℕ) → has i (queues k p) ≡ false → has i free ≡ false → has i free' ≡ false

side_cases :
    (b : Book) (m' : Pool) (s' : Side) (queues : Bool → ℕ → List ℕ) (p : ℕ) (c' : List ℕ) (k : Bool)
    → IsSide m' k s' (λ q. if p == q then c' else queues k q)
    → ((k' : Bool) → k' ≢ k → IsSide m' k' (side b k') (queues k'))
    → (k' : Bool)
    → IsSide m' k' (side (set_side (record b { pool = m' }) k s') k') (put queues k p c' k')
side_cases b m' s' queues p c' true here other true = here
side_cases b m' s' queues p c' true here other false = other false (λ e. cc)
side_cases b m' s' queues p c' false here other true = other true (λ e. cc)
side_cases b m' s' queues p c' false here other false = here

-- A slot of the replaced queue, or of another one.
put_cases :
    (queues : Bool → ℕ → List ℕ) (k : Bool) (p : ℕ) (c' : List ℕ) (k' : Bool) (q i : ℕ)
    → has i (put queues k p c' k' q) ≡ true
    → (has i c' ≡ true) ⊎ ((k' ≡ k → q ≢ p) × (has i (queues k' q) ≡ true))
put_cases queues true p c' true q i h = elim (Bool-cases (p == q)) [
  | inl e ↦ inl (ground (arith, h, e))
  | inr ne ↦ inr (λ _ e. ==→ne p q ne (sym e), ground (arith, h, ne))
]
put_cases queues true p c' false q i h = inr (λ e. cc, h)
put_cases queues false p c' true q i h = inr (λ e. cc, h)
put_cases queues false p c' false q i h = elim (Bool-cases (p == q)) [
  | inl e ↦ inl (ground (arith, h, e))
  | inr ne ↦ inr (λ _ e. ==→ne p q ne (sym e), ground (arith, h, ne))
]

pub pool_kept :
    (b : Book) (m' : Pool) (s' : Side) (k : Bool)
    → (set_side (record b { pool = m' }) k s').pool ≡ m'
pool_kept b m' s' true = refl
pool_kept b m' s' false = refl

module _ {b : Book} {queues : Bool → ℕ → List ℕ} {free : List ℕ} {k : Bool} {p : ℕ} {m' : Pool}
    {s' : Side} {c' free' : List ℕ} (v : IsBook b queues free)
    (w : IsWrite b queues free k p m' s' c' free') where
  open w use {in_range, cap, kept_levels, queue, indexed, same, mapped, pool, fresh, others}

  frame-IsQueue :
      (k' : Bool) (q : ℕ) (l : PriceLevel)
      → (k' ≡ k → q ≢ p)
      → IsQueue b.pool k' q l (queues k' q)
      → IsQueue m' k' q l (queues k' q)
  frame-IsQueue k' q l other =
      IsQueue-frame cap (queues k' q)
        (λ i h. same i (elsewhere v k k' p q i in_range other h) (v.apart k' q i h))
        (λ i h. mapped k' q i h (elsewhere v k k' p q i in_range other h))

  here : IsSide m' k s' (λ q. if p == q then c' else queues k q)
  here = record {
    at = λ q lt. elim (Bool-cases (p == q)) [
      | inl e ↦ rw (e, ← ==→eq p q e) queue
      | inr ne ↦
          rw (ne, kept_levels q (λ e. ==→ne p q ne (sym e)))
            (frame-IsQueue k q _ (λ _ e. ==→ne p q ne (sym e)) ((v.sides k).at q lt))
    ];
    outside = λ q ge. ground (arith, (v.sides k).outside q);
    indexed = indexed;
  }

  elsewhere_side : (k' : Bool) → k' ≢ k → IsSide m' k' (side b k') (queues k')
  elsewhere_side k' ne = record {
    at = λ q lt. frame-IsQueue k' q _ (λ e. absurd (ne e)) ((v.sides k').at q lt);
    outside = (v.sides k').outside;
    indexed = (v.sides k').indexed;
  }

  apart_put : (k' : Bool) (q i : ℕ) → has i (put queues k p c' k' q) ≡ true → has i free' ≡ false
  apart_put k' q i h = elim (put_cases queues k p c' k' q i h) [
    | inl new ↦ fresh i new
    | inr (other, old) ↦ others i (elsewhere v k k' p q i in_range other old) (v.apart k' q i old)
  ]

  pub IsBook-write : IsBook (set_side (record b { pool = m' }) k s') (put queues k p c') free'
  IsBook-write = record {
    sides =
        λ k'. rw (pool_kept b m' s' k) (side_cases b m' s' queues p c' k here elsewhere_side k');
    pool = rw (pool_kept b m' s' k) pool;
    apart = apart_put;
  }
