-- ===== src/BitsetBook/Resting.antt =====
-- The orders that rest stay in the book when one of them is replaced.
use lobook.Base.{
  ℕ, ◌<◌, ◌≡◌, refl, sym, ap, ◌∙◌, inl, inr, Bool, true, false, not, ◌||◌, List, [], ◌∷◌, ◌++◌, ltb,
  ◌==◌, if◌then◌else◌, Returns, Bool-cases, ==→eq, ==→ne, arith,
}
use lobook.PriceBitset.{max_prices}
use lobook.Pool.{null_idx, Pool}
use lobook.Chain.Lists.{has, erase, has-append, has-erase_ne}
use lobook.BitsetBook.{Book, side, replace_order}
use lobook.BitsetBook.Represents.{prev_of, IsBook, put}
use lobook.BitsetBook.Write.{in_ladder}
use lobook.BitsetBook.Fresh.{AreFresh, IsFresh-head}
use lobook.BitsetBook.Replaced.{IsReplaced, move_queue}
use lobook.BitsetBook.Replace.{replace_order-Replaced}

-- An order with this id stands in one of the queues.
abbrev pub Rests : Pool → (Bool → ℕ → List ℕ) → ℕ → Type 0
Rests m queues id =
    (k : Bool) × (p : ℕ) × (i : ℕ) × (has i (queues k p) ≡ true) × ((m.orders i).id ≡ id)

-- A well-formed book, no first order of a level with a `prev`, where every id of `Live` rests.
abbrev pub IsLiveBook : (ℕ → Type 0) → Book → Type 0
IsLiveBook Live b =
    (queues : Bool → ℕ → List ℕ) × (free : List ℕ) × IsBook b queues free
    × AreFresh b.pool queues
    × ((id : ℕ) → Live id → Rests b.pool queues id)

pub has-put :
    (queues : Bool → ℕ → List ℕ) (k : Bool) (p : ℕ) (c' : List ℕ) (k' : Bool) (q j : ℕ)
    → has j (queues k' q) ≡ true
    → (k' ≡ k → q ≡ p → has j c' ≡ true)
    → has j (put queues k p c' k' q) ≡ true
has-put queues true p c' true q j old new = elim (Bool-cases (p == q)) [
  | inl e ↦ rw e (new refl (sym (==→eq p q e)))
  | inr ne ↦ rw ne old
]
has-put queues true p c' false q j old new = old
has-put queues false p c' true q j old new = old
has-put queues false p c' false q j old new = elim (Bool-cases (p == q)) [
  | inl e ↦ rw e (new refl (sym (==→eq p q e)))
  | inr ne ↦ rw ne old
]

pub has-put_self :
    (queues : Bool → ℕ → List ℕ) (k : Bool) (p j : ℕ) (c' : List ℕ)
    → has j c' ≡ true
    → has j (put queues k p c' k p) ≡ true
has-put_self queues true p j c' h = ground arith
has-put_self queues false p j c' h = ground arith

module _ (queues : Bool → ℕ → List ℕ) (ko : Bool) (po i price : ℕ) where
  -- Where a slot of a queue stands after the move.
  moved_place :
      (k : Bool) (p j : ℕ)
      → has j (queues k p) ≡ true
      → (k' : Bool) × (p' : ℕ) × (has j (move_queue queues ko po i price k' p') ≡ true)
  moved_place k p j h = elim (Bool-cases (j == i)) [
    | inl e ↦ (
      ko,
      price,
      has-put_self left ko price j (left ko price ++ (i ∷ []))
          (ground (arith, has-append j (left ko price) (i ∷ []))),
    )
    | inr ne ↦ (k, p, has-put left ko price _ k p j (stays ne) λ ek ep. again ne ek ep)
  ]
    where
      left : Bool → ℕ → List ℕ
      left = put queues ko po (erase i (queues ko po))

      stays : (j == i) ≡ false → has j (left k p) ≡ true
      stays ne =
          has-put queues ko po _ k p j h
            (λ ek ep. has-erase_ne j i (queues ko po) (==→ne j i ne) ∙ rw (← ek, ← ep) h)

      again : (j == i) ≡ false → k ≡ ko → p ≡ price → has j (left ko price ++ (i ∷ [])) ≡ true
      again ne ek ep =
          let inside : has j (left ko price) ≡ true =
            sym (ap (λ x. has j (left x p)) ek ∙ ap (λ y. has j (left ko y)) ep) ∙ stays ne in
          ground (arith, has-append j (left ko price) (i ∷ []))

module _ (b b' : Book) (queues : Bool → ℕ → List ℕ) (free : List ℕ) (i qty price : ℕ) (ko : Bool)
    (po : ℕ) where
  same_id :
      (queues' : Bool → ℕ → List ℕ)
      → IsReplaced b queues i qty queues' free b'
      → (j : ℕ) → (b'.pool.orders j).id ≡ (b.pool.orders j).id
  same_id queues' r j = elim (Bool-cases (j == i)) [
    | inl e ↦ rw (==→eq j i e) (ap (λ x. x.0) r.1)
    | inr ne ↦ ap (λ x. x.0) (r.2 j (==→ne j i ne))
  ]

  still-Rests :
      (moved : Bool) (id : ℕ)
      → IsReplaced b queues i qty
          (if moved then move_queue queues ko po i price else queues)
          free
          b'
      → Rests b.pool queues id
      → Rests b'.pool (if moved then move_queue queues ko po i price else queues) id
  still-Rests true id r (k, p, j, h, e) =
      let (k', p', h') = moved_place queues ko po i price k p j h in
      (k', p', j, h', same_id _ r j ∙ e)
  still-Rests false id r (k, p, j, h, e) = (k, p, j, h, same_id _ r j ∙ e)

-- Replacing an order that rests, at a price inside the ladder.
pub replace_order-IsLiveBook :
    (Live : ℕ → Type 0) (b : Book) (id price qty : ℕ)
    → IsLiveBook Live b
    → Live id
    → price < max_prices
    → Returns (replace_order b id price qty) (IsLiveBook Live)
replace_order-IsLiveBook Live b id price qty (queues, free, v, fresh, rests) known lt =
    let (k, p, i, h, e) = rests id known in
    let queue = (v.sides k).at p (in_ladder v k p i h) in
    let r = queue.resting i h in
    let o = b.pool.orders i in
    let h' : has i (queues o.is_buy o.price) ≡ true = rw (r.on_side, r.at_price) h in
    let head_fresh : ((side b o.is_buy).levels o.price).head ≡ i → prev_of b.pool i ≡ null_idx =
      rw (r.on_side, r.at_price)
        (λ first. IsFresh-head (queues k p) queue.level h first (fresh k p)) in
    let (b', runs, x) = replace_order-Replaced i qty v h' head_fresh price lt in
    (
      b',
      ap (λ n. replace_order b n price qty) (sym e) ∙ runs,
      (
        _,
        free,
        x.0,
        x.3 fresh,
        λ id' lt'.
            still-Rests b b' queues free i qty price o.is_buy o.price
              (not (o.price == price) || ltb o.qty qty) id' x (rests id' lt'),
      ),
    )
