-- ===== src/Benchmarks/Sides.antt =====
-- Books whose sides are apart, as those of src/benchmark_replace.cpp: no order that is put in on its own
-- side of the middle trades.
use lobook.Base.{
  ℕ, ◌<◌, ◌≡◌, ◌≢◌, sym, ap, ◌∙◌, ◌⊎◌, inl, inr, Bool, true, false, not, List, [], ◌∷◌, ◌++◌,
  lt→ltb, ◌==◌, Returns, Bool-cases, ==→eq, arith,
}
use mathlib.Core.Path.{subst}
use lobook.Pool.{null_idx}
use lobook.Chain.Lists.{has, occupied, erase, has-append, has-erase, has-erase_ne}
use lobook.BitsetBook.{Book, side, cancel_order}
use lobook.BitsetBook.Match.{submit_order, is_worse}
use lobook.BitsetBook.Represents.{IsResting, IsBook, prev_of, entry, put}
use lobook.BitsetBook.Write.{in_ladder}
use lobook.BitsetBook.Fresh.{AreFresh, IsFresh-head, at_queue}
use lobook.BitsetBook.Add.{add_order-append}
use lobook.BitsetBook.Cancelled.{cancel_order-Cancelled, occupied-erase}
use lobook.BitsetBook.Quiet.{submit_order-quiet}
use lobook.BitsetBook.Resting.{Rests, has-put, has-put_self}
use lobook.Benchmarks.Operations.{IsApart, apart-lt}

-- A well-formed book, no first order of a level with a `prev`, whose sides are apart, and where the ids
-- of `Live` and no others rest.
pub record IsSided (Live : ℕ → Type 0) (b : Book) (queues : Bool → ℕ → List ℕ) (free : List ℕ)
    : Type 0 where
  pub book : IsBook b queues free
  pub fresh : AreFresh b.pool queues
  pub apart : (k : Bool) (p : ℕ) → occupied (queues k p) ≡ true → IsApart k p
  pub live : (k : Bool) (p j : ℕ) → has j (queues k p) ≡ true → Live (b.pool.orders j).id
  pub rests : (id : ℕ) → Live id → Rests b.pool queues id

apart-is_worse :
    (k : Bool) (p price : ℕ) → IsApart (not k) p → IsApart k price → is_worse k p price ≡ true
apart-is_worse true p price ask bid = ground (arith, lt→ltb price p (omega arith))
apart-is_worse false p price bid ask = ground (arith, lt→ltb p price (omega arith))

pub IsSided-map :
    {Live Live' : ℕ → Type 0} {b : Book} {queues : Bool → ℕ → List ℕ} {free : List ℕ}
    → ((id : ℕ) → Live id → Live' id)
    → ((id : ℕ) → Live' id → Live id)
    → IsSided Live b queues free
    → IsSided Live' b queues free
IsSided-map to from s = record {
  book = s.book;
  fresh = s.fresh;
  apart = s.apart;
  live = λ k p j h. to _ (s.live k p j h);
  rests = λ id known. s.rests id (from id known);
}

-- The first free slot is that of `next_free`.
pub at_next_free :
    {Live : ℕ → Type 0} {b : Book} {queues : Bool → ℕ → List ℕ} {i : ℕ} (free : List ℕ)
    → IsSided Live b queues (i ∷ free)
    → IsSided Live b queues (b.pool.next_free ∷ free)
at_next_free {Live} {b} {queues} free s =
    subst (λ x. IsSided Live b queues (x ∷ free)) (sym s.book.pool.linked.0) s

module _ (Live : ℕ → Type 0) (b : Book) (queues : Bool → ℕ → List ℕ) (free : List ℕ) (id : ℕ)
    (k : Bool) (price qty : ℕ) (s : IsSided Live b queues (b.pool.next_free ∷ free))
    (at : IsApart k price) (new : Live id → ⊥) where
  abbrev f : ℕ
  f = b.pool.next_free

  abbrev queues' : Bool → ℕ → List ℕ
  queues' = put queues k price (queues k price ++ (f ∷ []))

  not_free : (k' : Bool) (q j : ℕ) → has j (queues k' q) ≡ true → j ≢ f
  not_free k' q j h e = ground (arith, s.book.apart k' q j h)

  abbrev Live' : ℕ → Type 0
  Live' x = Live x ⊎ (x ≡ id)

  module _ (b' : Book) (new_entry : entry b'.pool f ≡ (id, qty))
      (others : (j : ℕ) → j ≢ f → entry b'.pool j ≡ entry b.pool j) where
    still_live : (k' : Bool) (q j : ℕ) → has j (queues k' q) ≡ true → Live' (b'.pool.orders j).id
    still_live k' q j h =
        inl (subst Live (sym (ap (λ x. x.0) (others j (not_free k' q j h)))) (s.live k' q j h))

    grown :
        (k' : Bool) (q : ℕ)
        → (occupied (queues' k' q) ≡ true → IsApart k' q)
          × ((j : ℕ) → has j (queues' k' q) ≡ true → Live' (b'.pool.orders j).id)
    grown k' q =
        at_queue
          (λ x y c.
            (occupied c ≡ true → IsApart x y)
            × ((j : ℕ) → has j c ≡ true → Live' (b'.pool.orders j).id))
          queues k price _ k' q
          (
            λ _. at,
            λ j h. elim (Bool-cases (j == f)) [
              | inl e ↦ rw (==→eq j f e) (inr (ap (λ x. x.0) new_entry))
              | inr ne ↦
                  still_live k price j (ground (arith, has-append j (queues k price) (f ∷ [])))
            ],
          )
          (λ _. (s.apart k' q, still_live k' q))

    rest_again : (x : ℕ) → Live' x → Rests b'.pool queues' x
    rest_again x (inr e) = (
      k,
      price,
      f,
      has-put_self queues k price f _ (ground (arith, has-append f (queues k price) (f ∷ []))),
      ap (λ x. x.0) new_entry ∙ sym e,
    )
    rest_again x (inl known) =
        let (k', q, j, h, e) = s.rests x known in
        (
          k',
          q,
          j,
          has-put queues k price _ k' q j h (λ ek ep.
              let inside : has j (queues k price) ≡ true =
                sym (ap (λ x. has j (queues x q)) ek ∙ ap (λ y. has j (queues k y)) ep) ∙ h in
              ground (arith, has-append j (queues k price) (f ∷ []))),
          ap (λ x. x.0) (others j (not_free k' q j h)) ∙ e,
        )

  -- A new id rests behind the others, and takes the first free slot.
  pub submit_order-IsSided :
      0 < qty
      → id < b.pool.capacity
      → Returns
          (submit_order b id price qty k)
          (λ b'. IsSided Live' b' queues' free × (b'.pool.capacity ≡ b.pool.capacity))
  submit_order-IsSided some_left known =
      let (b', e, (w, new_entry, others, cap, fresh)) =
        add_order-append id price qty k s.book (apart-lt k price at) known
          (λ k' q j h same. new (subst Live same (s.live k' q j h))) in
      (
        b',
        submit_order-quiet b price qty k s.book
              (λ p h. apart-is_worse k p price (s.apart (not k) p h) at) id some_left
            ∙ e,
        (
          record {
            book = w;
            fresh = fresh s.fresh;
            apart = λ k' q. (grown b' new_entry others k' q).0;
            live = λ k' q. (grown b' new_entry others k' q).1;
            rests = rest_again b' new_entry others;
          },
          cap,
        ),
      )

-- Cancelling an order that rests: its slot is the first free one, and its id is not live.
abbrev pub IsSidedWithout : (ℕ → Type 0) → ℕ → Book → List ℕ → Book → Type 0
IsSidedWithout Live id b free b' =
    (queues' : Bool → ℕ → List ℕ) × (i : ℕ) × IsSided (λ x. Live x × (x ≢ id)) b' queues' (i ∷ free)
    × (b'.pool.capacity ≡ b.pool.capacity)
    × (id < b.pool.capacity)

module _ (Live : ℕ → Type 0) (b : Book) (queues : Bool → ℕ → List ℕ) (free : List ℕ)
    (s : IsSided Live b queues free) (id : ℕ) (k : Bool) (p i : ℕ) (h : has i (queues k p) ≡ true)
    (named : (b.pool.orders i).id ≡ id) where
  abbrev left : Bool → ℕ → List ℕ
  left = put queues k p (erase i (queues k p))

  resting : (k' : Bool) (q j : ℕ) → has j (queues k' q) ≡ true → IsResting b.pool k' q j
  resting k' q j inside = ((s.book.sides k').at q (in_ladder s.book k' q j inside)).resting j inside

  was_inside : (k' : Bool) (q j : ℕ) → has j (left k' q) ≡ true → has j (queues k' q) ≡ true
  was_inside k' q j =
      at_queue (λ x y c. has j c ≡ true → has j (queues x y) ≡ true) queues k p _ k' q
        (has-erase j i (queues k p)) (λ _ inside. inside)

  kept-IsApart : (k' : Bool) (q : ℕ) → occupied (left k' q) ≡ true → IsApart k' q
  kept-IsApart k' q =
      at_queue (λ x y c. occupied c ≡ true → IsApart x y) queues k p _ k' q
        (λ busy. s.apart k p (occupied-erase i (queues k p) busy)) (λ _. s.apart k' q)

  module _ (b' : Book) (v : IsBook b' left (i ∷ free))
      (same : (j : ℕ) → entry b'.pool j ≡ entry b.pool j) where
    -- The id leads to one slot, which no queue holds now.
    others_live :
        (k' : Bool) (q j : ℕ)
        → has j (left k' q) ≡ true
        → Live (b'.pool.orders j).id × ((b'.pool.orders j).id ≢ id)
    others_live k' q j inside =
        let before = was_inside k' q j inside in
        let id_kept = ap (λ x. x.0) (same j) in
        (
          subst Live (sym id_kept) (s.live k' q j before),
          λ e.
              let slot : j ≡ i =
                sym (resting k' q j before).mapped
                ∙ ap b.pool.id_map (sym id_kept ∙ e ∙ sym named)
                ∙ (resting k p i h).mapped in
              ground (arith, v.apart k' q j inside),
        )

    kept-Rests : (x : ℕ) → Live x × (x ≢ id) → Rests b'.pool left x
    kept-Rests x (known, other) =
        let (k', q, j, inside, e) = s.rests x known in
        let ne : j ≢ i = λ slot. other (sym e ∙ ap (λ n. (b.pool.orders n).id) slot ∙ named) in
        (
          k',
          q,
          j,
          has-put queues k p _ k' q j inside (λ ek ep.
              has-erase_ne j i (queues k p) ne
              ∙ sym (ap (λ y. has j (queues y q)) ek ∙ ap (λ y. has j (queues k y)) ep)
              ∙ inside),
          ap (λ y. y.0) (same j) ∙ e,
        )

pub cancel_order-IsSided :
    (Live : ℕ → Type 0) (b : Book) (queues : Bool → ℕ → List ℕ) (free : List ℕ) (id : ℕ)
    → IsSided Live b queues free
    → Live id
    → Returns (cancel_order b id) (IsSidedWithout Live id b free)
cancel_order-IsSided Live b queues free id s known =
    let (k, p, i, h, named) = s.rests id known in
    let queue = (s.book.sides k).at p (in_ladder s.book k p i h) in
    let r = queue.resting i h in
    let o = b.pool.orders i in
    let h' : has i (queues o.is_buy o.price) ≡ true = rw (r.on_side, r.at_price) h in
    let head_fresh : ((side b o.is_buy).levels o.price).head ≡ i → prev_of b.pool i ≡ null_idx =
      rw (r.on_side, r.at_price)
        (λ first. IsFresh-head (queues k p) queue.level h first (s.fresh k p)) in
    let (b', runs, (v, same, gone, fresh, cap)) = cancel_order-Cancelled i s.book h' head_fresh in
    (
      b',
      ap (cancel_order b) (sym named) ∙ runs,
      (
        _,
        i,
        record {
          book = v;
          fresh = fresh s.fresh;
          apart = kept-IsApart Live b queues free s id o.is_buy o.price i h' named;
          live = others_live Live b queues free s id o.is_buy o.price i h' named b' v same;
          rests = kept-Rests Live b queues free s id o.is_buy o.price i h' named b' v same;
        },
        cap,
        subst (λ x. x < b.pool.capacity) named r.id_known,
      ),
    )
