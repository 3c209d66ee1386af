-- ===== src/BitsetBook/Submit.antt =====
-- `submit_order`: the trades, and what rests of the order after them.
use lobook.Base.{
  ℕ, ◌<◌, ◌≡◌, ◌≢◌, refl, sym, ap, ◌∙◌, inl, inr, Bool, true, false, not, List, [], ◌∷◌, ◌==◌, ◌++◌,
  if◌then◌else◌, Bool-cases, ==→eq, ==→ne, ok, Returns, arith, ltb, fun_ext,
}
use mathlib.Core.Path.{subst}
use lobook.PriceBitset.{max_prices}
use lobook.Pool.{null_idx, Pool}
use lobook.Chain.Lists.{has, has-append}
use lobook.BitsetBook.{Book, add_order}
use lobook.BitsetBook.Represents.{IsBook, put, entry}
use lobook.BitsetBook.Add.{add_order-append}
use lobook.BitsetBook.Fill.{Entries, entries}
use lobook.BitsetBook.Match.{submit_order}
use lobook.BitsetBook.Trades.{Trades}
use lobook.BitsetBook.MatchLoop.{ladder, IsTraded}
use lobook.BitsetBook.Traded.{match-Traded}

-- What `add_order` does with the rest of an order: nothing is left; no slot is free, and the rest is
-- dropped; or it rests behind the others of its price.
pub data Rested (own own' : ℕ → Entries) (id price qty : ℕ) (free' : List ℕ) : Type 0 where
  all_filled : qty ≡ 0 → ((p : ℕ) → own' p ≡ own p) → Rested own own' id price qty free'
  dropped : qty ≢ 0 → free' ≡ [] → ((p : ℕ) → own' p ≡ own p) → Rested own own' id price qty free'
  rests :
      qty ≢ 0
      → ((p : ℕ) → own' p ≡ (if price == p then own p ++ ((id, qty) ∷ []) else own p))
      → Rested own own' id price qty free'

pub record IsSubmitted (b : Book) (queues : Bool → ℕ → List ℕ) (id price qty : ℕ) (is_buy : Bool)
    (b' : Book) (qty' : ℕ) (queues' : Bool → ℕ → List ℕ) (free' : List ℕ) : Type 0 where
  pub book : IsBook b' queues' free'
  pub trades :
      Trades is_buy price qty (ladder b queues (not is_buy)) qty' (ladder b' queues' (not is_buy))
  pub rested : Rested (ladder b queues is_buy) (ladder b' queues' is_buy) id price qty' free'
  pub cap : b'.pool.capacity ≡ b.pool.capacity
  pub ids :
      (P : ℕ → Bool)
      → ((k : Bool) (q i : ℕ) → has i (queues k q) ≡ true → P (b.pool.orders i).id ≡ true)
      → P id ≡ true
      → (k : Bool) (q i : ℕ) → has i (queues' k q) ≡ true
      → P (b'.pool.orders i).id ≡ true

entries_entry :
    (m m' : Pool) (c : List ℕ)
    → ((i : ℕ) → has i c ≡ true → entry m' i ≡ entry m i)
    → entries m' c ≡ entries m c
entries_entry m m' [] same = refl
entries_entry m m' (x ∷ xs) same =
    rw (same x (ground arith), entries_entry m m' xs (λ i h. same i (ground arith))) refl

entries-append :
    (m : Pool) (c : List ℕ) (f : ℕ) → entries m (c ++ (f ∷ [])) ≡ entries m c ++ (entry m f ∷ [])
entries-append m [] f = refl
entries-append m (x ∷ xs) f = ap (λ es. entry m x ∷ es) (entries-append m xs f)

put_other :
    (queues : Bool → ℕ → List ℕ) (k : Bool) (p : ℕ) (c : List ℕ) (q : ℕ)
    → put queues k p c (not k) q ≡ queues (not k) q
put_other queues true p c q = refl
put_other queues false p c q = refl

put_here :
    (queues : Bool → ℕ → List ℕ) (k : Bool) (p : ℕ) (c : List ℕ) (q : ℕ)
    → put queues k p c k q ≡ (if p == q then c else queues k q)
put_here queues true p c q = refl
put_here queues false p c q = refl

has-grown :
    (row : ℕ → List ℕ) (p f q i : ℕ)
    → i ≢ f
    → has i (if p == q then row p ++ (f ∷ []) else row q) ≡ true
    → has i (row q) ≡ true
has-grown row p f q i ne h = elim (Bool-cases (p == q)) [
  | inl e ↦ rw (← ==→eq p q e) (ground (arith, has-append i (row p) (f ∷ [])))
  | inr other ↦ ground arith
]

has-put :
    (queues : Bool → ℕ → List ℕ) (k : Bool) (p f : ℕ) (k' : Bool) (q i : ℕ)
    → i ≢ f
    → has i (put queues k p (queues k p ++ (f ∷ [])) k' q) ≡ true
    → has i (queues k' q) ≡ true
has-put queues true p f true q i ne h = has-grown (queues true) p f q i ne h
has-put queues true p f false q i ne h = h
has-put queues false p f true q i ne h = h
has-put queues false p f false q i ne h = has-grown (queues false) p f q i ne h

-- The entries after the rest of the order has been put in slot `f`.
module _ {b : Book} {queues : Bool → ℕ → List ℕ} {f : ℕ} {free : List ℕ} {id qty : ℕ} (b' : Book)
    (price : ℕ) (k : Bool) (v : IsBook b queues (f ∷ free))
    (new_entry : entry b'.pool f ≡ (id, qty))
    (others : (i : ℕ) → i ≢ f → entry b'.pool i ≡ entry b.pool i) where
  kept_entries : (k' : Bool) (q : ℕ) → entries b'.pool (queues k' q) ≡ entries b.pool (queues k' q)
  kept_entries k' q =
      entries_entry b.pool b'.pool (queues k' q)
        λ i h. others i (λ e. ground (arith, v.apart k' q i h))

  opposite_kept :
      (q : ℕ)
      → ladder b' (put queues k price (queues k price ++ (f ∷ []))) (not k) q
        ≡ ladder b queues (not k) q
  opposite_kept q = ap (entries b'.pool) (put_other queues k price _ q) ∙ kept_entries (not k) q

  own_appended :
      (q : ℕ)
      → ladder b' (put queues k price (queues k price ++ (f ∷ []))) k q
        ≡ (if price == q then ladder b queues k q ++ ((id, qty) ∷ []) else ladder b queues k q)
  own_appended q =
      ap (entries b'.pool) (put_here queues k price _ q) ∙ elim (Bool-cases (price == q)) [
        | inl e ↦
            rw
              (
                e,
                ← ==→eq price q e,
                entries-append b'.pool (queues k price) f,
                new_entry,
                kept_entries k price,
              )
              refl
        | inr ne ↦ rw ne (kept_entries k q)
      ]

abbrev pub Submitted : Book → (Bool → ℕ → List ℕ) → ℕ → ℕ → ℕ → Bool → Book → Type 0
Submitted b queues id price qty is_buy b' =
    (qty' : ℕ) × (queues' : Bool → ℕ → List ℕ) × (free' : List ℕ) × IsSubmitted b queues id price
      qty is_buy b' qty' queues' free'

module _ {b b1 : Book} {queues queues1 : Bool → ℕ → List ℕ} {free1 : List ℕ} {qty1 : ℕ}
    (id price qty : ℕ) (is_buy : Bool) (lt : price < max_prices) (known : id < b.pool.capacity)
    (new : (k : Bool) (q i : ℕ) → has i (queues k q) ≡ true → (b.pool.orders i).id ≢ id)
    (t : IsTraded b queues is_buy price qty qty1 b1 queues1 free1) where
  kept_ids :
      (P : ℕ → Bool)
      → ((k : Bool) (q i : ℕ) → has i (queues k q) ≡ true → P (b.pool.orders i).id ≡ true)
      → P id ≡ true
      → (k : Bool) (q i : ℕ) → has i (queues1 k q) ≡ true
      → P (b1.pool.orders i).id ≡ true
  kept_ids P old_ids new_id k q i h = ap P (t.ids i) ∙ old_ids k q i (t.kept k q i h)

  no_rest : qty1 ≡ 0 → Submitted b queues id price qty is_buy b1
  no_rest e = (
    qty1,
    queues1,
    free1,
    record {
      book = t.book;
      trades = t.trades;
      rested = all_filled e t.own;
      cap = t.cap;
      ids = kept_ids;
    },
  )

  new1 : (k : Bool) (q i : ℕ) → has i (queues1 k q) ≡ true → (b1.pool.orders i).id ≢ id
  new1 k q i h e = new k q i (t.kept k q i h) (sym (t.ids i) ∙ e)

  at_slot :
      (rest : List ℕ)
      → qty1 ≢ 0
      → IsBook b1 queues1 (b1.pool.next_free ∷ rest)
      → Returns (add_order b1 id price qty1 is_buy) (Submitted b queues id price qty is_buy)
  at_slot rest ne v =
      let (b2, e, (w, new_entry, others, grown, _)) =
        add_order-append id price qty1 is_buy v lt (rw t.cap known) new1 in
      (
        b2,
        e,
        (
          qty1,
          put queues1 is_buy price (queues1 is_buy price ++ (b1.pool.next_free ∷ [])),
          rest,
          record {
            book = w;
            trades =
                subst (λ es. Trades is_buy price qty (ladder b queues (not is_buy)) qty1 es)
                  (sym (fun_ext (opposite_kept b2 price is_buy v new_entry others))) t.trades;
            rested = rests ne (λ p.
                own_appended b2 price is_buy v new_entry others p
                ∙ ap (λ es. if price == p then es ++ ((id, qty1) ∷ []) else es) (t.own p));
            cap = grown ∙ t.cap;
            ids = λ P old_ids new_id k q i h. elim (Bool-cases (i == b1.pool.next_free)) [
              | inl here ↦
                  ap (λ j. P (b2.pool.orders j).id) (==→eq i _ here)
                  ∙ ap (λ x. P (x.0)) new_entry
                  ∙ new_id
              | inr there ↦
                  let other = ==→ne i _ there in
                  ap (λ x. P (x.0)) (others i other)
                  ∙ kept_ids P old_ids new_id k q i
                      (has-put queues1 is_buy price b1.pool.next_free k q i other h)
            ];
          },
        ),
      )

  after_match :
      (free : List ℕ)
      → qty1 ≢ 0
      → IsBook b1 queues1 free
      → Returns (add_order b1 id price qty1 is_buy) (Submitted b queues id price qty is_buy)
  unfolding add_order
  after_match [] ne v =
      let full : (b1.pool.next_free == null_idx) ≡ true = ground (arith, v.pool.linked) in
      rw full (
        b1,
        refl,
        (
          qty1,
          queues1,
          [],
          record {
            book = v;
            trades = t.trades;
            rested = dropped ne refl t.own;
            cap = t.cap;
            ids = kept_ids;
          },
        ),
      )
  after_match (f ∷ rest) ne v =
      at_slot rest ne (subst (λ x. IsBook b1 queues1 (x ∷ rest)) (sym v.pool.linked.0) v)

  pub rest_of_order :
      Returns
        (if ltb 0 qty1 then add_order b1 id price qty1 is_buy else ok b1)
        (Submitted b queues id price qty is_buy)
  rest_of_order = elim (Bool-cases (ltb 0 qty1)) [
    | inl some_left ↦ rw some_left (after_match free1 (ground arith) t.book)
    | inr none_left ↦ rw none_left (b1, refl, no_rest (ground arith))
  ]

-- In a well-formed book, `submit_order` of a price below MAX_PRICES and an id below the capacity that
-- no resting order has returns without a fault or running out of fuel. The opposite side trades round
-- by round: while quantity is left and the best price is not worse than the limit, the best price
-- trades, oldest order first. Of the order's own side nothing changes but that the rest of the order,
-- where there is one, stands behind the others of its price, or is dropped where no slot is free. The
-- book is well formed again.
pub submit_order-Submitted :
    (b : Book) {queues : Bool → ℕ → List ℕ} {free : List ℕ} (id price qty : ℕ) (is_buy : Bool)
    → IsBook b queues free
    → price < max_prices
    → id < b.pool.capacity
    → ((k : Bool) (q i : ℕ) → has i (queues k q) ≡ true → (b.pool.orders i).id ≢ id)
    → Returns (submit_order b id price qty is_buy) (Submitted b queues id price qty is_buy)
unfolding submit_order
submit_order-Submitted b id price qty is_buy v lt known new =
    let ((qty1, b1), e, (queues1, free1, t)) = match-Traded b price qty is_buy v in
    rw e (rest_of_order id price qty is_buy lt known new t)
