-- ===== src/Benchmarks/Churn/Tracked.antt =====
-- The requests of scenario 3 give every order a new id, and cancel only orders that were submitted.
use lobook.Base.{
  ℕ, suc, ◌+◌, ◌-◌, ◌%◌, ◌≤◌, ◌<◌, ◌≡◌, ◌≢◌, refl, sym, ◌∙◌, inl, inr, true, not, ◌&&◌, List, [],
  ◌∷◌, ltb, ◌==◌, if◌then◌else◌, Bool-cases, arith,
}
use native.Mathlib.Nat.{mod-lt}
use lobook.PriceBitset.{max_prices}
use lobook.Chain.Lists.{has, erase, length, has-erase_ne}
use lobook.Benchmarks.{max_orders}
use lobook.Benchmarks.Churn.{
  Draw, Ids, push_back, swap_out, start, Request, submit, cancel, churn_round, churn_requests,
}

-- Orders below the bounds with ids that count up from `next`, and cancels of ids among `live`.
abbrev pub AreTracked : ℕ → ℕ → List ℕ → List Request → Type 0
AreTracked n next live [] = Unit
AreTracked n next live (submit o ∷ rs) =
    (o.id ≡ next)
    × (o.id < n)
    × (o.price < max_prices)
    × (0 < o.qty)
    × AreTracked n (suc next) (o.id ∷ live) rs
AreTracked n next live (cancel id ∷ rs) =
    (has id live ≡ true) × AreTracked n next (erase id live) rs

-- The generator draws prices inside the ladder.
abbrev pub AreInside : List Draw → Type 0
AreInside [] = Unit
AreInside (d ∷ ds) = (d.price < max_prices) × AreInside ds

record IsLive (next : ℕ) (live : List ℕ) (ids : Ids) : Type 0 where
  pub once : (i j : ℕ) → i < ids.size → j < ids.size → ids.at i ≡ ids.at j → i ≡ j
  pub held : (i : ℕ) → i < ids.size → has (ids.at i) live ≡ true
  pub below : (i : ℕ) → i < ids.size → ids.at i < next

IsLive-submitted :
    (next : ℕ) (live : List ℕ) (ids : Ids)
    → IsLive next live ids
    → IsLive (suc next) (next ∷ live) ids
IsLive-submitted next live ids l = record {
  once = l.once;
  held = λ i lt. ground (arith, l.held i lt);
  below = λ i lt. omega (arith, l.below i lt);
}

IsLive-push_back :
    (next : ℕ) (live : List ℕ) (ids : Ids)
    → IsLive next live ids
    → IsLive (suc next) (next ∷ live) (push_back ids next)
unfolding push_back
IsLive-push_back next live ids l = record {
  once = λ i j lti ltj same. ground (arith, l.once i j, l.below i, l.below j);
  held = λ i lt. ground (arith, l.held i);
  below = λ i lt. ground (arith, l.below i);
}

module _ (next : ℕ) (live : List ℕ) (ids : Ids) (idx : ℕ) (lt : idx < ids.size) where
  -- The place that an entry had before `swap_out`.
  abbrev place_of : ℕ → ℕ
  place_of j = if idx == j then ids.size - 1 else j

  at-swap_out : (j : ℕ) → (swap_out ids idx).at j ≡ ids.at (place_of j)
  unfolding swap_out
  at-swap_out j = elim (Bool-cases (idx == j)) [ inl e ↦ rw e refl | inr e ↦ rw e refl ]

  place_of-lt : (j : ℕ) → j < ids.size - 1 → place_of j < ids.size
  place_of-lt j ltj = ground arith

  place_of-ne : (j : ℕ) → j < ids.size - 1 → place_of j ≢ idx
  place_of-ne j ltj e = ground arith

  place_of-once : (i j : ℕ) → i < ids.size - 1 → j < ids.size - 1 → place_of i ≡ place_of j → i ≡ j
  place_of-once i j lti ltj e = ground arith

  IsLive-swap_out : IsLive next live ids → IsLive next (erase (ids.at idx) live) (swap_out ids idx)
  unfolding swap_out
  IsLive-swap_out l = record {
    once = λ i j lti ltj same. place_of-once i j lti ltj (
        l.once (place_of i) (place_of j) (place_of-lt i lti) (place_of-lt j ltj)
          (sym (at-swap_out i) ∙ same ∙ at-swap_out j));
    held = λ j ltj. rw (at-swap_out j) (
        has-erase_ne (ids.at (place_of j)) (ids.at idx) live
          (λ e. place_of-ne j ltj (l.once (place_of j) idx (place_of-lt j ltj) lt e))
        ∙ l.held (place_of j) (place_of-lt j ltj));
    below = λ j ltj. rw (at-swap_out j) (l.below (place_of j) (place_of-lt j ltj));
  }

requests-AreTracked :
    (n next : ℕ) (live : List ℕ) (ids : Ids) (draws : List Draw)
    → IsLive next live ids
    → AreInside draws
    → next + length draws ≤ n
    → AreTracked n next live (churn_requests (record { next_id = next; live_ids = ids }) draws)
unfolding churn_requests churn_round
requests-AreTracked n next live ids [] l inside le = tt
requests-AreTracked n next live ids (d ∷ ds) l (lt, inside) le =
    elim (Bool-cases (ltb (d.action % 10) 7)) [
      | inl resting ↦ rw resting (
        refl,
        omega arith,
        lt,
        omega arith,
        requests-AreTracked n (suc next) (next ∷ live) (push_back ids next) ds
            (IsLive-push_back next live ids l) inside (omega arith),
      )
      | inr other ↦ rw other (elim (Bool-cases (ltb (d.action % 10) 9 && not (ids.size == 0))) [
        | inl cancels ↦
            let some_ids : d.choice % ids.size < ids.size = mod-lt d.choice (ground arith) in
            rw cancels (
              l.held (d.choice % ids.size) some_ids,
              requests-AreTracked n next (erase (ids.at (d.choice % ids.size)) live)
                  (swap_out ids (d.choice % ids.size)) ds
                  (IsLive-swap_out next live ids (d.choice % ids.size) some_ids l) inside
                  (omega arith),
            )
        | inr marketable ↦ rw marketable (
          refl,
          omega arith,
          ground arith,
          omega arith,
          requests-AreTracked n (suc next) (next ∷ live) ids ds (IsLive-submitted next live ids l)
              inside (omega arith),
        )
      ])
    ]

-- For any numbers of the generator with prices inside the ladder, and no more rounds than kMaxOrders, the
-- requests of scenario 3 submit orders whose ids count up from 0 below kMaxOrders, at prices below
-- MAX_PRICES and with quantities above 0, and every cancel names an order that was submitted before and
-- not cancelled since.
pub churn_requests-AreTracked :
    (draws : List Draw)
    → AreInside draws
    → length draws ≤ max_orders
    → AreTracked max_orders 0 [] (churn_requests start draws)
churn_requests-AreTracked draws inside le =
    requests-AreTracked max_orders 0 [] start.live_ids draws
      (record {
        once = λ i j lti. omega arith;
        held = λ i lt. absurd (omega arith);
        below = λ i lt. omega arith;
      })
      inside (omega arith)
