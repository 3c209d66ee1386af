-- ===== src/BitsetBook/Uncrossed.antt =====
-- The book never stays crossed: no resting buy is at the price of a resting sell or above it.
use lobook.Base.{
  ℕ, ◌<◌, ◌≡◌, ◌≢◌, sym, ap, ◌∙◌, Bool, true, false, List, ◌==◌, Returns, arith, inl, inr, ◌⊎◌,
  Bool-cases, ==→eq,
}
use lobook.PriceBitset.{max_prices}
use lobook.Chain.Lists.{has}
use lobook.BitsetBook.{Book}
use lobook.BitsetBook.Represents.{IsBook}
use lobook.BitsetBook.Fill.{Entries}
use lobook.BitsetBook.Match.{submit_order}
use lobook.BitsetBook.Trades.{Trades-end, Trades-kept, nonempty}
use lobook.BitsetBook.MatchLoop.{ladder}
use lobook.BitsetBook.Submit.{
  IsSubmitted, Rested, all_filled, dropped, rests, submit_order-Submitted,
}

abbrev pub IsUncrossed : Book → (Bool → ℕ → List ℕ) → Type 0
IsUncrossed b queues =
    (p q : ℕ)
    → nonempty (ladder b queues true p) ≡ true
    → nonempty (ladder b queues false q) ≡ true
    → p < q

-- A price of the order's own side that is occupied afterwards was so before, or is the order's.
Rested-at :
    {own own' : ℕ → Entries} {id price qty : ℕ} {free : List ℕ}
    → Rested own own' id price qty free
    → (p : ℕ) → nonempty (own' p) ≡ true
    → (nonempty (own p) ≡ true) ⊎ ((qty ≢ 0) × (price ≡ p))
Rested-at (all_filled e same) p h = inl (ap nonempty (sym (same p)) ∙ h)
Rested-at (dropped ne full same) p h = inl (ap nonempty (sym (same p)) ∙ h)
Rested-at {price} (rests ne same) p h = elim (Bool-cases (price == p)) [
  | inl e ↦ inr (ne, ==→eq price p e)
  | inr e ↦ inl (ground (arith, same p))
]

-- The trades and the rest of an order keep the sides apart.
pub submitted-IsUncrossed :
    (is_buy : Bool) {b b' : Book} {queues queues' : Bool → ℕ → List ℕ} {id price qty qty' : ℕ}
    {free' : List ℕ}
    → IsUncrossed b queues
    → IsSubmitted b queues id price qty is_buy b' qty' queues' free'
    → IsUncrossed b' queues'
submitted-IsUncrossed true {price} u s p q hp hq = elim (Rested-at s.rested p hp) [
  | inl before ↦ u p q before (Trades-kept s.trades q hq)
  | inr (ne, e) ↦ ground (arith, Trades-end s.trades ne q hq)
]
submitted-IsUncrossed false {price} u s p q hp hq = elim (Rested-at s.rested q hq) [
  | inl before ↦ u p q (Trades-kept s.trades p hp) before
  | inr (ne, e) ↦ ground (arith, Trades-end s.trades ne p hp)
]

abbrev pub Uncrossed : Book → Type 0
Uncrossed b =
    (queues : Bool → ℕ → List ℕ) × (free : List ℕ) × IsBook b queues free × IsUncrossed b queues

-- In a well-formed book that is not crossed, `submit_order` of a price below MAX_PRICES and an id
-- below the capacity that no resting order has leaves a well-formed book that is not crossed.
pub submit_order-Uncrossed :
    (b : Book) {queues : Bool → ℕ → List ℕ} {free : List ℕ} (id price qty : ℕ) (is_buy : Bool)
    → IsBook b queues free
    → IsUncrossed b queues
    → price < max_prices
    → id < b.pool.capacity
    → ((k : Bool) (q i : ℕ) → has i (queues k q) ≡ true → (b.pool.orders i).id ≢ id)
    → Returns (submit_order b id price qty is_buy) Uncrossed
submit_order-Uncrossed b id price qty is_buy v u lt known new =
    let (b', e, (qty', queues', free', s)) =
      submit_order-Submitted b id price qty is_buy v lt known new in
    (b', e, (queues', free', s.book, submitted-IsUncrossed is_buy u s))
