-- ===== src/BitsetBook/Trades.antt =====
-- What `match` does to the entries of the opposite side, price by price.
use lobook.Base.{
  ℕ, ◌-◌, ◌<◌, ◌≡◌, ◌≢◌, refl, inl, inr, Bool, true, false, [], ◌∷◌, ◌==◌, if◌then◌else◌,
  Bool-cases, arith, ltb, Returns, fun_ext,
}
use lobook.PriceBitset.{max_prices}
use lobook.PriceBitset.Find.{
  IsLeast, IsGreatest, Finds, find_lowest-IsLeast, find_highest-IsGreatest,
}
use lobook.PriceBitset.History.{Holds}
use lobook.PriceBitset.Coherent.{member}
use lobook.BitsetBook.{Side}
use lobook.BitsetBook.Match.{is_worse, find_best}
use lobook.BitsetBook.Fill.{Entries, left, rest}

abbrev pub nonempty : Entries → Bool
nonempty [] = false
nonempty (e ∷ es) = true

-- The best price for an incoming order among a set of prices.
abbrev pub IsBest : Bool → (ℕ → Bool) → ℕ → Type 0
IsBest true m p = IsLeast m p
IsBest false m p = IsGreatest m p

-- The rounds of `match`: the open quantity and the opposite side, before and after. While quantity is
-- left and the best price is not worse than the limit, the best price trades, oldest order first.
pub data Trades (is_buy : Bool) (price : ℕ) : ℕ → (ℕ → Entries) → ℕ → (ℕ → Entries) → Type 0 where
  filled : (es : ℕ → Entries) → Trades is_buy price 0 es 0 es
  no_more :
      (qty : ℕ) (es : ℕ → Entries)
      → ((p : ℕ) → nonempty (es p) ≡ true → is_worse is_buy p price ≡ true)
      → Trades is_buy price qty es qty es
  trade :
      (qty : ℕ) (es : ℕ → Entries) (p : ℕ) (es1 : ℕ → Entries) (qty' : ℕ) (es' : ℕ → Entries)
      → qty ≢ 0
      → IsBest is_buy (λ q. nonempty (es q)) p
      → is_worse is_buy p price ≡ false
      → ((q : ℕ) → es1 q ≡ (if p == q then rest qty (es p) else es q))
      → Trades is_buy price (left qty (es p)) es1 qty' es'
      → Trades is_buy price qty es qty' es'

-- The end of the rounds: everything is filled, or what is left of the opposite side is worse than
-- the limit.
pub Trades-end :
    {is_buy : Bool} {price qty qty' : ℕ} {es es' : ℕ → Entries}
    → Trades is_buy price qty es qty' es'
    → qty' ≢ 0
    → (p : ℕ) → nonempty (es' p) ≡ true
    → is_worse is_buy p price ≡ true
Trades-end (filled es) ne p h = absurd (ne refl)
Trades-end (no_more qty es worse) ne p h = worse p h
Trades-end (trade qty es q es1 qty' es' some_left best better at t) ne p h = Trades-end t ne p h

nonempty-rest : (q : ℕ) (es : Entries) → nonempty (rest q es) ≡ true → nonempty es ≡ true
nonempty-rest q [] h = h
nonempty-rest q (e ∷ es) h = refl

-- No price gains entries.
pub Trades-kept :
    {is_buy : Bool} {price qty qty' : ℕ} {es es' : ℕ → Entries}
    → Trades is_buy price qty es qty' es'
    → (p : ℕ) → nonempty (es' p) ≡ true
    → nonempty (es p) ≡ true
Trades-kept (filled es) p h = h
Trades-kept (no_more qty es worse) p h = h
Trades-kept (trade qty es q es1 qty' es' some_left best better at t) p h =
    let e : nonempty (es1 p) ≡ true = Trades-kept t p h in
    ground (arith, at p, nonempty-rest qty (es q))

-- `is_buy ? find_lowest() : find_highest()` finds the best price of the set that the bitset holds.
pub find_best-IsBest :
    (is_buy : Bool) (s : Side) {m : ℕ → Bool}
    → Holds m s.index
    → Returns (find_best is_buy s) (Finds (IsBest is_buy) m)
find_best-IsBest true s h =
    let same : member s.index ≡ _ = fun_ext h.same in rw (← same) (find_lowest-IsLeast h.coherent)
find_best-IsBest false s h =
    let same : member s.index ≡ _ = fun_ext h.same in
    rw (← same) (find_highest-IsGreatest h.coherent)

-- Rounds left once a price has been traded: prices of the ladder that are worse than it.
abbrev pub rank : Bool → ℕ → ℕ
rank is_buy p = if is_buy then max_prices - 1 - p else p

pub rank_lt :
    (is_buy : Bool) (m : ℕ → Bool) (p q : ℕ)
    → IsBest is_buy m p
    → p < max_prices
    → m q ≡ true
    → q ≢ p
    → q < max_prices
    → rank is_buy q < rank is_buy p
rank_lt true m p q best lt h ne lt' = elim (Bool-cases (ltb q p)) [
  | inl e ↦ ground (arith, best.below q)
  | inr e ↦ ground arith
]
rank_lt false m p q best lt h ne lt' = elim (Bool-cases (ltb p q)) [
  | inl e ↦ ground (arith, best.above q)
  | inr e ↦ ground arith
]
