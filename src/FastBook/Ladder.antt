-- ===== src/FastBook/Ladder.antt =====
-- The scan of `match` from the best end of a ladder: which prices are still ahead, and how many rounds
-- are left.
use lobook.Base.{ℕ, zero, suc, ◌+◌, ◌-◌, ◌≤◌, ◌<◌, ◌≡◌, ◌≢◌, ap, Bool, true, false, arith}
use lobook.PriceBitset.{max_prices}
use lobook.BitsetBook.Match.{is_worse}
use lobook.BitsetBook.Trades.{IsBest, rank}
use lobook.FastBook.{at, next_position}

-- The limits from which the scan comes to an end: one price beyond the limit is in the ladder.
abbrev pub IsLimit : Bool → ℕ → Type 0
IsLimit true price = price + 1 < max_prices
IsLimit false price = 0 < price

abbrev pub start : Bool → ℕ
start true = 0
start false = max_prices - 1

abbrev pub next : Bool → ℕ → ℕ
next true p = p + 1
next false p = p - 1

abbrev pub distance : Bool → ℕ → ℕ → ℕ
distance true price p = price + 1 - p
distance false price p = p + 1 - price

-- The scan has not passed `q`.
abbrev pub NotPassed : Bool → ℕ → ℕ → Type 0
NotPassed true p q = p ≤ q
NotPassed false p q = q ≤ p

pub start_in_ladder : (k : Bool) → start k < max_prices
start_in_ladder true = omega arith
start_in_ladder false = omega arith

pub start-NotPassed : (k : Bool) (q : ℕ) → q < max_prices → NotPassed k (start k) q
start-NotPassed true q lt = omega arith
start-NotPassed false q lt = omega arith

pub distance-start :
    (k : Bool) (price fuel : ℕ)
    → IsLimit k price
    → max_prices < fuel
    → distance k price (start k) < fuel
distance-start true price fuel limit enough = omega arith
distance-start false price fuel limit enough = omega arith

pub worse_beyond :
    (k : Bool) (price p q : ℕ)
    → is_worse k p price ≡ true
    → NotPassed k p q
    → is_worse k q price ≡ true
worse_beyond true price p q worse ahead = ground arith
worse_beyond false price p q worse ahead = ground arith

module _ (k : Bool) (price p : ℕ) (limit : IsLimit k price) (lt : p < max_prices)
    (fits : is_worse k p price ≡ false) where
  pub next_position-at : next_position k (at p) ≡ at (next k p)
  next_position-at = by_side k p limit fits
    where
      by_side :
          (k : Bool) (p : ℕ)
          → IsLimit k price
          → is_worse k p price ≡ false
          → next_position k (at p) ≡ at (next k p)
      by_side true p limit fits = ap at (omega arith)
      by_side false zero limit fits = absurd (ground arith)
      by_side false (suc p) limit fits = ap at (omega arith)

  pub next_in_ladder : next k p < max_prices
  next_in_ladder = by_side k limit fits
    where
      by_side : (k : Bool) → IsLimit k price → is_worse k p price ≡ false → next k p < max_prices
      by_side true limit fits = ground arith
      by_side false limit fits = omega arith

  pub distance-next :
      (fuel : ℕ) → distance k price p < suc fuel → distance k price (next k p) < fuel
  distance-next fuel = by_side k limit fits
    where
      by_side :
          (k : Bool)
          → IsLimit k price
          → is_worse k p price ≡ false
          → distance k price p < suc fuel
          → distance k price (next k p) < fuel
      by_side true limit fits lt = ground arith
      by_side false limit fits lt = ground arith

pub next-NotPassed : (k : Bool) (p q : ℕ) → NotPassed k p q → q ≢ p → NotPassed k (next k p) q
next-NotPassed true p q ahead ne = omega arith
next-NotPassed false p q ahead ne = omega arith

pub rank-NotPassed : (k : Bool) (p q : ℕ) → rank k q < rank k p → NotPassed k (next k p) q
rank-NotPassed true p q lt = omega arith
rank-NotPassed false p q lt = omega arith

-- The best price that the scan has not passed is the price at which it stands, where that has orders.
pub IsBest-here :
    (k : Bool) (m : ℕ → Bool) (best p : ℕ)
    → IsBest k m best
    → m p ≡ true
    → NotPassed k p best
    → best ≡ p
IsBest-here true m best p x h ahead = ground (arith, x.below p)
IsBest-here false m best p x h ahead = ground (arith, x.above p)

pub IsBest-holds : (k : Bool) (m : ℕ → Bool) (best : ℕ) → IsBest k m best → m best ≡ true
IsBest-holds true m best x = x.holds
IsBest-holds false m best x = x.holds

pub NotPassed-IsBest :
    (k : Bool) (m : ℕ → Bool) (p : ℕ)
    → m p ≡ true
    → ((q : ℕ) → m q ≡ true → NotPassed k p q)
    → IsBest k m p
NotPassed-IsBest true m p h ahead = record { holds = h; below = λ q lt. ground (arith, ahead q) }
NotPassed-IsBest false m p h ahead = record { holds = h; above = λ q lt. ground (arith, ahead q) }

pub rank_le : (k : Bool) (p : ℕ) → p < max_prices → rank k p < max_prices
rank_le true p lt = omega arith
rank_le false p lt = lt
