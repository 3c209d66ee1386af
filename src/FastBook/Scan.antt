-- ===== src/FastBook/Scan.antt =====
-- The scan of `match` where it does not end.
use lobook.Base.{
  ℕ, zero, suc, ◌+◌, ◌-◌, ◌≤◌, ◌<◌, ◌≡◌, ◌≢◌, refl, Bool, true, false, inl, inr, ◌==◌, not, ltb,
  Bool-cases, ◌⊎◌, ne→==, ok, out_of_fuel, update, arith, fun_ext, ltb→lt, ==→eq,
}
use lobook.PriceBitset.{max_prices}
use lobook.Pool.{null_idx, PriceLevel, Pool}
use lobook.BitsetBook.Match.{match_level}
use lobook.FastBook.{FastBook, ladder, Position, below, at, next_position, match_price, scan, match}

abbrev pub NoOrders : (ℕ → PriceLevel) → Type 0
NoOrders levels = (p : ℕ) → p < max_prices → (levels p).head ≡ null_idx

match_level-empty :
    (fuel qty : ℕ) (l : PriceLevel) (m : Pool)
    → 0 < fuel
    → l.head ≡ null_idx
    → match_level fuel qty l m ≡ ok (qty, l, m)
unfolding match_level
match_level-empty zero qty l m enough e = absurd (omega arith)
match_level-empty (suc fuel) qty l m enough e =
    let empty : (l.head == null_idx) ≡ true = ground (arith, e) in rw empty refl

-- A level without orders is left as it is.
pub match_price-empty :
    (p qty : ℕ) (levels : ℕ → PriceLevel) (m : Pool)
    → p < max_prices
    → (levels p).head ≡ null_idx
    → match_price p qty levels m ≡ ok (qty, levels, m)
unfolding match_price
match_price-empty p qty levels m lt e =
    let inside : ltb p max_prices ≡ true = ground arith in
    let kept : update levels p (levels p) ≡ levels = fun_ext (λ q. same q (Bool-cases (p == q))) in
    rw (inside, match_level-empty (m.capacity + 1) qty (levels p) m (omega arith) e, kept) refl
  where
    same :
        (q : ℕ) → ((p == q) ≡ true) ⊎ ((p == q) ≡ false) → update levels p (levels p) q ≡ levels q
    same q (inl e) = rw (e, ==→eq p q e) refl
    same q (inr ne) = rw ne refl

scan_sell :
    (fuel : ℕ) (position : Position) (qty : ℕ) (levels : ℕ → PriceLevel) (m : Pool)
    → qty ≢ 0
    → NoOrders levels
    → scan fuel position 0 qty false levels m ≡ out_of_fuel
unfolding scan
scan_sell zero position qty levels m ne none_held = refl
scan_sell (suc fuel) below qty levels m ne none_held =
    rw (ne→== qty 0 ne) (scan_sell fuel below qty levels m ne none_held)
scan_sell (suc fuel) (at p) qty levels m ne none_held = elim (Bool-cases (ltb p max_prices)) [
  | inl inside ↦
      let lt = ltb→lt p max_prices inside in
      let stays : ltb p 0 ≡ false = ground arith in
      rw (ne→== qty 0 ne, inside, stays, match_price-empty p qty levels m lt (none_held p lt))
        (scan_sell fuel (next_position false (at p)) qty levels m ne none_held)
  | inr outside ↦
      rw (ne→== qty 0 ne, outside)
        (scan_sell fuel (next_position false (at p)) qty levels m ne none_held)
]

scan_buy :
    (fuel : ℕ) (position : Position) (price qty : ℕ) (levels : ℕ → PriceLevel) (m : Pool)
    → qty ≢ 0
    → max_prices ≤ price + 1
    → NoOrders levels
    → scan fuel position price qty true levels m ≡ out_of_fuel
unfolding scan
scan_buy zero position price qty levels m ne ge none_held = refl
scan_buy (suc fuel) below price qty levels m ne ge none_held =
    rw (ne→== qty 0 ne) (scan_buy fuel (at 0) price qty levels m ne ge none_held)
scan_buy (suc fuel) (at p) price qty levels m ne ge none_held =
    elim (Bool-cases (ltb p max_prices)) [
      | inl inside ↦
          let lt = ltb→lt p max_prices inside in
          let stays : ltb price p ≡ false = ground arith in
          rw (ne→== qty 0 ne, inside, stays, match_price-empty p qty levels m lt (none_held p lt))
            (scan_buy fuel (at (suc p)) price qty levels m ne ge none_held)
      | inr outside ↦
          rw (ne→== qty 0 ne, outside)
            (scan_buy fuel (at (suc p)) price qty levels m ne ge none_held)
    ]

-- Where the opposite side has no orders, `match` of a quantity that is not 0, of a sell at price 0 or
-- of a buy at a price of MAX_PRICES - 1 or more, runs out of whatever fuel it is given: the loop never
-- ends.
pub match_endless :
    (fuel : ℕ) (b : FastBook) (price qty : ℕ) (is_buy : Bool)
    → qty ≢ 0
    → (is_buy ≡ true → max_prices ≤ price + 1)
    → (is_buy ≡ false → price ≡ 0)
    → NoOrders (ladder b (not is_buy))
    → match fuel b price qty is_buy ≡ out_of_fuel
unfolding match
match_endless fuel b price qty true ne buy sell none_held =
    rw (scan_buy fuel (at 0) price qty b.asks b.pool ne (buy refl) none_held) refl
match_endless fuel b price qty false ne buy sell none_held =
    rw (sell refl, scan_sell fuel (at (max_prices - 1)) qty b.bids b.pool ne none_held) refl
