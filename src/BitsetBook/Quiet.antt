-- ===== src/BitsetBook/Quiet.antt =====
-- Orders that no resting order of the other side can fill.
use lobook.Base.{
  ℕ, zero, suc, ◌+◌, ◌<◌, ◌≡◌, refl, ap, inl, inr, Bool, true, false, not, Option, none, some, List,
  Run, ok, lt→ltb, ◌==◌, if◌then◌else◌, Bool-cases, arith,
}
use lobook.PriceBitset.{max_prices}
use lobook.PriceBitset.Find.{Finds, nothing, found}
use lobook.Chain.Lists.{occupied}
use lobook.Pool.{Pool}
use lobook.BitsetBook.{Side, Book, side, set_side, add_order}
use lobook.BitsetBook.Match.{match_loop, match, submit_order, is_worse}
use lobook.BitsetBook.Represents.{IsBook}
use lobook.BitsetBook.Trades.{IsBest, find_best-IsBest}

side_again : (b : Book) (k : Bool) → set_side (record b { pool = b.pool }) k (side b k) ≡ b
side_again b true = refl
side_again b false = refl

best_in : (is_buy : Bool) (m : ℕ → Bool) (p : ℕ) → IsBest is_buy m p → m p ≡ true
best_in true m p b = b.holds
best_in false m p b = b.holds

module _ (b : Book) {queues : Bool → ℕ → List ℕ} {free : List ℕ} (price qty : ℕ) (is_buy : Bool)
    (v : IsBook b queues free)
    (worse : (p : ℕ)
      → occupied (queues (not is_buy) p) ≡ true
      → is_worse is_buy p price ≡ true) where
  abbrev unchanged : Run (ℕ × Side × Pool)
  unchanged = ok (qty, side b (not is_buy), b.pool)

  stops :
      (go : ℕ → Run (ℕ × Side × Pool)) (best? : Option ℕ)
      → Finds (IsBest is_buy) (λ p. occupied (queues (not is_buy) p)) best?
      → ◌≡◌ {A = Run (ℕ × Side × Pool)}
          (elim best? [
            | none ↦ unchanged
            | some best ↦ if is_worse is_buy best price then unchanged else go best
          ])
          unchanged
  stops go _ (nothing none_held) = refl
  stops go _ (found best x) = rw (worse best (best_in is_buy _ best x)) refl

  loop_quiet :
      (fuel : ℕ)
      → 0 < fuel
      → match_loop fuel price qty is_buy (side b (not is_buy)) b.pool
        ≡ ok (qty, side b (not is_buy), b.pool)
  unfolding match_loop
  loop_quiet zero pos = absurd (omega arith)
  loop_quiet (suc fuel) pos = elim (Bool-cases (qty == 0)) [
    | inl e ↦ rw e refl
    | inr wanted ↦
        let (best, e, f) =
          find_best-IsBest is_buy (side b (not is_buy)) (v.sides (not is_buy)).indexed in
        rw (wanted, e) (stops _ best f)
  ]

  match_quiet : match b price qty is_buy ≡ ok (qty, b)
  unfolding match
  match_quiet =
      rw (loop_quiet (max_prices + 1) (omega arith))
        (ap (λ x. ok (qty, x)) (side_again b (not is_buy)))

  -- An order of a quantity above 0 rests.
  pub submit_order-quiet :
      (id : ℕ) → 0 < qty → submit_order b id price qty is_buy ≡ add_order b id price qty is_buy
  unfolding submit_order
  submit_order-quiet id some_left = rw (match_quiet, lt→ltb 0 qty some_left) refl
