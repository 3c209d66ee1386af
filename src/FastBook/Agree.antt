-- ===== src/FastBook/Agree.antt =====
-- `match` and `submit_order` of src/engine/fast_book.h against those of src/engine/fast_bitset_book.h.
use lobook.Base.{
  map_run, ℕ, ◌+◌, ◌-◌, ◌<◌, ◌≡◌, refl, sym, inl, inr, Bool, true, false, not, List, if◌then◌else◌,
  Bool-cases, ltb, Run, ok, out_of_fuel, fault, ◌>>=◌, arith,
}
use lobook.PriceBitset.{max_prices}
use lobook.Pool.{Pool}
use lobook.BitsetBook.{Side, Book, set_side}
use lobook.BitsetBook.Represents.{IsBook}
use lobook.BitsetBook.Match
use lobook.BitsetBook.Match.{match_level, match_best, match_loop, is_worse}
use lobook.BitsetBook.MatchLoop.{occupied-in_ladder}
use lobook.BitsetBook.Traded.{match-Traded}
use lobook.FastBook
use lobook.FastBook.{FastBook, set_ladder, at, match_price, scan}
use lobook.FastBook.Forget.{forget, ladder-forget, add_order-forget}
use lobook.FastBook.Ladder.{
  IsLimit, start, start_in_ladder, start-NotPassed, distance-start, rank_le,
}
use lobook.FastBook.Rounds.{drop, scan-Agrees}

-- The result of `match` on the book without its bitsets.
abbrev pub forget_result : ℕ × Book → ℕ × FastBook
forget_result (qty, b) = (qty, forget b)

match_result :
    (b : Book) (is_buy : Bool) (r : Run (ℕ × Side × Pool))
    → (map_run drop r >>= λ (qty', levels', m').
        ok (qty', set_ladder (record (forget b) { pool = m' }) (not is_buy) levels'))
      ≡ map_run forget_result
          (r >>= λ (qty', s', m'). ok (qty', set_side (record b { pool = m' }) (not is_buy) s'))
match_result b true (ok r) = refl
match_result b false (ok r) = refl
match_result b is_buy out_of_fuel = refl
match_result b is_buy fault = refl

-- `match` of the two books.
pub match-forget :
    (fuel : ℕ) (b : Book) {queues : Bool → ℕ → List ℕ} {free : List ℕ} (price qty : ℕ)
    (is_buy : Bool)
    → IsBook b queues free
    → IsLimit is_buy price
    → max_prices < fuel
    → FastBook.match fuel (forget b) price qty is_buy
      ≡ map_run forget_result (Match.match b price qty is_buy)
unfolding Match.match FastBook.match
match-forget fuel b {queues} {free} price qty is_buy v limit enough =
    rw
      (
        start_at is_buy,
        ladder-forget b (not is_buy),
        scan-Agrees is_buy price limit fuel (max_prices + 1) (start is_buy) (start_in_ladder is_buy)
            (distance-start is_buy price fuel limit enough) qty b queues free v (omega arith)
            (λ _ q h. start-NotPassed is_buy q (occupied-in_ladder v (not is_buy) q h))
            (λ _ q h. omega (arith, rank_le is_buy q (occupied-in_ladder v (not is_buy) q h))),
      )
      (match_result b is_buy _)
  where
    start_at : (k : Bool) → at (if k then 0 else max_prices - 1) ≡ at (start k)
    start_at true = refl
    start_at false = refl

-- Of a well-formed book, `submit_order` of src/engine/fast_book.h does to the book without its bitsets
-- what `submit_order` of src/engine/fast_bitset_book.h does to the book, for any id, price, quantity and
-- side with a limit from which the scan ends: a buy below MAX_PRICES - 1, or a sell above 0. More fuel
-- than MAX_PRICES is enough for the scan.
pub submit_order-forget :
    (fuel : ℕ) (b : Book) {queues : Bool → ℕ → List ℕ} {free : List ℕ} (id price qty : ℕ)
    (is_buy : Bool)
    → IsBook b queues free
    → IsLimit is_buy price
    → max_prices < fuel
    → FastBook.submit_order fuel (forget b) id price qty is_buy
      ≡ map_run forget (Match.submit_order b id price qty is_buy)
unfolding Match.submit_order FastBook.submit_order
submit_order-forget fuel b id price qty is_buy v limit enough =
    let ((qty', b'), e, (queues', free', t)) = match-Traded b price qty is_buy v in
    rw (match-forget fuel b price qty is_buy v limit enough, e)
      (elim (Bool-cases (ltb 0 qty')) [
        | inl h ↦
            rw h (sym (add_order-forget b' id price qty' is_buy (λ k. (t.book.sides k).indexed)))
        | inr h ↦ rw h refl
      ])
