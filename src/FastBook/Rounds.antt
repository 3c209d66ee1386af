-- ===== src/FastBook/Rounds.antt =====
-- The rounds of `match` of src/engine/fast_book.h against those of src/engine/fast_bitset_book.h: the
-- scan of the ladder comes to the prices that the bitset finds.
use mathlib.Core.Bool.{false≢true}
use lobook.Base.{
  map_run, bind_agrees, ℕ, zero, suc, ◌+◌, ◌<◌, ◌≡◌, ◌≢◌, refl, sym, ap, ◌∙◌, inl, inr, Bool, true,
  false, not, List, ◌==◌, if◌then◌else◌, Bool-cases, ==→eq, ==→ne, ne→==, lt→ltb, Option, none,
  some, Run, ok, ◌>>=◌, arith,
}
use lobook.PriceBitset.{max_prices}
use lobook.PriceBitset.Find.{Finds, nothing, found}
use lobook.PriceBitset.History.{Holds}
use lobook.Pool.{null_idx, PriceLevel, Pool, level_at}
use lobook.Chain.Lists.{occupied}
use lobook.BitsetBook.{Side, Book, side, set_level}
use lobook.BitsetBook.Represents.{IsBook, head_null, put}
use lobook.BitsetBook.Write.{pool_kept}
use lobook.BitsetBook.Match.{match_level, match_best, match_loop, is_worse}
use lobook.BitsetBook.Fill.{entries}
use lobook.BitsetBook.MatchBest.{book_of, match_best-Round}
use lobook.BitsetBook.Trades.{nonempty, IsBest, rank, find_best-IsBest}
use lobook.BitsetBook.MatchLoop.{nonempty-entries, round_rank}
use lobook.BitsetBook.Traded.{side_kept}
use lobook.FastBook.{at, match_price, scan}
use lobook.FastBook.Forget.{cleared_levels}
use lobook.FastBook.Ladder.{
  IsLimit, next, distance, NotPassed, worse_beyond, next_position-at, next_in_ladder, distance-next,
  next-NotPassed, rank-NotPassed, IsBest-here, IsBest-holds, NotPassed-IsBest,
}
use lobook.FastBook.Scan.{match_price-empty}

-- A result of the rounds on a side, without the bitset.
abbrev pub drop : ℕ × Side × Pool → ℕ × (ℕ → PriceLevel) × Pool
drop (qty, s, m) = (qty, s.levels, m)

match_price-drop :
    {marks : ℕ → Bool} (p qty : ℕ) (s : Side) (m : Pool)
    → Holds marks s.index
    → p < max_prices
    → map_run drop (match_best p qty s m) ≡ match_price p qty s.levels m
unfolding match_best match_price
match_price-drop p qty s m held lt = bind_agrees drop (level_at s.levels p) _ _ λ level.
    bind_agrees drop (match_level (m.capacity + 1) qty level m) _ _ λ (qty', level', m').
      let (s', e, kept) =
        cleared_levels (set_level s p level') p (level'.head == null_idx) held lt in
      rw (e, kept) refl

-- The rounds from a price on, on both books.
module _ (is_buy : Bool) (price : ℕ) (limit : IsLimit is_buy price) where
  abbrev pub k : Bool
  k = not is_buy

  -- The loop on the bitset, without the bitset.
  abbrev pub loop : ℕ → ℕ → Side → Pool → Run (ℕ × (ℕ → PriceLevel) × Pool)
  loop n qty s m = map_run drop (match_loop n price qty is_buy s m)

  -- No price that is left is worse than where the scan stands.
  abbrev pub NoBetter : (Bool → ℕ → List ℕ) → ℕ → Type 0
  NoBetter queues p = (q : ℕ) → occupied (queues k q) ≡ true → NotPassed is_buy p q

  loop_idle :
      (n qty : ℕ) {b : Book} {queues : Bool → ℕ → List ℕ} {free : List ℕ} (p : ℕ)
      → IsBook b queues free
      → 0 < n
      → NoBetter queues p
      → is_worse is_buy p price ≡ true
      → loop n qty (side b k) b.pool ≡ ok (qty, (side b k).levels, b.pool)
  unfolding match_loop
  loop_idle zero qty p v pos ahead worse = absurd (omega arith)
  loop_idle (suc n) qty {b} {queues} p v pos ahead worse = elim (Bool-cases (qty == 0)) [
    | inl e ↦ rw e refl
    | inr e ↦
        let (best?, found_it, f) = find_best-IsBest is_buy (side b k) (v.sides k).indexed in
        rw (e, found_it) (finish best? f)
  ]
    where
      finish :
          (best? : Option ℕ)
          → Finds (IsBest is_buy) (λ q. occupied (queues k q)) best?
          → map_run drop (elim best? [
            | none ↦ ok (qty, side b k, b.pool)
            | some best ↦ if is_worse is_buy best price then ok (qty, side b k, b.pool) else do
              (qty', s', m') ← match_best best qty (side b k) b.pool
              match_loop n price qty' is_buy s' m'
          ])
            ≡ ok (qty, (side b k).levels, b.pool)
      finish _ (nothing none_held) = refl
      finish _ (found best x) =
          rw (worse_beyond is_buy price p best worse (ahead best (IsBest-holds is_buy _ best x)))
            refl

  -- A round of the loop is a round at the price where the scan stands, if that has orders.
  loop_step :
      (n qty : ℕ) {b : Book} {queues : Bool → ℕ → List ℕ} {free : List ℕ} (p : ℕ)
      → IsBook b queues free
      → qty ≢ 0
      → NoBetter queues p
      → is_worse is_buy p price ≡ false
      → occupied (queues k p) ≡ true
      → match_loop (suc n) price qty is_buy (side b k) b.pool ≡ (do
        (qty', s', m') ← match_best p qty (side b k) b.pool
        match_loop n price qty' is_buy s' m')
  unfolding match_loop
  loop_step n qty {b} {queues} p v ne ahead fits busy =
      let (best?, found_it, f) = find_best-IsBest is_buy (side b k) (v.sides k).indexed in
      rw (ne→== qty 0 ne, found_it) (finish best? f)
    where
      finish :
          (best? : Option ℕ)
          → Finds (IsBest is_buy) (λ q. occupied (queues k q)) best?
          → (elim best? [
            | none ↦ ok (qty, side b k, b.pool)
            | some best ↦ if is_worse is_buy best price then ok (qty, side b k, b.pool) else do
              (qty', s', m') ← match_best best qty (side b k) b.pool
              match_loop n price qty' is_buy s' m'
          ])
            ≡ (do
              (qty', s', m') ← match_best p qty (side b k) b.pool
              match_loop n price qty' is_buy s' m')
      finish _ (nothing none_held) = absurd (ground (arith, none_held p))
      finish _ (found best x) =
          rw (IsBest-here is_buy _ best p x busy (ahead best (IsBest-holds is_buy _ best x)), fits)
            refl

  loop_filled :
      (n qty : ℕ) (s : Side) (m : Pool)
      → 0 < n
      → (qty == 0) ≡ true
      → loop n qty s m ≡ ok (qty, s.levels, m)
  unfolding match_loop
  loop_filled zero qty s m pos e = absurd (omega arith)
  loop_filled (suc n) qty s m pos e = rw e refl

  -- Rounds from `p` on agree, where the book and the fuels are as they should be.
  abbrev pub Agrees : ℕ → ℕ → ℕ → Type 0
  Agrees fuel n p =
      (qty : ℕ) (b : Book) (queues : Bool → ℕ → List ℕ) (free : List ℕ)
      → IsBook b queues free
      → 0 < n
      → (qty ≢ 0 → NoBetter queues p)
      → (qty ≢ 0 → (q : ℕ) → occupied (queues k q) ≡ true → rank is_buy q + 1 < n)
      → scan fuel (at p) price qty is_buy (side b k).levels b.pool ≡ loop n qty (side b k) b.pool

  round-Agrees :
      (fuel n qty p : ℕ) (b : Book) (queues : Bool → ℕ → List ℕ) (free : List ℕ)
      → IsBook b queues free
      → p < max_prices
      → qty ≢ 0
      → NoBetter queues p
      → is_worse is_buy p price ≡ false
      → occupied (queues k p) ≡ true
      → ((q : ℕ) → occupied (queues k q) ≡ true → rank is_buy q + 1 < n)
      → ((n' : ℕ) → Agrees fuel n' (next is_buy p))
      → (do
        (qty', levels', m') ← match_price p qty (side b k).levels b.pool
        scan fuel (at (next is_buy p)) price qty' is_buy levels' m')
        ≡ loop n qty (side b k) b.pool
  round-Agrees fuel zero qty p b queues free v lt ne ahead fits busy rounds more =
      absurd (omega (arith, rounds p busy))
  round-Agrees fuel (suc n) qty p b queues free v lt ne ahead fits busy rounds more =
      let ((qty1, s1, m1), e, (c1, free1, r)) = match_best-Round b k p qty v lt in
      let best : IsBest is_buy (λ q. nonempty (entries b.pool (queues k q))) p =
        NotPassed-IsBest is_buy _ p (nonempty-entries b.pool (queues k p) ∙ busy)
          (λ q h. ahead q (sym (nonempty-entries b.pool (queues k q)) ∙ h)) in
      let lower : qty1 ≢ 0
          → (q : ℕ) → occupied (put queues k p c1 k q) ≡ true
          → rank is_buy q < rank is_buy p =
        λ left_over. round_rank is_buy v lt r left_over best in
      let same : match_price p qty (side b k).levels b.pool ≡ ok (qty1, s1.levels, m1) =
        sym (match_price-drop p qty (side b k) b.pool (v.sides k).indexed lt)
        ∙ ap (map_run drop) e in
      let rest =
        more n qty1 (book_of b k s1 m1) (put queues k p c1) free1 r.book
          (omega (arith, rounds p busy))
          (λ left_over q h. rank-NotPassed is_buy p q (lower left_over q h))
          (λ left_over q h. omega (arith, lower left_over q h, rounds p busy)) in
      rw (loop_step n qty p v ne ahead fits busy, same, e)
        (ap (λ t. scan fuel (at (next is_buy p)) price qty1 is_buy t.levels m1)
            (sym (side_kept b k s1 m1))
          ∙ ap
              (scan fuel (at (next is_buy p)) price qty1 is_buy (side (book_of b k s1 m1) k).levels)
              (sym (pool_kept b m1 s1 k))
          ∙ rest
          ∙ ap (λ t. loop n qty1 t (book_of b k s1 m1).pool) (side_kept b k s1 m1)
          ∙ ap (loop n qty1 s1) (pool_kept b m1 s1 k))

  -- At a price without orders, the scan goes on.
  idle_NoBetter :
      (p : ℕ) (queues : Bool → ℕ → List ℕ)
      → occupied (queues k p) ≡ false
      → NoBetter queues p
      → NoBetter queues (next is_buy p)
  idle_NoBetter p queues idle ahead q h =
      next-NotPassed is_buy p q (ahead q h)
        (λ e. absurd (false≢true (sym idle ∙ ap (λ x. occupied (queues k x)) (sym e) ∙ h)))

  pub scan-Agrees :
      (fuel n p : ℕ) → p < max_prices → distance is_buy price p < fuel → Agrees fuel n p
  unfolding scan
  scan-Agrees zero n p lt enough qty b queues free v pos ahead rounds = absurd (omega arith)
  scan-Agrees (suc fuel) n p lt enough qty b queues free v pos ahead rounds =
      elim (Bool-cases (qty == 0)) [
        | inl e ↦ rw (e, loop_filled n qty (side b k) b.pool pos e) refl
        | inr wanted ↦
            let ne = ==→ne qty 0 wanted in
            rw (wanted, lt→ltb p max_prices lt)
              (elim (Bool-cases (is_worse is_buy p price)) [
                | inl worse ↦ rw (worse, loop_idle n qty p v pos (ahead ne) worse) refl
                | inr fits ↦
                    let lt' = next_in_ladder is_buy price p limit lt fits in
                    let enough' = distance-next is_buy price p limit lt fits fuel enough in
                    rw (fits, next_position-at is_buy price p limit lt fits)
                      (elim (Bool-cases (occupied (queues k p))) [
                        | inl busy ↦
                            round-Agrees fuel n qty p b queues free v lt ne (ahead ne) fits busy
                              (rounds ne) (λ n'. scan-Agrees fuel n' (next is_buy p) lt' enough')
                        | inr idle ↦
                            let empty : ((side b k).levels p).head ≡ null_idx = ==→eq _ _ (
                              head_null (queues k p) v.pool.small ((v.sides k).at p lt)
                              ∙ ap not idle) in
                            rw (match_price-empty p qty (side b k).levels b.pool lt empty) (
                              scan-Agrees fuel n (next is_buy p) lt' enough' qty b queues free v pos
                                (λ some_left. idle_NoBetter p queues idle (ahead some_left)) rounds)
                      ])
              ])
      ]
