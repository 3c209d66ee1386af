-- ===== src/BitsetBook/Traded.antt =====
-- `match` ends, and trades as its rounds say.
use lobook.Base.{
  ℕ, zero, suc, ◌+◌, ◌<◌, ◌≡◌, ◌≢◌, refl, sym, ap, ◌∙◌, inl, inr, Bool, true, false, not, List,
  ◌==◌, if◌then◌else◌, Bool-cases, ==→eq, ==→ne, fun_ext, Option, ok, ◌>>=◌, Returns, arith, none,
  some,
}
use mathlib.Core.Path.{subst}
use lobook.PriceBitset.{max_prices}
use lobook.PriceBitset.Find.{Finds, nothing, found}
use lobook.Pool.{Pool}
use lobook.Chain.Lists.{occupied}
use lobook.BitsetBook.{Side, Book, side, set_side}
use lobook.BitsetBook.Represents.{IsBook, put}
use lobook.BitsetBook.Write.{pool_kept}
use lobook.BitsetBook.Match.{match_best, match_loop, is_worse, match}
use lobook.BitsetBook.MatchBest.{IsRound, book_of, match_best-Round}
use lobook.BitsetBook.Trades.{
  nonempty, IsBest, Trades, filled, no_more, trade, find_best-IsBest, rank,
}
use lobook.BitsetBook.MatchLoop.{
  ladder, IsTraded, round_own, round_entries, round_kept, round_rank, nonempty-entries,
  occupied-in_ladder,
}

abbrev LoopTraded : Book → (Bool → ℕ → List ℕ) → Bool → ℕ → ℕ → ℕ × Side × Pool → Type 0
LoopTraded b queues is_buy price qty (qty', s', m') =
    (queues' : Bool → ℕ → List ℕ) × (free' : List ℕ) × IsTraded b queues is_buy price qty qty'
      (book_of b (not is_buy) s' m') queues' free'

book_of_self : (b : Book) (k : Bool) → book_of b k (side b k) b.pool ≡ b
book_of_self b true = refl
book_of_self b false = refl

pub book_of_again :
    (b : Book) (k : Bool) (s s' : Side) (m m' : Pool)
    → book_of (book_of b k s m) k s' m' ≡ book_of b k s' m'
book_of_again b true s s' m m' = refl
book_of_again b false s s' m m' = refl

pub side_kept : (b : Book) (k : Bool) (s : Side) (m : Pool) → side (book_of b k s m) k ≡ s
side_kept b true s m = refl
side_kept b false s m = refl

-- No round is run.
traded_stop :
    {b : Book} {queues : Bool → ℕ → List ℕ} {free : List ℕ} {is_buy : Bool} {price qty : ℕ}
    → IsBook b queues free
    → Trades is_buy price qty (ladder b queues (not is_buy)) qty (ladder b queues (not is_buy))
    → LoopTraded b queues is_buy price qty (qty, side b (not is_buy), b.pool)
traded_stop {b} {queues} {free} {is_buy} v t = (
  queues,
  free,
  rw (book_of_self b (not is_buy)) (record {
    book = v;
    cap = refl;
    trades = t;
    own = λ p. refl;
    ids = λ i. refl;
    kept = λ k p i h. h;
  }),
)

-- A round and the rounds after it.
round-IsTraded :
    {b b1 b' : Book} {queues queues' : Bool → ℕ → List ℕ} {free free1 free' c' : List ℕ}
    {is_buy : Bool} {price p qty qty1 qty' : ℕ}
    → IsBook b queues free
    → p < max_prices
    → qty ≢ 0
    → IsBest is_buy (λ q. nonempty (ladder b queues (not is_buy) q)) p
    → is_worse is_buy p price ≡ false
    → IsRound b queues (not is_buy) p qty qty1 b1 c' free1
    → IsTraded b1 (put queues (not is_buy) p c') is_buy price qty1 qty' b' queues' free'
    → IsTraded b queues is_buy price qty qty' b' queues' free'
round-IsTraded {is_buy} v lt ne best fits r t = record {
  book = t.book;
  cap = t.cap ∙ r.cap;
  trades =
      trade _ _ _ _ _ _ ne best fits (round_entries is_buy v lt r) (rw (← r.qty_left) t.trades);
  own = λ q. t.own q ∙ round_own is_buy v lt r q;
  ids = λ i. t.ids i ∙ r.ids i;
  kept = λ k' q i h. round_kept is_buy v lt r k' q i (t.kept k' q i h);
}

-- What the loop does with the best price that its search found.
module _ (fuel : ℕ) (b : Book) {queues : Bool → ℕ → List ℕ} {free : List ℕ} (is_buy : Bool)
    (price qty : ℕ) (v : IsBook b queues free) (ne : qty ≢ 0)
    (more : (b1 : Book) (queues1 : Bool → ℕ → List ℕ) (free1 : List ℕ) (qty1 : ℕ)
      → IsBook b1 queues1 free1
      → 0 < fuel
      → (qty1 ≢ 0 → (p : ℕ) → occupied (queues1 (not is_buy) p) ≡ true → rank is_buy p + 1 < fuel)
      → Returns
          (match_loop fuel price qty1 is_buy (side b1 (not is_buy)) b1.pool)
          (LoopTraded b1 queues1 is_buy price qty1))
    (enough : (p : ℕ) → occupied (queues (not is_buy) p) ≡ true → rank is_buy p < fuel) where
  abbrev k : Bool
  k = not is_buy

  abbrev busy_at : ℕ → Bool
  busy_at p = occupied (queues k p)

  abbrev held_at : ℕ → Bool
  held_at p = nonempty (ladder b queues k p)

  marks : busy_at ≡ held_at
  marks = fun_ext (λ p. sym (nonempty-entries b.pool (queues k p)))

  worse_than :
      (is_buy' : Bool) (m : ℕ → Bool) (best : ℕ)
      → IsBest is_buy' m best
      → is_worse is_buy' best price ≡ true
      → (p : ℕ) → m p ≡ true
      → is_worse is_buy' p price ≡ true
  worse_than true m best x worse p h = ground (arith, x.below p)
  worse_than false m best x worse p h = ground (arith, x.above p)

  holds_at : (is_buy' : Bool) (m : ℕ → Bool) (best : ℕ) → IsBest is_buy' m best → m best ≡ true
  holds_at true m best x = x.holds
  holds_at false m best x = x.holds

  loop_at :
      (n : ℕ) (s : Side) (m : Pool)
      → match_loop fuel price n is_buy (side (book_of b k s m) k) (book_of b k s m).pool
        ≡ match_loop fuel price n is_buy s m
  loop_at n s m =
      ap (λ x. match_loop fuel price n is_buy x (book_of b k s m).pool) (side_kept b k s m)
      ∙ ap (match_loop fuel price n is_buy s) (pool_kept b m s k)

  at_best :
      (best : ℕ)
      → IsBest is_buy (λ p. occupied (queues k p)) best
      → is_worse is_buy best price ≡ false
      → Returns
          (do
            (qty', s', m') ← match_best best qty (side b k) b.pool
            match_loop fuel price qty' is_buy s' m')
          (LoopTraded b queues is_buy price qty)
  at_best best x fits =
      let busy = holds_at is_buy _ best x in
      let lt = occupied-in_ladder v k best busy in
      let x' : IsBest is_buy (λ q. nonempty (ladder b queues k q)) best = rw (← marks) x in
      let ((qty1, s1, m1), e, (c1, free1, r)) = match_best-Round b k best qty v lt in
      let b1 = book_of b k s1 m1 in
      let fuel_left : qty1 ≢ 0
          → (p : ℕ) → occupied (put queues k best c1 k p) ≡ true
          → rank is_buy p + 1 < fuel =
        λ left_over p h.
          omega (arith, round_rank is_buy v lt r left_over x' p h, enough best busy) in
      let ((qty', s', m'), e', (queues', free', t)) =
        more b1 (put queues k best c1) free1 qty1 r.book (omega (arith, enough best busy))
          fuel_left in
      rw (e, sym (loop_at qty1 s1 m1) ∙ e')
        (
          _,
          refl,
          (
            queues',
            free',
            round-IsTraded v lt ne x' fits r (rw (← book_of_again b k s1 s' m1 m') t),
          ),
        )

  search_found :
      (best? : Option ℕ)
      → Finds (IsBest is_buy) (λ p. occupied (queues k p)) best?
      → Returns
          (elim best? [
            | none ↦ ok (qty, side b k, b.pool)
            | some best ↦ if is_worse is_buy best price then ok (qty, side b k, b.pool) else do
              (qty', s', m') ← match_best best qty (side b k) b.pool
              match_loop fuel price qty' is_buy s' m'
          ])
          (LoopTraded b queues is_buy price qty)
  search_found _ (nothing none_held) = (
    _,
    refl,
    traded_stop v
        (no_more qty _ (λ p h. ground (arith, none_held p, nonempty-entries b.pool (queues k p)))),
  )
  search_found _ (found best x) = elim (Bool-cases (is_worse is_buy best price)) [
    | inl worse ↦ rw worse (
      _,
      refl,
      traded_stop v (
          no_more qty _ (λ p h.
            worse_than is_buy _ best x worse p (sym (nonempty-entries b.pool (queues k p)) ∙ h))),
    )
    | inr fits ↦ rw fits (at_best best x fits)
  ]

-- Enough fuel: more than the rank of each price that is occupied.
match_loop-Traded :
    (fuel : ℕ) (b : Book) (queues : Bool → ℕ → List ℕ) (free : List ℕ) (is_buy : Bool)
    (price qty : ℕ)
    → IsBook b queues free
    → 0 < fuel
    → (qty ≢ 0 → (p : ℕ) → occupied (queues (not is_buy) p) ≡ true → rank is_buy p + 1 < fuel)
    → Returns
        (match_loop fuel price qty is_buy (side b (not is_buy)) b.pool)
        (LoopTraded b queues is_buy price qty)
unfolding match_loop
match_loop-Traded zero b queues free is_buy price qty v some_fuel enough = absurd (omega arith)
match_loop-Traded (suc fuel) b queues free is_buy price qty v some_fuel enough =
    elim (Bool-cases (qty == 0)) [
      | inl e ↦ rw e (
        _,
        refl,
        traded_stop v (
            subst
              (λ n.
                Trades is_buy price n (ladder b queues (not is_buy)) n
                  (ladder b queues (not is_buy)))
              (sym (==→eq qty 0 e)) (filled _)),
      )
      | inr wanted ↦
          let ne = ==→ne qty 0 wanted in
          let (best, e, f) =
            find_best-IsBest is_buy (side b (not is_buy)) (v.sides (not is_buy)).indexed in
          rw (wanted, e)
            (search_found fuel b is_buy price qty v ne
              (λ b1 queues1 free1 qty1 v1 pos enough1.
                match_loop-Traded fuel b1 queues1 free1 is_buy price qty1 v1 pos enough1)
              (λ p h. omega (arith, enough ne p h)) best f)
    ]

abbrev pub MatchTraded : Book → (Bool → ℕ → List ℕ) → Bool → ℕ → ℕ → ℕ × Book → Type 0
MatchTraded b queues is_buy price qty (qty', b') =
    (queues' : Bool → ℕ → List ℕ) × (free' : List ℕ) × IsTraded b queues is_buy price qty qty' b'
      queues' free'

-- In a well-formed book, `match` returns for any price, quantity and side without a fault, and within
-- the fuel of its loops. The opposite side has traded round by round at the best price, oldest order
-- first, until the quantity is used up or what is left is worse than the limit; the order's own side
-- has the same entries, every slot the same id, and the book is well formed again.
pub match-Traded :
    (b : Book) {queues : Bool → ℕ → List ℕ} {free : List ℕ} (price qty : ℕ) (is_buy : Bool)
    → IsBook b queues free
    → Returns (match b price qty is_buy) (MatchTraded b queues is_buy price qty)
unfolding match
match-Traded b {queues} {free} price qty is_buy v =
    let ((qty', s', m'), e, t) =
      match_loop-Traded (max_prices + 1) b queues free is_buy price qty v (omega arith) ranks in
    rw e ((qty', set_side (record b { pool = m' }) (not is_buy) s'), refl, t)
  where
    rank_le : (x : Bool) (p : ℕ) → p < max_prices → rank x p < max_prices
    rank_le true p lt = omega arith
    rank_le false p lt = lt

    ranks :
        qty ≢ 0
        → (p : ℕ) → occupied (queues (not is_buy) p) ≡ true
        → rank is_buy p + 1 < max_prices + 1
    ranks ne p h = omega (arith, rank_le is_buy p (occupied-in_ladder v (not is_buy) p h))
