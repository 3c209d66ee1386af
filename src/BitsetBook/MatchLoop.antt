-- ===== src/BitsetBook/MatchLoop.antt =====
-- The outer loop of `match`: round after round at the best price.
use lobook.Base.{
  ℕ, ◌<◌, ◌≡◌, ◌≢◌, refl, sym, ap, ◌∙◌, inl, inr, Bool, true, false, not, List, [], ◌∷◌, ◌==◌,
  if◌then◌else◌, Bool-cases, ==→eq, ==→ne, arith,
}
use lobook.PriceBitset.{max_prices}
use lobook.Pool.{Pool}
use lobook.Chain.Lists.{has, occupied}
use lobook.BitsetBook.{Book}
use lobook.BitsetBook.Represents.{IsBook, put}
use lobook.BitsetBook.Write.{in_ladder, elsewhere}
use lobook.BitsetBook.Fill.{Entries, entries, entries_same, rest, rest-nil}
use lobook.BitsetBook.MatchBest.{IsRound}
use lobook.BitsetBook.Trades.{nonempty, IsBest, Trades, rank, rank_lt}

-- The entries of one side, price by price.
abbrev pub ladder : Book → (Bool → ℕ → List ℕ) → Bool → ℕ → Entries
ladder b queues k p = entries b.pool (queues k p)

-- A book after `match`: the opposite side has traded, the other one is as it was.
pub record IsTraded (b : Book) (queues : Bool → ℕ → List ℕ) (is_buy : Bool) (price qty qty' : ℕ)
    (b' : Book) (queues' : Bool → ℕ → List ℕ) (free' : List ℕ) : Type 0 where
  pub book : IsBook b' queues' free'
  pub cap : b'.pool.capacity ≡ b.pool.capacity
  pub trades :
      Trades is_buy price qty (ladder b queues (not is_buy)) qty' (ladder b' queues' (not is_buy))
  pub own : (p : ℕ) → ladder b' queues' is_buy p ≡ ladder b queues is_buy p
  pub ids : (i : ℕ) → (b'.pool.orders i).id ≡ (b.pool.orders i).id
  pub kept : (k : Bool) (p i : ℕ) → has i (queues' k p) ≡ true → has i (queues k p) ≡ true

pub nonempty-entries : (m : Pool) (c : List ℕ) → nonempty (entries m c) ≡ occupied c
nonempty-entries m [] = refl
nonempty-entries m (x ∷ xs) = refl

pub occupied-in_ladder :
    {b : Book} {queues : Bool → ℕ → List ℕ} {free : List ℕ} (v : IsBook b queues free) (k : Bool)
    (p : ℕ)
    → occupied (queues k p) ≡ true
    → p < max_prices
occupied-in_ladder {queues} v k p h =
    in_ladder v k p (first (queues k p)) (has-first (queues k p) h)
  where
    first : List ℕ → ℕ
    first [] = 0
    first (x ∷ xs) = x

    has-first : (c : List ℕ) → occupied c ≡ true → has (first c) c ≡ true
    has-first [] busy = cc
    has-first (x ∷ xs) busy = ground arith

-- One round, read off the entries.
module _ {b b' : Book} {queues : Bool → ℕ → List ℕ} {free free' c' : List ℕ} {p qty qty' : ℕ}
    (is_buy : Bool) (v : IsBook b queues free) (lt : p < max_prices)
    (r : IsRound b queues (not is_buy) p qty qty' b' c' free') where
  abbrev k : Bool
  k = not is_buy

  put_at : (q : ℕ) → put queues k p c' k q ≡ (if p == q then c' else queues k q)
  put_at q = by_side is_buy
    where
      by_side :
          (x : Bool) → put queues (not x) p c' (not x) q ≡ (if p == q then c' else queues (not x) q)
      by_side true = refl
      by_side false = refl

  put_own : (q : ℕ) → put queues k p c' is_buy q ≡ queues is_buy q
  put_own q = by_side is_buy
    where
      by_side : (x : Bool) → put queues (not x) p c' x q ≡ queues x q
      by_side true = refl
      by_side false = refl

  not_own : is_buy ≢ not is_buy
  not_own = by_side is_buy
    where
      by_side : (x : Bool) → x ≢ not x
      by_side true e = cc
      by_side false e = cc

  untouched :
      (k' : Bool) (q : ℕ)
      → (k' ≡ k → q ≢ p)
      → entries b'.pool (queues k' q) ≡ entries b.pool (queues k' q)
  untouched k' q other =
      entries_same b.pool b'.pool (queues k' q) λ i h. r.same i (elsewhere v k k' p q i lt other h)

  pub round_own : (q : ℕ) → ladder b' (put queues k p c') is_buy q ≡ ladder b queues is_buy q
  round_own q = ap (entries b'.pool) (put_own q) ∙ untouched is_buy q (λ e. absurd (not_own e))

  pub round_entries :
      (q : ℕ)
      → ladder b' (put queues k p c') k q
        ≡ (if p == q then rest qty (ladder b queues k p) else ladder b queues k q)
  round_entries q = ap (entries b'.pool) (put_at q) ∙ elim (Bool-cases (p == q)) [
    | inl e ↦ rw e r.entries_left
    | inr ne ↦ rw ne (untouched k q (λ _ e. ==→ne p q ne (sym e)))
  ]

  pub round_kept :
      (k' : Bool) (q i : ℕ) → has i (put queues k p c' k' q) ≡ true → has i (queues k' q) ≡ true
  round_kept k' q i h = by_side is_buy k' r.kept h
    where
      by_side :
          (x k' : Bool)
          → ((i : ℕ) → has i c' ≡ true → has i (queues (not x) p) ≡ true)
          → has i (put queues (not x) p c' k' q) ≡ true
          → has i (queues k' q) ≡ true
      by_side true true kept h = h
      by_side true false kept h = elim (Bool-cases (p == q)) [
        | inl e ↦ rw (← ==→eq p q e) (kept i (ground arith))
        | inr ne ↦ ground arith
      ]
      by_side false true kept h = elim (Bool-cases (p == q)) [
        | inl e ↦ rw (← ==→eq p q e) (kept i (ground arith))
        | inr ne ↦ ground arith
      ]
      by_side false false kept h = h

  -- While quantity is left, the prices still occupied rank below this one.
  pub round_rank :
      (qty' ≢ 0)
      → IsBest is_buy (λ q. nonempty (ladder b queues k q)) p
      → (q : ℕ) → occupied (put queues k p c' k q) ≡ true
      → rank is_buy q < rank is_buy p
  round_rank ne best q h = elim (Bool-cases (p == q)) [
    | inl e ↦
        let emptied : entries b'.pool c' ≡ [] =
          r.entries_left ∙ rest-nil qty _ (λ z. ne (r.qty_left ∙ z)) in
        let gone : occupied c' ≡ false = sym (nonempty-entries b'.pool c') ∙ ap nonempty emptied in
        ground (arith, put_at q)
    | inr other ↦
        let busy : occupied (queues k q) ≡ true = ground (arith, put_at q) in
        rank_lt is_buy _ p q best lt (nonempty-entries b.pool (queues k q) ∙ busy)
          (λ e. ==→ne p q other (sym e)) (occupied-in_ladder v k q busy)
  ]
