-- ===== src/BitsetBook/MatchBest.antt =====
-- One round of the outer loop of `match`: the best level and the bitset.
use lobook.Base.{
  ℕ, ◌+◌, ◌<◌, ◌≡◌, ◌≢◌, refl, sym, ap, ◌∙◌, inl, inr, Bool, true, false, not, ◌&&◌, List, [], ◌∷◌,
  ◌==◌, if◌then◌else◌, Bool-cases, ==→eq, lt→ltb, ok, ◌>>=◌, Returns, arith,
}
use lobook.PriceBitset.{max_prices}
use lobook.PriceBitset.History.{Holds, Holds-ext}
use lobook.Pool.{null_idx, PriceLevel, Pool}
use lobook.Chain.Lists.{has, occupied, length-le}
use lobook.BitsetBook.{Side, Book, side, set_side, set_level, clear_index}
use lobook.BitsetBook.Index.{clear_index-Indexed}
use lobook.BitsetBook.Represents.{head_null, IsBook, put}
use lobook.BitsetBook.Write.{IsBook-write, in_ladder, pool_kept, set_level_self, set_level_ne}
use lobook.BitsetBook.Fill.{entries, left, rest}
use lobook.BitsetBook.Match.{match_best}
use lobook.BitsetBook.MatchLevel.{IsMatched}
use lobook.BitsetBook.MatchRun.{match_level-Matched}

-- What a round leaves of the book, with the queue at the best price and the free list.
pub record IsRound (b : Book) (queues : Bool → ℕ → List ℕ) (k : Bool) (p qty qty' : ℕ) (b' : Book)
    (c' free' : List ℕ) : Type 0 where
  pub book : IsBook b' (put queues k p c') free'
  pub cap : b'.pool.capacity ≡ b.pool.capacity
  pub ids : (i : ℕ) → (b'.pool.orders i).id ≡ (b.pool.orders i).id
  pub kept : (i : ℕ) → has i c' ≡ true → has i (queues k p) ≡ true
  pub same : (i : ℕ) → has i (queues k p) ≡ false → b'.pool.orders i ≡ b.pool.orders i
  pub qty_left : qty' ≡ left qty (entries b.pool (queues k p))
  pub entries_left : entries b'.pool c' ≡ rest qty (entries b.pool (queues k p))

abbrev pub book_of : Book → Bool → Side → Pool → Book
book_of b k s m = set_side (record b { pool = m }) k s

abbrev pub Round : Book → (Bool → ℕ → List ℕ) → Bool → ℕ → ℕ → ℕ × Side × Pool → Type 0
Round b queues k p qty (qty', s', m') =
    (c' : List ℕ) × (free' : List ℕ) × IsRound b queues k p qty qty' (book_of b k s' m') c' free'

module _ {b : Book} {queues : Bool → ℕ → List ℕ} {free : List ℕ} {k : Bool} {p qty qty' : ℕ}
    {m' : Pool} {l' : PriceLevel} {c' free' : List ℕ} (v : IsBook b queues free)
    (lt : p < max_prices) (r : IsMatched b.pool k p (queues k p) free qty m' l' c' free' qty') where
  mapped :
      (k' : Bool) (q i : ℕ)
      → has i (queues k' q) ≡ true
      → has i (queues k p) ≡ false
      → m'.id_map (b.pool.orders i).id ≡ i
  mapped k' q i h out =
      let there = ((v.sides k').at q (in_ladder v k' q i h)).resting i h in
      r.id_map (b.pool.orders i).id (λ j inside e.
        let here = ((v.sides k).at p lt).resting j inside in
        let same : j ≡ i = sym here.mapped ∙ ap b.pool.id_map e ∙ there.mapped in ground arith)
      ∙ there.mapped

  matched-IsBook :
      (s' : Side)
      → ((q : ℕ) → q ≢ p → s'.levels q ≡ (side b k).levels q)
      → s'.levels p ≡ l'
      → Holds (λ q. occupied (if p == q then c' else queues k q)) s'.index
      → IsBook (set_side (record b { pool = m' }) k s') (put queues k p c') free'
  matched-IsBook s' others here index = IsBook-write v record {
    in_range = lt;
    cap = r.cap;
    kept_levels = others;
    queue = rw here r.queue;
    indexed = index;
    same = λ i out _. r.same i out;
    mapped = mapped;
    pool = r.pool;
    fresh = r.fresh;
    others = r.others;
  }

  -- A queue that is left has orders, all of which were in it before.
  still_occupied : occupied c' ≡ true → occupied (queues k p) ≡ true
  still_occupied = at c' (queues k p) r.kept
    where
      at :
          (xs ys : List ℕ)
          → ((i : ℕ) → has i xs ≡ true → has i ys ≡ true)
          → occupied xs ≡ true
          → occupied ys ≡ true
      at [] ys sub busy = cc
      at (x ∷ xs) [] sub busy = sub x (ground arith)
      at (x ∷ xs) (y ∷ ys) sub busy = refl

  marks_kept :
      occupied c' ≡ true
      → (q : ℕ) → occupied (queues k q) ≡ occupied (if p == q then c' else queues k q)
  marks_kept busy q = elim (Bool-cases (p == q)) [
    | inl e ↦ rw (e, ← ==→eq p q e, still_occupied busy, busy)
    | inr ne ↦ rw ne
  ]

  marks_cleared :
      occupied c' ≡ false
      → (q : ℕ)
      → (occupied (queues k q) && not (p == q)) ≡ occupied (if p == q then c' else queues k q)
  marks_cleared idle q = ground arith

  is_round :
      (s' : Side)
      → IsBook (book_of b k s' m') (put queues k p c') free'
      → IsRound b queues k p qty qty' (book_of b k s' m') c' free'
  is_round s' w =
      let e = pool_kept b m' s' k in
      record {
        book = w;
        cap = rw e r.cap;
        ids = rw e r.ids;
        kept = r.kept;
        same = rw e r.same;
        qty_left = r.qty_left;
        entries_left = rw e r.entries_left;
      }

  -- The end of the round, once the level has been matched.
  finish :
      Returns
        (do
          let s' = set_level (side b k) p l'
          s'' ← if l'.head == null_idx then clear_index s' p else ok s'
          ok (qty', s'', m'))
        (Round b queues k p qty)
  finish = rw (head_null c' r.pool.small r.queue) (elim (Bool-cases (occupied c')) [
    | inl busy ↦ rw busy (
      _,
      refl,
      (
        c',
        free',
        is_round (set_level (side b k) p l') (
            matched-IsBook (set_level (side b k) p l') (set_level_ne (side b k) p l')
              (set_level_self (side b k) p l') (Holds-ext (marks_kept busy) (v.sides k).indexed)),
      ),
    )
    | inr idle ↦
        let (s', e, x) = clear_index-Indexed (set_level (side b k) p l') p (v.sides k).indexed lt in
        rw (idle, e)
          (
            _,
            refl,
            (
              c',
              free',
              is_round s' (
                  matched-IsBook s'
                    (λ q ne. ap (λ g. g q) x.levels ∙ set_level_ne (side b k) p l' q ne)
                    (ap (λ g. g p) x.levels ∙ set_level_self (side b k) p l')
                    (Holds-ext (marks_cleared idle) x.holds)),
            ),
          )
  ])

pub match_best-Round :
    (b : Book) {queues : Bool → ℕ → List ℕ} {free : List ℕ} (k : Bool) (p qty : ℕ)
    → IsBook b queues free
    → p < max_prices
    → Returns (match_best p qty (side b k) b.pool) (Round b queues k p qty)
unfolding match_best
match_best-Round b {queues} {free} k p qty v lt =
    let old = (v.sides k).at p lt in
    let short =
      length-le b.pool.capacity (queues k p) old.level.distinct
        (λ i h. (old.resting i h).in_pool) in
    let ((qty', l', m'), e, (c', free', r)) =
      match_level-Matched (b.pool.capacity + 1) (queues k p) free qty (omega (arith, short)) old
        v.pool (v.apart k p) in
    rw (lt→ltb p max_prices lt, e) (finish v lt r)
