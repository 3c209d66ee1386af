-- ===== src/BitsetBook/Moves.antt =====
-- The runs of the parts of `replace_order`: the level that the order leaves, the level that it goes to,
-- and its new terms.
use lobook.Base.{
  ℕ, ◌<◌, ◌≡◌, refl, ap, ◌∙◌, inl, inr, ◌⊎◌, Bool, true, false, ◌||◌, ◌==◌, if◌then◌else◌, ok, Run,
  ◌>>=◌, Returns, lt→ltb, Bool-cases,
}
use lobook.PriceBitset.{max_prices}
use lobook.PriceBitset.History.{Holds}
use lobook.Pool.{
  null_idx, Order, PriceLevel, Pool, unlink_nodes, unlink_level, level_at, set_prev, set_next,
}
use lobook.Pool.Access.{with_next, with_prev, set_next-with_next, set_prev-with_prev}
use lobook.BitsetBook.{
  Side, Book, side, set_side, set_level, clear_index, set_index, remove_from_level, append_to_level,
  move_to_end, set_terms,
}
use lobook.BitsetBook.Index.{set_index-Indexed}
use lobook.BitsetBook.MatchBest.{book_of}
use lobook.BitsetBook.Moved.{alone, behind, with_terms}

pub remove_runs :
    (b : Book) (i : ℕ) (o : Order) (m1 : Pool) (s' : Side)
    → o.price < max_prices
    → let l' = unlink_level ((side b o.is_buy).levels o.price) i o in
      unlink_nodes b.pool o ≡ ok m1
      → (if l'.head == null_idx
          then clear_index (set_level (side b o.is_buy) o.price l') o.price
          else ok (set_level (side b o.is_buy) o.price l'))
        ≡ ok s'
      → remove_from_level b i o ≡ ok (set_side (record b { pool = m1 }) o.is_buy s')
unfolding remove_from_level
remove_runs b i o m1 s' lt e1 e2 = rw (lt→ltb o.price max_prices lt, e1, e2) refl

-- The level with `i` at its end.
abbrev pub with_last : PriceLevel → ℕ → PriceLevel
with_last l i =
    if l.head == null_idx then record { head = i; tail = i } else record { head = l.head; tail = i }

-- The pool with `i` behind the last order of a level.
abbrev pub with_behind : Pool → ℕ → PriceLevel → Pool
with_behind m i l = if l.head == null_idx then alone m i else behind m i l.tail

-- A book with the order at the end of a level, and the price in the bitset.
pub record IsAppendedTo (b : Book) (k : Bool) (s : Side) (m : Pool) (i price : ℕ) (marks : ℕ → Bool)
    (b' : Book) : Type 0 where
  pub new_side : Side
  pub book : b' ≡ book_of b k new_side (with_behind m i (s.levels price))
  pub levels : new_side.levels ≡ (set_level s price (with_last (s.levels price) i)).levels
  pub holds : Holds (λ q. marks q || price == q) new_side.index

module _ (b : Book) (s : Side) (m : Pool) (i price : ℕ) {marks : ℕ → Bool}
    (held : Holds marks s.index) (lt : price < max_prices) (in_pool : i < m.capacity) where
  abbrev l : PriceLevel
  l = s.levels price

  -- `append_to_level` once it has read the side of the order.
  abbrev append_on : Book → Bool → Run Book
  append_on b1 k = do
    level ← level_at (side b1 k).levels price
    pool1 ←
        if level.head == null_idx
        then set_prev b1.pool i null_idx
        else (set_prev b1.pool i level.tail >>= λ m'. set_next m' level.tail i)
    s' ← set_index (set_level (side b1 k) price (with_last level i)) price
    pool2 ← set_next pool1 i null_idx
    ok (set_side (record b1 { pool = pool2 }) k s')

  append_on_runs :
      (k : Bool) (s' : Side)
      → set_index (set_level s price (with_last l i)) price ≡ ok s'
      → ((l.head == null_idx) ≡ false → l.tail < m.capacity)
      → ((l.head == null_idx) ≡ true) ⊎ ((l.head == null_idx) ≡ false)
      → append_on (book_of b k s m) k ≡ ok (book_of b k s' (with_behind m i l))
  append_on_runs true s' e tail_in (inl empty) =
      rw
        (
          lt→ltb price max_prices lt,
          e,
          empty,
          set_prev-with_prev m i null_idx in_pool,
          set_next-with_next (with_prev m i null_idx) i null_idx in_pool,
        )
        refl
  append_on_runs true s' e tail_in (inr busy) =
      rw
        (
          lt→ltb price max_prices lt,
          e,
          busy,
          set_prev-with_prev m i l.tail in_pool,
          set_next-with_next (with_prev m i l.tail) l.tail i (tail_in busy),
          set_next-with_next (with_next (with_prev m i l.tail) l.tail i) i null_idx in_pool,
        )
        refl
  append_on_runs false s' e tail_in (inl empty) =
      rw
        (
          lt→ltb price max_prices lt,
          e,
          empty,
          set_prev-with_prev m i null_idx in_pool,
          set_next-with_next (with_prev m i null_idx) i null_idx in_pool,
        )
        refl
  append_on_runs false s' e tail_in (inr busy) =
      rw
        (
          lt→ltb price max_prices lt,
          e,
          busy,
          set_prev-with_prev m i l.tail in_pool,
          set_next-with_next (with_prev m i l.tail) l.tail i (tail_in busy),
          set_next-with_next (with_next (with_prev m i l.tail) l.tail i) i null_idx in_pool,
        )
        refl

  side_read :
      (k : Bool)
      → append_to_level (book_of b k s m) i price ≡ append_on (book_of b k s m) (m.orders i).is_buy
  unfolding append_to_level
  side_read true = rw (lt→ltb i m.capacity in_pool) refl
  side_read false = rw (lt→ltb i m.capacity in_pool) refl

  pub append_to_level-AppendedTo :
      (k : Bool)
      → (m.orders i).is_buy ≡ k
      → ((l.head == null_idx) ≡ false → l.tail < m.capacity)
      → Returns (append_to_level (book_of b k s m) i price) (IsAppendedTo b k s m i price marks)
  append_to_level-AppendedTo k on tail_in =
      let (s', e, x) = set_index-Indexed (set_level s price (with_last l i)) price held lt in
      (
        _,
        side_read k
            ∙ ap (append_on (book_of b k s m)) on
            ∙ append_on_runs k s' e tail_in (Bool-cases (l.head == null_idx)),
        record { new_side = s'; book = refl; levels = x.levels; holds = x.holds },
      )

pub set_terms-with_terms :
    (b : Book) (i price qty : ℕ)
    → i < b.pool.capacity
    → set_terms b i price qty ≡ ok (record b { pool = with_terms b.pool i price qty })
unfolding set_terms
set_terms-with_terms b i price qty lt = rw (lt→ltb i b.pool.capacity lt) refl

pub set_terms-book_of :
    (b : Book) (k : Bool) (s : Side) (m : Pool) (i price qty : ℕ)
    → i < m.capacity
    → set_terms (book_of b k s m) i price qty ≡ ok (book_of b k s (with_terms m i price qty))
set_terms-book_of b true s m i price qty lt =
    set_terms-with_terms (book_of b true s m) i price qty lt
set_terms-book_of b false s m i price qty lt =
    set_terms-with_terms (book_of b false s m) i price qty lt

-- The order at the end of the level that it was in.
pub move_to_end_runs :
    (b : Book) (i : ℕ) (o : Order) (m1 : Pool)
    → let l = (side b o.is_buy).levels o.price in
      let l' = unlink_level l i o in
      unlink_nodes b.pool o ≡ ok m1
      → i < m1.capacity
      → l'.tail < m1.capacity
      → move_to_end b i o l
        ≡ ok (
            set_side
              (record b { pool = behind m1 i l'.tail })
              o.is_buy
              (set_level (side b o.is_buy) o.price (record { head = l'.head; tail = i })))
unfolding move_to_end
move_to_end_runs b i o m1 e in_pool tail =
    let l' = unlink_level ((side b o.is_buy).levels o.price) i o in
    rw
      (
        e,
        set_prev-with_prev m1 i l'.tail in_pool,
        set_next-with_next (with_prev m1 i l'.tail) l'.tail i tail,
        set_next-with_next (with_next (with_prev m1 i l'.tail) l'.tail i) i null_idx in_pool,
      )
      refl
