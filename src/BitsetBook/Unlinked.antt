-- ===== src/BitsetBook/Unlinked.antt =====
-- The two guarded writes that take an order out of the list that it is in.
use lobook.Base.{
  ℕ, ◌<◌, ◌≡◌, ◌≢◌, refl, ◌==◌, if◌then◌else◌, ok, Returns, arith, inl, inr, Bool-cases, ==→ne,
}
use lobook.Pool.{null_idx, Pool, unlink_nodes, set_prev}
use lobook.Pool.Access.{with_next, with_prev, set_next-with_next, set_prev-with_prev}
use lobook.Chain.Unlink.{IsUnlinked}
use lobook.BitsetBook.Represents.{next_of, prev_of, entry}
use lobook.BitsetBook.Write.{SamePlace}

-- The pool with the neighbours of `i` linked to one another.
pub record IsUnlinkedPool (m m' : Pool) (i : ℕ) : Type 0 where
  pub links : IsUnlinked (next_of m) (prev_of m) (next_of m') (prev_of m') i
  pub cap : m'.capacity ≡ m.capacity
  pub id_map : m'.id_map ≡ m.id_map
  pub next_free : m'.next_free ≡ m.next_free
  pub place : (j : ℕ) → SamePlace (m'.orders j) (m.orders j)
  pub entry : (j : ℕ) → entry m' j ≡ entry m j
  pub same :
      (j : ℕ)
      → (prev_of m i ≢ null_idx → j ≢ prev_of m i)
      → (next_of m i ≢ null_idx → j ≢ next_of m i)
      → m'.orders j ≡ m.orders j

abbrev link_next : Pool → ℕ → Pool
link_next m i = if prev_of m i == null_idx then m else with_next m (prev_of m i) (next_of m i)

abbrev link_both : Pool → ℕ → Pool
link_both m i =
    if next_of m i == null_idx
    then link_next m i
    else with_prev (link_next m i) (next_of m i) (prev_of m i)

next_effect :
    (m : Pool) (i j : ℕ)
    → (next_of (link_next m i) j ≡ (
        if prev_of m i == null_idx
        then next_of m j
        else if prev_of m i == j
        then next_of m i
        else next_of m j))
      × (prev_of (link_next m i) j ≡ prev_of m j)
next_effect m i j = ground arith

both_effect :
    (m : Pool) (i j : ℕ)
    → (next_of (link_both m i) j ≡ next_of (link_next m i) j)
      × (prev_of (link_both m i) j ≡ (
          if next_of m i == null_idx
          then prev_of (link_next m i) j
          else if next_of m i == j
          then prev_of m i
          else prev_of (link_next m i) j))
both_effect m i j = ground arith

module _ (m : Pool) (i : ℕ) where
  both-place : (j : ℕ) → SamePlace ((link_both m i).orders j) (m.orders j)
  both-place j = record { id = ground arith; price = ground arith; is_buy = ground arith }

  both-links :
      IsUnlinked (next_of m) (prev_of m) (next_of (link_both m i)) (prev_of (link_both m i)) i
  both-links = record {
    next_same = λ j ne. ground (arith, next_effect m i j, both_effect m i j);
    next_moved = λ ne. ground (arith, next_effect m i (prev_of m i), both_effect m i (prev_of m i));
    prev_same = λ j ne. ground (arith, next_effect m i j, both_effect m i j);
    prev_moved = λ ne. ground (arith, next_effect m i (next_of m i), both_effect m i (next_of m i));
  }

  link_next-cap : (link_next m i).capacity ≡ m.capacity
  link_next-cap = elim (Bool-cases (prev_of m i == null_idx)) [
    | inl e ↦ rw e refl
    | inr e ↦ rw e refl
  ]

  runs :
      (prev_of m i ≢ null_idx → prev_of m i < m.capacity)
      → (next_of m i ≢ null_idx → next_of m i < m.capacity)
      → unlink_nodes m (m.orders i) ≡ ok (link_both m i)
  unfolding unlink_nodes
  runs prev_in next_in = elim (Bool-cases (prev_of m i == null_idx)) [
    | inl e ↦ rw e (second m refl)
    | inr ne ↦
        rw (ne, set_next-with_next m (prev_of m i) (next_of m i) (prev_in (==→ne _ _ ne)))
          (second (with_next m (prev_of m i) (next_of m i)) refl)
  ]
    where
      second :
          (m1 : Pool)
          → m1.capacity ≡ m.capacity
          → (if next_of m i == null_idx then ok m1 else set_prev m1 (next_of m i) (prev_of m i))
            ≡ ok (if next_of m i == null_idx then m1 else with_prev m1 (next_of m i) (prev_of m i))
      second m1 kept = elim (Bool-cases (next_of m i == null_idx)) [
        | inl e ↦ rw e refl
        | inr ne ↦
            rw
              (
                ne,
                set_prev-with_prev m1 (next_of m i) (prev_of m i)
                    (rw kept (next_in (==→ne _ _ ne))),
              )
              refl
      ]

  both_frame : (link_both m i).capacity ≡ m.capacity → IsUnlinkedPool m (link_both m i) i
  both_frame kept = record {
    links = both-links;
    cap = kept;
    id_map = ground arith;
    next_free = ground arith;
    place = both-place;
    entry = λ j. ground arith;
    same = λ j other_prev other_next. ground (arith, other_prev, other_next);
  }

  pub unlink_nodes-Unlinked :
      (prev_of m i ≢ null_idx → prev_of m i < m.capacity)
      → (next_of m i ≢ null_idx → next_of m i < m.capacity)
      → Returns (unlink_nodes m (m.orders i)) (λ m'. IsUnlinkedPool m m' i)
  unlink_nodes-Unlinked prev_in next_in =
      (link_both m i, runs prev_in next_in, both_frame (ground arith))
