-- ===== src/Pool/Access.antt =====
-- The writes of one link, inside the pool.
use lobook.Base.{ℕ, ◌<◌, ◌≡◌, lt→ltb, ok, update}
use lobook.Pool.{Pool, set_next, set_prev}

abbrev pub with_next : Pool → ℕ → ℕ → Pool
with_next m i v = record m { orders = update m.orders i (record (m.orders i) { next = v }) }

abbrev pub with_prev : Pool → ℕ → ℕ → Pool
with_prev m i v = record m { orders = update m.orders i (record (m.orders i) { prev = v }) }

module _ (m : Pool) (i v : ℕ) (lt : i < m.capacity) where
  pub set_next-with_next : set_next m i v ≡ ok (with_next m i v)
  unfolding set_next
  set_next-with_next = rw (lt→ltb i m.capacity lt)

  pub set_prev-with_prev : set_prev m i v ≡ ok (with_prev m i v)
  unfolding set_prev
  set_prev-with_prev = rw (lt→ltb i m.capacity lt)
