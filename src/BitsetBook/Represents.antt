-- ===== src/BitsetBook/Represents.antt =====
-- What holds of a book between operations: the lists of pool indices at each side and price, and the
-- free list, that its links spell out. Nothing is said of the first `prev` of a level, and nothing of
-- the id map at ids that no resting order has.
use lobook.Base.{
  ℕ, ◌≤◌, ◌<◌, ◌≡◌, Bool, true, false, not, List, [], ◌∷◌, ◌==◌, if◌then◌else◌, arith,
}
use lobook.PriceBitset.{max_prices}
use lobook.PriceBitset.History.{Holds}
use lobook.Pool.{null_idx, PriceLevel, Pool}
use lobook.Chain.{Linked, IsLevel}
use lobook.Chain.Lists.{has, Distinct, occupied}
use lobook.BitsetBook.{Side, Book, side}

abbrev pub next_of : Pool → ℕ → ℕ
next_of m i = (m.orders i).next

abbrev pub prev_of : Pool → ℕ → ℕ
prev_of m i = (m.orders i).prev

-- The id and the open quantity at a slot.
abbrev pub entry : Pool → ℕ → ℕ × ℕ
entry m i = ((m.orders i).id, (m.orders i).qty)

-- The order at `i` rests on this side at this price, and its id leads to it.
pub record IsResting (m : Pool) (is_buy : Bool) (p i : ℕ) : Type 0 where
  pub in_pool : i < m.capacity
  pub at_price : (m.orders i).price ≡ p
  pub on_side : (m.orders i).is_buy ≡ is_buy
  pub id_known : (m.orders i).id < m.capacity
  pub mapped : m.id_map (m.orders i).id ≡ i

pub record IsQueue (m : Pool) (is_buy : Bool) (p : ℕ) (l : PriceLevel) (c : List ℕ) : Type 0 where
  pub level : IsLevel (next_of m) (prev_of m) l c
  pub resting : (i : ℕ) → has i c ≡ true → IsResting m is_buy p i

-- The queues of one side, and its bitset: the prices of the queues that are not empty.
pub record IsSide (m : Pool) (is_buy : Bool) (s : Side) (queues : ℕ → List ℕ) : Type 0 where
  pub at : (p : ℕ) → p < max_prices → IsQueue m is_buy p (s.levels p) (queues p)
  pub outside : (p : ℕ) → max_prices ≤ p → queues p ≡ []
  pub indexed : Holds (λ p. occupied (queues p)) s.index

pub record IsFree (m : Pool) (free : List ℕ) : Type 0 where
  pub small : m.capacity < null_idx
  pub linked : Linked (next_of m) m.next_free free
  pub distinct : Distinct free
  pub in_pool : (i : ℕ) → has i free ≡ true → i < m.capacity

pub record IsBook (b : Book) (queues : Bool → ℕ → List ℕ) (free : List ℕ) : Type 0 where
  pub sides : (k : Bool) → IsSide b.pool k (side b k) (queues k)
  pub pool : IsFree b.pool free
  pub apart : (k : Bool) (p i : ℕ) → has i (queues k p) ≡ true → has i free ≡ false

-- The queues with one of them replaced.
abbrev pub put : (Bool → ℕ → List ℕ) → Bool → ℕ → List ℕ → Bool → ℕ → List ℕ
put queues true p c true q = if p == q then c else queues true q
put queues true p c false q = queues false q
put queues false p c true q = queues true q
put queues false p c false q = if p == q then c else queues false q

-- A level has no head exactly where its queue is empty.
pub head_null :
    {m : Pool} {k : Bool} {p : ℕ} {l : PriceLevel} (c : List ℕ)
    → m.capacity < null_idx
    → IsQueue m k p l c
    → (l.head == null_idx) ≡ not (occupied c)
head_null [] small q = ground (arith, q.level.linked)
head_null (x ∷ xs) small q = ground (arith, q.level.linked.0, (q.resting x (ground arith)).in_pool)
