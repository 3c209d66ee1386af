-- ===== src/BitsetBook/Fill.antt =====
-- What matching at one price does to the queue of ids and open quantities there: the oldest order is
-- filled first, a later one only once all before it are filled, and only the last one met in part.
use lobook.Base.{ℕ, ◌+◌, ◌-◌, ◌≡◌, ◌≢◌, refl, true, List, [], ◌∷◌, ◌==◌, if◌then◌else◌, leb, arith}
use lobook.Pool.{Pool}
use lobook.Chain.Lists.{has}
use lobook.BitsetBook.Represents.{entry}

abbrev pub Entries : Type 0
Entries = List (ℕ × ℕ)

-- The entries of a queue of slots.
abbrev pub entries : Pool → List ℕ → Entries
entries m [] = []
entries m (x ∷ xs) = entry m x ∷ entries m xs

-- What is left of the incoming quantity, and of the queue.
abbrev pub left : ℕ → Entries → ℕ
left q [] = q
left q ((id, x) ∷ es) = if q == 0 then 0 else if leb x q then left (q - x) es else 0

abbrev pub rest : ℕ → Entries → Entries
rest q [] = []
rest q ((id, x) ∷ es) =
    if q == 0 then (id, x) ∷ es else if leb x q then rest (q - x) es else (id, x - q) ∷ es

abbrev pub volume : Entries → ℕ
volume [] = 0
volume ((id, x) ∷ es) = x + volume es

-- Quantity is conserved: what the incoming order gets, the queue gives.
pub left-rest-volume : (q : ℕ) (es : Entries) → left q es + volume es ≡ q + volume (rest q es)
left-rest-volume q [] = refl
left-rest-volume q ((id, x) ∷ es) = ground (arith, left-rest-volume (q - x) es)

-- A quantity is left only of an emptied queue.
pub rest-nil : (q : ℕ) (es : Entries) → left q es ≢ 0 → rest q es ≡ []
rest-nil q [] ne = refl
rest-nil q ((id, x) ∷ es) ne = ground (arith, rest-nil (q - x) es)

pub entries_same :
    (m m' : Pool) (c : List ℕ)
    → ((i : ℕ) → has i c ≡ true → m'.orders i ≡ m.orders i)
    → entries m' c ≡ entries m c
entries_same m m' [] same = refl
entries_same m m' (x ∷ xs) same =
    let e : m'.orders x ≡ m.orders x = same x (ground arith) in
    rw (e, entries_same m m' xs (λ i h. same i (ground arith)))
