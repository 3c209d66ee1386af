-- ===== src/SimpleBook/Process.antt =====
-- `process_list` against the description of matching at one price that the bitset book meets too.
use lobook.Base.{
  ℕ, ◌+◌, ◌-◌, ◌≤◌, ◌<◌, ◌≡◌, ◌≢◌, refl, ap, ◌∙◌, min, Bool, true, false, inl, inr, Bool-cases,
  Option, none, some, List, [], ◌∷◌, Run, fault, ◌==◌, if◌then◌else◌, Returns, arith,
}
use lobook.BitsetBook.Fill.{Entries, left, rest}
use lobook.SimpleBook.{Node, OrderLocation, Lookup, Processed, find, erase_id, process_list}

abbrev pub entries : List Node → Entries
entries [] = []
entries (x ∷ xs) = (x.order.id, x.order.qty) ∷ entries xs

abbrev pub has_id : ℕ → List Node → Bool
has_id id [] = false
has_id id (x ∷ xs) = if x.order.id == id then true else has_id id xs

abbrev pub is_found : Option OrderLocation → Bool
is_found none = false
is_found (some loc) = true

-- Different ids, each in the map.
abbrev pub Known : Lookup → List Node → Type 0
Known lookup [] = Unit
Known lookup (x ∷ xs) =
    (has_id x.order.id xs ≡ false) × (is_found (find lookup x.order.id) ≡ true) × Known lookup xs

find-erase_id :
    (lookup : Lookup) (id other : ℕ)
    → id ≢ other
    → find (erase_id lookup id) other ≡ find lookup other
unfolding find erase_id
find-erase_id [] id other ne = refl
find-erase_id ((i, loc) ∷ lookup) id other ne = elim (Bool-cases (i == id)) [
  | inl e ↦ let apart : (i == other) ≡ false = ground (arith, e) in rw (e, apart) refl
  | inr e ↦ rw e (elim (Bool-cases (i == other)) [
    | inl same ↦ rw same refl
    | inr apart ↦ rw apart (find-erase_id lookup id other ne)
  ])
]

Known-erase_id :
    (lookup : Lookup) (id : ℕ) (xs : List Node)
    → has_id id xs ≡ false
    → Known lookup xs
    → Known (erase_id lookup id) xs
Known-erase_id lookup id [] out known = tt
Known-erase_id lookup id (x ∷ xs) out (apart, found, known) =
    let ne : id ≢ x.order.id = λ e. ground arith in
    (
      apart,
      ap is_found (find-erase_id lookup id x.order.id ne) ∙ found,
      Known-erase_id lookup id xs (ground arith) known,
    )

pub record IsProcessed (list : List Node) (qty : ℕ) (done : Processed) : Type 0 where
  pub qty_left : done.qty ≡ left qty (entries list)
  pub entries_left : entries done.list ≡ rest qty (entries list)

at_found :
    (found? : Option OrderLocation) (r : Run Processed) {Post : Processed → Type 0}
    → is_found found? ≡ true
    → Returns r Post
    → Returns (elim found? [ none ↦ fault | some loc ↦ r ]) Post
at_found none r e done = cc
at_found (some loc) r e done = done

-- On a list of orders with different ids that are all in the map, `process_list` returns without a
-- fault for any quantity: the oldest order is filled first, a later one only once all before it are,
-- and only the last one met in part.
pub process_list-Processed :
    (list : List Node) (qty : ℕ) (lookup : Lookup) (trades : ℕ)
    → Known lookup list
    → Returns (process_list list qty lookup trades) (IsProcessed list qty)
unfolding process_list
process_list-Processed [] qty lookup trades known =
    (_, refl, record { qty_left = refl; entries_left = refl })
process_list-Processed (x ∷ xs) qty lookup trades (apart, found, known) =
    elim (Bool-cases (qty == 0)) [
      | inl e ↦ rw e (_, refl, record { qty_left = ground arith; entries_left = ground arith })
      | inr wanted ↦ rw wanted (elim (Bool-cases (x.order.qty - min qty x.order.qty == 0)) [
        | inl filled ↦
            let le : x.order.qty ≤ qty = ground (arith, filled) in
            let all : min qty x.order.qty ≡ x.order.qty = omega arith in
            let (done, e, r) =
              process_list-Processed xs (qty - x.order.qty) (erase_id lookup x.order.id)
                (trades + 1) (Known-erase_id lookup x.order.id xs apart known) in
            let same =
              ap (λ n. process_list xs (qty - n) (erase_id lookup x.order.id) (trades + 1)) all in
            rw filled (
              at_found (find lookup x.order.id) _ found (
                done,
                same ∙ e,
                record {
                  qty_left = r.qty_left ∙ ground arith;
                  entries_left = r.entries_left ∙ ground arith;
                },
              ))
        | inr partly ↦
            let lt : qty < x.order.qty = ground (arith, partly) in
            let all : min qty x.order.qty ≡ qty = omega arith in
            let none_left : qty - qty ≡ 0 = omega arith in
            rw (partly, all, none_left)
              (_, refl, record { qty_left = ground arith; entries_left = ground arith })
      ])
    ]
