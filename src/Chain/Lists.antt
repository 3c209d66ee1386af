-- ===== src/Chain/Lists.antt =====
-- Lists of indices: membership, distinctness, removal, and the bound on their length.
use lobook.Base.{
  ℕ, zero, suc, ◌≤◌, ◌<◌, ◌≡◌, ◌≢◌, refl, Bool, true, false, ◌||◌, inl, inr, List, [], ◌∷◌, ◌++◌,
  ◌==◌, if◌then◌else◌, Bool-cases, arith,
}

abbrev pub has : ℕ → List ℕ → Bool
has i [] = false
has i (x ∷ xs) = (i == x) || has i xs

abbrev pub occupied : List ℕ → Bool
occupied [] = false
occupied (x ∷ xs) = true

abbrev pub Distinct : List ℕ → Type 0
Distinct [] = Unit
Distinct (x ∷ xs) = (has x xs ≡ false) × Distinct xs

abbrev pub erase : ℕ → List ℕ → List ℕ
erase i [] = []
erase i (x ∷ xs) = if i == x then xs else x ∷ erase i xs

abbrev pub last_of : ℕ → List ℕ → ℕ
last_of x [] = x
last_of x (y ∷ ys) = last_of y ys

abbrev pub length {ℓ} : {A : Type ℓ} → List A → ℕ
length [] = 0
length (x ∷ xs) = suc (length xs)

pub has-erase : (j i : ℕ) (xs : List ℕ) → has j (erase i xs) ≡ true → has j xs ≡ true
has-erase j i [] h = h
has-erase j i (x ∷ xs) h = ground (arith, has-erase j i xs)

pub not_has-erase : (i : ℕ) (xs : List ℕ) → Distinct xs → has i (erase i xs) ≡ false
not_has-erase i [] d = refl
not_has-erase i (x ∷ xs) d = ground (arith, not_has-erase i xs d.1)

pub has-erase_ne : (j i : ℕ) (xs : List ℕ) → j ≢ i → has j (erase i xs) ≡ has j xs
has-erase_ne j i [] ne = refl
has-erase_ne j i (x ∷ xs) ne = ground (arith, has-erase_ne j i xs ne)

pub Distinct-erase : (i : ℕ) (xs : List ℕ) → Distinct xs → Distinct (erase i xs)
Distinct-erase i [] d = tt
Distinct-erase i (x ∷ xs) d = elim (Bool-cases (i == x)) [
  | inl same ↦ rw same d.1
  | inr apart ↦
      rw apart (ground (arith, has-erase_ne x i xs (ground arith), d.0), Distinct-erase i xs d.1)
]

pub has-append : (j : ℕ) (xs ys : List ℕ) → has j (xs ++ ys) ≡ (has j xs || has j ys)
has-append j [] ys = refl
has-append j (x ∷ xs) ys = ground (arith, has-append j xs ys)

pub Distinct-append :
    (i : ℕ) (xs : List ℕ) → Distinct xs → has i xs ≡ false → Distinct (xs ++ (i ∷ []))
Distinct-append i [] d out = (refl, tt)
Distinct-append i (x ∷ xs) d out =
    (ground (arith, has-append x xs (i ∷ [])), Distinct-append i xs d.1 (ground arith))

pub last_of-append : (x i : ℕ) (xs : List ℕ) → last_of x (xs ++ (i ∷ [])) ≡ i
last_of-append x i [] = refl
last_of-append x i (y ∷ ys) = last_of-append y i ys

pub has-last_of : (x : ℕ) (xs : List ℕ) → has (last_of x xs) (x ∷ xs) ≡ true
has-last_of x [] = ground arith
has-last_of x (y ∷ ys) = ground (arith, has-last_of y ys)

pub occupied-append : (xs : List ℕ) (i : ℕ) → occupied (xs ++ (i ∷ [])) ≡ true
occupied-append [] i = refl
occupied-append (x ∷ xs) i = refl

pub occupied_of_ne : (xs : List ℕ) → xs ≢ [] → occupied xs ≡ true
occupied_of_ne [] ne = absurd (ne refl)
occupied_of_ne (x ∷ xs) ne = refl

length-erase : (i : ℕ) (xs : List ℕ) → has i xs ≡ true → suc (length (erase i xs)) ≡ length xs
length-erase i [] h = ground arith
length-erase i (x ∷ xs) h = ground (arith, length-erase i xs)

-- A list of distinct numbers below `n` has at most `n` of them.
pub length-le :
    (n : ℕ) (xs : List ℕ) → Distinct xs → ((i : ℕ) → has i xs ≡ true → i < n) → length xs ≤ n
length-le zero [] d below = omega arith
length-le zero (x ∷ xs) d below = absurd (omega (arith, below x (ground arith)))
length-le (suc n) xs d below = elim (Bool-cases (has n xs)) [
  | inl top ↦ omega (
    arith,
    length-erase n xs top,
    length-le n (erase n xs) (Distinct-erase n xs d)
        (λ i h. lower i (has-erase i n xs h) (λ e. absurd_top i h e)),
  )
  | inr free ↦ omega (arith, length-le n xs d λ i h. lower i h (λ e. false_top i h e free))
]
  where
    lower : (i : ℕ) → has i xs ≡ true → i ≢ n → i < n
    lower i h ne = omega (arith, below i h)

    absurd_top : (i : ℕ) → has i (erase n xs) ≡ true → i ≡ n → ⊥
    absurd_top i h e = ground (arith, not_has-erase n xs d)

    false_top : (i : ℕ) → has i xs ≡ true → i ≡ n → has n xs ≡ false → ⊥
    false_top i h e out = ground arith
