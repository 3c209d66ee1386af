-- ===== src/CpuPinning.antt =====
-- src/engine/cpu_pinning.h: the core that a thread is pinned to.
mod Tests
use lobook.Base.{
  ℕ, ◌-◌, ◌+◌, ◌<◌, ◌≤◌, ◌∙◌, ap, List, [], ◌∷◌, ◌%◌, ◌^◌, ◌≡◌, refl, inl, inr, Bool, true, false,
  not, ◌||◌, ◌==◌, Bool-cases, if◌then◌else◌, ltb, Option, none, some, Text, codes, is_empty, arith,
}
use lobook.Chain.Lists.{length}

-- An integer: `pos n`, or `negsuc n` for -(n + 1).
pub data ℤ : Type 0 where
  pos : ℕ → ℤ
  negsuc : ℕ → ℤ

abbrev pub is_negative : ℤ → Bool
is_negative (pos n) = false
is_negative (negsuc n) = true

-- `static_cast<int>` of a `long`: 32 bits in two's complement.
abbrev pub to_int : ℤ → ℤ
to_int (pos n) =
    if ltb (n % 2 ^ 32) (2 ^ 31) then pos (n % 2 ^ 32) else negsuc (2 ^ 32 - 1 - n % 2 ^ 32)
to_int (negsuc n) =
    if ltb (n % 2 ^ 32) (2 ^ 31) then negsuc (n % 2 ^ 32) else pos (2 ^ 32 - 1 - n % 2 ^ 32)

-- What is made of the number read, and of where `end` points, in a text of the given length.
abbrev pub core_of : ℕ → ℤ × ℕ → ℤ → ℤ
core_of len (parsed, end) default_core =
    if end == 0 || not (end == len) || is_negative parsed then default_core else to_int parsed

-- `std::getenv`, and `std::strtol` in base 10, are parameters: the value of a variable, if it is set;
-- and the number that a text starts with, with the count of bytes up to where `end` points.
module _ (getenv : Text → Option Text) (strtol : Text → ℤ × ℕ) where
  abbrev pub core_for : Option Text → ℤ → ℤ
  core_for none default_core = default_core
  core_for (some value) default_core =
      if is_empty value then default_core else core_of (length value) (strtol value) default_core

  unfoldable pub configured_bench_core : Text → ℤ → ℤ
  configured_bench_core env_name default_core = core_for (getenv env_name) default_core

  unfoldable pub network_bench_core : ℤ
  network_bench_core = configured_bench_core (codes "LOBOOK_NETWORK_CORE") (pos 0)

  unfoldable pub matching_bench_core : ℤ
  matching_bench_core = configured_bench_core (codes "LOBOOK_MATCHING_CORE") (pos 2)

-- A text that is one number and nothing else, 0 or more.
abbrev pub IsNumber : (Text → ℤ × ℕ) → Text → ℕ → Type 0
IsNumber strtol value n = (strtol value ≡ (pos n, length value)) × (0 < length value)

module _ (getenv : Text → Option Text) (strtol : Text → ℤ × ℕ) (env_name value : Text)
    (default_core : ℤ) (is_set : getenv env_name ≡ some value) where
  number_core :
      (n : ℕ)
      → IsNumber strtol value n
      → configured_bench_core getenv strtol env_name default_core ≡ to_int (pos n)
  unfolding configured_bench_core
  number_core n (read, some_digits) =
      let not_empty : is_empty value ≡ false = length-is_empty value some_digits in
      let moved : (length value == 0) ≡ false = ground arith in
      let whole : (length value == length value) ≡ true = ground arith in
      ap (λ v. core_for getenv strtol v default_core) is_set
      ∙ rw (not_empty)
          (ap (λ r. core_of (length value) r default_core) read ∙ rw (moved, whole) refl)
    where
      length-is_empty : (s : Text) → 0 < length s → is_empty s ≡ false
      length-is_empty [] lt = absurd (omega arith)
      length-is_empty (c ∷ s) lt = refl

  -- Of a variable that is set to a number alone, the core is the number where it is below 2^31, and a
  -- negative number where it is from 2^31 to 2^32 - 1, though it passed the test for one that is not
  -- negative.
  pub configured_bench_core-number :
      (n : ℕ)
      → IsNumber strtol value n
      → (n < 2 ^ 31 → configured_bench_core getenv strtol env_name default_core ≡ pos n)
        × (2 ^ 31 ≤ n
            → n < 2 ^ 32
            → is_negative (configured_bench_core getenv strtol env_name default_core) ≡ true)
  configured_bench_core-number n number = (
    λ lt.
        let small : n % 2 ^ 32 ≡ n = omega arith in
        let inside : ltb n (2 ^ 31) ≡ true = ground arith in
        number_core n number ∙ rw (small, inside) refl,
    λ ge lt.
        let small : n % 2 ^ 32 ≡ n = omega arith in
        let outside : ltb n (2 ^ 31) ≡ false = ground arith in
        ap is_negative (number_core n number) ∙ rw (small, outside) refl,
  )
