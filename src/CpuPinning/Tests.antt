-- ===== src/CpuPinning/Tests.antt =====
-- A run of the reading of a core.
use lobook.Base.{ℕ, ◌<◌, ◌≤◌, ◌^◌, ◌≡◌, refl, true, Option, some, [], ◌∷◌, Text, codes, arith}
use lobook.CpuPinning.{ℤ, pos, is_negative, configured_bench_core, configured_bench_core-number}

-- Texts of one digit of any size.
abbrev read_digit : Text → ℤ × ℕ
read_digit [] = (pos 0, 0)
read_digit (n ∷ s) = (pos n, 1)

abbrev set_to_seven : Text → Option Text
set_to_seven name = some (7 ∷ [])

configured_bench_core-number_example :
    (7 < 2 ^ 31 → configured_bench_core set_to_seven read_digit (codes "CORE") (pos 2) ≡ pos 7)
    × (2 ^ 31 ≤ 7
        → 7 < 2 ^ 32
        → is_negative (configured_bench_core set_to_seven read_digit (codes "CORE") (pos 2)) ≡ true)
configured_bench_core-number_example =
    configured_bench_core-number set_to_seven read_digit (codes "CORE") (7 ∷ []) (pos 2) refl 7
      (refl, omega arith)
