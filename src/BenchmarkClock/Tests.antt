-- ===== src/BenchmarkClock/Tests.antt =====
-- A clock that ticks between the two readings of a round.
use lobook.Base.{ℕ, ◌/◌, ◌-◌, ◌<◌, ◌≡◌, ok, Returns, arith}
use lobook.Chain.Lists.{length}
use lobook.Engine.Latency.{Timespec, to_ns, element}
use lobook.Engine.Samples.{insertion_sort, length-insertion_sort}
use lobook.BenchmarkClock.{samples, take_samples, Line, results}
use lobook.BenchmarkClock.Samples.{IsResults, take_samples-results}

abbrev early : ℕ → Timespec
early j = record { tv_sec = 1; tv_nsec = 20 }

abbrev late : ℕ → Timespec
late j = record { tv_sec = 1; tv_nsec = 45 }

abbrev half : Line → ℕ → ℕ
half p n = n / 2

take_samples-results_example :
    (length (take_samples early late 0 samples) ≡ samples)
    × ((k : ℕ)
        → k < samples
        → element (take_samples early late 0 samples) k ≡ ok (to_ns (late k) - to_ns (early k)))
    × Returns
        (results insertion_sort half (take_samples early late 0 samples))
        (IsResults insertion_sort half (take_samples early late 0 samples))
take_samples-results_example =
    take_samples-results early late insertion_sort half (λ j. omega arith) length-insertion_sort
      (λ p n. omega arith)
