-- ===== src/BenchmarkClock.antt =====
-- src/benchmark_clock.cpp: the samples of two clock readings in a row, and the lines that are printed
-- of them.
pub mod Samples
mod Tests
use lobook.Base.{ℕ, zero, suc, ◌-◌, List, [], ◌∷◌, Run, ok, ◌>>=◌}
use lobook.Chain.Lists.{length}
use lobook.Engine.Latency.{Timespec, to_ns, sub64, element}

-- `kSamples`
abbrev pub samples : ℕ
samples = 1000000

-- The readings `a` and `b` of each round are parameters. `count` rounds from round `i` on.
module _ (first second : ℕ → Timespec) where
  unfoldable pub take_samples : ℕ → ℕ → List ℕ
  take_samples i zero = []
  take_samples i (suc count) =
      sub64 (to_ns (second i)) (to_ns (first i)) ∷ take_samples (suc i) count

pub data Line : Type 0 where
  p50 p90 p99 p999 : Line

pub record Results : Type 0 where
  pub percentile : Line → ℕ
  pub max : ℕ

abbrev pub four : ℕ → ℕ → ℕ → ℕ → Line → ℕ
four w x y z p50 = w
four w x y z p90 = x
four w x y z p99 = y
four w x y z p999 = z

-- `std::sort`, and the index `(size_t)((kSamples - 1) * p)` computed in `double`, are parameters.
-- `deltas.back()` is the last element of a vector that is not empty.
module _ (sort : List ℕ → List ℕ) (scaled : Line → ℕ → ℕ) where
  unfoldable pub results : List ℕ → Run Results
  results deltas = do
    let sorted = sort deltas
    w ← element sorted (scaled p50 (samples - 1))
    x ← element sorted (scaled p90 (samples - 1))
    y ← element sorted (scaled p99 (samples - 1))
    z ← element sorted (scaled p999 (samples - 1))
    last ← element sorted (length sorted - 1)
    ok (record { percentile = four w x y z; max = last })
