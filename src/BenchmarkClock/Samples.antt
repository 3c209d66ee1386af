-- ===== src/BenchmarkClock/Samples.antt =====
-- Every sample is measured, and every line is printed of an entry.
use lobook.Base.{
  ℕ, zero, suc, ◌+◌, ◌-◌, ◌≤◌, ◌<◌, ◌^◌, ◌≡◌, refl, ◌∙◌, ap, List, ok, Returns, arith,
}
use mathlib.Core.Path.{subst}
use lobook.Chain.Lists.{length}
use lobook.Engine.Latency.{Timespec, to_ns, sub64, element}
use lobook.Engine.Reports.{element-Returns}
use lobook.BenchmarkClock.{samples, take_samples, Line, p50, p90, p99, p999, Results, four, results}

sub64-exact : (a b : ℕ) → a ≤ b → b < 2 ^ 64 → sub64 b a ≡ b - a
sub64-exact a b le lt = omega arith

module _ (first second : ℕ → Timespec) where
  length-take_samples : (i count : ℕ) → length (take_samples first second i count) ≡ count
  unfolding take_samples
  length-take_samples i zero = refl
  length-take_samples i (suc count) = ap suc (length-take_samples (suc i) count)

  element-take_samples :
      (i count k : ℕ)
      → k < count
      → ((j : ℕ) → to_ns (first j) ≤ to_ns (second j))
      → element (take_samples first second i count) k
        ≡ ok (to_ns (second (i + k)) - to_ns (first (i + k)))
  unfolding take_samples
  element-take_samples i zero k lt ordered = absurd (omega arith)
  element-take_samples i (suc count) zero lt ordered =
      let here : i + 0 ≡ i = omega arith in
      rw here (ap ok (sub64-exact _ _ (ordered i) (omega arith)))
  element-take_samples i (suc count) (suc k) lt ordered =
      let there : suc i + k ≡ i + suc k = omega arith in
      rw (← there) (element-take_samples (suc i) count k (omega arith) ordered)

module _ (sort : List ℕ → List ℕ) (scaled : Line → ℕ → ℕ) where
  -- The lines are entries of the sorted samples, and `max` is the last of them.
  abbrev pub IsResults : List ℕ → Results → Type 0
  IsResults deltas r =
      ((p : Line) → element (sort deltas) (scaled p (samples - 1)) ≡ ok (r.percentile p))
      × (element (sort deltas) (samples - 1) ≡ ok r.max)

  results-Results :
      (deltas : List ℕ)
      → length (sort deltas) ≡ samples
      → ((p : Line) (n : ℕ) → scaled p n ≤ n)
      → Returns (results sort scaled deltas) (IsResults deltas)
  unfolding results
  results-Results deltas len inside =
      let at : (p : Line)
          → Returns (element (sort deltas) (scaled p (samples - 1))) (λ x. Unit {0}) =
        λ p. element-Returns (sort deltas) _ (omega (arith, inside p (samples - 1))) in
      let (w, ew, _) = at p50 in
      let (x, ex, _) = at p90 in
      let (y, ey, _) = at p99 in
      let (z, ez, _) = at p999 in
      let (m, em, _) = element-Returns (sort deltas) (samples - 1) (omega arith) in
      rw (ew, ex, ey, ez, len, em)
        (record { percentile = four w x y z; max = m }, refl, (each w x y z ew ex ey ez, refl))
    where
      each :
          (w x y z : ℕ)
          → element (sort deltas) (scaled p50 (samples - 1)) ≡ ok w
          → element (sort deltas) (scaled p90 (samples - 1)) ≡ ok x
          → element (sort deltas) (scaled p99 (samples - 1)) ≡ ok y
          → element (sort deltas) (scaled p999 (samples - 1)) ≡ ok z
          → (p : Line) → element (sort deltas) (scaled p (samples - 1)) ≡ ok (four w x y z p)
      each w x y z ew ex ey ez p50 = ew
      each w x y z ew ex ey ez p90 = ex
      each w x y z ew ex ey ez p99 = ey
      each w x y z ew ex ey ez p999 = ez

-- Where the second reading of each round is not before the first, sorting keeps the length of a vector
-- and the index of a percentile of n is at most n: there are 1'000'000 samples, each the difference
-- of the two readings of its round without a wrap, and the five lines are read inside the sorted samples,
-- the last of them from the end.
pub take_samples-results :
    (first second : ℕ → Timespec) (sort : List ℕ → List ℕ) (scaled : Line → ℕ → ℕ)
    → ((j : ℕ) → to_ns (first j) ≤ to_ns (second j))
    → ((xs : List ℕ) → length (sort xs) ≡ length xs)
    → ((p : Line) (n : ℕ) → scaled p n ≤ n)
    → (length (take_samples first second 0 samples) ≡ samples)
      × ((k : ℕ)
          → k < samples
          → element (take_samples first second 0 samples) k
            ≡ ok (to_ns (second k) - to_ns (first k)))
      × Returns
          (results sort scaled (take_samples first second 0 samples))
          (IsResults sort scaled (take_samples first second 0 samples))
take_samples-results first second sort scaled ordered kept inside = (
  length-take_samples first second 0 samples,
  λ k lt.
      subst
        (λ n.
          element (take_samples first second 0 samples) k ≡ ok (to_ns (second n) - to_ns (first n)))
        (omega arith) (element-take_samples first second 0 samples k lt ordered),
  results-Results sort scaled _ (kept _ ∙ length-take_samples first second 0 samples) inside,
)
