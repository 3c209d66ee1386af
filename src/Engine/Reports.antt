-- ===== src/Engine/Reports.antt =====
-- `report` and `dump_latencies` after the loop of `run`.
use lobook.Base.{
  ℕ, zero, suc, ◌+◌, ◌≤◌, ◌<◌, ◌≡◌, refl, ◌∙◌, Bool, true, List, [], ◌∷◌, ok, fault, Returns, arith,
}
use lobook.Chain.Lists.{length}
use lobook.Engine.{OrderMessage}
use lobook.Engine.Latency.{
  Timespec, Timed, element, timed_run, Percentile, p50, p99, p999, Report, percentiles, report,
  three, dump_rows, dump_latencies,
}
use lobook.Engine.Timed.{handled, timed_run-Timed}

pub element-Returns : (xs : List ℕ) (i : ℕ) → i < length xs → Returns (element xs i) (λ x. Unit {0})
element-Returns [] i lt = absurd (omega arith)
element-Returns (x ∷ xs) zero lt = (x, refl, tt)
element-Returns (x ∷ xs) (suc i) lt = element-Returns xs i (omega arith)

element-empty : (xs : List ℕ) (i : ℕ) → length xs ≡ 0 → element xs i ≡ fault
element-empty [] i e = refl
element-empty (x ∷ xs) i e = absurd (omega arith)

-- The rows of a file: the entries of both vectors at the same index.
abbrev pub AreRows : List ℕ → List ℕ → ℕ → List (ℕ × ℕ) → Type 0
AreRows ls qs i [] = Unit
AreRows ls qs i ((e, q) ∷ rows) =
    (element ls i ≡ ok e) × (element qs i ≡ ok q) × AreRows ls qs (suc i) rows

dump_rows-AreRows :
    (count i : ℕ) (ls qs : List ℕ)
    → i + count ≤ length ls
    → i + count ≤ length qs
    → Returns (dump_rows count i ls qs) (λ rows. (length rows ≡ count) × AreRows ls qs i rows)
unfolding dump_rows
dump_rows-AreRows zero i ls qs lt lt' = ([], refl, (refl, tt))
dump_rows-AreRows (suc count) i ls qs lt lt' =
    let (e, runs, _) = element-Returns ls i (omega arith) in
    let (q, runs', _) = element-Returns qs i (omega arith) in
    let (rows, runs'', (len, are)) =
      dump_rows-AreRows count (suc i) ls qs (omega arith) (omega arith) in
    rw (runs, runs', runs'') ((e, q) ∷ rows, refl, (ground (arith, len), (runs, runs', are)))

module _ (sort : List ℕ → List ℕ) (scaled : Percentile → ℕ → ℕ) where
  -- The lines of `report` are entries of the sorted vectors.
  abbrev pub IsReported : Timed → Report → Type 0
  IsReported t r =
      (p : Percentile)
      → (element (sort t.latencies) (scaled p (length t.latencies)) ≡ ok (r.end_to_end p))
        × (element (sort t.queue_latencies) (scaled p (length t.queue_latencies)) ≡ ok (r.queue p))

  percentiles-Returns :
      (xs : List ℕ)
      → 0 < length xs
      → ((p : Percentile) (n : ℕ) → 0 < n → scaled p n < n)
      → Returns
          (percentiles sort scaled xs)
          (λ f. (p : Percentile) → element xs (scaled p (length xs)) ≡ ok (f p))
  unfolding percentiles
  percentiles-Returns xs some_held inside =
      let (x, ex, _) = element-Returns xs (scaled p50 (length xs)) (inside p50 _ some_held) in
      let (y, ey, _) = element-Returns xs (scaled p99 (length xs)) (inside p99 _ some_held) in
      let (z, ez, _) = element-Returns xs (scaled p999 (length xs)) (inside p999 _ some_held) in
      rw (ex, ey, ez) (three sort scaled x y z, refl, each x y z ex ey ez)
    where
      each :
          (x y z : ℕ)
          → element xs (scaled p50 (length xs)) ≡ ok x
          → element xs (scaled p99 (length xs)) ≡ ok y
          → element xs (scaled p999 (length xs)) ≡ ok z
          → (p : Percentile) → element xs (scaled p (length xs)) ≡ ok (three sort scaled x y z p)
      each x y z ex ey ez p50 = ex
      each x y z ex ey ez p99 = ey
      each x y z ex ey ez p999 = ez

  report-Returns :
      (t : Timed)
      → ((xs : List ℕ) → length (sort xs) ≡ length xs)
      → ((p : Percentile) (n : ℕ) → 0 < n → scaled p n < n)
      → 0 < length t.latencies
      → 0 < length t.queue_latencies
      → Returns (report sort scaled t) (IsReported t)
  unfolding report
  report-Returns t kept inside some_held some_queued =
      let (e, runs, at) =
        percentiles-Returns (sort t.latencies) (omega (arith, kept t.latencies)) inside in
      let (q, runs', at') =
        percentiles-Returns (sort t.queue_latencies) (omega (arith, kept t.queue_latencies))
          inside in
      rw (runs, runs')
        (
          record { end_to_end = e; queue = q },
          refl,
          λ p. (rw (← kept t.latencies) (at p), rw (← kept t.queue_latencies) (at' p)),
        )

module _ (after_pop after_match : ℕ → Timespec) (sort : List ℕ → List ℕ)
    (scaled : Percentile → ℕ → ℕ) (max_orders : ℕ) (msgs : List OrderMessage) (t : Timed)
    (kept : (xs : List ℕ) → length (sort xs) ≡ length xs)
    (inside : (p : Percentile) (n : ℕ) → 0 < n → scaled p n < n)
    (runs : timed_run after_pop after_match max_orders msgs ≡ ok t) where
  -- Where sorting keeps the length of a vector and the index of a percentile is below the size of a
  -- vector that is not empty: after a loop that has handled a message, `report` returns, and each of its
  -- six lines is the entry of the sorted vector at its index; and `dump_latencies` writes one row for
  -- each message handled, with the entries of both vectors at one index.
  pub report-Reported :
      (good : Bool)
      → 0 < handled msgs
      → Returns (report sort scaled t) (IsReported sort scaled t)
        × Returns (dump_latencies true good t) (λ (result, rows).
          (result ≡ good)
          × (length rows ≡ handled msgs)
          × AreRows t.latencies t.queue_latencies 0 rows)
  unfolding dump_latencies
  report-Reported good some_handled =
      let (len, len') = (timed_run-Timed after_pop after_match max_orders msgs).1 t runs in
      let (rows, e, (count, are)) =
        dump_rows-AreRows (length t.latencies) 0 t.latencies t.queue_latencies (omega arith)
          (omega (arith, len, len')) in
      (
        report-Returns sort scaled t kept inside (omega (arith, len)) (omega (arith, len')),
        rw e ((good, rows), refl, (refl, count ∙ len, are)),
      )

  -- Under the same conditions, after a loop that has handled no message, `report` is a fault: it reads
  -- the first percentile of an empty vector.
  pub report-Empty : handled msgs ≡ 0 → report sort scaled t ≡ fault
  unfolding report percentiles
  report-Empty none_handled =
      let (len, len') = (timed_run-Timed after_pop after_match max_orders msgs).1 t runs in
      rw
        (element-empty (sort t.latencies) (scaled p50 (length (sort t.latencies)))
          (kept t.latencies ∙ len ∙ none_handled))
        refl
