-- ===== src/Server/Pipeline.antt =====
-- The harness from its workload to its report.
use lobook.Base.{
  ℕ, zero, suc, ◌≤◌, ◌<◌, ◌≡◌, refl, ap, ◌∙◌, fun_ext, inl, inr, Bool, true, false, List, [], ◌∷◌,
  ◌++◌, if◌then◌else◌, Bool-cases, Run, ok, fault, out_of_fuel, ◌>>=◌, Returns, map_run, is_empty,
  arith,
}
use lobook.Chain.Lists.{length}
use lobook.BitsetBook.{Book}
use lobook.BitsetBook.Match.{init, submit_order}
use lobook.BitsetBook.Session.{Incoming, submit_all, session-Uncrossed}
use lobook.BitsetBook.Consecutive.{Consecutive, Consecutive-IsValid}
use lobook.BitsetBook.Uncrossed.{Uncrossed}
use lobook.Server.Pacing.{readings, IsSteady, next_due, IsStamped, network_thread-Stamped}
use lobook.Engine.{OrderMessage, is_shutdown, Engine, handle, run, stop_message}
use lobook.Engine.Shutdown.{handle_all, NoShutdown, run-stop}
use lobook.Engine.Latency.{Timespec, Timed, timed_run, Percentile, dump_latencies}
use lobook.Engine.Timed.{handled, timed_run-Timed}
use lobook.Engine.Reports.{IsReported, report-Reported}
use lobook.Server.{Args}
use lobook.Server.Harness.{
  book_orders, build_workload, pushed, Outcome, failed, reported, run_harness,
}

-- The orders that the workload's messages submit.
abbrev orders_from : ℕ → ℕ → List Incoming
orders_from i zero = []
orders_from i (suc count) =
    record { id = i; price = 100; qty = 10; is_buy = true } ∷ orders_from (suc i) count

orders_from-Consecutive : (i count : ℕ) → Consecutive i (orders_from i count)
orders_from-Consecutive i zero = tt
orders_from-Consecutive i (suc count) = (refl, omega arith, orders_from-Consecutive (suc i) count)

length-orders_from : (i count : ℕ) → length (orders_from i count) ≡ count
length-orders_from i zero = refl
length-orders_from i (suc count) = ap suc (length-orders_from (suc i) count)

length-build_workload : (i count : ℕ) → length (build_workload i count) ≡ count
unfolding build_workload
length-build_workload i zero = refl
length-build_workload i (suc count) = ap suc (length-build_workload (suc i) count)

-- What is pushed of a workload, whatever its stamps.
module _ (pacing_ns : ℕ) where
  stamped-NoShutdown :
      (due i count : ℕ) (msgs : List OrderMessage)
      → IsStamped pacing_ns due (build_workload i count) msgs
      → NoShutdown msgs
  unfolding build_workload
  stamped-NoShutdown due i zero [] s = tt
  stamped-NoShutdown due i zero (x ∷ xs) s = absurd s
  stamped-NoShutdown due i (suc count) [] s = tt
  stamped-NoShutdown due i (suc count) (x ∷ xs) (same, _, s) =
      (ap is_shutdown same, stamped-NoShutdown (next_due pacing_ns x) (suc i) count xs s)

  handled-stamped :
      (due i count : ℕ) (msgs : List OrderMessage)
      → IsStamped pacing_ns due (build_workload i count) msgs
      → handled (msgs ++ (stop_message ∷ [])) ≡ count
  unfolding build_workload
  handled-stamped due i zero [] s = refl
  handled-stamped due i zero (x ∷ xs) s = absurd s
  handled-stamped due i (suc count) [] s = absurd s
  handled-stamped due i (suc count) (x ∷ xs) (same, _, s) =
      let submits : is_shutdown x ≡ false = ap is_shutdown same in
      rw submits (ap suc (handled-stamped (next_due pacing_ns x) (suc i) count xs s))

  handle_all-submit_all :
      (b : Book) (due i count : ℕ) (msgs : List OrderMessage)
      → IsStamped pacing_ns due (build_workload i count) msgs
      → handle_all b msgs ≡ submit_all b (orders_from i count)
  unfolding build_workload handle_all submit_all handle
  handle_all-submit_all b due i zero [] s = refl
  handle_all-submit_all b due i zero (x ∷ xs) s = absurd s
  handle_all-submit_all b due i (suc count) [] s = absurd s
  handle_all-submit_all b due i (suc count) (x ∷ xs) (same, _, s) =
      ap (λ r. r >>= λ b'. handle_all b' xs) (ap (handle b) same)
      ∙ ap (λ f. submit_order b i 100 10 true >>= f)
          (fun_ext λ b'. handle_all-submit_all b' (next_due pacing_ns x) (suc i) count xs s)

  abbrev stopped_at : Book → Run Engine
  stopped_at b = ok (record { book = b; stopped = true })

  -- The engine has handled the whole workload and stopped.
  abbrev Stopped : Engine → Type 0
  Stopped e = (e.stopped ≡ true) × Uncrossed e.book

  engine-Stopped :
      (workload : ℕ) (msgs : List OrderMessage)
      → workload ≤ book_orders
      → IsStamped pacing_ns 0 (build_workload 0 workload) msgs
      → Returns (run book_orders (msgs ++ (stop_message ∷ []))) Stopped
  engine-Stopped workload msgs le s =
      let (b', e, u) =
        session-Uncrossed book_orders (orders_from 0 workload) (omega arith) (omega arith) (
          Consecutive-IsValid book_orders 0 (orders_from 0 workload)
            (orders_from-Consecutive 0 workload) (omega (arith, length-orders_from 0 workload))) in
      (
        record { book = b'; stopped = true },
        run-stop book_orders msgs [] (stamped-NoShutdown 0 0 workload msgs s)
            ∙ finish (init book_orders) b' e,
        (refl, u),
      )
    where
      finish :
          (r : Run Book) (b' : Book)
          → (r >>= λ b. submit_all b (orders_from 0 workload)) ≡ ok b'
          → (r >>= λ b. handle_all b msgs >>= λ b''. stopped_at b'') ≡ stopped_at b'
      finish (ok b) b' e = rw (handle_all-submit_all b 0 0 workload msgs s, e) refl
      finish out_of_fuel b' e = cc
      finish fault b' e = cc

-- A run is known to return where its image does.
returned :
    {S T : Type 0} (f : S → T) (r : Run S) (e : T) → map_run f r ≡ ok e → Returns r (λ a. f a ≡ e)
returned f (ok a) e same = (a, refl, cc same)
returned f out_of_fuel e same = cc same
returned f fault e same = cc same

module _ (after_pop after_match : ℕ → Timespec) (pacing_ns : ℕ) where
  timed_Stopped :
      (workload : ℕ) (msgs : List OrderMessage)
      → workload ≤ book_orders
      → IsStamped pacing_ns 0 (build_workload 0 workload) msgs
      → Returns
          (timed_run after_pop after_match book_orders (msgs ++ (stop_message ∷ [])))
          (λ t. (t.engine.stopped ≡ true) × Uncrossed t.engine.book)
  timed_Stopped workload msgs le s =
      let (e, runs, post) = engine-Stopped pacing_ns workload msgs le s in
      let (t, runs', same) =
        returned (λ (t : Timed). t.engine) _ e
          ((timed_run-Timed after_pop after_match book_orders (msgs ++ (stop_message ∷ []))).0
            ∙ runs) in
      (t, runs', rw same post)

module _ (polls : ℕ) (clock after_pop after_match : ℕ → Timespec) (sort : List ℕ → List ℕ)
    (scaled : Percentile → ℕ → ℕ) (opened good : Bool) where
  -- What the harness leaves of a workload that it has reported on.
  abbrev pub IsOutcome : Args → Outcome → Type 0
  IsOutcome args failed = ⊥
  IsOutcome args (reported t rows r) =
      (t.engine.stopped ≡ true)
      × Uncrossed t.engine.book
      × (length t.latencies ≡ args.workload)
      × (length rows ≡ (if is_empty args.dump_latencies then 0 else args.workload))
      × IsReported sort scaled t r

  -- With a workload of 1 to 100'000 messages, and a file that opens and is written if one is asked for,
  -- `run` comes to its report without a fault, provided that the clock of the network thread, over the
  -- readings that the workload can take, does not go back and passes the pacing interval of any reading
  -- within the next `polls`, that sorting
  -- keeps the length of a vector, and that the index of a percentile is below the size of a vector that
  -- is not empty. The engine has stopped, with a well-formed book that is not crossed; there is a
  -- latency for each message of the workload and a row of the file for each, if there is a file; and
  -- the lines of the report are entries of the sorted vectors.
  pub run_harness-Outcome :
      (args : Args)
      → IsSteady polls clock args.pacing_ns (readings polls args.workload)
      → 0 < args.workload
      → args.workload ≤ book_orders
      → (is_empty args.dump_latencies ≡ false → (opened ≡ true) × (good ≡ true))
      → ((xs : List ℕ) → length (sort xs) ≡ length xs)
      → ((p : Percentile) (n : ℕ) → 0 < n → scaled p n < n)
      → Returns
          (run_harness polls clock after_pop after_match sort scaled opened good args)
          (IsOutcome args)
  unfolding run_harness pushed
  run_harness-Outcome args steady some_work le file kept inside =
      let few : readings polls (length (build_workload 0 args.workload))
          ≤ readings polls args.workload =
        rw (length-build_workload 0 args.workload) (omega arith) in
      let (msgs, pushes, s) =
        network_thread-Stamped polls clock args.pacing_ns (readings polls args.workload) steady 0 0
          (build_workload 0 args.workload) (omega (arith, few)) (omega arith) in
      let all = msgs ++ (stop_message ∷ []) in
      let count = handled-stamped args.pacing_ns 0 0 args.workload msgs s in
      let (t, runs, (stopped, unc)) =
        timed_Stopped after_pop after_match args.pacing_ns args.workload msgs le s in
      let len = ((timed_run-Timed after_pop after_match book_orders all).1 t runs).0 in
      let ((r, reports, is), ((result, rows), dumps, (went, many, are))) =
        report-Reported after_pop after_match sort scaled book_orders all t kept inside runs good
          (omega (arith, count)) in
      elim (Bool-cases (is_empty args.dump_latencies)) [
        | inl none_asked ↦
            rw (pushes, runs, none_asked, reports)
              (_, refl, (stopped, unc, len ∙ count, rw none_asked refl, is))
        | inr asked ↦
            let dumped : dump_latencies opened good t ≡ ok (true, rows) =
              ap (λ x. dump_latencies x good t) (file asked).0
              ∙ dumps
              ∙ ap (λ x. ok (x, rows)) (went ∙ (file asked).1) in
            rw (pushes, runs, asked, dumped, reports)
              (_, refl, (stopped, unc, len ∙ count, rw asked (many ∙ count), is))
      ]
