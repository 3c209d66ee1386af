-- ===== src/Server/Tests.antt =====
-- Runs of `parse_args`, and of the harness.
use lobook.Base.{ℕ, ◌≡◌, refl, true, Option, none, some, [], ◌∷◌, ◌++◌, Returns, Text, codes, arith}
use lobook.Server.{
  Args, initial, accepted, rejected, then_parse, check_mode, parse_arg, parse_each, parse_args,
  naive, chosen_queue,
}
use lobook.Server.Arguments.{
  name_of, to_argv, parse_args-chosen_queue, parse_args-unknown, parse_args-to_argv,
}
use lobook.Server.Harness.{run_harness}
use lobook.Server.Pacing.{readings, IsSteady}
use lobook.Server.Pipeline.{IsOutcome, run_harness-Outcome}
use lobook.Engine.Samples.{insertion_sort, length-insertion_sort, whole_index, whole_index_lt, tick}

-- Numbers written as a single digit of any size.
abbrev digit : ℕ → Text
digit n = n ∷ []

abbrev read_digit : Text → Option ℕ
read_digit [] = none
read_digit (n ∷ s) = some n

abbrev three_orders : Args
three_orders = record {
  queue_mode = codes "naive";
  pacing_ns = 500;
  workload = 3;
  dump_latencies = codes "out.csv";
}

parse_args-to_argv_example :
    parse_args read_digit initial (to_argv digit three_orders) ≡ accepted three_orders
parse_args-to_argv_example =
    parse_args-to_argv read_digit digit initial three_orders naive (λ n lt. refl) refl (omega arith)
      (omega arith)

naive_runs :
    parse_args read_digit initial (codes "--queue=naive" ∷ [])
    ≡ accepted (record initial { queue_mode = codes "naive" })
unfolding parse_args parse_each parse_arg check_mode
naive_runs = refl

parse_args-chosen_queue_example :
    name_of (chosen_queue (record initial { queue_mode = codes "naive" })) ≡ codes "naive"
parse_args-chosen_queue_example =
    parse_args-chosen_queue read_digit initial (record initial { queue_mode = codes "naive" })
      (codes "--queue=naive" ∷ []) naive_runs

parse_args-unknown_example :
    parse_args read_digit initial
      ((codes "--queue=naive" ∷ []) ++ (codes "--fast" ∷ codes "-h" ∷ []))
    ≡ then_parse (parse_each read_digit initial (codes "--queue=naive" ∷ [])) (λ _. rejected)
parse_args-unknown_example =
    parse_args-unknown read_digit initial (codes "--queue=naive" ∷ []) (codes "-h" ∷ [])
      (codes "--fast") refl

tick-IsSteady : IsSteady 5 tick 500 (readings 5 3)
tick-IsSteady = record {
  forward = λ n lt. omega arith;
  passes = λ n lt. (4, omega arith, omega arith);
}

run_harness-Outcome_example :
    Returns
      (run_harness 5 tick tick tick insertion_sort whole_index true true three_orders)
      (IsOutcome 5 tick tick tick insertion_sort whole_index true true three_orders)
run_harness-Outcome_example =
    run_harness-Outcome 5 tick tick tick insertion_sort whole_index true true three_orders
      tick-IsSteady (omega arith) (omega arith) (λ e. (refl, refl)) length-insertion_sort
      whole_index_lt
