-- ===== src/Engine/Tests.antt =====
-- Runs of the engine.
use lobook.Base.{
  Run, fault, out_of_fuel, Returns, map_run, arith, ◌≡◌, refl, true, false, List, [], ◌∷◌, ◌++◌, ok,
  ◌>>=◌,
}
use lobook.BitsetBook.Match.{init}
use lobook.Engine.{handle, OrderMessage, submit, cancel, run, stop_message}
use lobook.BitsetBook.Samples.{code_runs}
use lobook.BitsetBook.Init.{fresh_book}
use lobook.Chain.Lists.{length}
use lobook.Engine.Latency.{Timed, timed_process, timed_run, report, dump_latencies}
use lobook.Engine.Timed.{timed_run-Timed}
use lobook.Engine.Reports.{IsReported, AreRows, report-Reported, report-Empty}
use lobook.Engine.Samples.{insertion_sort, length-insertion_sort, whole_index, whole_index_lt, tick}
use lobook.Engine.Shutdown.{handle_all, run-stop}

abbrev messages : List OrderMessage
messages =
    record { id = 1; price = 100; qty = 10; timestamp = 5; is_buy = true; type = submit }
    ∷ record { id = 1; price = 0; qty = 0; timestamp = 6; is_buy = false; type = cancel }
    ∷ []

run-stop_example :
    run 8 (messages ++ (stop_message ∷ messages))
    ≡ (do b ← init 8; b' ← handle_all b messages; ok (record { book = b'; stopped = true }))
run-stop_example = run-stop 8 messages messages (refl, (refl, tt))

timed_run-Timed_example :
    (map_run (λ t. t.engine) (timed_run tick tick 8 (messages ++ (stop_message ∷ [])))
      ≡ run 8 (messages ++ (stop_message ∷ [])))
    × ((t : Timed)
        → timed_run tick tick 8 (messages ++ (stop_message ∷ [])) ≡ ok t
        → (length t.latencies ≡ 2) × (length t.queue_latencies ≡ 2))
timed_run-Timed_example = timed_run-Timed tick tick 8 (messages ++ (stop_message ∷ []))

abbrev value_of : Run Timed → Timed → Timed
value_of (ok t) other = t
value_of out_of_fuel other = other
value_of fault other = other

-- Two messages and the message of `stop`.
two_handled : Timed
unfolding timed_run timed_process handle code_runs
two_handled = value_of (timed_run tick tick 8 (messages ++ (stop_message ∷ []))) (record {
  engine = record { book = fresh_book 8 (omega arith) (omega arith); stopped = false };
  latencies = [];
  queue_latencies = [];
})

two_handled_runs : timed_run tick tick 8 (messages ++ (stop_message ∷ [])) ≡ ok two_handled
unfolding two_handled
two_handled_runs = refl

report-Reported_example :
    Returns
      (report insertion_sort whole_index two_handled)
      (IsReported insertion_sort whole_index two_handled)
    × Returns (dump_latencies true true two_handled) (λ (result, rows).
      (result ≡ true)
      × (length rows ≡ 2)
      × AreRows two_handled.latencies two_handled.queue_latencies 0 rows)
report-Reported_example =
    report-Reported tick tick insertion_sort whole_index 8 (messages ++ (stop_message ∷ []))
      two_handled length-insertion_sort whole_index_lt two_handled_runs true (omega arith)

none_handled : Timed
unfolding timed_run timed_process code_runs
none_handled = value_of (timed_run tick tick 8 (stop_message ∷ [])) (record {
  engine = record { book = fresh_book 8 (omega arith) (omega arith); stopped = false };
  latencies = [];
  queue_latencies = [];
})

none_handled_runs : timed_run tick tick 8 (stop_message ∷ []) ≡ ok none_handled
unfolding none_handled
none_handled_runs = refl

report-Empty_example : report insertion_sort whole_index none_handled ≡ fault
report-Empty_example =
    report-Empty tick tick insertion_sort whole_index 8 (stop_message ∷ []) none_handled
      length-insertion_sort whole_index_lt none_handled_runs refl
