-- ===== src/Server/Harness.antt =====
-- `run` of src/server.cpp: the workload, the network thread that stamps and pushes it, and the engine
-- that the queue delivers it to.
use lobook.Base.{
  ℕ, zero, suc, ◌+◌, ◌%◌, ◌^◌, leb, out_of_fuel, true, Bool, List, [], ◌∷◌, ◌++◌, Run, ok, ◌>>=◌,
  if◌then◌else◌, not, is_empty,
}
use lobook.Engine.{OrderMessage, submit, stop_message}
use lobook.Engine.Latency.{
  Timespec, to_ns, Timed, timed_run, Percentile, Report, report, dump_latencies,
}
use lobook.Server.{Args}

-- `kQueueCapacity` and `kBookOrders`
abbrev pub queue_capacity : ℕ
queue_capacity = 131072

abbrev pub book_orders : ℕ
book_orders = 100000

-- The message that the loop over the workload builds for `i`.
abbrev pub workload_message : ℕ → OrderMessage
workload_message i = record {
  id = i;
  price = 100;
  qty = 10;
  timestamp = 0;
  is_buy = true;
  type = submit;
}

-- `count` messages from `i` on.
unfoldable pub build_workload : ℕ → ℕ → List OrderMessage
build_workload i zero = []
build_workload i (suc count) = workload_message i ∷ build_workload (suc i) count

-- The network thread, on the readings of its clock in their order.
module _ (polls : ℕ) (clock : ℕ → Timespec) (pacing_ns : ℕ) where
  -- The busy loop behind a push, from reading `n` on, with at most `fuel` readings; the number of the
  -- first reading that it leaves.
  unfoldable pub pace : ℕ → ℕ → ℕ → Run ℕ
  pace zero wait_until n = out_of_fuel
  pace (suc fuel) wait_until n =
      if leb wait_until (to_ns (clock n)) then ok (suc n) else pace fuel wait_until (suc n)

  -- `wait_until`, for a message stamped with reading `n`.
  abbrev pub deadline : ℕ → ℕ
  deadline n = (to_ns (clock n) + pacing_ns) % 2 ^ 64

  -- What the thread pushes, from reading `n` on.
  unfoldable pub network_thread : ℕ → List OrderMessage → Run (List OrderMessage)
  network_thread n [] = ok []
  network_thread n (msg ∷ msgs) = do
    n' ← pace polls (deadline n) (suc n)
    rest ← network_thread n' msgs
    ok (record msg { timestamp = to_ns (clock n) } ∷ rest)

  -- All that is pushed: the workload, and the message of `stop`, once the thread has been joined.
  unfoldable pub pushed : ℕ → Run (List OrderMessage)
  pushed workload = do
    msgs ← network_thread 0 (build_workload 0 workload)
    ok (msgs ++ (stop_message ∷ []))

-- How `run` ends: with the rows of its file, if one was asked for, and the report; or it returns
-- false.
pub data Outcome : Type 0 where
  failed : Outcome
  reported : Timed → List (ℕ × ℕ) → Report → Outcome

module _ (polls : ℕ) (clock after_pop after_match : ℕ → Timespec) (sort : List ℕ → List ℕ)
    (scaled : Percentile → ℕ → ℕ) (opened good : Bool) where
  unfoldable pub run_harness : Args → Run Outcome
  run_harness args = do
    msgs ← pushed polls clock args.pacing_ns args.workload
    t ← timed_run after_pop after_match book_orders msgs
    (written, rows) ←
        if not (is_empty args.dump_latencies) then dump_latencies opened good t else ok (true, [])
    if not written then ok failed else do r ← report sort scaled t; ok (reported t rows r)
