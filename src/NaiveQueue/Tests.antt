-- ===== src/NaiveQueue/Tests.antt =====
-- Runs of the queue under a mutex.
use lobook.Base.{ℕ, ◌≡◌, refl, List, [], ◌∷◌, ok, map_run, Returns}
use lobook.NaiveQueue.{
  System, Event, waits, call_push, call_pop, producer_step, consumer_step, spurious, step, run,
  start,
}
use lobook.NaiveQueue.Fifo.{IsFifo, run-Fifo}

-- A `pop` that sleeps on an empty queue, wakes once for no reason, is notified by a `push`, and returns
-- the message.
abbrev woken_by_push : List (Event ℕ)
woken_by_push =
    call_pop waits
    ∷ consumer_step
    ∷ consumer_step
    ∷ spurious
    ∷ consumer_step
    ∷ consumer_step
    ∷ call_push 7
    ∷ producer_step
    ∷ producer_step
    ∷ producer_step
    ∷ producer_step
    ∷ consumer_step
    ∷ consumer_step
    ∷ consumer_step
    ∷ consumer_step
    ∷ consumer_step
    ∷ []

woken_returns : map_run (λ (s : System ℕ). s.popped) (run start woken_by_push) ≡ ok (7 ∷ [])
unfolding run step
woken_returns = refl

run-Fifo_example : Returns (run start woken_by_push) IsFifo
run-Fifo_example = run-Fifo woken_by_push
