-- ===== src/NaiveQueue.antt =====
-- src/engine/naive_queue.h: `NaiveQueue` between a thread that pushes and a thread that pops, as steps
-- that interleave. The mutex is its owner; a thread that waits for `cv_` is asleep until it is notified
-- or wakes for no reason, and then takes the mutex again. `front` and `pop` of an empty `std::queue`
-- are a fault.
pub mod Monitor
pub mod Moves
pub mod Fifo
mod Tests
use lobook.Base.{
  ℕ, Bool, true, false, Option, none, some, List, [], ◌∷◌, ◌++◌, Run, ok, fault, ◌>>=◌,
}

pub data Owner : Type 0 where
  nobody : Owner
  by_producer : Owner
  by_consumer : Owner

-- Where the producer is in `push(msg)`: outside it, at the mutex, at `queue_.push`, at the end of the
-- block that holds the mutex, at `notify_one`.
pub data Producer (A : Type 0) : Type 0 where
  idle : Producer A
  locking : A → Producer A
  pushing : A → Producer A
  unlocking : Producer A
  notifying : Producer A

-- The two calls of the consumer: `pop` and `try_pop`.
pub data Call : Type 0 where
  waits : Call
  tries : Call

-- Where the consumer is: outside, at the mutex, at the test for an empty queue, asleep in `wait`, at
-- `queue_.front`, at `queue_.pop`, at the end, where it gives the mutex back and returns.
pub data Consumer (A : Type 0) : Type 0 where
  away : Consumer A
  entering : Call → Consumer A
  testing : Call → Consumer A
  asleep : Consumer A
  taking : Consumer A
  popping : A → Consumer A
  leaving : Option A → Consumer A

-- The queue and its threads, with a record of what was put in and what the calls returned.
pub record System (A : Type 0) : Type 0 where
  pub queue : List A
  pub owner : Owner
  pub producer : Producer A
  pub consumer : Consumer A
  pub pushed : List A
  pub popped : List A

pub data Event (A : Type 0) : Type 0 where
  call_push : A → Event A
  call_pop : Call → Event A
  producer_step : Event A
  consumer_step : Event A
  spurious : Event A

abbrev pub taken : {A : Type 0} → Option A → List A
taken none = []
taken (some msg) = msg ∷ []

-- A thread that slept is at the mutex again.
abbrev pub wake : {A : Type 0} → Consumer A → Consumer A
wake asleep = entering waits
wake c = c

module _ {A : Type 0} where
  abbrev pub push_step : System A → Producer A → System A
  push_step s idle = s
  push_step s (locking msg) = elim s.owner [
    | nobody ↦ record s { owner = by_producer; producer = pushing msg }
    | by_producer ↦ s
    | by_consumer ↦ s
  ]
  push_step s (pushing msg) = record s {
    queue = s.queue ++ (msg ∷ []);
    pushed = s.pushed ++ (msg ∷ []);
    producer = unlocking;
  }
  push_step s unlocking = record s { owner = nobody; producer = notifying }
  push_step s notifying = record s { producer = idle; consumer = wake s.consumer }

  -- What the test for an empty queue leads to: `wait` gives the mutex back and sleeps, `try_pop`
  -- returns false.
  abbrev pub found_empty : System A → Call → System A
  found_empty s waits = record s { owner = nobody; consumer = asleep }
  found_empty s tries = record s { consumer = leaving none }

  abbrev pub pop_step : System A → Consumer A → Run (System A)
  pop_step s away = ok s
  pop_step s (entering call) = elim s.owner [
    | nobody ↦ ok (record s { owner = by_consumer; consumer = testing call })
    | by_producer ↦ ok s
    | by_consumer ↦ ok s
  ]
  pop_step s (testing call) = elim s.queue [
    | [] ↦ ok (found_empty s call)
    | msg ∷ rest ↦ ok (record s { consumer = taking })
  ]
  pop_step s asleep = ok s
  pop_step s taking = elim s.queue [
    | [] ↦ fault
    | msg ∷ rest ↦ ok (record s { consumer = popping msg })
  ]
  pop_step s (popping msg) = elim s.queue [
    | [] ↦ fault
    | first ∷ rest ↦ ok (record s { queue = rest; consumer = leaving (some msg) })
  ]
  pop_step s (leaving o) =
      ok (record s { owner = nobody; consumer = away; popped = s.popped ++ taken o })

  -- A thread calls only when its last call has returned.
  abbrev pub begin_push : System A → Producer A → A → System A
  begin_push s idle msg = record s { producer = locking msg }
  begin_push s _ msg = s

  abbrev pub begin_pop : System A → Consumer A → Call → System A
  begin_pop s away call = record s { consumer = entering call }
  begin_pop s _ call = s

  unfoldable pub step : System A → Event A → Run (System A)
  step s (call_push msg) = ok (begin_push s s.producer msg)
  step s (call_pop call) = ok (begin_pop s s.consumer call)
  step s producer_step = ok (push_step s s.producer)
  step s consumer_step = pop_step s s.consumer
  step s spurious = ok (record s { consumer = wake s.consumer })

  unfoldable pub run : System A → List (Event A) → Run (System A)
  run s [] = ok s
  run s (e ∷ es) = do s' ← step s e; run s' es

  abbrev pub start : System A
  start = record {
    queue = [];
    owner = nobody;
    producer = idle;
    consumer = away;
    pushed = [];
    popped = [];
  }
