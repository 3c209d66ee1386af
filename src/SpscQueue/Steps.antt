-- ===== src/SpscQueue/Steps.antt =====
-- `push` and `pop` as steps, and the histories of the two threads.
use lobook.Base.{ℕ, suc, Bool, not, ◌&&◌, List, [], ◌∷◌, if◌then◌else◌, update}
use lobook.SpscQueue.{
  SpscQueue, looks_full, looks_empty, cache_head, write_slot, publish_tail, cache_tail, read_slot,
  publish_head,
}

-- Where the producer is in `push(msg)`: outside it, at the test of its cached index, in the spin loop,
-- at the write of the slot, at the store of `tail_`.
pub data Producer (A : Type 0) : Type 0 where
  idle : Producer A
  testing : A → Producer A
  spinning : A → Producer A
  writing : A → Producer A
  publishing : A → Producer A

-- Where the consumer is in `pop()`.
pub data Consumer (A : Type 0) : Type 0 where
  away : Consumer A
  checking : Consumer A
  waiting : Consumer A
  reading : Consumer A
  returning : A → Consumer A

-- The queue with its threads, and a record of what the calls gave and got: the message of the `i`-th
-- `push`, and what the `i`-th `pop` returned.
pub record System (A : Type 0) : Type 0 where
  pub queue : SpscQueue A
  pub producer : Producer A
  pub consumer : Consumer A
  pub pushed : ℕ → A
  pub popped : ℕ → A

pub data Event (A : Type 0) : Type 0 where
  call_push : A → Event A
  call_pop : Event A
  producer_step : Event A
  consumer_step : Event A

module _ {A : Type 0} (capacity : ℕ) (cached : Bool) where
  abbrev pub push_step : System A → Producer A → System A
  push_step s idle = s
  push_step s (testing msg) =
      if cached && not (looks_full capacity s.queue.tail s.queue.head_cached)
      then record s { producer = writing msg }
      else record s { producer = spinning msg }
  push_step s (spinning msg) =
      if looks_full capacity s.queue.tail s.queue.head then s else record s {
        producer = writing msg;
        queue = if cached then cache_head s.queue else s.queue;
      }
  push_step s (writing msg) = record s {
    producer = publishing msg;
    queue = write_slot capacity s.queue msg;
  }
  push_step s (publishing msg) = record s { producer = idle; queue = publish_tail s.queue }

  abbrev pub pop_step : System A → Consumer A → System A
  pop_step s away = s
  pop_step s checking =
      if cached && not (looks_empty s.queue.head s.queue.tail_cached)
      then record s { consumer = reading }
      else record s { consumer = waiting }
  pop_step s waiting =
      if looks_empty s.queue.head s.queue.tail
      then s
      else record s { consumer = reading; queue = if cached then cache_tail s.queue else s.queue }
  pop_step s reading = record s { consumer = returning (read_slot capacity s.queue) }
  pop_step s (returning msg) = record s {
    consumer = away;
    queue = publish_head s.queue;
    popped = update s.popped s.queue.head msg;
  }

  -- A thread calls only when its last call has returned.
  abbrev pub begin_push : System A → Producer A → A → System A
  begin_push s idle msg = record s {
    producer = testing msg;
    pushed = update s.pushed s.queue.tail msg;
  }
  begin_push s (testing m) msg = s
  begin_push s (spinning m) msg = s
  begin_push s (writing m) msg = s
  begin_push s (publishing m) msg = s

  abbrev pub begin_pop : System A → Consumer A → System A
  begin_pop s away = record s { consumer = checking }
  begin_pop s checking = s
  begin_pop s waiting = s
  begin_pop s reading = s
  begin_pop s (returning m) = s

  unfoldable pub step : System A → Event A → System A
  step s (call_push msg) = begin_push s s.producer msg
  step s call_pop = begin_pop s s.consumer
  step s producer_step = push_step s s.producer
  step s consumer_step = pop_step s s.consumer

  unfoldable pub run : System A → List (Event A) → System A
  run s [] = s
  run s (e ∷ es) = run (step s e) es

-- The `pop` calls of a history.
abbrev pub pops : {A : Type 0} → List (Event A) → ℕ
pops [] = 0
pops (call_push m ∷ es) = pops es
pops (call_pop ∷ es) = suc (pops es)
pops (producer_step ∷ es) = pops es
pops (consumer_step ∷ es) = pops es

abbrev pub start : {A : Type 0} → A → System A
start nothing_yet = record {
  queue = record {
    buffer = λ _. nothing_yet;
    head = 0;
    tail_cached = 0;
    tail = 0;
    head_cached = 0;
  };
  producer = idle;
  consumer = away;
  pushed = λ _. nothing_yet;
  popped = λ _. nothing_yet;
}
