-- ===== src/NaiveQueue/Fifo.antt =====
-- Every interleaving of the two threads of a `NaiveQueue`: the mutex keeps them apart, messages leave in
-- the order in which they came, and no wakeup is lost.
use lobook.Base.{◌≡◌, refl, false, ◌&&◌, List, [], ◌∷◌, ◌++◌, Returns}
use lobook.NaiveQueue.{
  Owner, nobody, by_producer, by_consumer, Producer, Consumer, System, Event, call_push, call_pop,
  producer_step, consumer_step, spurious, step, run, start,
}
use lobook.NaiveQueue.Monitor.{Owned, in_push, in_pop, in_hand, Awake, IsMonitor, consumer_woken}
use lobook.NaiveQueue.Moves.{push_step-IsMonitor, pop_step-IsMonitor, begun_push, begun_pop}

module _ {A : Type 0} where
  step-IsMonitor : (s : System A) (e : Event A) → IsMonitor s → Returns (step s e) IsMonitor
  unfolding step
  step-IsMonitor s (call_push msg) m = (_, refl, begun_push s s.producer msg m)
  step-IsMonitor s (call_pop call) m = (_, refl, begun_pop s s.consumer call m)
  step-IsMonitor s producer_step m =
      (_, refl, push_step-IsMonitor s.queue s.owner s.producer s.consumer s.pushed s.popped m)
  step-IsMonitor s consumer_step m =
      pop_step-IsMonitor s.queue s.owner s.producer s.consumer s.pushed s.popped m
  step-IsMonitor s spurious m = (_, refl, consumer_woken s s.producer m refl)

  run-IsMonitor : (s : System A) (es : List (Event A)) → IsMonitor s → Returns (run s es) IsMonitor
  unfolding run
  run-IsMonitor s [] m = (s, refl, m)
  run-IsMonitor s (e ∷ es) m =
      let (s', went, m') = step-IsMonitor s e m in rw went (run-IsMonitor s' es m')

  -- What the users of the queue see of it.
  abbrev pub IsFifo : System A → Type 0
  IsFifo s =
      (s.pushed ≡ s.popped ++ (in_hand s.consumer ++ s.queue))
      × ((in_push s.producer && in_pop s.consumer) ≡ false)
      × Awake s.producer s.consumer s.queue

  apart :
      (o : Owner) (p : Producer A) (c : Consumer A) → Owned o p c → (in_push p && in_pop c) ≡ false
  apart nobody p c (hp, hc) = rw hp refl
  apart by_producer p c (hp, hc) = rw (hp, hc) refl
  apart by_consumer p c (hp, hc) = rw hp refl

  -- From an empty queue, any calls and steps of a thread that pushes and a thread that pops, in any order
  -- and with any spurious wakeups, run without `front` or `pop` of an empty `std::queue`. What was
  -- pushed is what was returned, then what a call has taken and not yet returned, then what the queue
  -- holds, in that order. The threads are never both where they hold the mutex, and a consumer that
  -- sleeps while a message is there will be notified by the push under way.
  pub run-Fifo : (es : List (Event A)) → Returns (run start es) IsFifo
  run-Fifo es =
      let (s, went, m) =
        run-IsMonitor start es
          (record { owned = (refl, refl); order = refl; ready = tt; awake = tt }) in
      (s, went, (m.order, apart s.owner s.producer s.consumer m.owned, m.awake))
