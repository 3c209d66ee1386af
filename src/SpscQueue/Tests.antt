-- ===== src/SpscQueue/Tests.antt =====
-- Runs of the ring queue.
use lobook.Base.{ℕ, ◌≡◌, refl, true, List, [], ◌∷◌}
use lobook.SpscQueue.Steps.{
  System, Event, call_push, call_pop, producer_step, consumer_step, step, run, start,
}

-- A whole `push`, and a whole `pop`, of the cached queue.
abbrev push_now : ℕ → List (Event ℕ) → List (Event ℕ)
push_now msg es = call_push msg ∷ producer_step ∷ producer_step ∷ producer_step ∷ producer_step ∷ es

abbrev pop_now : List (Event ℕ) → List (Event ℕ)
pop_now es = call_pop ∷ consumer_step ∷ consumer_step ∷ consumer_step ∷ consumer_step ∷ es

-- The producer runs ahead of the consumer, which takes two of the three messages.
abbrev history : List (Event ℕ)
history = push_now 7 (push_now 8 (pop_now (push_now 9 (pop_now []))))

-- Two messages have gone through a ring of two; three more are pushed with nothing taken, and the
-- first of them is overwritten: `push` never finds the ring full.
overrun : System ℕ
unfolding run step
overrun = run 2 true (start 0) (
    push_now 1 (pop_now (push_now 2 (pop_now (push_now 3 (push_now 4 (push_now 5 (pop_now []))))))))

overrun_pushed : overrun.pushed 2 ≡ 3
unfolding overrun
overrun_pushed = refl

overrun_popped : overrun.popped 2 ≡ 5
unfolding overrun
overrun_popped = refl
