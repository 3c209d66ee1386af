-- ===== src/SpscQueue/Fifo.antt =====
-- First in, first out, for every interleaving of the threads, as long as the consumer has not gone
-- through the ring once.
use lobook.Base.{ℕ, ◌+◌, ◌^◌, ◌≤◌, ◌<◌, Bool}
use lobook.SpscQueue.{SpscQueue}
use lobook.SpscQueue.Steps.{System}
use lobook.SpscQueue.Ring.{pending}

module _ {A : Type 0} (k : ℕ) (small : k ≤ 63) where
  -- The `pop` calls that have begun, and those that a history has still.
  abbrev Within : Bool → System A → ℕ → Type 0
  Within cached s more = s.queue.head + pending cached s.consumer + more < 2 ^ k
