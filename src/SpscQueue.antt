-- ===== src/SpscQueue.antt =====
-- src/engine/spsc_queue.h: `SPSCQueue`, the ring between one producer and one consumer. A call is a
-- few steps of its thread, each with at most one access to the memory that the threads share, and the
-- steps of the threads interleave in any order. `N` is the capacity, a power of two.
pub mod Steps
pub mod Ring
pub mod Push
pub mod Fifo
mod Tests
use lobook.Base.{ℕ, ◌+◌, ◌-◌, ◌%◌, ◌^◌, Bool, bit_and, ◌==◌, if◌then◌else◌, update}

pub record SpscQueue (A : Type 0) : Type 0 where
  pub buffer : ℕ → A
  pub head : ℕ
  pub tail_cached : ℕ
  pub tail : ℕ
  pub head_cached : ℕ

-- `mask_`, and a slot of the ring.
abbrev pub mask : ℕ → ℕ
mask capacity = capacity - 1

abbrev pub slot : ℕ → ℕ → ℕ
slot capacity idx = bit_and idx (mask capacity)

-- An index after another, as a `size_t`.
abbrev pub next_idx : ℕ → ℕ
next_idx idx = (idx + 1) % 2 ^ 64

-- `next_tail_idx == h`, where `next_tail_idx` is masked.
abbrev pub looks_full : ℕ → ℕ → ℕ → Bool
looks_full capacity tail_idx h = bit_and (tail_idx + 1) (mask capacity) == h

abbrev pub looks_empty : ℕ → ℕ → Bool
looks_empty head_idx t = head_idx == t

module _ {A : Type 0} where
  -- The producer's stores.
  abbrev pub cache_head : SpscQueue A → SpscQueue A
  cache_head q = record q { head_cached = q.head }

  abbrev pub write_slot : ℕ → SpscQueue A → A → SpscQueue A
  write_slot capacity q msg = record q { buffer = update q.buffer (slot capacity q.tail) msg }

  abbrev pub publish_tail : SpscQueue A → SpscQueue A
  publish_tail q = record q { tail = next_idx q.tail }

  -- The consumer's.
  abbrev pub cache_tail : SpscQueue A → SpscQueue A
  cache_tail q = record q { tail_cached = q.tail }

  abbrev pub read_slot : ℕ → SpscQueue A → A
  read_slot capacity q = q.buffer (slot capacity q.head)

  abbrev pub publish_head : SpscQueue A → SpscQueue A
  publish_head q = record q { head = next_idx q.head }
