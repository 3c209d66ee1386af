-- ===== src/SpscQueue/Ring.antt =====
-- What holds of the ring and of its threads after any steps, and the tests of the producer.
use lobook.Base.{
  ℕ, ◌+◌, ◌%◌, ◌^◌, ◌≤◌, ◌<◌, ◌≡◌, ◌≢◌, sym, ap, ◌∙◌, inl, inr, Bool, true, false, if◌then◌else◌,
  Bool-cases, ==→ne, arith,
}
use native.Mathlib.Nat.{pow-le-pow_right}
use lobook.Base.Bits.Mask.{bit_and-mask, mod-inj, add-mod_self}
use lobook.SpscQueue.{SpscQueue, slot, looks_full, cache_head}
use lobook.SpscQueue.Steps.{
  Producer, idle, testing, spinning, writing, publishing, Consumer, away, checking, waiting,
  reading, returning, System, push_step,
}

module _ (k : ℕ) where
  pub slot_ne : (i d : ℕ) → d < 2 ^ k → d ≢ 0 → slot (2 ^ k) (i + d) ≢ slot (2 ^ k) i
  slot_ne i d lt ne e =
      ne (mod-inj (2 ^ k) i d lt (sym (bit_and-mask k (i + d)) ∙ e ∙ bit_and-mask k i))

  -- A test that fails leaves room for one more.
  pub room :
      (t h : ℕ) → h < 2 ^ k → t + 1 ≤ h + 2 ^ k → looks_full (2 ^ k) t h ≡ false → t + 2 ≤ h + 2 ^ k
  room t h lt le e = omega (arith, not_full)
    where
      not_full : t + 1 ≢ h + 2 ^ k
      not_full same =
          ==→ne _ _ e
            (bit_and-mask k (t + 1) ∙ ap (λ x. x % 2 ^ k) same ∙ add-mod_self (2 ^ k) h lt)

  pub capacity_le : k ≤ 63 → 2 ^ k ≤ 2 ^ 63
  capacity_le small = pow-le-pow_right (omega arith) small

module _ {A : Type 0} (cached : Bool) where
  -- The index of the other side that a test of this side went by.
  abbrev pub head_seen : SpscQueue A → ℕ
  head_seen q = if cached then q.head_cached else q.head

  abbrev pub tail_seen : SpscQueue A → ℕ
  tail_seen q = if cached then q.tail_cached else q.tail

  abbrev pub ProducerOk : ℕ → SpscQueue A → (ℕ → A) → Producer A → Type 0
  ProducerOk n q pushed idle = Unit
  ProducerOk n q pushed (testing msg) = pushed q.tail ≡ msg
  ProducerOk n q pushed (spinning msg) = pushed q.tail ≡ msg
  ProducerOk n q pushed (writing msg) = (pushed q.tail ≡ msg) × (q.tail + 2 ≤ head_seen q + n)
  ProducerOk n q pushed (publishing msg) =
      (pushed q.tail ≡ msg) × (q.tail + 2 ≤ head_seen q + n) × (q.buffer (slot n q.tail) ≡ msg)

  abbrev pub ConsumerOk : SpscQueue A → (ℕ → A) → Consumer A → Type 0
  ConsumerOk q pushed away = Unit
  ConsumerOk q pushed checking = Unit
  ConsumerOk q pushed waiting = Unit
  ConsumerOk q pushed reading = q.head + 1 ≤ tail_seen q
  ConsumerOk q pushed (returning msg) = (q.head + 1 ≤ tail_seen q) × (msg ≡ pushed q.head)

  -- The `pop` that has begun.
  abbrev pub pending : Consumer A → ℕ
  pending away = 0
  pending checking = 1
  pending waiting = 1
  pending reading = 1
  pending (returning msg) = 1

  pub record IsRing (n : ℕ) (s : System A) : Type 0 where
    pub head_le : head_seen s.queue ≤ s.queue.head
    pub tail_le : tail_seen s.queue ≤ s.queue.tail
    pub order : s.queue.head ≤ tail_seen s.queue
    pub bounded : s.queue.tail + 1 ≤ head_seen s.queue + n
    pub held :
        (i : ℕ) → s.queue.head ≤ i → i < s.queue.tail → s.queue.buffer (slot n i) ≡ s.pushed i
    pub given : (i : ℕ) → i < s.queue.head → s.popped i ≡ s.pushed i
    pub producing : ProducerOk n s.queue s.pushed s.producer
    pub consuming : ConsumerOk s.queue s.pushed s.consumer

module _ {A : Type 0} (k : ℕ) (small : k ≤ 63) where
  pub with_producer :
      (cached : Bool) (s : System A) (p : Producer A)
      → ProducerOk cached (2 ^ k) s.queue s.pushed p
      → IsRing cached (2 ^ k) s
      → IsRing cached (2 ^ k) (record s { producer = p })
  with_producer cached s p ok_p r = record {
    head_le = r.head_le;
    tail_le = r.tail_le;
    order = r.order;
    bounded = r.bounded;
    held = r.held;
    given = r.given;
    producing = ok_p;
    consuming = r.consuming;
  }

  pub with_consumer :
      (cached : Bool) (s : System A) (c : Consumer A)
      → ConsumerOk cached s.queue s.pushed c
      → IsRing cached (2 ^ k) s
      → IsRing cached (2 ^ k) (record s { consumer = c })
  with_consumer cached s c ok_c r = record {
    head_le = r.head_le;
    tail_le = r.tail_le;
    order = r.order;
    bounded = r.bounded;
    held = r.held;
    given = r.given;
    producing = r.producing;
    consuming = ok_c;
  }

  -- The two tests of the producer.
  pub tested-IsRing :
      (cached : Bool) (s : System A) (msg : A)
      → s.pushed s.queue.tail ≡ msg
      → s.queue.head < 2 ^ k
      → IsRing cached (2 ^ k) s
      → IsRing cached (2 ^ k) (push_step (2 ^ k) cached s (testing msg))
  tested-IsRing false s msg e lt r = with_producer false s (spinning msg) e r
  tested-IsRing true s msg e lt r =
      elim (Bool-cases (looks_full (2 ^ k) s.queue.tail s.queue.head_cached)) [
        | inl full ↦ rw full (with_producer true s (spinning msg) e r)
        | inr space ↦ rw space (
            with_producer true s (writing msg)
              (
                e,
                room k s.queue.tail s.queue.head_cached (omega (arith, r.head_le)) r.bounded space,
              )
              r)
      ]

  pub spun-IsRing :
      (cached : Bool) (s : System A) (msg : A)
      → s.pushed s.queue.tail ≡ msg
      → s.queue.head < 2 ^ k
      → IsRing cached (2 ^ k) s
      → IsRing cached (2 ^ k) (push_step (2 ^ k) cached s (spinning msg))
  spun-IsRing cached s msg e lt r =
      elim (Bool-cases (looks_full (2 ^ k) s.queue.tail s.queue.head)) [
        | inl full ↦ rw full r
        | inr space ↦ rw space (
            seen cached r
              (room k s.queue.tail s.queue.head lt (omega (arith, r.head_le, r.bounded)) space))
      ]
    where
      seen :
          (cached : Bool)
          → IsRing cached (2 ^ k) s
          → s.queue.tail + 2 ≤ s.queue.head + 2 ^ k
          → IsRing cached (2 ^ k) (record s {
            producer = writing msg;
            queue = if cached then cache_head s.queue else s.queue;
          })
      seen false r space = with_producer false s (writing msg) (e, space) r
      seen true r space = record {
        head_le = omega arith;
        tail_le = r.tail_le;
        order = r.order;
        bounded = omega arith;
        held = r.held;
        given = r.given;
        producing = (e, space);
        consuming = same s.consumer r.consuming;
      }
        where
          same :
              (c : Consumer A)
              → ConsumerOk true s.queue s.pushed c
              → ConsumerOk true (cache_head s.queue) s.pushed c
          same away ok_c = tt
          same checking ok_c = tt
          same waiting ok_c = tt
          same reading ok_c = ok_c
          same (returning m) ok_c = ok_c
