-- ===== src/SpscQueue/Push.antt =====
-- The other steps of the producer.
use lobook.Base.{
  ℕ, ◌+◌, ◌-◌, ◌^◌, ◌≤◌, ◌<◌, ◌≡◌, ◌≢◌, refl, sym, ap, ◌∙◌, inl, inr, Bool, ◌==◌, update,
  update_self, update_ne, Bool-cases, ==→eq, ==→ne, arith,
}
use mathlib.Core.Path.{subst}
use lobook.SpscQueue.{SpscQueue, slot, next_idx, write_slot, publish_tail}
use lobook.SpscQueue.Steps.{
  testing, writing, publishing, Consumer, away, checking, waiting, reading, returning, System,
  push_step,
}
use lobook.SpscQueue.Ring.{IsRing, ProducerOk, ConsumerOk, tail_seen, slot_ne, capacity_le}

module _ {A : Type 0} (k : ℕ) (small : k ≤ 63) (cached : Bool) (s : System A)
    (lt : s.queue.head < 2 ^ k) (r : IsRing cached (2 ^ k) s) where
  pub called-IsRing :
      (msg : A)
      → IsRing cached
          (2 ^ k)
          (record s { producer = testing msg; pushed = update s.pushed s.queue.tail msg })
  called-IsRing msg = record {
    head_le = r.head_le;
    tail_le = r.tail_le;
    order = r.order;
    bounded = r.bounded;
    held = λ i ge below.
        r.held i ge below ∙ sym (update_ne s.pushed s.queue.tail i msg (λ e. omega arith));
    given = λ i below.
        r.given i below
        ∙ sym (update_ne s.pushed s.queue.tail i msg (λ e. omega (arith, r.order, r.tail_le)));
    producing = update_self s.pushed s.queue.tail msg;
    consuming = kept s.consumer r.consuming;
  }
    where
      kept :
          (c : Consumer A)
          → ConsumerOk cached s.queue s.pushed c
          → ConsumerOk cached s.queue (update s.pushed s.queue.tail msg) c
      kept away ok_c = tt
      kept checking ok_c = tt
      kept waiting ok_c = tt
      kept reading ok_c = ok_c
      kept (returning m) (inside, e) = (
        inside,
        e
            ∙ sym (
                update_ne s.pushed s.queue.tail s.queue.head msg
                  (λ same. omega (arith, r.tail_le))),
      )

  -- What the consumer relies on, when the producer writes elsewhere.
  consumer_kept :
      (q : SpscQueue A)
      → q.head ≡ s.queue.head
      → tail_seen cached s.queue ≤ tail_seen cached q
      → (c : Consumer A) → ConsumerOk cached s.queue s.pushed c
      → ConsumerOk cached q s.pushed c
  consumer_kept q e le away ok_c = tt
  consumer_kept q e le checking ok_c = tt
  consumer_kept q e le waiting ok_c = tt
  consumer_kept q e le reading ok_c = omega (arith, e)
  consumer_kept q e le (returning m) (inside, same) = (omega (arith, e), same ∙ ap s.pushed (sym e))

  pub wrote-IsRing :
      (msg : A)
      → ProducerOk cached (2 ^ k) s.queue s.pushed (writing msg)
      → IsRing cached (2 ^ k) (push_step (2 ^ k) cached s (writing msg))
  wrote-IsRing msg (e, space) = record {
    head_le = r.head_le;
    tail_le = r.tail_le;
    order = r.order;
    bounded = r.bounded;
    held = λ i ge below. update_ne s.queue.buffer _ _ msg (other i ge below) ∙ r.held i ge below;
    given = r.given;
    producing = (e, space, update_self s.queue.buffer (slot (2 ^ k) s.queue.tail) msg);
    consuming =
        consumer_kept (write_slot (2 ^ k) s.queue msg) refl (omega arith) s.consumer r.consuming;
  }
    where
      other :
          (i : ℕ) → s.queue.head ≤ i → i < s.queue.tail → slot (2 ^ k) s.queue.tail ≢ slot (2 ^ k) i
      other i ge below =
          let d : i + (s.queue.tail - i) ≡ s.queue.tail = omega arith in
          subst (λ t. slot (2 ^ k) t ≢ slot (2 ^ k) i) d
            (slot_ne k i (s.queue.tail - i) (omega (arith, r.head_le)) (omega arith))

  pub published-IsRing :
      (msg : A)
      → ProducerOk cached (2 ^ k) s.queue s.pushed (publishing msg)
      → IsRing cached (2 ^ k) (push_step (2 ^ k) cached s (publishing msg))
  published-IsRing msg (e, space, written) = record {
    head_le = r.head_le;
    tail_le = grown.1;
    order = omega (arith, r.order, grown.0);
    bounded = omega (arith, next);
    held = λ i ge below. elim (Bool-cases (i == s.queue.tail)) [
      | inl last ↦
          subst (λ t. s.queue.buffer (slot (2 ^ k) t) ≡ s.pushed t) (sym (==→eq _ _ last))
            (written ∙ sym e)
      | inr before ↦ r.held i ge (omega (arith, next, ==→ne _ _ before))
    ];
    given = r.given;
    producing = tt;
    consuming = consumer_kept (publish_tail s.queue) refl grown.0 s.consumer r.consuming;
  }
    where
      next : next_idx s.queue.tail ≡ s.queue.tail + 1
      next = omega (arith, r.head_le, capacity_le k small)

      grown :
          (tail_seen cached s.queue ≤ tail_seen cached (publish_tail s.queue))
          × (tail_seen cached (publish_tail s.queue) ≤ next_idx s.queue.tail)
      grown = (ground (arith, next, r.tail_le), ground (arith, next, r.tail_le))
