-- ===== src/NaiveQueue/Moves.antt =====
-- Each step of a thread keeps what holds of a `NaiveQueue`.
use lobook.Base.{refl, sym, ap, ◌∙◌, none, some, List, [], ◌∷◌, ◌++◌, Returns}
use lobook.NaiveQueue.{
  Owner, nobody, by_producer, by_consumer, Producer, idle, locking, pushing, unlocking, notifying,
  Call, waits, tries, Consumer, away, entering, testing, asleep, taking, popping, leaving, System,
  taken, push_step, pop_step, begin_push, begin_pop,
}
use lobook.NaiveQueue.Monitor.{
  IsMonitor, in_hand, append_assoc, Awake-on, Awake-due, Ready-out, Owned-same, producer_moved,
  consumer_woken, holds_alone, pops_alone,
}

module _ {A : Type 0} where
  pub push_step-IsMonitor :
      (q : List A) (o : Owner) (p : Producer A) (c : Consumer A) (pushed popped : List A)
      → IsMonitor (record {
        queue = q;
        owner = o;
        producer = p;
        consumer = c;
        pushed = pushed;
        popped = popped;
      })
      → IsMonitor (
          push_step
            (record {
              queue = q;
              owner = o;
              producer = p;
              consumer = c;
              pushed = pushed;
              popped = popped;
            })
            p)
  push_step-IsMonitor q o idle c pushed popped m = m
  push_step-IsMonitor q nobody (locking msg) c pushed popped m = record {
    owned = (refl, m.owned.1);
    order = m.order;
    ready = m.ready;
    awake = Awake-on (locking msg) (pushing msg) c q (λ h. cc) m.awake;
  }
  push_step-IsMonitor q by_producer (locking msg) c pushed popped m = m
  push_step-IsMonitor q by_consumer (locking msg) c pushed popped m = m
  push_step-IsMonitor q o (pushing msg) c pushed popped m = record {
    owned = Owned-same o (pushing msg) unlocking c c refl refl m.owned;
    order =
        ap (λ l. l ++ (msg ∷ [])) m.order
        ∙ append_assoc popped (in_hand c ++ q) (msg ∷ [])
        ∙ ap (λ l. popped ++ l) (append_assoc (in_hand c) q (msg ∷ []));
    ready = Ready-out c (q ++ (msg ∷ [])) (holds_alone o (pushing msg) c m.owned refl);
    awake = Awake-due unlocking c (q ++ (msg ∷ [])) refl;
  }
  push_step-IsMonitor q o unlocking c pushed popped m = record {
    owned = (refl, holds_alone o unlocking c m.owned refl);
    order = m.order;
    ready = m.ready;
    awake = Awake-due notifying c q refl;
  }
  push_step-IsMonitor q o notifying c pushed popped m = consumer_woken _ idle m refl

  pub pop_step-IsMonitor :
      (q : List A) (o : Owner) (p : Producer A) (c : Consumer A) (pushed popped : List A)
      → IsMonitor (record {
        queue = q;
        owner = o;
        producer = p;
        consumer = c;
        pushed = pushed;
        popped = popped;
      })
      → Returns
          (pop_step
            (record {
              queue = q;
              owner = o;
              producer = p;
              consumer = c;
              pushed = pushed;
              popped = popped;
            })
            c)
          IsMonitor
  pop_step-IsMonitor q o p away pushed popped m = (_, refl, m)
  pop_step-IsMonitor q nobody p (entering call) pushed popped m =
      (_, refl, record { owned = (m.owned.0, refl); order = m.order; ready = tt; awake = tt })
  pop_step-IsMonitor q by_producer p (entering call) pushed popped m = (_, refl, m)
  pop_step-IsMonitor q by_consumer p (entering call) pushed popped m = (_, refl, m)
  pop_step-IsMonitor [] o p (testing waits) pushed popped m = (
    _,
    refl,
    record {
      owned = (pops_alone o p (testing waits) m.owned refl, refl);
      order = m.order;
      ready = tt;
      awake = λ h. cc;
    },
  )
  pop_step-IsMonitor [] o p (testing tries) pushed popped m = (
    _,
    refl,
    record {
      owned = Owned-same o p p (testing tries) (leaving none) refl refl m.owned;
      order = m.order;
      ready = tt;
      awake = tt;
    },
  )
  pop_step-IsMonitor (x ∷ q) o p (testing call) pushed popped m = (
    _,
    refl,
    record {
      owned = Owned-same o p p (testing call) taking refl refl m.owned;
      order = m.order;
      ready = tt;
      awake = tt;
    },
  )
  pop_step-IsMonitor q o p asleep pushed popped m = (_, refl, m)
  pop_step-IsMonitor [] o p taking pushed popped m = absurd m.ready
  pop_step-IsMonitor (x ∷ q) o p taking pushed popped m = (
    _,
    refl,
    record {
      owned = Owned-same o p p taking (popping x) refl refl m.owned;
      order = m.order;
      ready = refl;
      awake = tt;
    },
  )
  pop_step-IsMonitor [] o p (popping msg) pushed popped m = absurd m.ready
  pop_step-IsMonitor (x ∷ q) o p (popping msg) pushed popped m = (
    _,
    refl,
    record {
      owned = Owned-same o p p (popping msg) (leaving (some msg)) refl refl m.owned;
      order = m.order ∙ ap (λ y. popped ++ (y ∷ q)) m.ready;
      ready = tt;
      awake = tt;
    },
  )
  pop_step-IsMonitor q o p (leaving result) pushed popped m = (
    _,
    refl,
    record {
      owned = (pops_alone o p (leaving result) m.owned refl, refl);
      order = m.order ∙ sym (append_assoc popped (taken result) q);
      ready = tt;
      awake = tt;
    },
  )

  pub begun_push :
      (s : System A) (p : Producer A) (msg : A)
      → IsMonitor (record s { producer = p })
      → IsMonitor (begin_push (record s { producer = p }) p msg)
  begun_push s idle msg m =
      producer_moved (record s { producer = idle }) (locking msg) m refl (λ h. cc)
  begun_push s _ msg m = m

  pub begun_pop :
      (s : System A) (c : Consumer A) (call : Call)
      → IsMonitor (record s { consumer = c })
      → IsMonitor (begin_pop (record s { consumer = c }) c call)
  begun_pop s away call m = record {
    owned = Owned-same s.owner s.producer s.producer away (entering call) refl refl m.owned;
    order = m.order;
    ready = tt;
    awake = tt;
  }
  begun_pop s _ call m = m
