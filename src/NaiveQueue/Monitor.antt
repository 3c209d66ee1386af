-- ===== src/NaiveQueue/Monitor.antt =====
-- What holds of a `NaiveQueue` between the steps of its threads.
use lobook.Base.{◌≡◌, refl, sym, ap, ◌∙◌, Bool, true, false, List, [], ◌∷◌, ◌++◌}
use lobook.NaiveQueue.{
  Owner, nobody, by_producer, by_consumer, Producer, pushing, unlocking, notifying, Consumer, away,
  entering, testing, asleep, taking, popping, leaving, System, taken, wake,
}

module _ {A : Type 0} where
  -- Where a thread holds the mutex.
  abbrev pub in_push : Producer A → Bool
  in_push (pushing msg) = true
  in_push unlocking = true
  in_push _ = false

  abbrev pub in_pop : Consumer A → Bool
  in_pop away = false
  in_pop (entering call) = false
  in_pop (testing call) = true
  in_pop asleep = false
  in_pop taking = true
  in_pop (popping msg) = true
  in_pop (leaving o) = true

  abbrev pub Owned : Owner → Producer A → Consumer A → Type 0
  Owned nobody p c = (in_push p ≡ false) × (in_pop c ≡ false)
  Owned by_producer p c = (in_push p ≡ true) × (in_pop c ≡ false)
  Owned by_consumer p c = (in_push p ≡ false) × (in_pop c ≡ true)

  -- The message that has left the queue and is not returned yet.
  abbrev pub in_hand : Consumer A → List A
  in_hand (leaving o) = taken o
  in_hand _ = []

  -- Past its test the consumer finds a message, and the one that it has read is the first.
  abbrev pub Ready : Consumer A → List A → Type 0
  Ready taking [] = ⊥
  Ready taking (x ∷ xs) = Unit
  Ready (popping msg) [] = ⊥
  Ready (popping msg) (x ∷ xs) = x ≡ msg
  Ready _ q = Unit

  abbrev pub holds_some : List A → Bool
  holds_some [] = false
  holds_some (x ∷ xs) = true

  abbrev pub will_notify : Producer A → Bool
  will_notify unlocking = true
  will_notify notifying = true
  will_notify _ = false

  -- A consumer that sleeps while a message is there will be notified.
  abbrev pub Awake : Producer A → Consumer A → List A → Type 0
  Awake p asleep q = holds_some q ≡ true → will_notify p ≡ true
  Awake p _ q = Unit

  pub record IsMonitor (s : System A) : Type 0 where
    pub owned : Owned s.owner s.producer s.consumer
    pub order : s.pushed ≡ s.popped ++ (in_hand s.consumer ++ s.queue)
    pub ready : Ready s.consumer s.queue
    pub awake : Awake s.producer s.consumer s.queue

  pub append_assoc : (xs ys zs : List A) → (xs ++ ys) ++ zs ≡ xs ++ (ys ++ zs)
  append_assoc [] ys zs = refl
  append_assoc (x ∷ xs) ys zs = ap (λ l. x ∷ l) (append_assoc xs ys zs)

  -- A producer that goes on without the queue and without a notification due.
  pub Awake-on :
      (p p' : Producer A) (c : Consumer A) (q : List A)
      → (will_notify p ≡ true → will_notify p' ≡ true)
      → Awake p c q
      → Awake p' c q
  Awake-on p p' asleep q on a = λ h. on (a h)
  Awake-on p p' _ q on a = tt

  -- A notification that is due makes every consumer awake.
  pub Awake-due :
      (p : Producer A) (c : Consumer A) (q : List A) → will_notify p ≡ true → Awake p c q
  Awake-due p asleep q due = λ h. due
  Awake-due p _ q due = tt

  -- Outside the mutex the consumer relies on nothing.
  pub Ready-out : (c : Consumer A) (q : List A) → in_pop c ≡ false → Ready c q
  Ready-out away q out = tt
  Ready-out (entering call) q out = tt
  Ready-out asleep q out = tt
  Ready-out (testing call) q out = cc
  Ready-out taking q out = cc
  Ready-out (popping msg) q out = cc
  Ready-out (leaving o) q out = cc

  in_pop-wake : (c : Consumer A) → in_pop (wake c) ≡ in_pop c
  in_pop-wake asleep = refl
  in_pop-wake _ = refl

  in_hand-wake : (c : Consumer A) → in_hand (wake c) ≡ in_hand c
  in_hand-wake asleep = refl
  in_hand-wake _ = refl

  Ready-wake : (c : Consumer A) (q : List A) → Ready c q → Ready (wake c) q
  Ready-wake asleep q r = tt
  Ready-wake _ q r = r

  Awake-wake : (p : Producer A) (c : Consumer A) (q : List A) → Awake p (wake c) q
  Awake-wake p asleep q = tt
  Awake-wake p _ q = tt

  -- The mutex goes by where the threads hold it.
  pub Owned-same :
      (o : Owner) (p p' : Producer A) (c c' : Consumer A)
      → in_push p' ≡ in_push p
      → in_pop c' ≡ in_pop c
      → Owned o p c
      → Owned o p' c'
  Owned-same nobody p p' c c' ep ec (hp, hc) = (ep ∙ hp, ec ∙ hc)
  Owned-same by_producer p p' c c' ep ec (hp, hc) = (ep ∙ hp, ec ∙ hc)
  Owned-same by_consumer p p' c c' ep ec (hp, hc) = (ep ∙ hp, ec ∙ hc)

  -- A step of one thread that leaves the queue and the mutex alone.
  pub producer_moved :
      (s : System A) (p : Producer A)
      → IsMonitor s
      → in_push p ≡ in_push s.producer
      → (will_notify s.producer ≡ true → will_notify p ≡ true)
      → IsMonitor (record s { producer = p })
  producer_moved s p m same on = record {
    owned = Owned-same s.owner s.producer p s.consumer s.consumer same refl m.owned;
    order = m.order;
    ready = m.ready;
    awake = Awake-on s.producer p s.consumer s.queue on m.awake;
  }

  pub consumer_woken :
      (s : System A) (p : Producer A)
      → IsMonitor s
      → in_push p ≡ in_push s.producer
      → IsMonitor (record s { producer = p; consumer = wake s.consumer })
  consumer_woken s p m same = record {
    owned =
        Owned-same s.owner s.producer p s.consumer (wake s.consumer) same (in_pop-wake s.consumer)
          m.owned;
    order = m.order ∙ ap (λ h. s.popped ++ (h ++ s.queue)) (sym (in_hand-wake s.consumer));
    ready = Ready-wake s.consumer s.queue m.ready;
    awake = Awake-wake p s.consumer s.queue;
  }

  pub holds_alone :
      (o : Owner) (p : Producer A) (c : Consumer A)
      → Owned o p c
      → in_push p ≡ true
      → in_pop c ≡ false
  holds_alone nobody p c (hp, hc) inside = hc
  holds_alone by_producer p c (hp, hc) inside = hc
  holds_alone by_consumer p c (hp, hc) inside = cc

  pub pops_alone :
      (o : Owner) (p : Producer A) (c : Consumer A)
      → Owned o p c
      → in_pop c ≡ true
      → in_push p ≡ false
  pops_alone nobody p c (hp, hc) inside = hp
  pops_alone by_producer p c (hp, hc) inside = cc
  pops_alone by_consumer p c (hp, hc) inside = hp
