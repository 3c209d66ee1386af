-- ===== src/Server/Arguments.antt =====
-- `parse_args` and the choice of the queue.
use lobook.Base.{
  ℕ, ◌<◌, ◌^◌, ◌≡◌, refl, sym, ap, ◌∙◌, inl, inr, ◌⊎◌, Bool, true, false, not, ◌||◌, Option, some,
  List, [], ◌∷◌, ◌++◌, if◌then◌else◌, Text, codes, same_text, starts_with, same_text→eq,
}
use mathlib.Core.Path.{subst}
use lobook.Server.{
  Args, Parsed, accepted, rejected, exited, thrown, then_parse, stored, check_mode, parse_arg,
  parse_each, parse_args, QueueType, cached, uncached, naive, chosen_queue,
}

-- The value of `--queue=` for a queue.
abbrev pub name_of : QueueType → Text
name_of cached = codes "cached"
name_of uncached = codes "uncached"
name_of naive = codes "naive"

pub chosen_queue-named :
    (q : QueueType) (args : Args) → args.queue_mode ≡ name_of q → chosen_queue args ≡ q
unfolding chosen_queue
chosen_queue-named cached args e = rw e refl
chosen_queue-named uncached args e = rw e refl
chosen_queue-named naive args e = rw e refl

mode_cases :
    (x y z : Bool) (out args : Args)
    → (if not (x || y || z) then rejected else accepted out) ≡ accepted args
    → (out ≡ args) × ((x ≡ true) ⊎ ((y ≡ true) ⊎ (z ≡ true)))
mode_cases true y z out args h = (cc h, inl refl)
mode_cases false true z out args h = (cc h, inr (inl refl))
mode_cases false false true out args h = (cc h, inr (inr refl))
mode_cases false false false out args h = cc h

checked :
    (out args : Args)
    → check_mode out ≡ accepted args
    → name_of (chosen_queue args) ≡ args.queue_mode
unfolding check_mode
checked out args h =
    let (e, which) = mode_cases _ _ _ out args h in
    subst (λ x. name_of (chosen_queue x) ≡ x.queue_mode) e
      (elim which [
        | inl x ↦ named cached (same_text→eq _ _ x)
        | inr (inl y) ↦ named uncached (same_text→eq _ _ y)
        | inr (inr z) ↦ named naive (same_text→eq _ _ z)
      ])
  where
    named :
        (q : QueueType) → out.queue_mode ≡ name_of q → name_of (chosen_queue out) ≡ out.queue_mode
    named q e = ap name_of (chosen_queue-named q out e) ∙ sym e

checked_mode :
    (q : QueueType) (args : Args) → args.queue_mode ≡ name_of q → check_mode args ≡ accepted args
unfolding check_mode
checked_mode cached args e = rw e refl
checked_mode uncached args e = rw e refl
checked_mode naive args e = rw e refl

six_tests :
    (x1 x2 x3 x4 x5 x6 : Bool) (p1 p2 p3 p4 p5 : Parsed)
    → (x1 || x2 || x3 || x4 || x5 || x6) ≡ false
    → (if x1 || x2
        then p1
        else if x3
        then p2
        else if x4
        then p3
        else if x5
        then p4
        else if x6
        then p5
        else rejected)
      ≡ rejected
six_tests true x2 x3 x4 x5 x6 p1 p2 p3 p4 p5 h = cc
six_tests false true x3 x4 x5 x6 p1 p2 p3 p4 p5 h = cc
six_tests false false true x4 x5 x6 p1 p2 p3 p4 p5 h = cc
six_tests false false false true x5 x6 p1 p2 p3 p4 p5 h = cc
six_tests false false false false true x6 p1 p2 p3 p4 p5 h = cc
six_tests false false false false false true p1 p2 p3 p4 p5 h = cc
six_tests false false false false false false p1 p2 p3 p4 p5 h = refl

-- An argument that no branch of the loop takes.
abbrev pub is_known : Text → Bool
is_known a =
    same_text a (codes "--help")
    || same_text a (codes "-h")
    || starts_with (codes "--queue=") a
    || starts_with (codes "--pacing-ns=") a
    || starts_with (codes "--workload=") a
    || starts_with (codes "--dump-latencies=") a

-- The arguments that ask for given values.
abbrev pub to_argv : (ℕ → Text) → Args → List Text
to_argv to_string args =
    (codes "--queue=" ++ args.queue_mode)
    ∷ (codes "--pacing-ns=" ++ to_string args.pacing_ns)
    ∷ (codes "--workload=" ++ to_string args.workload)
    ∷ (codes "--dump-latencies=" ++ args.dump_latencies)
    ∷ []

module _ (stoull : Text → Option ℕ) where
  -- The arguments that `parse_args` accepts name the queue that `main` runs the harness with.
  pub parse_args-chosen_queue :
      (out args : Args) (argv : List Text)
      → parse_args stoull out argv ≡ accepted args
      → name_of (chosen_queue args) ≡ args.queue_mode
  unfolding parse_args
  parse_args-chosen_queue out args argv h = over (parse_each stoull out argv) h
    where
      over :
          (r : Parsed)
          → then_parse r check_mode ≡ accepted args
          → name_of (chosen_queue args) ≡ args.queue_mode
      over (accepted mid) h = checked mid args h
      over rejected h = cc
      over exited h = cc
      over thrown h = cc

  unknown_arg : (out : Args) (a : Text) → is_known a ≡ false → parse_arg stoull out a ≡ rejected
  unfolding parse_arg
  unknown_arg out a h =
      six_tests (same_text a (codes "--help")) (same_text a (codes "-h"))
        (starts_with (codes "--queue=") a) (starts_with (codes "--pacing-ns=") a)
        (starts_with (codes "--workload=") a) (starts_with (codes "--dump-latencies=") a) _ _ _ _ _
        h

  queue_arg :
      (out : Args) (s : Text)
      → parse_arg stoull out (codes "--queue=" ++ s) ≡ accepted (record out { queue_mode = s })
  unfolding parse_arg
  queue_arg out s = refl

  dump_arg :
      (out : Args) (s : Text)
      → parse_arg stoull out (codes "--dump-latencies=" ++ s)
        ≡ accepted (record out { dump_latencies = s })
  unfolding parse_arg
  dump_arg out s = refl

  pacing_arg :
      (out : Args) (s : Text) (n : ℕ)
      → stoull s ≡ some n
      → parse_arg stoull out (codes "--pacing-ns=" ++ s) ≡ accepted (record out { pacing_ns = n })
  unfolding parse_arg
  pacing_arg out s n e = ap (λ r. stored r (λ k. record out { pacing_ns = k })) e

  workload_arg :
      (out : Args) (s : Text) (n : ℕ)
      → stoull s ≡ some n
      → parse_arg stoull out (codes "--workload=" ++ s) ≡ accepted (record out { workload = n })
  unfolding parse_arg
  workload_arg out s n e = ap (λ r. stored r (λ k. record out { workload = k })) e

  unknown_each :
      (out : Args) (before after : List Text) (a : Text)
      → is_known a ≡ false
      → parse_each stoull out (before ++ (a ∷ after))
        ≡ then_parse (parse_each stoull out before) (λ _. rejected)
  unfolding parse_each
  unknown_each out [] after a h = rw (unknown_arg out a h) refl
  unknown_each out (b ∷ before) after a h =
      over (parse_arg stoull out b) (λ mid. unknown_each mid before after a h)
    where
      over :
          (r : Parsed)
          → ((mid : Args)
              → parse_each stoull mid (before ++ (a ∷ after))
                ≡ then_parse (parse_each stoull mid before) (λ _. rejected))
          → then_parse r (λ out'. parse_each stoull out' (before ++ (a ∷ after)))
            ≡ then_parse (then_parse r (λ out'. parse_each stoull out' before)) (λ _. rejected)
      over (accepted mid) more = more mid
      over rejected more = refl
      over exited more = refl
      over thrown more = refl

  -- With an argument that is none of the options, `parse_args` ends as the arguments ahead of it make it
  -- end, and else returns false, whatever comes behind.
  pub parse_args-unknown :
      (out : Args) (before after : List Text) (a : Text)
      → is_known a ≡ false
      → parse_args stoull out (before ++ (a ∷ after))
        ≡ then_parse (parse_each stoull out before) (λ _. rejected)
  unfolding parse_args
  parse_args-unknown out before after a h =
      rw (unknown_each out before after a h) (over (parse_each stoull out before))
    where
      over :
          (r : Parsed)
          → then_parse (then_parse r (λ _. rejected)) check_mode ≡ then_parse r (λ _. rejected)
      over (accepted mid) = refl
      over rejected = refl
      over exited = refl
      over thrown = refl

  -- Where `std::stoull` reads back what is printed of a number below 2^64, `parse_args` of the four
  -- options that ask for given values, one of the three queues among them, gives those values.
  pub parse_args-to_argv :
      (to_string : ℕ → Text) (out args : Args) (q : QueueType)
      → ((n : ℕ) → n < 2 ^ 64 → stoull (to_string n) ≡ some n)
      → args.queue_mode ≡ name_of q
      → args.pacing_ns < 2 ^ 64
      → args.workload < 2 ^ 64
      → parse_args stoull out (to_argv to_string args) ≡ accepted args
  unfolding parse_args parse_each
  parse_args-to_argv to_string out args q reads mode pacing workload =
      rw
        (
          queue_arg out args.queue_mode,
          pacing_arg _ _ args.pacing_ns (reads args.pacing_ns pacing),
          workload_arg _ _ args.workload (reads args.workload workload),
          dump_arg _ args.dump_latencies,
        )
        (checked_mode q args mode)
