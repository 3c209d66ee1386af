-- ===== src/Server.antt =====
-- src/server.cpp: the arguments, the workload, and the harness that sends it through a queue to the
-- engine.
pub mod Arguments
pub mod Harness
pub mod Pacing
pub mod Pipeline
mod Tests
use lobook.Base.{
  ℕ, Bool, true, false, not, ◌||◌, Option, none, some, List, [], ◌∷◌, if◌then◌else◌, Text, codes,
  same_text, starts_with, substr,
}

pub record Args : Type 0 where
  pub queue_mode : Text
  pub pacing_ns : ℕ
  pub workload : ℕ
  pub dump_latencies : Text

abbrev pub initial : Args
initial = record {
  queue_mode = codes "cached";
  pacing_ns = 1000;
  workload = 100000;
  dump_latencies = [];
}

-- How `parse_args` ends: it returns true, it returns false, it calls `std::exit(0)`, or `std::stoull`
-- throws, which nothing catches.
pub data Parsed : Type 0 where
  accepted : Args → Parsed
  rejected : Parsed
  exited : Parsed
  thrown : Parsed

abbrev pub then_parse : Parsed → (Args → Parsed) → Parsed
then_parse (accepted out) f = f out
then_parse rejected f = rejected
then_parse exited f = exited
then_parse thrown f = thrown

-- The test of the mode behind the loop.
unfoldable pub check_mode : Args → Parsed
check_mode out =
    if not (
      same_text out.queue_mode (codes "cached")
      || same_text out.queue_mode (codes "uncached")
      || same_text out.queue_mode (codes "naive"))
    then rejected
    else accepted out

-- `std::stoull(s)` stored in a field.
abbrev pub stored : Option ℕ → (ℕ → Args) → Parsed
stored none set_field = thrown
stored (some n) set_field = accepted (set_field n)

-- `std::stoull` is a parameter: the number that it reads, or nothing where it throws.
module _ (stoull : Text → Option ℕ) where
  -- The body of the loop of `parse_args`.
  unfoldable pub parse_arg : Args → Text → Parsed
  parse_arg out a =
      if same_text a (codes "--help") || same_text a (codes "-h")
      then exited
      else if starts_with (codes "--queue=") a
      then accepted (record out { queue_mode = substr 8 a })
      else if starts_with (codes "--pacing-ns=") a
      then stored (stoull (substr 12 a)) (λ n. record out { pacing_ns = n })
      else if starts_with (codes "--workload=") a
      then stored (stoull (substr 11 a)) (λ n. record out { workload = n })
      else if starts_with (codes "--dump-latencies=") a
      then accepted (record out { dump_latencies = substr 17 a })
      else rejected

  unfoldable pub parse_each : Args → List Text → Parsed
  parse_each out [] = accepted out
  parse_each out (a ∷ argv) = then_parse (parse_arg out a) (λ out'. parse_each out' argv)

  -- The arguments without the program's name.
  unfoldable pub parse_args : Args → List Text → Parsed
  parse_args out argv = then_parse (parse_each out argv) check_mode

pub data QueueType : Type 0 where
  cached uncached naive : QueueType

-- The queue that `main` runs the harness with.
unfoldable pub chosen_queue : Args → QueueType
chosen_queue args =
    if same_text args.queue_mode (codes "cached")
    then cached
    else if same_text args.queue_mode (codes "uncached")
    then uncached
    else naive
