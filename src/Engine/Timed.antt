-- ===== src/Engine/Timed.antt =====
-- The loop of `run` with its clock readings: it does to the book what it does without them, both
-- vectors have an entry for each message, and `report` and `dump_latencies` stay inside them.
use lobook.Base.{
  ℕ, suc, ◌+◌, ◌≡◌, refl, ap, inl, inr, List, [], ◌∷◌, ◌++◌, if◌then◌else◌, Bool-cases, Run, ok,
  fault, out_of_fuel, ◌>>=◌, Returns, map_run, arith,
}
use lobook.Chain.Lists.{length}
use lobook.BitsetBook.{Book}
use lobook.BitsetBook.Match.{init}
use lobook.Engine.{OrderMessage, Engine, handle, is_shutdown, process, run}
use lobook.Engine.Latency.{Timespec, Timed, timed_process, timed_run}

-- The messages ahead of the first SHUTDOWN.
abbrev pub handled : List OrderMessage → ℕ
handled [] = 0
handled (msg ∷ msgs) = if is_shutdown msg then 0 else suc (handled msgs)

pub length-append_one : (xs : List ℕ) (x : ℕ) → length (xs ++ (x ∷ [])) ≡ length xs + 1
length-append_one [] x = refl
length-append_one (y ∷ xs) x = ground (arith, length-append_one xs x)

-- A result of the loop with its clock, against one without it.
pub record IsTimed (e : Engine) (n before before' : ℕ) (t : Timed) : Type 0 where
  pub engine : t.engine ≡ e
  pub latencies : length t.latencies ≡ before + n
  pub queue_latencies : length t.queue_latencies ≡ before' + n

-- The loop with its clock comes to what the loop without it comes to.
abbrev Follows : ℕ → ℕ → ℕ → Run Engine → Run Timed → Type 0
Follows n before before' (ok e) r = Returns r (IsTimed e n before before')
Follows n before before' out_of_fuel r = r ≡ out_of_fuel
Follows n before before' fault r = r ≡ fault

Follows-later :
    (n before before' ls qs : ℕ) (r : Run Engine) (r' : Run Timed)
    → ls ≡ before + 1
    → qs ≡ before' + 1
    → Follows n ls qs r r'
    → Follows (suc n) before before' r r'
Follows-later n before before' ls qs (ok e) r' el eq (t, runs, x) = (
  t,
  runs,
  record {
    engine = x.engine;
    latencies = omega (arith, x.latencies);
    queue_latencies = omega (arith, x.queue_latencies);
  },
)
Follows-later n before before' ls qs out_of_fuel r' el eq x = x
Follows-later n before before' ls qs fault r' el eq x = x

Follows-bind :
    (n before before' : ℕ) (r : Run Book) (f : Book → Run Engine) (g : Book → Run Timed)
    → ((b : Book) → Follows n before before' (f b) (g b))
    → Follows n before before' (r >>= f) (r >>= g)
Follows-bind n before before' (ok b) f g more = more b
Follows-bind n before before' out_of_fuel f g more = refl
Follows-bind n before before' fault f g more = refl

module _ (after_pop after_match : ℕ → Timespec) where
  timed_process-Follows :
      (msgs : List OrderMessage) (i : ℕ) (b : Book) (ls qs : List ℕ)
      → Follows
          (handled msgs)
          (length ls)
          (length qs)
          (process b msgs)
          (timed_process after_pop after_match i b ls qs msgs)
  unfolding process timed_process
  timed_process-Follows [] i b ls qs =
      (_, refl, record { engine = refl; latencies = omega arith; queue_latencies = omega arith })
  timed_process-Follows (msg ∷ msgs) i b ls qs = elim (Bool-cases (is_shutdown msg)) [
    | inl stop ↦
        rw stop (
          _,
          refl,
          record { engine = refl; latencies = omega arith; queue_latencies = omega arith },
        )
    | inr go ↦ rw go (
        Follows-bind _ _ _ (handle b msg) _ _ λ b'.
          Follows-later _ _ _ _ _ _ _ (length-append_one ls _) (length-append_one qs _)
            (timed_process-Follows msgs (suc i) b' _ _))
  ]

  timed_run-Follows :
      (max_orders : ℕ) (msgs : List OrderMessage)
      → Follows
          (handled msgs)
          0
          0
          (run max_orders msgs)
          (timed_run after_pop after_match max_orders msgs)
  unfolding run timed_run
  timed_run-Follows max_orders msgs =
      Follows-bind _ _ _ (init max_orders) _ _ λ b. timed_process-Follows msgs 0 b [] []

  -- The loop of `run` with its clock readings and its latency vectors does what the loop without them
  -- does, whatever the clock says: it faults where that faults, and else leaves the engine as that does,
  -- with one entry in each of the two vectors for every message ahead of the first SHUTDOWN.
  pub timed_run-Timed :
      (max_orders : ℕ) (msgs : List OrderMessage)
      → (map_run (λ t. t.engine) (timed_run after_pop after_match max_orders msgs)
          ≡ run max_orders msgs)
        × ((t : Timed)
            → timed_run after_pop after_match max_orders msgs ≡ ok t
            → (length t.latencies ≡ handled msgs) × (length t.queue_latencies ≡ handled msgs))
  timed_run-Timed max_orders msgs =
      of_follows (run max_orders msgs) (timed_run after_pop after_match max_orders msgs)
        (timed_run-Follows max_orders msgs)
    where
      of_follows :
          (r : Run Engine) (r' : Run Timed)
          → Follows (handled msgs) 0 0 r r'
          → (map_run (λ t. t.engine) r' ≡ r)
            × ((t : Timed)
                → r' ≡ ok t
                → (length t.latencies ≡ handled msgs) × (length t.queue_latencies ≡ handled msgs))
      of_follows (ok e) r' (t, runs, x) = (
        rw runs (ap ok x.engine),
        λ t' same.
            let again : t' ≡ t = cc (same, runs) in
            rw again (omega (arith, x.latencies), omega (arith, x.queue_latencies)),
      )
      of_follows out_of_fuel r' x = (rw x refl, λ t' same. absurd (cc (x, same)))
      of_follows fault r' x = (rw x refl, λ t' same. absurd (cc (x, same)))
