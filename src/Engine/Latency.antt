-- ===== src/Engine/Latency.antt =====
-- The latency vectors of `MatchingEngine` of src/engine/matching_engine.h: the loop of `run` with its
-- clock readings, `report` and `dump_latencies`.
use lobook.Base.{
  ℕ, zero, suc, ◌+◌, ◌-◌, ◌*◌, ◌%◌, ◌^◌, Bool, true, false, List, [], ◌∷◌, ◌++◌, if◌then◌else◌, Run,
  ok, fault, ◌>>=◌,
}
use lobook.Chain.Lists.{length}
use lobook.BitsetBook.{Book}
use lobook.BitsetBook.Match.{init}
use lobook.Engine.{OrderMessage, Engine, handle, is_shutdown}

-- `timespec`
pub record Timespec : Type 0 where
  pub tv_sec : ℕ
  pub tv_nsec : ℕ

-- `ts.tv_sec * 1'000'000'000ULL + ts.tv_nsec`
abbrev pub to_ns : Timespec → ℕ
to_ns ts = (ts.tv_sec * 1000000000 + ts.tv_nsec) % 2 ^ 64

-- The difference of two numbers of type `uint64_t`.
abbrev pub sub64 : ℕ → ℕ → ℕ
sub64 a b = (a + (2 ^ 64 - b)) % 2 ^ 64

-- What `run` leaves: the engine, `latencies_` and `queue_latencies_`.
pub record Timed : Type 0 where
  pub engine : Engine
  pub latencies : List ℕ
  pub queue_latencies : List ℕ

-- `v[i]`
abbrev pub element : List ℕ → ℕ → Run ℕ
element [] i = fault
element (x ∷ xs) zero = ok x
element (x ∷ xs) (suc i) = element xs i

-- The clock is a parameter: the readings behind `pop` and behind the book's operation, for each
-- message of the loop.
module _ (after_pop after_match : ℕ → Timespec) where
  unfoldable pub timed_process : ℕ → Book → List ℕ → List ℕ → List OrderMessage → Run Timed
  timed_process i b latencies queue_latencies [] = ok (record {
    engine = record { book = b; stopped = false };
    latencies = latencies;
    queue_latencies = queue_latencies;
  })
  timed_process i b latencies queue_latencies (msg ∷ msgs) =
      if is_shutdown msg
      then ok (record {
        engine = record { book = b; stopped = true };
        latencies = latencies;
        queue_latencies = queue_latencies;
      })
      else do
        b' ← handle b msg
        timed_process (suc i) b' (latencies ++ (sub64 (to_ns (after_match i)) msg.timestamp ∷ []))
            (queue_latencies ++ (sub64 (to_ns (after_pop i)) msg.timestamp ∷ [])) msgs

  unfoldable pub timed_run : ℕ → List OrderMessage → Run Timed
  timed_run max_orders msgs = do b ← init max_orders; timed_process 0 b [] [] msgs

pub data Percentile : Type 0 where
  p50 p99 p999 : Percentile

pub record Report : Type 0 where
  pub end_to_end : Percentile → ℕ
  pub queue : Percentile → ℕ

-- `std::sort` and the index `(size_t)(size * 0.50)`, computed in `double`, are parameters.
module _ (sort : List ℕ → List ℕ) (scaled : Percentile → ℕ → ℕ) where
  abbrev pub three : ℕ → ℕ → ℕ → Percentile → ℕ
  three x y z p50 = x
  three x y z p99 = y
  three x y z p999 = z

  -- Three of the lines that `report` prints.
  unfoldable pub percentiles : List ℕ → Run (Percentile → ℕ)
  percentiles sorted = do
    x ← element sorted (scaled p50 (length sorted))
    y ← element sorted (scaled p99 (length sorted))
    z ← element sorted (scaled p999 (length sorted))
    ok (three x y z)

  unfoldable pub report : Timed → Run Report
  report t = do
    e ← percentiles (sort t.latencies)
    q ← percentiles (sort t.queue_latencies)
    ok (record { end_to_end = e; queue = q })

-- The rows that `dump_latencies` writes, from row `i` on.
unfoldable pub dump_rows : ℕ → ℕ → List ℕ → List ℕ → Run (List (ℕ × ℕ))
dump_rows zero i latencies queue_latencies = ok []
dump_rows (suc count) i latencies queue_latencies = do
  e ← element latencies i
  q ← element queue_latencies i
  rows ← dump_rows count (suc i) latencies queue_latencies
  ok ((e, q) ∷ rows)

-- Whether the stream `opened` for writing and was good after the writes are parameters; what is
-- returned, with the rows of the file.
unfoldable pub dump_latencies : Bool → Bool → Timed → Run (Bool × List (ℕ × ℕ))
dump_latencies false good t = ok (false, [])
dump_latencies true good t = do
  rows ← dump_rows (length t.latencies) 0 t.latencies t.queue_latencies
  ok (good, rows)
