-- ===== src/PriceBitset/History.antt =====
-- Any history of calls: the bitset against a plain set of prices.
use lobook.Base.{
  ℕ, ◌<◌, ◌≡◌, refl, Bool, false, not, ◌&&◌, ◌||◌, ◌==◌, List, [], ◌∷◌, Run, ok, ◌>>=◌, Returns, ap,
  ◌∙◌, fun_ext,
}
use lobook.PriceBitset.{PriceBitset, max_prices, initial, set, clear, find_lowest, find_highest}
use lobook.PriceBitset.Coherent.{member, IsCoherent}
use lobook.PriceBitset.Update.{set-insert, clear-remove, clear_all-IsEmpty, initial-eq-clear_all}
use lobook.PriceBitset.Find.{
  Finds, IsLeast, IsGreatest, find_lowest-IsLeast, find_highest-IsGreatest,
}

-- A call that changes the set.
pub data Call : Type 0 where
  set_price : ℕ → Call
  clear_price : ℕ → Call

abbrev pub price_of : Call → ℕ
price_of (set_price p) = p
price_of (clear_price p) = p

-- The code under a call, and under the calls of a history in turn.
unfoldable pub step : PriceBitset → Call → Run PriceBitset
step s (set_price p) = set s p
step s (clear_price p) = clear s p

unfoldable pub run : PriceBitset → List Call → Run PriceBitset
run s [] = ok s
run s (c ∷ cs) = do s' ← step s c; run s' cs

-- A set of prices under the same calls.
abbrev pub step_set : (ℕ → Bool) → Call → ℕ → Bool
step_set m (set_price p) q = m q || p == q
step_set m (clear_price p) q = m q && not (p == q)

abbrev pub run_set : (ℕ → Bool) → List Call → ℕ → Bool
run_set m [] = m
run_set m (c ∷ cs) = run_set (step_set m c) cs

abbrev pub InLadder : List Call → Type 0
InLadder [] = Unit
InLadder (c ∷ cs) = (price_of c < max_prices) × InLadder cs

-- The bitset holds exactly the prices of `m`.
pub record Holds (m : ℕ → Bool) (s : PriceBitset) : Type 0 where
  pub coherent : IsCoherent s
  pub same : (q : ℕ) → member s q ≡ m q

pub set-Holds :
    {m : ℕ → Bool} {s : PriceBitset} (p : ℕ)
    → Holds m s
    → p < max_prices
    → Returns (set s p) (Holds λ q. m q || p == q)
set-Holds p h lt =
    let (s', e, (c, same)) = set-insert p h.coherent lt in
    (s', e, record { coherent = c; same = λ q. same q ∙ ap (λ b. b || p == q) (h.same q) })

pub clear-Holds :
    {m : ℕ → Bool} {s : PriceBitset} (p : ℕ)
    → Holds m s
    → p < max_prices
    → Returns (clear s p) (Holds λ q. m q && not (p == q))
clear-Holds p h lt =
    let (s', e, (c, same)) = clear-remove p h.coherent lt in
    (s', e, record { coherent = c; same = λ q. same q ∙ ap (λ b. b && not (p == q)) (h.same q) })

pub Holds-ext :
    {m m' : ℕ → Bool} {s : PriceBitset} → ((q : ℕ) → m q ≡ m' q) → Holds m s → Holds m' s
Holds-ext e h = record { coherent = h.coherent; same = λ q. h.same q ∙ e q }

step-Holds :
    {m : ℕ → Bool} {s : PriceBitset} (c : Call)
    → Holds m s
    → price_of c < max_prices
    → Returns (step s c) (Holds (step_set m c))
unfolding step
step-Holds (set_price p) h lt = set-Holds p h lt
step-Holds (clear_price p) h lt = clear-Holds p h lt

run-Holds :
    {m : ℕ → Bool} {s : PriceBitset} (cs : List Call)
    → Holds m s
    → InLadder cs
    → Returns (run s cs) (Holds (run_set m cs))
unfolding run
run-Holds {s} [] h lt = (s, refl, h)
run-Holds {m} (c ∷ cs) h lt =
    let (s', e, h') = step-Holds c h lt.0 in rw e (run-Holds {m = step_set m c} {s = s'} cs h' lt.1)

abbrev pub no_prices : ℕ → Bool
no_prices q = false

pub initial-Holds : Holds no_prices initial
initial-Holds =
    rw (initial-eq-clear_all initial)
      (record { coherent = (clear_all-IsEmpty initial).0; same = (clear_all-IsEmpty initial).1 })

-- After any calls of `set` and `clear` on a new bitset, all at prices below MAX_PRICES, no call has
-- faulted, and `find_lowest` and `find_highest` return without a fault the least and the greatest
-- price of the set that the calls describe, and nothing exactly where that set is empty.
pub run_refines :
    (cs : List Call)
    → InLadder cs
    → Returns (run initial cs) λ s.
      Returns (find_lowest s) (Finds IsLeast (run_set no_prices cs))
      × Returns (find_highest s) (Finds IsGreatest (run_set no_prices cs))
run_refines cs lt =
    let (s, e, h) = run-Holds cs initial-Holds lt in
    let same : member s ≡ run_set no_prices cs = fun_ext h.same in
    (
      s,
      e,
      (
        rw (← same) (find_lowest-IsLeast h.coherent),
        rw (← same) (find_highest-IsGreatest h.coherent),
      ),
    )
