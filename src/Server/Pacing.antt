-- ===== src/Server/Pacing.antt =====
-- The network thread of src/server.cpp pushes its workload at the pace that it was given.
use lobook.Base.{
  ℕ, zero, suc, ◌+◌, ◌%◌, ◌^◌, ◌≤◌, ◌<◌, ◌≡◌, ◌≢◌, refl, sym, inl, inr, true, false, List, [], ◌∷◌,
  leb, Bool-cases, Returns, arith,
}
use mathlib.Core.Path.{subst}
use lobook.Chain.Lists.{length}
use lobook.Engine.{OrderMessage}
use lobook.Engine.Latency.{Timespec, to_ns}
use lobook.Server.Harness.{pace, deadline, network_thread}

-- The readings that `count` messages take at most.
abbrev pub readings : ℕ → ℕ → ℕ
readings polls zero = 0
readings polls (suc count) = suc polls + readings polls count

-- A clock that, over the first `span` readings, does not go back, and passes the pacing interval of any
-- of them within the next `polls`.
pub record IsSteady (polls : ℕ) (clock : ℕ → Timespec) (pacing_ns span : ℕ) : Type 0 where
  pub forward : (n : ℕ) → n < span → to_ns (clock n) ≤ to_ns (clock (suc n))
  pub passes :
      (n : ℕ)
      → n < span
      → (m : ℕ) × (m < polls) × (deadline polls clock pacing_ns n ≤ to_ns (clock (suc n + m)))

-- The earliest stamp behind a message.
abbrev pub next_due : ℕ → OrderMessage → ℕ
next_due pacing_ns msg = (msg.timestamp + pacing_ns) % 2 ^ 64

-- The messages in their order, each with a stamp that is not before the one due behind the last.
abbrev pub IsStamped : ℕ → ℕ → List OrderMessage → List OrderMessage → Type 0
IsStamped pacing_ns due [] [] = Unit
IsStamped pacing_ns due [] (x ∷ xs) = ⊥
IsStamped pacing_ns due (msg ∷ msgs) [] = ⊥
IsStamped pacing_ns due (msg ∷ msgs) (x ∷ xs) =
    (x ≡ record msg { timestamp = x.timestamp })
    × (due ≤ x.timestamp)
    × IsStamped pacing_ns (next_due pacing_ns x) msgs xs

leb→le : (a b : ℕ) → leb a b ≡ true → a ≤ b
leb→le a b h = ground arith

leb→gt : (a b : ℕ) → leb a b ≡ false → a ≤ b → ⊥
leb→gt a b h le = ground arith

le_trans : {a b c : ℕ} → a ≤ b → b ≤ c → a ≤ c
le_trans h k = omega arith

module _ (polls : ℕ) (clock : ℕ → Timespec) (pacing_ns : ℕ) where
  -- The busy loop ends with the first reading that is late enough.
  pace-Returns :
      (fuel wait_until n j : ℕ)
      → n ≤ j
      → j < n + fuel
      → wait_until ≤ to_ns (clock j)
      → Returns
          (pace polls clock pacing_ns fuel wait_until n)
          (λ n'. (k : ℕ) × (n' ≡ suc k) × (k < n + fuel) × (wait_until ≤ to_ns (clock k)))
  unfolding pace
  pace-Returns zero wait_until n j le lt late = absurd (omega arith)
  pace-Returns (suc fuel) wait_until n j le lt late =
      elim (Bool-cases (leb wait_until (to_ns (clock n)))) [
        | inl now ↦
            rw now (suc n, refl, (n, refl, omega arith, leb→le wait_until (to_ns (clock n)) now))
        | inr early ↦
            let apart : n ≢ j = λ e.
              leb→gt wait_until (to_ns (clock n)) early
                (subst (λ x. wait_until ≤ to_ns (clock x)) (sym e) late) in
            let (n', paced, (k, e, near, reached)) =
              pace-Returns fuel wait_until (suc n) j (omega (arith, apart)) (omega arith) late in
            rw early (n', paced, (k, e, omega (arith, near), reached))
      ]

  -- With a clock that, over the readings that the messages can take, does not go back and passes the
  -- pacing interval of any reading within the next `polls`, the network thread ends. It has pushed the
  -- messages in their order, as they were but for their stamps, and each stamp is at least `pacing_ns`
  -- after the one ahead of it, as a sum of 64 bits.
  pub network_thread-Stamped :
      (span : ℕ)
      → IsSteady polls clock pacing_ns span
      → (due n : ℕ) (msgs : List OrderMessage) → n + readings polls (length msgs) ≤ span
      → due ≤ to_ns (clock n)
      → Returns (network_thread polls clock pacing_ns n msgs) (IsStamped pacing_ns due msgs)
  unfolding network_thread
  network_thread-Stamped span steady due n [] few le = ([], refl, tt)
  network_thread-Stamped span steady due n (msg ∷ msgs) few le =
      let wait_until = deadline polls clock pacing_ns n in
      let (m, lt, late) = steady.passes n (omega arith) in
      let (n', paced, (k, e, near, reached)) =
        pace-Returns polls wait_until (suc n) (suc n + m) (omega arith) (omega arith) late in
      let (rest, went, stamped) =
        network_thread-Stamped span steady wait_until n' msgs (omega (arith, e, near)) (
          subst (λ x. wait_until ≤ to_ns (clock x)) (sym e)
            (le_trans reached (steady.forward k (omega (arith, near))))) in
      rw (paced, went) (_, refl, (refl, le, stamped))
