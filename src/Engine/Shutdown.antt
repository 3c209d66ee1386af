-- ===== src/Engine/Shutdown.antt =====
-- `stop`: the engine handles every message ahead of its SHUTDOWN, and no other.
use lobook.Base.{ℕ, ◌≡◌, refl, true, false, List, [], ◌∷◌, ◌++◌, Run, ok, fault, out_of_fuel, ◌>>=◌}
use lobook.BitsetBook.{Book}
use lobook.BitsetBook.Match.{init}
use lobook.Engine.{OrderMessage, Engine, handle, is_shutdown, process, run, stop_message}

-- The messages, one after another.
unfoldable pub handle_all : Book → List OrderMessage → Run Book
handle_all b [] = ok b
handle_all b (msg ∷ msgs) = do b' ← handle b msg; handle_all b' msgs

abbrev pub NoShutdown : List OrderMessage → Type 0
NoShutdown [] = Unit
NoShutdown (msg ∷ msgs) = (is_shutdown msg ≡ false) × NoShutdown msgs

after :
    (r : Run Book) (f : Book → Run Engine) (g : Book → Run Book) (h : Book → Run Engine)
    → ((b : Book) → f b ≡ (g b >>= h))
    → (r >>= f) ≡ ((r >>= g) >>= h)
after fault f g h same = refl
after out_of_fuel f g h same = refl
after (ok b) f g h same = same b

process-append :
    (b : Book) (msgs later : List OrderMessage)
    → NoShutdown msgs
    → process b (msgs ++ (stop_message ∷ later))
      ≡ (handle_all b msgs >>= λ b'. ok (record { book = b'; stopped = true }))
unfolding process handle_all
process-append b [] later none_held = refl
process-append b (msg ∷ msgs) later none_held =
    rw none_held.0 (after (handle b msg) _ _ _ (λ b'. process-append b' msgs later none_held.1))

-- The thread that is given messages without a SHUTDOWN, then the one that `stop` pushes, and any
-- messages behind it, has handled exactly those ahead of it, in their order, and has stopped; it faults
-- only where `init` or a message ahead does.
pub run-stop :
    (max_orders : ℕ) (msgs later : List OrderMessage)
    → NoShutdown msgs
    → run max_orders (msgs ++ (stop_message ∷ later))
      ≡ (do b ← init max_orders; b' ← handle_all b msgs; ok (record { book = b'; stopped = true }))
unfolding run
run-stop max_orders msgs later none_held = over (init max_orders)
  where
    over :
        (r : Run Book)
        → (r >>= λ b. process b (msgs ++ (stop_message ∷ later)))
          ≡ (r >>= λ b. handle_all b msgs >>= λ b'. ok (record { book = b'; stopped = true }))
    over fault = refl
    over out_of_fuel = refl
    over (ok b) = process-append b msgs later none_held
