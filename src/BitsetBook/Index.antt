-- ===== src/BitsetBook/Index.antt =====
-- The calls of the bitset that the book makes: a price of the ladder survives its conversion to
-- `uint32_t`.
use lobook.Base.{ℕ, ◌%◌, ◌^◌, ◌<◌, ◌≡◌, refl, Bool, not, ◌&&◌, ◌||◌, ◌==◌, Returns, arith}
use lobook.PriceBitset.{max_prices}
use lobook.PriceBitset.History.{Holds, set-Holds, clear-Holds}
use lobook.BitsetBook.{Side, set_index, clear_index}

-- The side with its bitset changed.
pub record Indexed (s s' : Side) (m : ℕ → Bool) : Type 0 where
  pub levels : s'.levels ≡ s.levels
  pub holds : Holds m s'.index

module _ {m : ℕ → Bool} (s : Side) (p : ℕ) (h : Holds m s.index) (lt : p < max_prices) where
  in_word : p % 2 ^ 32 ≡ p
  in_word = omega arith

  pub set_index-Indexed : Returns (set_index s p) λ s'. Indexed s s' (λ q. m q || p == q)
  unfolding set_index
  set_index-Indexed =
      let (x, e, h') = set-Holds p h lt in
      rw (in_word, e) (_, refl, record { levels = refl; holds = h' })

  pub clear_index-Indexed : Returns (clear_index s p) λ s'. Indexed s s' (λ q. m q && not (p == q))
  unfolding clear_index
  clear_index-Indexed =
      let (x, e, h') = clear-Holds p h lt in
      rw (in_word, e) (_, refl, record { levels = refl; holds = h' })
