-- ===== src/PriceBitset/Tests.antt =====
-- Runs of the bitset, as in tests/test_price_bitset.cpp.
use lobook.Base.{
  ℕ, ◌≡◌, refl, true, false, not, ◌&&◌, ◌||◌, ◌↔◌, ◌==◌, [], ◌∷◌, ◌>>=◌, some, none, ok, Returns,
  arith,
}
use lobook.Base.Bits.{ctzll, clzll, test_bit, trailing_zeros, leading_zeros, bit_not}
use lobook.PriceBitset.{
  PriceBitset, initial, set, clear, test, empty, clear_all, find_lowest, find_highest,
}
use lobook.PriceBitset.Coherent.{member, IsCoherent}
use lobook.PriceBitset.Update.{set-insert, clear-remove, test-member, clear_all-IsEmpty, IsEmpty}
use lobook.PriceBitset.Find.{
  Finds, IsLeast, IsGreatest, find_lowest-IsLeast, find_highest-IsGreatest, empty_iff,
}
use lobook.PriceBitset.History.{set_price, clear_price, run, step, run_set, no_prices, run_refines}

-- test_multiple_bids and test_asks
multiple :
    (run initial (set_price 5009 ∷ set_price 475 ∷ set_price 76054 ∷ clear_price 76054 ∷ [])
      >>= find_highest)
    ≡ ok (some 5009)
unfolding run step initial set clear find_highest clzll leading_zeros test_bit bit_not
multiple = refl

asks :
    (run initial (set_price 1000 ∷ set_price 100 ∷ set_price 25007 ∷ clear_price 100 ∷ [])
      >>= find_lowest)
    ≡ ok (some 1000)
unfolding run step initial set clear find_lowest ctzll trailing_zeros test_bit bit_not
asks = refl

boundary :
    (run initial (set_price 4096 ∷ set_price 64 ∷ clear_price 64 ∷ clear_price 4096 ∷ [])
      >>= find_lowest)
    ≡ ok none
unfolding run step initial set clear find_lowest ctzll trailing_zeros test_bit bit_not
boundary = refl

abbrev blank : PriceBitset
blank = clear_all initial

blank-IsCoherent : IsCoherent blank
blank-IsCoherent = (clear_all-IsEmpty initial).0

hundred :
    Returns
      (set blank 100)
      λ s'. IsCoherent s' × ((q : ℕ) → member s' q ≡ (member blank q || 100 == q))
hundred = set-insert 100 blank-IsCoherent (omega arith)

set-insert_example :
    Returns
      (set blank 100)
      λ s'. IsCoherent s' × ((q : ℕ) → member s' q ≡ (member blank q || 100 == q))
set-insert_example = set-insert 100 blank-IsCoherent (omega arith)

abbrev one_price : PriceBitset
one_price = hundred.0

one_price-IsCoherent : IsCoherent one_price
one_price-IsCoherent = hundred.2.0

clear-remove_example :
    Returns
      (clear one_price 100)
      λ s'. IsCoherent s' × ((q : ℕ) → member s' q ≡ (member one_price q && not (100 == q)))
clear-remove_example = clear-remove 100 one_price-IsCoherent (omega arith)

test-member_example : test one_price 100 ≡ ok (member one_price 100)
test-member_example = test-member one_price 100 (omega arith)

empty_iff_example : (empty one_price ≡ true) ↔ ((q : ℕ) → member one_price q ≡ false)
empty_iff_example = empty_iff one_price-IsCoherent

find_lowest-IsLeast_example : Returns (find_lowest one_price) (Finds IsLeast (member one_price))
find_lowest-IsLeast_example = find_lowest-IsLeast one_price-IsCoherent

find_highest-IsGreatest_example :
    Returns (find_highest one_price) (Finds IsGreatest (member one_price))
find_highest-IsGreatest_example = find_highest-IsGreatest one_price-IsCoherent

run_refines_example :
    Returns (run initial (set_price 7 ∷ set_price 99999 ∷ clear_price 7 ∷ [])) λ s.
      Returns
        (find_lowest s)
        (Finds IsLeast (run_set no_prices (set_price 7 ∷ set_price 99999 ∷ clear_price 7 ∷ [])))
      × Returns (find_highest s) (
          Finds IsGreatest (run_set no_prices (set_price 7 ∷ set_price 99999 ∷ clear_price 7 ∷ [])))
run_refines_example = run_refines (set_price 7 ∷ set_price 99999 ∷ clear_price 7 ∷ []) (omega arith)

clear_all-IsEmpty_example : IsCoherent (clear_all one_price) × IsEmpty (clear_all one_price)
clear_all-IsEmpty_example = clear_all-IsEmpty one_price
