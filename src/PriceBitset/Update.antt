-- ===== src/PriceBitset/Update.antt =====
-- `set`, `clear`, `clear_all` and the constructor keep the levels coherent, and act on the set of
-- prices as insertion, removal and the empty set.
use lobook.Base.{
  ℕ, ◌/◌, ◌%◌, ◌^◌, bit_or, bit_and, update, ◌<◌, ◌≡◌, ◌≢◌, refl, false, not, ◌&&◌, ◌||◌, ◌==◌,
  Returns, lt→ltb, arith, Bool-cases, inl, inr, ==→eq, ==→ne, ok, sym, ◌∙◌, ◌^◌,
}
use lobook.Base.Bits.{bit_not, test_bit}
use lobook.Base.Bits.Single.{
  test_bit-set, test_bit-clear, test_bit-zero, zero-bit_and, bit_and_shift, two_pow-lt, bit_or-lt,
  bit_and-lt,
}
use mathlib.Core.Bool.{false≢true}
use lobook.PriceBitset.{
  initial, test, clear_all, l1_blocks, l2_blocks, PriceBitset, max_prices, set, clear,
}
use lobook.PriceBitset.Levels.{
  flat, Words, Summary, flat-set, flat-clear, Words-update, bit_or-ne_zero, Summary-set,
  Summary-clear, Summary-keep,
}
use lobook.PriceBitset.Coherent.{member, IsCoherent}

module _ {s : PriceBitset} (p : ℕ) (c : IsCoherent s) (lt : p < max_prices) where
  open c use {l0_word, l1_words, l2_words, top, middle, bounded}

  abbrev inserted : PriceBitset
  inserted = record {
    l0 = bit_or s.l0 (2 ^ (p / 64 / 64));
    l1 = update s.l1 (p / 64 / 64) (bit_or (s.l1 (p / 64 / 64)) (2 ^ (p / 64 % 64)));
    l2 = update s.l2 (p / 64) (bit_or (s.l2 (p / 64)) (2 ^ (p % 64)));
  }

  two_pow_mod-lt : (k : ℕ) → 2 ^ (k % 64) < 2 ^ 64
  two_pow_mod-lt k = two_pow-lt (k % 64) 64 (omega arith)

  inserted-IsCoherent : IsCoherent inserted
  inserted-IsCoherent = record {
    l0_word = bit_or-lt 64 s.l0 _ l0_word (two_pow-lt (p / 64 / 64) 64 (omega arith));
    l1_words =
        Words-update s.l1 _ _ l1_words (bit_or-lt 64 _ _ (l1_words _) (two_pow_mod-lt (p / 64)));
    l2_words = Words-update s.l2 _ _ l2_words (bit_or-lt 64 _ _ (l2_words _) (two_pow_mod-lt p));
    top = Summary-set s.l1 _ _ top (bit_or-ne_zero _ _) (λ i. test_bit-set s.l0 (p / 64 / 64) i);
    middle = Summary-set s.l2 _ _ middle (bit_or-ne_zero _ _) (λ i. flat-set s.l1 (p / 64) i);
    bounded = λ q h. ground (arith, bounded q, flat-set s.l2 p q);
  }

  -- `set` inserts the price, and no other.
  pub set-insert :
      Returns (set s p) λ s'. IsCoherent s' × ((q : ℕ) → member s' q ≡ (member s q || p == q))
  unfolding set
  set-insert =
      rw
        (
          lt→ltb p max_prices lt,
          lt→ltb (p / 64) l2_blocks (omega arith),
          lt→ltb (p / 64 / 64) l1_blocks (omega arith),
        )
        (inserted, refl, (inserted-IsCoherent, λ q. flat-set s.l2 p q))

  abbrev cleared_word : ℕ → ℕ → ℕ
  cleared_word w k = bit_and w (bit_not (2 ^ (k % 64)))

  cleared_word-lt : (w k : ℕ) → w < 2 ^ 64 → cleared_word w k < 2 ^ 64
  cleared_word-lt w k h = bit_and-lt 64 w _ h

  ne_zero_of_cleared : (w k : ℕ) → cleared_word w k ≢ 0 → w ≢ 0
  ne_zero_of_cleared w k ne e = ne (rw e (zero-bit_and _))

  abbrev l1_cleared : ℕ → ℕ
  l1_cleared = update s.l1 (p / 64 / 64) (cleared_word (s.l1 (p / 64 / 64)) (p / 64))

  abbrev l2_cleared : ℕ → ℕ
  l2_cleared = update s.l2 (p / 64) (cleared_word (s.l2 (p / 64)) p)

  removed : (q : ℕ) → flat l2_cleared q ≡ (member s q && not (p == q))
  removed q = flat-clear s.l2 p q l2_words

  removed-IsCoherent :
      {l0' : ℕ} {l1' : ℕ → ℕ}
      → l0' < 2 ^ 64
      → Words l1'
      → Summary (test_bit l0') l1'
      → Summary (flat l1') l2_cleared
      → IsCoherent (record { l0 = l0'; l1 = l1'; l2 = l2_cleared })
  removed-IsCoherent h0 h1 t m = record {
    l0_word = h0;
    l1_words = h1;
    l2_words = Words-update s.l2 _ _ l2_words (cleared_word-lt _ p (l2_words _));
    top = t;
    middle = m;
    bounded = λ q h. ground (arith, bounded q, removed q);
  }

  l1_cleared-Words : Words l1_cleared
  l1_cleared-Words = Words-update s.l1 _ _ l1_words (cleared_word-lt _ (p / 64) (l1_words _))

  -- `clear` removes the price, and no other.
  pub clear-remove :
      Returns
        (clear s p)
        λ s'. IsCoherent s' × ((q : ℕ) → member s' q ≡ (member s q && not (p == q)))
  unfolding clear
  clear-remove =
      rw
        (
          lt→ltb p max_prices lt,
          lt→ltb (p / 64) l2_blocks (omega arith),
          lt→ltb (p / 64 / 64) l1_blocks (omega arith),
        )
        (elim (Bool-cases (cleared_word (s.l2 (p / 64)) p == 0)) [
          | inl last ↦
              rw last (elim (Bool-cases (cleared_word (s.l1 (p / 64 / 64)) (p / 64) == 0)) [
                | inl last_word ↦ rw last_word (
                  _,
                  refl,
                  (
                    removed-IsCoherent (bit_and-lt 64 s.l0 _ l0_word) l1_cleared-Words
                        (Summary-clear s.l1 _ _ top (==→eq _ _ last_word)
                          λ i. test_bit-clear s.l0 (p / 64 / 64) i l0_word (omega arith))
                        (Summary-clear s.l2 _ _ middle (==→eq _ _ last)
                          λ i. flat-clear s.l1 (p / 64) i l1_words),
                    removed,
                  ),
                )
                | inr more ↦ rw more (
                  _,
                  refl,
                  (
                    removed-IsCoherent l0_word l1_cleared-Words
                        (Summary-keep s.l1 _ _ top (==→ne _ _ more)
                          (ne_zero_of_cleared _ (p / 64) (==→ne _ _ more)))
                        (Summary-clear s.l2 _ _ middle (==→eq _ _ last)
                          λ i. flat-clear s.l1 (p / 64) i l1_words),
                    removed,
                  ),
                )
              ])
          | inr more ↦ rw more (
            _,
            refl,
            (
              removed-IsCoherent l0_word l1_words top (
                  Summary-keep s.l2 _ _ middle (==→ne _ _ more)
                    (ne_zero_of_cleared _ p (==→ne _ _ more))),
              removed,
            ),
          )
        ])

-- `test` reads membership.
pub test-member : (s : PriceBitset) (p : ℕ) → p < max_prices → test s p ≡ ok (member s p)
unfolding test
test-member s p lt = rw (
  lt→ltb p max_prices lt,
  lt→ltb (p / 64) l2_blocks (omega arith),
  bit_and_shift (s.l2 (p / 64)) (p % 64),
)

abbrev pub IsEmpty : PriceBitset → Type 0
IsEmpty s = (q : ℕ) → member s q ≡ false

-- `clear_all` empties the set whatever it held.
pub clear_all-IsEmpty : (s : PriceBitset) → IsCoherent (clear_all s) × IsEmpty (clear_all s)
unfolding clear_all
clear_all-IsEmpty s = (
  record {
    l0_word = omega arith;
    l1_words = λ i. omega arith;
    l2_words = λ i. omega arith;
    top = test_bit-zero;
    middle = λ i. test_bit-zero (i % 64);
    bounded = λ p h. absurd (false≢true (sym (test_bit-zero (p % 64)) ∙ h));
  },
  λ q. test_bit-zero (q % 64),
)

pub initial-eq-clear_all : (s : PriceBitset) → initial ≡ clear_all s
unfolding initial clear_all
initial-eq-clear_all s = refl
