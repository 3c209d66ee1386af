-- ===== src/PriceBitset/Find.antt =====
-- `find_lowest`, `find_highest` and `empty` answer for the set of prices. A coherent bitset calls
-- the builtins at words that are not zero, and stays inside its arrays.
use lobook.Base.{
  ℕ, ◌+◌, ◌*◌, ◌/◌, ◌<◌, ◌≡◌, ◌≢◌, Bool, true, false, ◌==◌, Option, none, some, Returns, inl, inr,
  Bool-cases, arith, ==→eq, ==→ne, refl, ◌↔◌, sym, ◌∙◌, lt→ltb, ltb, ltb→lt, ltb→le, ◌%◌, ◌^◌, ◌-◌,
}
use lobook.Base.Bits.{test_bit}
use lobook.Base.Bits.Scan.{IsLowest, IsHighest, ctzll-IsLowest, clzll-IsHighest, eq-zero}
use lobook.Base.Bits.Single.{test_bit-zero, test_bit-high}
use lobook.PriceBitset.{
  PriceBitset, max_prices, l1_blocks, l2_blocks, find_lowest, find_highest, empty,
}
use lobook.PriceBitset.Levels.{flat, Summary}
use lobook.PriceBitset.Coherent.{member, IsCoherent}

-- The least of a set of prices, and the greatest.
pub record IsLeast (m : ℕ → Bool) (p : ℕ) : Type 0 where
  pub holds : m p ≡ true
  pub below : (q : ℕ) → q < p → m q ≡ false

pub record IsGreatest (m : ℕ → Bool) (p : ℕ) : Type 0 where
  pub holds : m p ≡ true
  pub above : (q : ℕ) → p < q → m q ≡ false

-- What a search for one may answer: nothing exactly where the set is empty.
pub data Finds (P : (ℕ → Bool) → ℕ → Type 0) (m : ℕ → Bool) : Option ℕ → Type 0 where
  nothing : ((q : ℕ) → m q ≡ false) → Finds P m none
  found : (p : ℕ) → P m p → Finds P m (some p)

module _ {row : ℕ → Bool} (l : ℕ → ℕ) (s : Summary row l) where
  ne_zero_of_row : (k : ℕ) → row k ≡ true → l k ≢ 0
  ne_zero_of_row k h = ground (arith, s k)

  clear_of_row : (k : ℕ) → row (k / 64) ≡ false → flat l k ≡ false
  clear_of_row k h =
      let e : l (k / 64) ≡ 0 = ground (arith, s (k / 64)) in rw e (test_bit-zero (k % 64))

  module _ (k c p : ℕ) (e : p ≡ 64 * k + c) where
    flat_at : c < 64 → flat l p ≡ test_bit (l k) c
    flat_at lt =
        let word_at : p / 64 ≡ k = omega arith in
        let bit_at : p % 64 ≡ c = omega arith in rw (word_at, bit_at)

    flat-IsLeast : IsLeast row k → IsLowest 64 (l k) c → IsLeast (flat l) p
    flat-IsLeast up low = record {
      holds = rw (flat_at low.in_word) low.is_set;
      below = λ q lt. elim (Bool-cases (q / 64 == k)) [
        | inl same ↦
            rw (==→eq (q / 64) k same) (low.below (q % 64) (omega (arith, ==→eq (q / 64) k same)))
        | inr less ↦ clear_of_row q (up.below (q / 64) (ground (arith, low.in_word)))
      ];
    }

    flat-IsGreatest : IsGreatest row k → IsHighest 64 (l k) c → IsGreatest (flat l) p
    flat-IsGreatest up high = record {
      holds = rw (flat_at high.in_word) high.is_set;
      above = λ q lt. elim (Bool-cases (q / 64 == k)) [
        | inl same ↦
            rw (==→eq (q / 64) k same)
              (high.above (q % 64) (omega (arith, ==→eq (q / 64) k same)) (omega arith))
        | inr more ↦ clear_of_row q (up.above (q / 64) (ground (arith, high.in_word)))
      ];
    }

module _ {s : PriceBitset} (c : IsCoherent s) where
  open c use {l0_word, l1_words, l2_words, top, middle, bounded}

  empty_of_l0 : s.l0 ≡ 0 → (q : ℕ) → member s q ≡ false
  empty_of_l0 e q =
      clear_of_row s.l2 middle q
        (clear_of_row s.l1 top (q / 64) (rw e (test_bit-zero (q / 64 / 64))))

  -- Bits above the word are clear, so the top level's least and greatest are among its 64.
  l0_of_empty : ((q : ℕ) → member s q ≡ false) → s.l0 ≡ 0
  l0_of_empty none_held = eq-zero s.l0 l0_word λ a _. l0_clear a
    where
      l2_zero : (k : ℕ) → s.l2 k ≡ 0
      l2_zero k =
          eq-zero (s.l2 k) (l2_words k)
            λ j lt. sym (flat_at s.l2 middle k j (64 * k + j) refl lt) ∙ none_held (64 * k + j)

      l1_zero : (k : ℕ) → s.l1 k ≡ 0
      l1_zero k = eq-zero (s.l1 k) (l1_words k) λ j lt.
          sym (flat_at s.l1 top k j (64 * k + j) refl lt)
          ∙ middle (64 * k + j)
          ∙ ground (arith, l2_zero (64 * k + j))

      l0_clear : (a : ℕ) → test_bit s.l0 a ≡ false
      l0_clear a = ground (arith, top a, l1_zero a)

  -- `empty` says whether the set is empty.
  pub empty_iff : (empty s ≡ true) ↔ ((q : ℕ) → member s q ≡ false)
  unfolding empty
  empty_iff = (λ e. empty_of_l0 (==→eq _ _ e), λ none_held. rw (l0_of_empty none_held))

  -- `find_lowest` returns the least price of the set, and nothing exactly where it is empty.
  pub find_lowest-IsLeast : Returns (find_lowest s) (Finds IsLeast (member s))
  unfolding find_lowest
  find_lowest-IsLeast = elim (Bool-cases (s.l0 == 0)) [
    | inl e ↦ rw e (none, refl, nothing (empty_of_l0 (==→eq _ _ e)))
    | inr ne ↦
        let (a, ea, la) = ctzll-IsLowest s.l0 l0_word (==→ne _ _ ne) in
        let up : IsLeast (test_bit s.l0) a = record { holds = la.is_set; below = la.below } in
        let (b, eb, lb) =
          ctzll-IsLowest (s.l1 a) (l1_words a) (ne_zero_of_row s.l1 top a la.is_set) in
        let k = a * 64 + b in
        let up1 = flat-IsLeast s.l1 top a b k (omega arith) up lb in
        let (z, ez, lz) =
          ctzll-IsLowest (s.l2 k) (l2_words k) (ne_zero_of_row s.l2 middle k up1.holds) in
        let p = 64 * k + z in
        let up2 = flat-IsLeast s.l2 middle k z p refl up1 lz in
        let in_range : p < max_prices = bounded p up2.holds in
        let same : p % 2 ^ 32 ≡ p = omega arith in
        rw
          (ne, ea, lt→ltb a l1_blocks (omega arith), eb, lt→ltb k l2_blocks (omega arith), ez, same)
          (some p, refl, found p up2)
  ]

  -- `find_highest` returns the greatest price of the set, and nothing exactly where it is empty.
  pub find_highest-IsGreatest : Returns (find_highest s) (Finds IsGreatest (member s))
  unfolding find_highest
  find_highest-IsGreatest = elim (Bool-cases (s.l0 == 0)) [
    | inl e ↦ rw e (none, refl, nothing (empty_of_l0 (==→eq _ _ e)))
    | inr ne ↦
        let (y, ey, (hy, ha)) = clzll-IsHighest s.l0 l0_word (==→ne _ _ ne) in
        let a = 63 - y in
        let up : IsGreatest (test_bit s.l0) a = record {
          holds = ha.is_set;
          above = λ j lt. above_word a ha j lt;
        } in
        let (x, ex, (hx, hb)) =
          clzll-IsHighest (s.l1 a) (l1_words a) (ne_zero_of_row s.l1 top a ha.is_set) in
        let k = a * 64 + (63 - x) in
        let up1 = flat-IsGreatest s.l1 top a (63 - x) k (omega arith) up hb in
        let (z, ez, (hz, hc)) =
          clzll-IsHighest (s.l2 k) (l2_words k) (ne_zero_of_row s.l2 middle k up1.holds) in
        let p = 64 * k + (63 - z) in
        let up2 = flat-IsGreatest s.l2 middle k (63 - z) p refl up1 hc in
        let in_range : p < max_prices = bounded p up2.holds in
        let same : p % 2 ^ 32 ≡ p = omega arith in
        rw
          (ne, ey, lt→ltb a l1_blocks (omega arith), ex, lt→ltb k l2_blocks (omega arith), ez, same)
          (some p, refl, found p up2)
  ]
    where
      above_word : (a : ℕ) → IsHighest 64 s.l0 a → (j : ℕ) → a < j → test_bit s.l0 j ≡ false
      above_word a ha j lt = elim (Bool-cases (ltb j 64)) [
        | inl inside ↦ ha.above j lt (ltb→lt j 64 inside)
        | inr outside ↦ test_bit-high 64 s.l0 j l0_word (ltb→le j 64 outside)
      ]
