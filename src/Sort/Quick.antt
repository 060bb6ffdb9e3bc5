-- ===== src/Sort/Quick.antt =====
-- qsort() sorts: with the fuel it is given it ends, the range is in order, and only elements of the
-- range were moved.
use experiment.Base.{
  subst, ◌-◌, ℕ, zero, suc, ◌+◌, ◌^◌, ◌≤◌, ◌<◌, ◌≡◌, ◌≢◌, refl, ◌∙◌, Bool, true, false, Option,
  some, List, arith, Bool-cases, inl, inr, ltb, leb, ◌==◌, ==_iff, not, length, get_or,
}
use experiment.Sort.{split, quicksort, qsort}
use experiment.Sort.Rearranges.{Rearranges, Rearranges-refl, Rearranges-trans, Rearranges-wider}
use experiment.Sort.Partition.{Splits, split-Splits}

-- What the comparison must satisfy: of two elements at most one is less than the other, and "not
-- greater" is transitive.
pub record IsOrder {ℓ} {A : Type ℓ} (less : A → A → Bool) : Type ℓ where
  pub asymmetric : (a b : A) → less a b ≡ true → less b a ≡ false
  pub transitive : (a b c : A) → less b a ≡ false → less c b ≡ false → less c a ≡ false

-- No later element of the range is less than an earlier one.
abbrev pub IsSorted {ℓ} : {A : Type ℓ} → A → (A → A → Bool) → (lo hi : ℕ) → List A → Type 0
IsSorted d less lo hi l =
    (i j : ℕ) → lo ≤ i → i < j → j < hi → less (get_or l j d) (get_or l i d) ≡ false

-- The result of a sort of the range, which is there.
pub record Sorts {ℓ} {A : Type ℓ} (d : A) (less : A → A → Bool) (lo hi : ℕ) (l : List A)
    (r : Option (List A)) : Type ℓ where
  pub array : List A
  pub result : r ≡ some array
  pub sorted : IsSorted d less lo hi array
  pub moved : Rearranges d lo hi l array

module _ {ℓ} {A : Type ℓ} (d : A) (less : A → A → Bool) where
  -- A range in order on both sides of its pivot is in order.
  IsSorted-join :
      (lo s hi : ℕ) (m : List A)
      → IsOrder less
      → IsSorted d less lo s m
      → IsSorted d less (suc s) hi m
      → ((j : ℕ) → lo ≤ j → j < s → less (get_or m j d) (get_or m s d) ≡ true)
      → ((j : ℕ) → s < j → j < hi → less (get_or m j d) (get_or m s d) ≡ false)
      → IsSorted d less lo hi m
  IsSorted-join lo s hi m o low high below above i j lo_i i_j j_hi = elim (Bool-cases (ltb i s)) [
    | inr behind ↦ elim (Bool-cases (i == s)) [
      | inl e ↦ rw ((==_iff i s).0 e) (above j (ground arith) j_hi)
      | inr ne ↦ high i j (ground arith) i_j j_hi
    ]
    | inl i_s ↦ elim (Bool-cases (ltb j s)) [
      | inl j_s ↦ low i j lo_i i_j (ground arith)
      | inr later ↦
          let under = o.asymmetric _ _ (below i lo_i (ground arith)) in
          elim (Bool-cases (j == s)) [
            | inl e ↦ rw ((==_iff j s).0 e) under
            | inr ne ↦ o.transitive _ (get_or m s d) _ under (above j (ground arith) j_hi)
          ]
    ]
  ]

  -- Two sorts behind one another, of the parts on both sides of a pivot.
  Sorts-join :
      (lo right hi : ℕ) (l : List A) (cut : ℕ × List A) {low high : List A}
      → IsOrder less
      → suc right ≡ hi
      → Splits d less lo right l cut
      → IsSorted d less lo cut.0 low
      → Rearranges d lo cut.0 cut.1 low
      → IsSorted d less (suc cut.0) hi high
      → Rearranges d (suc cut.0) hi low high
      → Sorts d less lo hi l (some high)
  Sorts-join lo right hi l cut {low} {high} o e parts sorted_low moved_low sorted_high moved_high =
      record {
        array = high;
        result = refl;
        sorted =
            IsSorted-join lo cut.0 hi high o
              (λ i j lo_i i_j j_s.
                rw (moved_high.kept i (inl (omega arith)), moved_high.kept j (inl (omega arith)))
                  (sorted_low i j lo_i i_j j_s))
              sorted_high
              (λ j lo_j j_s.
                rw (moved_high.kept j (inl (omega arith)), pivot)
                  (moved_low.inside (λ x. less x (get_or cut.1 cut.0 d))
                    (λ k a b. parts.below k a b) j lo_j j_s))
              (λ j s_j j_hi. rw pivot (
                not_true (
                  moved_high.inside (λ x. not (less x (get_or cut.1 cut.0 d)))
                    (λ k a b.
                      rw (moved_low.kept k (inr (omega arith)), parts.above k a (omega arith)) refl)
                    j s_j j_hi)));
        moved =
            Rearranges-trans d lo hi (subst (λ (n : ℕ). Rearranges d lo n l cut.1) e parts.moved) (
              Rearranges-trans d lo hi
                (Rearranges-wider d lo cut.0 lo hi (omega arith) (omega (arith, parts.high))
                  moved_low)
                (Rearranges-wider d (suc cut.0) hi lo hi (omega (arith, parts.low)) (omega arith)
                  moved_high));
      }
    where
      pivot : get_or high cut.0 d ≡ get_or cut.1 cut.0 d
      pivot = moved_high.kept cut.0 (inl (omega arith)) ∙ moved_low.kept cut.0 (inr (omega arith))

      not_true : {b : Bool} → not b ≡ true → b ≡ false
      not_true {b} e = ground arith

  Sorts-short : (left stop : ℕ) (l : List A) → stop ≤ suc left → Sorts d less left stop l (some l)
  Sorts-short left stop l short = record {
    array = l;
    result = refl;
    sorted = λ i j a b c. absurd (omega arith);
    moved = Rearranges-refl d left stop l;
  }

  quicksort-Sorts :
      (fuel left stop : ℕ) (l : List A)
      → IsOrder less
      → stop ≤ length l
      → stop ≤ fuel + left
      → 1 ≤ fuel
      → Sorts d less left stop l (quicksort fuel d less left stop l)
  unfolding quicksort
  quicksort-Sorts zero left stop l o room enough some_fuel = absurd (omega arith)
  quicksort-Sorts (suc fuel) left stop l o room enough some_fuel =
      elim (Bool-cases (leb stop (suc left))) [
        | inl short ↦ rw (quicksort, short) (Sorts-short left stop l (ground arith))
        | inr long ↦
            let many : suc left < stop = ground arith in
            let cut = split d less left (stop - 1) l in
            let parts = split-Splits d less left (stop - 1) l (omega arith) (omega arith) in
            let low =
              quicksort-Sorts fuel left cut.0 cut.1 o (omega (arith, parts.high, parts.moved.size))
                (omega (arith, parts.high)) (omega arith) in
            let high =
              quicksort-Sorts fuel (suc cut.0) stop low.array o
                (omega (arith, low.moved.size, parts.moved.size)) (omega (arith, parts.low))
                (omega arith) in
            rw (quicksort, long, low.result, high.result)
              (Sorts-join left (stop - 1) stop l cut o (omega arith) parts low.sorted low.moved
                high.sorted high.moved)
      ]

  -- If the comparison is an order, the elements have a size and there are at most 2 ^ 30 of them,
  -- qsort() ends within the depth that it is given, the first `nmemb` elements are then in order,
  -- and what it did was to move elements among them: the array is a permutation, and what stands
  -- behind the first `nmemb` is unchanged.
  pub qsort-Sorts :
      (nmemb size : ℕ) (l : List A)
      → IsOrder less
      → size ≢ 0
      → nmemb ≤ 2 ^ 30
      → nmemb ≤ length l
      → Sorts d less 0 nmemb l (qsort d nmemb size less l)
  unfolding qsort
  qsort-Sorts nmemb size l o sized bound room = elim (Bool-cases (ltb nmemb 2)) [
    | inl few ↦ rw (qsort, few) (Sorts-short 0 nmemb l (ground arith))
    | inr many ↦
        let not_null : (size == 0) ≡ false = ground arith in
        let whole : ltb (2 ^ 31) (suc nmemb) ≡ false = ground arith in
        rw (qsort, many, not_null, whole)
          (quicksort-Sorts nmemb 0 nmemb l o room (omega arith) (ground arith))
  ]
