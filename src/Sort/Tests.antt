-- ===== src/Sort/Tests.antt =====
-- qsort() on small arrays of numbers.
use experiment.Base.{ℕ, ◌≡◌, refl, some, List, [], ◌∷◌, ltb, arith}
use experiment.Sort.{qsort}
use experiment.Sort.Quick.{IsOrder, Sorts, qsort-Sorts}

abbrev few_numbers : List ℕ
few_numbers = 3 ∷ 1 ∷ 2 ∷ 3 ∷ 0 ∷ []

-- The last element stands behind the range.
qsort_part : qsort 9 4 8 ltb few_numbers ≡ some (1 ∷ 2 ∷ 3 ∷ 3 ∷ 0 ∷ [])
unfolding qsort
qsort_part = refl

qsort_unsized : qsort 9 5 0 ltb few_numbers ≡ some few_numbers
unfolding qsort
qsort_unsized = refl

ltb-IsOrder : IsOrder ltb
ltb-IsOrder = record { asymmetric = λ a b h. ground arith; transitive = λ a b c h k. ground arith }

qsort-Sorts_example : Sorts 9 ltb 0 4 few_numbers (qsort 9 4 8 ltb few_numbers)
qsort-Sorts_example =
    qsort-Sorts 9 ltb 4 8 few_numbers ltb-IsOrder (λ e. absurd (omega (arith, e))) (omega arith)
      (omega arith)
