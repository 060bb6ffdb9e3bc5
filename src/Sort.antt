-- ===== src/Sort.antt =====
-- lib/sort.c: quicksort in place. The array at `base` is the list of its elements, whose bytes are
-- moved together; `compar(a, b) < 0` is the test `less`. An index is an int that stays at or above
-- 0, but for the bound `right`, which can be -1: `stop` is `right + 1`.

pub mod Rearranges
pub mod Partition
pub mod Quick
mod Tests
use experiment.Base.{
  ℕ, zero, suc, ◌+◌, ◌-◌, ◌/◌, ◌^◌, ◌≡◌, Bool, true, false, Option, none, some, List, ltb, leb,
  ◌==◌, if◌then◌else◌, ◌>>=◌, get_or, set,
}

module _ {ℓ} {A : Type ℓ} where
  -- What lies beyond the array is never read: `d` stands for it.
  pub swap : (d : A) → (i j : ℕ) → List A → List A
  swap d i j l = set (set l i (get_or l j d)) j (get_or l i d)

  -- The `n` rounds of the loop that are left, from `k` on; the result starts with `store_idx`.
  pub partition : (d : A) → (less : A → A → Bool) → (right n k store_idx : ℕ) → List A → ℕ × List A
  unfolding swap
  partition d less right zero k store_idx l = (store_idx, l)
  partition d less right (suc n) k store_idx l =
      if less (get_or l k d) (get_or l right d)
      then partition d less right n (suc k) (suc store_idx) (swap d k store_idx l)
      else partition d less right n (suc k) store_idx l

  -- One call of quicksort() up to its two recursive calls.
  pub split : (d : A) → (less : A → A → Bool) → (left right : ℕ) → List A → ℕ × List A
  unfolding partition swap
  split d less left right l =
      let parted =
        partition d less right (right - left) left left (swap d ((left + right) / 2) right l) in
      (parted.0, swap d parted.0 right parted.1)

  -- `none` is a recursion deeper than the fuel.
  pub quicksort :
      (fuel : ℕ) → (d : A) → (less : A → A → Bool) → (left stop : ℕ) → List A → Option (List A)
  unfolding split
  quicksort zero d less left stop l = none
  quicksort (suc fuel) d less left stop l = elim (leb stop (suc left)) [
    | true ↦ some l
    | false ↦
        let cut = split d less left (stop - 1) l in
        do low ← quicksort fuel d less left cut.0 cut.1; quicksort fuel d less (suc cut.0) stop low
  ]

  -- With INT_MAX + 1 elements or more, `right` is INT_MAX. The recursion is at most as deep as there
  -- are elements.
  pub qsort : (d : A) → (nmemb size : ℕ) → (less : A → A → Bool) → List A → Option (List A)
  unfolding quicksort
  qsort d nmemb size less l =
      if ltb nmemb 2
      then some l
      else if size == 0
      then some l
      else let stop = if ltb (2 ^ 31) (suc nmemb) then 2 ^ 31 else nmemb in
        quicksort stop d less 0 stop l
