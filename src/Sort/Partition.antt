-- ===== src/Sort/Partition.antt =====
-- What one round of quicksort() does: the pivot comes to stand between the elements that are less
-- and those that are not.
use experiment.Base.{
  ℕ, zero, suc, ◌+◌, ◌-◌, ◌/◌, ◌≤◌, ◌<◌, ◌≡◌, sym, subst, ◌∙◌, Bool, true, false, List, arith,
  Bool-cases, inl, inr, ◌==◌, ==_iff, ==_refl, ◌⊎◌, length, get_or,
}
use experiment.Sort.{swap, partition, split}
use experiment.Sort.Rearranges.{
  Rearranges, Rearranges-refl, Rearranges-trans, Rearranges-wider, get_or-swap, length-swap,
  swap-Rearranges,
}

-- Where the loop over [left, right) leaves `store_idx` and the array; the pivot is at `right`.
record Parts {ℓ} {A : Type ℓ} (d : A) (less : A → A → Bool) (left right : ℕ) (l : List A)
    (r : ℕ × List A) : Type ℓ where
  moved : Rearranges d left right l r.1
  low : left ≤ r.0
  high : r.0 ≤ right
  below : (j : ℕ) → left ≤ j → j < r.0 → less (get_or r.1 j d) (get_or l right d) ≡ true
  above : (j : ℕ) → r.0 ≤ j → j < right → less (get_or r.1 j d) (get_or l right d) ≡ false

-- The pivot stands at the index in the result; [left, right] is the range.
pub record Splits {ℓ} {A : Type ℓ} (d : A) (less : A → A → Bool) (left right : ℕ) (l : List A)
    (r : ℕ × List A) : Type ℓ where
  pub moved : Rearranges d left (suc right) l r.1
  pub low : left ≤ r.0
  pub high : r.0 ≤ right
  pub below : (j : ℕ) → left ≤ j → j < r.0 → less (get_or r.1 j d) (get_or r.1 r.0 d) ≡ true
  pub above : (j : ℕ) → r.0 < j → j ≤ right → less (get_or r.1 j d) (get_or r.1 r.0 d) ≡ false

apart : (a b : ℕ) → (a < b) ⊎ (b < a) → (a == b) ≡ false
apart a b h = ground arith

module _ {ℓ} {A : Type ℓ} (d : A) (less : A → A → Bool) where
  partition-Parts :
      (left right n k s : ℕ) (l : List A)
      → k + n ≡ right
      → left ≤ s
      → s ≤ k
      → right < length l
      → ((j : ℕ) → left ≤ j → j < s → less (get_or l j d) (get_or l right d) ≡ true)
      → ((j : ℕ) → s ≤ j → j < k → less (get_or l j d) (get_or l right d) ≡ false)
      → Parts d less left right l (partition d less right n k s l)
  unfolding partition
  partition-Parts left right zero k s l end low high room below above = record {
    moved = Rearranges-refl d left right l;
    low = low;
    high = omega arith;
    below = below;
    above = λ j s_j j_right. above j s_j (omega arith);
  }
  partition-Parts left right (suc n) k s l end low high room below above =
      elim (Bool-cases (less (get_or l k d) (get_or l right d))) [
        | inr stays ↦ rw stays (
            partition-Parts left right n (suc k) s l (omega arith) low (omega arith) room below
              (λ j s_j j_k. elim (Bool-cases (j == k)) [
                | inl e ↦ rw ((==_iff j k).0 e) stays
                | inr ne ↦ above j s_j (ground arith)
              ]))
        | inl less_k ↦
            let m = swap d k s l in
            let moved =
              swap-Rearranges d left right k s l (omega arith) (omega arith) low (omega arith)
                (omega arith) in
            let pivot : get_or m right d ≡ get_or l right d =
              moved.kept right (inr (omega arith)) in
            let at = λ (j : ℕ). get_or-swap d k s j l (omega arith) (omega arith) in
            let rest =
              partition-Parts left right n (suc k) (suc s) m (omega arith) (omega arith)
                (omega arith) (rw (length-swap d k s l) room)
                (λ j left_j j_s. rw pivot (
                  subst (λ (x : A). less x (get_or l right d) ≡ true) (sym (at j))
                    (elim (Bool-cases (s == j)) [
                      | inl e ↦ rw e less_k
                      | inr ne ↦
                          rw (ne, apart k j (inr (ground arith))) (below j left_j (ground arith))
                    ])))
                (λ j s_j j_k. rw pivot (
                  subst (λ (x : A). less x (get_or l right d) ≡ false) (sym (at j))
                    (elim (Bool-cases (k == j)) [
                      | inl e ↦
                          rw (apart s j (inl (omega arith)), e)
                            (above s (omega arith) (ground arith))
                      | inr ne ↦
                          rw (apart s j (inl (omega arith)), ne)
                            (above j (omega arith) (ground arith))
                    ]))) in
            let r = partition d less right n (suc k) (suc s) m in
            rw less_k (record {
              moved = Rearranges-trans d left right moved rest.moved;
              low = omega (arith, rest.low);
              high = rest.high;
              below = λ j left_j j_s.
                  subst (λ (x : A). less (get_or r.1 j d) x ≡ true) pivot (rest.below j left_j j_s);
              above = λ j s_j j_r.
                  subst (λ (x : A). less (get_or r.1 j d) x ≡ false) pivot (rest.above j s_j j_r);
            })
      ]

  pub split-Splits :
      (left right : ℕ) (l : List A)
      → left ≤ right
      → right < length l
      → Splits d less left right l (split d less left right l)
  unfolding split
  split-Splits left right l order room =
      let pivot = (left + right) / 2 in
      let start = swap d pivot right l in
      let first =
        swap-Rearranges d left (suc right) pivot right l (omega arith) (omega arith) order
          (omega arith) room in
      let parts =
        partition-Parts left right (right - left) left left start (omega arith) (omega arith)
          (omega arith) (rw (length-swap d pivot right l) room) (λ j a b. absurd (omega arith))
          (λ j a b. absurd (omega arith)) in
      let s = (partition d less right (right - left) left left start).0 in
      let m = (partition d less right (right - left) left left start).1 in
      let fits : right < length m = omega (arith, parts.moved.size, length-swap d pivot right l) in
      let last =
        swap-Rearranges d left (suc right) s right m parts.low (omega (arith, parts.high)) order
          (omega arith) fits in
      let at = λ (j : ℕ). get_or-swap d s right j m (omega (arith, parts.high)) fits in
      let stays : get_or m right d ≡ get_or start right d =
        parts.moved.kept right (inr (omega arith)) in
      let mid : get_or (swap d s right m) s d ≡ get_or start right d =
        (at s ∙ elim (Bool-cases (right == s)) [
          | inl e ↦ rw (e, ← (==_iff right s).0 e) stays
          | inr ne ↦ rw (ne, ==_refl s) stays
        ]) in
      record {
        moved = Rearranges-trans d left (suc right) first (
            Rearranges-trans d left (suc right)
              (Rearranges-wider d left right left (suc right) (omega arith) (omega arith)
                parts.moved)
              last);
        low = parts.low;
        high = parts.high;
        below = λ j left_j j_s.
            rw (mid, at j, apart right j (inr (omega (arith, parts.high))), apart s j (inr j_s))
              (parts.below j left_j j_s);
        above = λ j s_j j_right.
            rw (mid, at j, apart s j (inl s_j))
              (elim (Bool-cases (right == j)) [
                | inl e ↦ rw e (parts.above s (omega arith) (omega arith))
                | inr ne ↦ rw ne (parts.above j (omega arith) (ground arith))
              ]);
      }
