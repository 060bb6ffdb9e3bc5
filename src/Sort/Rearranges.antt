-- ===== src/Sort/Rearranges.antt =====
-- A change of an array that only moves elements of one range within the range, as swap() does.
use mathlib.Core.List.{Perm}
use mathlib.Core.List.Perm
use experiment.Base.{
  ℕ, zero, suc, ◌≤◌, ◌<◌, ◌≡◌, refl, sym, subst, ◌∙◌, ◌⊎◌, Bool, true, List, [], ◌∷◌, arith,
  Bool-cases, inl, inr, ltb, ◌==◌, if◌then◌else◌, ==_iff, length, get_or, set, length-set,
  get_or-set_self, get_or-set_ne,
}
use experiment.Sort.{swap}

-- `l` before, `m` after: a test that every element of the range passed is passed by all of them.
pub record Rearranges {ℓ} {A : Type ℓ} (d : A) (lo hi : ℕ) (l m : List A) : Type ℓ where
  pub perm : Perm m l
  pub size : length m ≡ length l
  pub kept : (k : ℕ) → (k < lo) ⊎ (hi ≤ k) → get_or m k d ≡ get_or l k d
  pub inside :
      (t : A → Bool)
      → ((k : ℕ) → lo ≤ k → k < hi → t (get_or l k d) ≡ true)
      → (k : ℕ) → lo ≤ k
      → k < hi
      → t (get_or m k d) ≡ true

module _ {ℓ} {A : Type ℓ} where
  pub Rearranges-refl : (d : A) (lo hi : ℕ) (l : List A) → Rearranges d lo hi l l
  Rearranges-refl d lo hi l = record {
    perm = Perm.rfl;
    size = refl;
    kept = λ k h. refl;
    inside = λ t h. h;
  }

  pub Rearranges-trans :
      (d : A) (lo hi : ℕ) {l m n : List A}
      → Rearranges d lo hi l m
      → Rearranges d lo hi m n
      → Rearranges d lo hi l n
  Rearranges-trans d lo hi p q = record {
    perm = Perm.trans q.perm p.perm;
    size = q.size ∙ p.size;
    kept = λ k h. q.kept k h ∙ p.kept k h;
    inside = λ t h. q.inside t (p.inside t h);
  }

  -- A change of a smaller range is one of a larger.
  pub Rearranges-wider :
      (d : A) (a b lo hi : ℕ) {l m : List A}
      → lo ≤ a
      → b ≤ hi
      → Rearranges d a b l m
      → Rearranges d lo hi l m
  Rearranges-wider d a b lo hi {l} {m} low high r = record {
    perm = r.perm;
    size = r.size;
    kept = λ k h. r.kept k (ground arith);
    inside = λ t h k k_low k_high. elim (Bool-cases (ltb k a)) [
      | inl before ↦ rw (r.kept k (ground arith)) (h k k_low k_high)
      | inr here ↦ elim (Bool-cases (ltb k b)) [
        | inl before ↦
            r.inside t (λ j j_low j_high. h j (omega arith) (omega arith)) k (ground arith)
              (ground arith)
        | inr behind ↦ rw (r.kept k (ground arith)) (h k k_low k_high)
      ]
    ];
  }

  -- An element written over another: the list with the old element is the old list with the new one.
  set-perm : (d v : A) (l : List A) (i : ℕ) → i < length l → Perm (get_or l i d ∷ set l i v) (v ∷ l)
  set-perm d v [] i h = absurd (omega arith)
  set-perm d v (x ∷ xs) zero h = Perm.swap v x xs
  set-perm d v (x ∷ xs) (suc i) h =
      Perm.trans (Perm.swap x (get_or xs i d) (set xs i v))
        (Perm.trans (Perm.cons x (set-perm d v xs i (omega arith))) (Perm.swap v x xs))

  get_or-set :
      (l : List A) (i j : ℕ) (v d : A)
      → i < length l
      → get_or (set l i v) j d ≡ (if i == j then v else get_or l j d)
  get_or-set l i j v d h = elim (Bool-cases (i == j)) [
    | inl e ↦ rw (e, ← (==_iff i j).0 e) (get_or-set_self l i v d h)
    | inr ne ↦ rw ne (get_or-set_ne l i j v d (ground arith))
  ]

  -- What stands at a place after a swap.
  pub get_or-swap :
      (d : A) (i j k : ℕ) (l : List A)
      → i < length l
      → j < length l
      → get_or (swap d i j l) k d
        ≡ (if j == k then get_or l i d else if i == k then get_or l j d else get_or l k d)
  unfolding swap
  get_or-swap d i j k l hi hj =
      rw
        (
          get_or-set (set l i (get_or l j d)) j k (get_or l i d) d
              (subst (λ (n : ℕ). j < n) (sym (length-set l i (get_or l j d))) hj),
          get_or-set l i k (get_or l j d) d hi,
        )
        refl

  pub length-swap : (d : A) (i j : ℕ) (l : List A) → length (swap d i j l) ≡ length l
  unfolding swap
  length-swap d i j l =
      length-set (set l i (get_or l j d)) j (get_or l i d) ∙ length-set l i (get_or l j d)

  swap-perm : (d : A) (i j : ℕ) (l : List A) → i < length l → j < length l → Perm (swap d i j l) l
  unfolding swap
  swap-perm d i j l hi hj =
      let b = get_or l j d in
      let first = set-perm d b l i hi in
      let second =
        set-perm d (get_or l i d) (set l i b) j
          (subst (λ (n : ℕ). j < n) (sym (length-set l i b)) hj) in
      let there : get_or (set l i b) j d ≡ b = get_or-set l i j b d hi ∙ ground arith in
      Perm.cons_inv (
        Perm.trans
          (subst (λ (x : A). Perm (x ∷ swap d i j l) (get_or l i d ∷ set l i b)) there second)
          first)

  pub swap-Rearranges :
      (d : A) (lo hi i j : ℕ) (l : List A)
      → lo ≤ i
      → i < hi
      → lo ≤ j
      → j < hi
      → hi ≤ length l
      → Rearranges d lo hi l (swap d i j l)
  swap-Rearranges d lo hi i j l li ih lj jh room = record {
    perm = swap-perm d i j l (omega arith) (omega arith);
    size = length-swap d i j l;
    kept = λ k out. get_or-swap d i j k l (omega arith) (omega arith) ∙ ground arith;
    inside = λ t h k low high.
        subst (λ (x : A). t x ≡ true) (sym (get_or-swap d i j k l (omega arith) (omega arith)))
          (elim (Bool-cases (j == k)) [
            | inl e ↦ rw e (h i li ih)
            | inr ne ↦ rw ne (elim (Bool-cases (i == k)) [
              | inl e ↦ rw e (h j lj jh)
              | inr ne2 ↦ rw ne2 (h k low high)
            ])
          ]);
  }
