-- ===== src/Fat32/Freed.antt =====
-- What fat32_free_chain does to the clusters of a chain, and to the others.
use experiment.Base.{
  ℕ, zero, suc, ◌+◌, ◌≤◌, ◌<◌, ◌≡◌, refl, ap, sym, ◌∙◌, Bool, true, false, ◌||◌, some, List, [],
  ◌∷◌, arith, Bool-cases, inl, inr, ◌==◌, ==_iff, if◌then◌else◌, length, subst, ap₂, ==_refl,
  ==_refl,
}
use experiment.Fat32.{Disk, Fs, fat32_eoc, read_fat_entry, in_chain, free_chain, fat32_free_chain}
use experiment.Fat32.Entries.{Fits}
use experiment.Fat32.Chain.{in_chain-bound, free_chain-step, free_chain-stop, fat32_free_chain-ends}

-- The clusters of the chain that starts at a cluster, in order, up to the number that ends it.
unfoldable pub IsChain : Fs → Disk → (cluster : ℕ) → List ℕ → Type 0
IsChain fs d c [] = in_chain fs c ≡ false
IsChain fs d c (x ∷ xs) =
    (c ≡ x)
    × (in_chain fs c ≡ true)
    × ((next : ℕ) × (read_fat_entry fs d c ≡ some next) × IsChain fs d next xs)

abbrev pub mem : ℕ → List ℕ → Bool
mem k [] = false
mem k (x ∷ xs) = (x == k) || mem k xs

-- The cluster behind the first one of a chain.
pub IsChain-next :
    (fs : Fs) (d : Disk) (c x y : ℕ) (ys : List ℕ)
    → IsChain fs d c (x ∷ y ∷ ys)
    → (c ≡ x) × (read_fat_entry fs d c ≡ some y) × (y < fat32_eoc) × IsChain fs d y (y ∷ ys)
unfolding IsChain in_chain
IsChain-next fs d c x y ys h =
    let same = h.2.2.0 in
    (h.0, h.2.1 ∙ ap some same, ground arith, subst (λ (n : ℕ). IsChain fs d n (y ∷ ys)) same h.2.2)

pub IsChain-head : (fs : Fs) (d : Disk) (c x : ℕ) (xs : List ℕ) → IsChain fs d c (x ∷ xs) → c ≡ x
unfolding IsChain
IsChain-head fs d c x xs h = h.0

some-injective : {a b : ℕ} → some a ≡ some b → a ≡ b
some-injective h = ground arith

IsChain-unique :
    (fs : Fs) (d : Disk) (c : ℕ) (xs ys : List ℕ) → IsChain fs d c xs → IsChain fs d c ys → xs ≡ ys
unfolding IsChain
IsChain-unique fs d c [] [] h k = refl
IsChain-unique fs d c [] (y ∷ ys) h k = absurd (ground arith)
IsChain-unique fs d c (x ∷ xs) [] h k = absurd (ground arith)
IsChain-unique fs d c (x ∷ xs) (y ∷ ys) h k =
    let same : k.2.0 ≡ h.2.0 = ground arith in
    ap₂ ◌∷◌ (sym h.0 ∙ k.0)
      (IsChain-unique fs d h.2.0 xs ys h.2.2 (subst (λ (n : ℕ). IsChain fs d n ys) same k.2.2))

-- The part of a chain from one of its clusters on.
IsChain-suffix :
    (fs : Fs) (d : Disk) (k c : ℕ) (xs : List ℕ)
    → IsChain fs d c xs
    → mem k xs ≡ true
    → (ys : List ℕ) × IsChain fs d k ys × (length ys ≤ length xs)
unfolding IsChain
IsChain-suffix fs d k c [] h m = absurd (ground arith)
IsChain-suffix fs d k c (x ∷ xs) h m = elim (Bool-cases (x == k)) [
  | inl e ↦
      (x ∷ xs, subst (λ (n : ℕ). IsChain fs d n (x ∷ xs)) (h.0 ∙ (==_iff x k).0 e) h, omega arith)
  | inr ne ↦
      let rest = IsChain-suffix fs d k h.2.0 xs h.2.2 (ground arith) in
      (rest.0, rest.1, omega (arith, rest.2))
]

-- A chain does not come back to its start.
IsChain-leaves :
    (fs : Fs) (d : Disk) (c x : ℕ) (xs : List ℕ) → IsChain fs d c (x ∷ xs) → mem c xs ≡ false
unfolding IsChain
IsChain-leaves fs d c x xs h = elim (Bool-cases (mem c xs)) [
  | inr out ↦ out
  | inl again ↦
      let part = IsChain-suffix fs d c h.2.0 xs h.2.2 again in
      let same = ap length (IsChain-unique fs d c part.0 (x ∷ xs) part.1 h) in
      absurd (omega (arith, same, part.2))
]

IsChain-frame :
    (fs : Fs) (d d' : Disk) (c : ℕ) (xs : List ℕ)
    → IsChain fs d c xs
    → ((k : ℕ)
        → mem k xs ≡ true
        → in_chain fs k ≡ true
        → read_fat_entry fs d' k ≡ read_fat_entry fs d k)
    → IsChain fs d' c xs
unfolding IsChain
IsChain-frame fs d d' c [] h same = h
IsChain-frame fs d d' c (x ∷ xs) h same = (
  h.0,
  h.1,
  (
    h.2.0,
    same c (rw h.0 (rw (==_refl x) refl)) h.1 ∙ h.2.1,
    IsChain-frame fs d d' h.2.0 xs h.2.2 (λ k m. same k (or_right (x == k) (mem k xs) m)),
  ),
)
  where
    or_right : (a b : Bool) → b ≡ true → (a || b) ≡ true
    or_right a b e = ground arith

free_chain-frees :
    (fuel : ℕ) (fs : Fs) (c k : ℕ) (d d' : Disk) (xs : List ℕ)
    → Fits fs
    → IsChain fs d c xs
    → k < fs.total_clusters + 2
    → free_chain fuel fs c d ≡ some d'
    → read_fat_entry fs d' k ≡ (if mem k xs then some 0 else read_fat_entry fs d k)
unfolding IsChain free_chain
free_chain-frees zero fs c k d d' xs fits h small r = absurd (ground arith)
free_chain-frees (suc fuel) fs c k d d' [] fits h small r =
    let same : d ≡ d' = some_disk (sym (free_chain-stop fuel fs c d (inl h)) ∙ r) in
    ap (λ (e : Disk). read_fat_entry fs e k) (sym same)
  where
    some_disk : {a b : Disk} → some a ≡ some b → a ≡ b
    some_disk e = ground arith
free_chain-frees (suc fuel) fs c k d d' (x ∷ xs) fits h small r =
    let step = free_chain-step fuel fs c h.2.0 d fits h.1 h.2.1 in
    let away = IsChain-leaves fs d c x xs h in
    let rest = IsChain-frame fs d step.0 h.2.0 xs h.2.2 (λ j m inside.
      step.2.elsewhere j (in_chain-bound fs j fits inside).0
        (λ e. ne_true (sym m ∙ ap (λ i. mem i xs) e ∙ away))) in
    let ih = free_chain-frees fuel fs h.2.0 k step.0 d' xs fits rest small (sym step.1 ∙ r) in
    elim (Bool-cases (c == k)) [
      | inl e ↦
          let c_k = (==_iff c k).0 e in
          let gone = subst (λ (i : ℕ). mem i xs ≡ false) c_k away in
          let now = subst (λ (i : ℕ). read_fat_entry fs step.0 i ≡ some 0) c_k step.2.here in
          rw (← h.0, e) (ih ∙ rw gone now)
      | inr ne ↦ rw (sym h.0, ne, ← step.2.elsewhere k small (ground arith)) ih
    ]
  where
    ne_true : true ≡ false → ⊥
    ne_true e = cc

-- If no two entries can be confused and the clusters `xs` are the chain of `c` - which ends -,
-- fat32_free_chain ends, every cluster of the chain is then free, and every other entry of the
-- table is what it was.
pub fat32_free_chain-frees :
    (fs : Fs) (c : ℕ) (d : Disk) (xs : List ℕ)
    → Fits fs
    → IsChain fs d c xs
    → (d' : Disk) × (fat32_free_chain fs c d ≡ some d')
      × ((k : ℕ)
          → k < fs.total_clusters + 2
          → read_fat_entry fs d' k ≡ (if mem k xs then some 0 else read_fat_entry fs d k))
unfolding fat32_free_chain
fat32_free_chain-frees fs c d xs fits h =
    let ends = fat32_free_chain-ends fs c d fits in
    (
      ends.0,
      ends.1,
      λ k small. free_chain-frees (fs.total_clusters + 4) fs c k d ends.0 xs fits h small ends.1,
    )
