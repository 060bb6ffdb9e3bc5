-- ===== src/Fat32/Chain.antt =====
-- fat32_free_chain ends on every table, also on one whose chain runs in a circle, and frees exactly
-- the clusters of the chain.
use experiment.Base.{
  ℕ, zero, suc, ◌+◌, ◌≤◌, ◌<◌, ◌≡◌, ◌≢◌, refl, ap, ◌∙◌, Bool, true, false, not, Option, none, some,
  arith, Bool-cases, Option-cases, ◌⊎◌, inl, inr, ◌==◌, ==_iff, if◌then◌else◌,
}
use experiment.Fat32.{Disk, Fs, read_fat_entry, in_chain, free_chain, fat32_free_chain}
use experiment.Fat32.Entries.{Fits, Writes, write_fat_entry-Writes, read_fat_entry_sound}

abbrev pub in_use : Option ℕ → Bool
in_use none = false
in_use (some e) = not (e == 0)

-- The entries below `n` that are in use.
used : (ℕ → Option ℕ) → (n : ℕ) → ℕ
used r zero = 0
used r (suc n) = let rest = used r n in if in_use (r n) then suc rest else rest

used-bound : (r : ℕ → Option ℕ) (n : ℕ) → used r n ≤ n
unfolding used
used-bound r zero = omega arith
used-bound r (suc n) = ground (arith, used-bound r n)

used-same : (r r' : ℕ → Option ℕ) (n : ℕ) → ((k : ℕ) → k < n → r' k ≡ r k) → used r' n ≡ used r n
unfolding used
used-same r r' zero h = refl
used-same r r' (suc n) h =
    rw (h n (omega arith), used-same r r' n (λ k k_n. h k (omega arith))) refl

-- One entry less in use.
used-less :
    (r r' : ℕ → Option ℕ) (c n : ℕ)
    → c < n
    → in_use (r c) ≡ true
    → r' c ≡ some 0
    → ((k : ℕ) → k < n → k ≢ c → r' k ≡ r k)
    → suc (used r' n) ≡ used r n
unfolding used
used-less r r' c zero small busy freed same = absurd (omega arith)
used-less r r' c (suc n) small busy freed same = elim (Bool-cases (n == c)) [
  | inl e ↦
      let n_c = (==_iff n c).0 e in
      rw (n_c, freed, busy)
        (ap suc (used-same r r' c (λ k k_c. same k (omega arith) (λ e. absurd (omega (arith, e))))))
  | inr ne ↦
      let ih = used-less r r' c n (ground arith) busy freed (λ k k_n. same k (omega arith)) in
      rw (same n (omega arith) (ground arith)) (ground (arith, ih))
]

pub in_chain-bound :
    (fs : Fs) (c : ℕ) → Fits fs → in_chain fs c ≡ true → (c < fs.total_clusters + 2) × (c ≢ 0)
unfolding in_chain
in_chain-bound fs c fits h = ground (arith, fits.clusters)

in_chain-zero : (fs : Fs) → in_chain fs 0 ≡ false
unfolding in_chain
in_chain-zero fs = refl

-- The function at work on an entry that can be read: it is freed.
pub free_chain-step :
    (fuel : ℕ) (fs : Fs) (c next : ℕ) (d : Disk)
    → Fits fs
    → in_chain fs c ≡ true
    → read_fat_entry fs d c ≡ some next
    → (d' : Disk) × (free_chain (suc fuel) fs c d ≡ free_chain fuel fs next d') × Writes fs c 0 d d'
unfolding free_chain
free_chain-step fuel fs c next d fits inside entry =
    let w =
      write_fat_entry-Writes fs c 0 d fits (in_chain-bound fs c fits inside).0
        (read_fat_entry_sound fs c next d entry) in
    (w.0, rw (free_chain, inside, entry, w.1) refl, w.2)

-- Where it stops.
pub free_chain-stop :
    (fuel : ℕ) (fs : Fs) (c : ℕ) (d : Disk)
    → (in_chain fs c ≡ false) ⊎ (read_fat_entry fs d c ≡ none)
    → free_chain (suc fuel) fs c d ≡ some d
unfolding free_chain
free_chain-stop fuel fs c d (inl out) = rw (free_chain, out) refl
free_chain-stop fuel fs c d (inr bad) = elim (Bool-cases (in_chain fs c)) [
  | inl inside ↦ rw (free_chain, inside, bad) refl
  | inr out ↦ rw (free_chain, out) refl
]

free_chain-ends :
    (fuel : ℕ) (fs : Fs) (c : ℕ) (d : Disk)
    → Fits fs
    → used (read_fat_entry fs d) (fs.total_clusters + 2) + 2 ≤ fuel
    → (d' : Disk) × (free_chain fuel fs c d ≡ some d')
free_chain-ends zero fs c d fits enough = absurd (omega arith)
free_chain-ends (suc zero) fs c d fits enough = absurd (omega arith)
free_chain-ends (suc (suc fuel)) fs c d fits enough = elim (Bool-cases (in_chain fs c)) [
  | inr out ↦ (d, free_chain-stop (suc fuel) fs c d (inl out))
  | inl inside ↦ elim (Option-cases (read_fat_entry fs d c)) [
    | inl bad ↦ (d, free_chain-stop (suc fuel) fs c d (inr bad))
    | inr (next, entry) ↦
        let step = free_chain-step (suc fuel) fs c next d fits inside entry in
        elim (Bool-cases (next == 0)) [
          | inl null ↦
              let e : next ≡ 0 = (==_iff next 0).0 null in
              (
                step.0,
                step.1
                    ∙ free_chain-stop fuel fs next step.0
                        (inl (ap (in_chain fs) e ∙ in_chain-zero fs)),
              )
          | inr busy ↦
              let n = fs.total_clusters + 2 in
              let less =
                used-less (read_fat_entry fs d) (read_fat_entry fs step.0) c n
                  (in_chain-bound fs c fits inside).0 (rw (entry, busy) refl) (step.2.here)
                  step.2.elsewhere in
              let rest = free_chain-ends (suc fuel) fs next step.0 fits (omega (arith, less)) in
              (rest.0, step.1 ∙ rest.1)
        ]
  ]
]

-- On a drive whose cluster numbers are below 0x0FFFFFF8 and whose table's sector numbers do not wrap,
-- fat32_free_chain ends whatever the table says: its fuel is never used up, even by a chain that runs
-- in a circle or into another one, and by a drive that fails.
pub fat32_free_chain-ends :
    (fs : Fs) (c : ℕ) (d : Disk) → Fits fs → (d' : Disk) × (fat32_free_chain fs c d ≡ some d')
unfolding fat32_free_chain
fat32_free_chain-ends fs c d fits =
    free_chain-ends (fs.total_clusters + 4) fs c d fits
      (omega (arith, used-bound (read_fat_entry fs d) (fs.total_clusters + 2)))
