-- ===== src/Fat32/Free.antt =====
-- fat32_find_free_cluster, and the new cluster that fat32_vfs_write puts behind the last of a file.
use experiment.Base.{
  ℕ, zero, suc, ◌+◌, ◌-◌, ◌%◌, ◌^◌, ◌≤◌, ◌<◌, ◌≡◌, ◌≢◌, refl, ap, sym, subst, ◌∙◌, none, some,
  arith, Bool-cases, Option-cases, inl, inr, ◌==◌, ==_iff,
}
use experiment.Fat32.{Disk, Fs, read_fat_entry, find_free_from, find_free_cluster}
use experiment.Fat32.Entries.{Fits}

-- What the scan answers: the first free cluster, or 0 when none was found before a failure of the
-- drive or the end of the table.
pub record FindsFree (fs : Fs) (d : Disk) (first last r : ℕ) : Type 0 where
  pub bound : r ≢ 0 → (first ≤ r) × (r < last) × (read_fat_entry fs d r ≡ some 0)
  pub earlier : (k : ℕ) → first ≤ k → k < r → (e : ℕ) × (read_fat_entry fs d k ≡ some e) × (e ≢ 0)
  pub full :
      r ≡ 0
      → ((k : ℕ) → first ≤ k → k < last → read_fat_entry fs d k ≢ none)
      → (k : ℕ) → first ≤ k
      → k < last
      → read_fat_entry fs d k ≢ some 0

find_free_from-FindsFree :
    (fs : Fs) (d : Disk) (n i : ℕ) → 0 < i → FindsFree fs d i (i + n) (find_free_from fs d n i)
unfolding find_free_from
find_free_from-FindsFree fs d zero i low = record {
  bound = λ ne. absurd (ne refl);
  earlier = λ k a b. absurd (omega arith);
  full = λ e works k a b. absurd (omega arith);
}
find_free_from-FindsFree fs d (suc n) i low = elim (Option-cases (read_fat_entry fs d i)) [
  | inl bad ↦
      rw (find_free_from, bad)
        (record {
          bound = λ ne. absurd (ne refl);
          earlier = λ k a b. absurd (omega arith);
          full = λ e works k a b. absurd (works i (omega arith) (omega arith) bad);
        })
  | inr (entry, here) ↦
      let rest = find_free_from-FindsFree fs d n (suc i) (omega arith) in
      elim (Bool-cases (entry == 0)) [
        | inl null ↦
            rw (find_free_from, here, null)
              (record {
                bound = λ ne. (omega arith, omega arith, here ∙ ap some ((==_iff entry 0).0 null));
                earlier = λ k a b. absurd (omega arith);
                full = λ e works k a b. absurd (omega arith);
              })
        | inr busy ↦
            rw (find_free_from, here, busy)
              (record {
                bound =
                    λ ne. let b = rest.bound ne in (omega (arith, b.0), omega (arith, b.1), b.2);
                earlier = λ k a b. elim (Bool-cases (k == i)) [
                  | inl e ↦
                      (entry, ap (read_fat_entry fs d) ((==_iff k i).0 e) ∙ here, ground arith)
                  | inr ne ↦ rest.earlier k (ground arith) b
                ];
                full = λ e works k a b. elim (Bool-cases (k == i)) [
                  | inl e2 ↦ λ r.
                      let z : some entry ≡ some 0 =
                        sym here ∙ ap (read_fat_entry fs d) (sym ((==_iff k i).0 e2)) ∙ r in
                      absurd (ground arith)
                  | inr ne ↦
                      rest.full e (λ j j_a j_b. works j (omega arith) (omega arith)) k
                        (ground arith) (omega arith)
                ];
              })
      ]
]

-- On a table that fits its drive, the cluster that fat32_find_free_cluster returns is the first free
-- one of all clusters of the drive; and if it returns 0 and no sector of the table fails, none is
-- free.
pub find_free_cluster-FindsFree :
    (fs : Fs) (d : Disk)
    → Fits fs
    → FindsFree fs d 2 (fs.total_clusters + 2) (find_free_cluster fs d)
unfolding find_free_cluster
find_free_cluster-FindsFree fs d fits =
    let whole : 2 + ((fs.total_clusters + 2) % 2 ^ 32 - 2) ≡ fs.total_clusters + 2 =
      omega (arith, fits.clusters) in
    subst (λ (n : ℕ). FindsFree fs d 2 n (find_free_cluster fs d)) whole
      (find_free_from-FindsFree fs d ((fs.total_clusters + 2) % 2 ^ 32 - 2) 2 (omega arith))
