-- ===== src/Fat32/Grow.antt =====
-- The new cluster that fat32_vfs_write puts behind the last one of a file, the same in its search
-- for the offset and in its loop.
use experiment.Base.{
  ℕ, zero, suc, ◌+◌, ◌-◌, ◌*◌, ◌/◌, ◌%◌, ◌^◌, ◌≤◌, ◌<◌, ◌≡◌, ◌≢◌, refl, ap, sym, ◌∙◌, Bool, true,
  false, ◌&&◌, Option, none, some, List, [], ◌∷◌, ◌++◌, arith, Bool-cases, inl, inr, ◌⊎◌, ltb, ◌==◌,
  if◌then◌else◌,
}
use native.Mathlib.Nat.{suc-mul, mul-le-mul_right}
use experiment.Fat32.{
  word_at, Disk, Fs, fat32_eoc, fat32_eoc_mark, fat_sector, read_fat_entry, write_fat_entry,
  find_free_cluster, in_chain,
}
use experiment.Fat32.Entries.{Fits, write_fat_entry-Writes, read_fat_entry_sound}
use experiment.Fat32.Chain.{in_chain-bound}
use experiment.Fat32.Freed.{IsChain}
use experiment.Fat32.Free.{find_free_cluster-FindsFree}
use experiment.Fat32.Read.{cluster_to_lba}

-- memcpy(bh->data, buffer + at, 512) and bwrite(bh)
pub put_sector : (lba at : ℕ) → (buffer : ℕ → ℕ) → Disk → Disk
put_sector lba at buffer d = record d {
  bytes = λ l o. if l == lba && ltb o 512 then buffer (at + o) else d.bytes l o;
}

-- The `n` sectors that the loop of fat32_write_cluster has left, from `i` on; whether all were
-- written.
pub write_sectors : (lba n i : ℕ) → (buffer : ℕ → ℕ) → Disk → Bool × Disk
unfolding put_sector
write_sectors lba zero i buffer d = (true, d)
write_sectors lba (suc n) i buffer d =
    let rest =
      write_sectors lba n (suc i) buffer (put_sector ((lba + i) % 2 ^ 32) (i * 512) buffer d) in
    if d.broken ((lba + i) % 2 ^ 32) then (false, d) else rest

pub write_cluster : Fs → (cluster : ℕ) → (buffer : ℕ → ℕ) → Disk → Bool × Disk
unfolding write_sectors
write_cluster fs c buffer d = write_sectors (cluster_to_lba fs c) fs.sectors_per_cluster 0 buffer d

-- A write of an entry whose result nobody looks at.
pub try_write_fat_entry : Fs → (cluster value : ℕ) → Disk → Disk
try_write_fat_entry fs c v d = elim (write_fat_entry fs c v d) [ none ↦ d | some d' ↦ d' ]

-- `none` is a full drive; `allocated`, whether there is memory for a cluster of zeros.
pub append_cluster : Fs → (allocated : Bool) → (current_cluster : ℕ) → Disk → Option (ℕ × Disk)
unfolding write_cluster try_write_fat_entry
append_cluster fs allocated c d =
    let new = find_free_cluster fs d in
    let linked = try_write_fat_entry fs new fat32_eoc_mark (try_write_fat_entry fs c new d) in
    if new == 0
    then none
    else some (new, if allocated then (write_cluster fs new (λ o. 0) linked).1 else linked)

-- The data sectors of the drive stand behind its table.
pub record Apart (fs : Fs) : Type 0 where
  pub fits : Fits fs
  pub behind : fs.fat_start_lba + (fs.total_clusters + 2) / 128 < fs.first_data_sector
  pub room : fs.first_data_sector + fs.total_clusters * fs.sectors_per_cluster < 2 ^ 32

-- A sector that is not of the table.
read_fat_entry-put_sector :
    (fs : Fs) (k lba at : ℕ) (buffer : ℕ → ℕ) (d : Disk)
    → (fat_sector fs k == lba) ≡ false
    → read_fat_entry fs (put_sector lba at buffer d) k ≡ read_fat_entry fs d k
unfolding put_sector read_fat_entry word_at
read_fat_entry-put_sector fs k lba at buffer d ne = rw ne refl

write_sectors-frame :
    (fs : Fs) (k lba n i : ℕ) (buffer : ℕ → ℕ) (d : Disk)
    → ((j : ℕ) → i ≤ j → j < i + n → (fat_sector fs k == ((lba + j) % 2 ^ 32)) ≡ false)
    → read_fat_entry fs (write_sectors lba n i buffer d).1 k ≡ read_fat_entry fs d k
unfolding write_sectors
write_sectors-frame fs k lba zero i buffer d away = refl
write_sectors-frame fs k lba (suc n) i buffer d away =
    elim (Bool-cases (d.broken ((lba + i) % 2 ^ 32))) [
      | inl bad ↦ rw bad refl
      | inr fine ↦ rw fine (
          write_sectors-frame fs k lba n (suc i) buffer
            (put_sector ((lba + i) % 2 ^ 32) (i * 512) buffer d)
            (λ j low high. away j (omega arith) (omega arith))
          ∙ read_fat_entry-put_sector fs k ((lba + i) % 2 ^ 32) (i * 512) buffer d
              (away i (omega arith) (omega arith)))
    ]

data_behind :
    (fs : Fs) (k c j : ℕ)
    → Apart fs
    → k < fs.total_clusters + 2
    → 2 ≤ c
    → c < fs.total_clusters + 2
    → j < fs.sectors_per_cluster
    → (fat_sector fs k == ((cluster_to_lba fs c + j) % 2 ^ 32)) ≡ false
unfolding fat_sector cluster_to_lba
data_behind fs k c j apart hk low high hj =
    let spc = fs.sectors_per_cluster in
    let index : (c + 2 ^ 32 - 2) % 2 ^ 32 ≡ c - 2 = omega (arith, apart.fits.clusters) in
    let rows : suc (c - 2) * spc ≤ fs.total_clusters * spc = mul-le-mul_right spc (omega arith) in
    let row : (c - 2) * spc + spc ≤ fs.total_clusters * spc =
      omega (arith, rows, suc-mul (c - 2) spc) in
    rw index
      (ground (arith, row, apart.behind, apart.room, apart.fits.clusters, apart.fits.sectors))

write_cluster-frame :
    (fs : Fs) (k c : ℕ) (buffer : ℕ → ℕ) (d : Disk)
    → Apart fs
    → k < fs.total_clusters + 2
    → 2 ≤ c
    → c < fs.total_clusters + 2
    → read_fat_entry fs (write_cluster fs c buffer d).1 k ≡ read_fat_entry fs d k
unfolding write_cluster
write_cluster-frame fs k c buffer d apart hk low high =
    write_sectors-frame fs k (cluster_to_lba fs c) fs.sectors_per_cluster 0 buffer d
      (λ j a b. data_behind fs k c j apart hk low high (omega arith))

-- The table after a cluster was put behind `c`.
pub record Appends (fs : Fs) (c new : ℕ) (d d' : Disk) : Type 0 where
  pub last : read_fat_entry fs d' new ≡ some fat32_eoc_mark
  pub link : read_fat_entry fs d' c ≡ some new
  pub others :
      (k : ℕ)
      → k < fs.total_clusters + 2
      → k ≢ c
      → k ≢ new
      → read_fat_entry fs d' k ≡ read_fat_entry fs d k

append_cluster-links :
    (fs : Fs) (c new : ℕ) (d : Disk)
    → Apart fs
    → c < fs.total_clusters + 2
    → new < fs.total_clusters + 2
    → c ≢ new
    → d.broken (fat_sector fs c) ≡ false
    → d.broken (fat_sector fs new) ≡ false
    → Appends fs c new d
        (try_write_fat_entry fs new fat32_eoc_mark (try_write_fat_entry fs c new d))
unfolding try_write_fat_entry
append_cluster-links fs c new d apart hc hnew ne sound_c sound_new =
    let w = write_fat_entry-Writes fs c new d apart.fits hc sound_c in
    let v =
      write_fat_entry-Writes fs new fat32_eoc_mark w.0 apart.fits hnew
        (w.2.broken (fat_sector fs new) ∙ sound_new) in
    rw (try_write_fat_entry, w.1, v.1)
      (record {
        last = v.2.here;
        link = v.2.elsewhere c hc ne ∙ w.2.here ∙ ap some (omega (arith, apart.fits.clusters));
        others = λ k hk k_c k_new. v.2.elsewhere k hk k_new ∙ w.2.elsewhere k hk k_c;
      })

pub append_cluster-Appends :
    (fs : Fs) (allocated : Bool) (c e : ℕ) (d : Disk)
    → Apart fs
    → c < fs.total_clusters + 2
    → read_fat_entry fs d c ≡ some e
    → e ≢ 0
    → find_free_cluster fs d ≢ 0
    → (d' : Disk) × (append_cluster fs allocated c d ≡ some (find_free_cluster fs d, d'))
      × Appends fs c (find_free_cluster fs d) d d'
unfolding append_cluster
append_cluster-Appends fs allocated c e d apart hc entry busy found =
    let new = find_free_cluster fs d in
    let free = (find_free_cluster-FindsFree fs d apart.fits).bound found in
    let there : (new == 0) ≡ false = ground arith in
    let differ = λ (same : c ≡ new).
      busy (some-injective (sym entry ∙ ap (read_fat_entry fs d) same ∙ free.2)) in
    let linked = try_write_fat_entry fs new fat32_eoc_mark (try_write_fat_entry fs c new d) in
    let links =
      append_cluster-links fs c new d apart hc free.1 differ (read_fat_entry_sound fs c e d entry)
        (read_fat_entry_sound fs new 0 d free.2) in
    elim (Bool-cases allocated) [
      | inr no_memory ↦ rw (there, no_memory) (linked, refl, links)
      | inl memory ↦
          let cleared = (write_cluster fs new (λ o. 0) linked).1 in
          let same = λ (k : ℕ) (hk : k < fs.total_clusters + 2).
            write_cluster-frame fs k new (λ o. 0) linked apart hk free.0 free.1 in
          rw (there, memory)
            (
              cleared,
              refl,
              record {
                last = same new free.1 ∙ links.last;
                link = same c hc ∙ links.link;
                others = λ k hk k_c k_new. same k hk ∙ links.others k hk k_c k_new;
              },
            )
    ]
  where
    some-injective : {a b : ℕ} → some a ≡ some b → a ≡ b
    some-injective h = ground arith

IsChain-inside :
    (fs : Fs) (d : Disk) (c last : ℕ) (xs : List ℕ)
    → IsChain fs d c (xs ++ (last ∷ []))
    → in_chain fs c ≡ true
unfolding IsChain
IsChain-inside fs d c last [] h = h.1
IsChain-inside fs d c last (x ∷ xs) h = h.1

-- A cluster whose entry lies in the chain is neither free nor the last one.
inner-differs :
    (fs : Fs) (d : Disk) (c next k e : ℕ)
    → read_fat_entry fs d c ≡ some next
    → in_chain fs next ≡ true
    → read_fat_entry fs d k ≡ some e
    → (e ≡ 0) ⊎ (fat32_eoc ≤ e)
    → c ≢ k
unfolding in_chain
inner-differs fs d c next k e here inside there out same =
    let entries : some next ≡ some e = sym here ∙ ap (read_fat_entry fs d) same ∙ there in
    ground arith

in_chain-new :
    (fs : Fs) (n : ℕ) → Fits fs → n ≢ 0 → 2 ≤ n → n < fs.total_clusters + 2 → in_chain fs n ≡ true
unfolding in_chain
in_chain-new fs n fits ne low high = ground (arith, fits.clusters)

in_chain-mark : (fs : Fs) → in_chain fs fat32_eoc_mark ≡ false
unfolding in_chain
in_chain-mark fs = refl

IsChain-grow :
    (fs : Fs) (d d' : Disk) (c last new e : ℕ) (xs : List ℕ)
    → Fits fs
    → Appends fs last new d d'
    → IsChain fs d c (xs ++ (last ∷ []))
    → read_fat_entry fs d last ≡ some e
    → fat32_eoc ≤ e
    → read_fat_entry fs d new ≡ some 0
    → in_chain fs new ≡ true
    → IsChain fs d' c (xs ++ (last ∷ new ∷ []))
unfolding IsChain
IsChain-grow fs d d' c last new e [] fits a h end big free inside = (
  h.0,
  h.1,
  (
    new,
    ap (read_fat_entry fs d') h.0 ∙ a.link,
    (refl, inside, (fat32_eoc_mark, a.last, in_chain-mark fs)),
  ),
)
IsChain-grow fs d d' c last new e (x ∷ xs) fits a h end big free inside =
    let more = IsChain-inside fs d h.2.0 last xs h.2.2 in
    (
      h.0,
      h.1,
      (
        h.2.0,
        a.others c (in_chain-bound fs c fits h.1).0
              (inner-differs fs d c h.2.0 last e h.2.1 more end (inr big))
              (inner-differs fs d c h.2.0 new 0 h.2.1 more free (inl refl))
            ∙ h.2.1,
        IsChain-grow fs d d' h.2.0 last new e xs fits a h.2.2 end big free inside,
      ),
    )

-- Where data sectors lie behind a table that fits its drive: if the clusters `xs` and then `last` are
-- the chain of a file, whose last entry marks the end, and find_free_cluster finds a free cluster - it may
-- miss one behind a sector that cannot be read -, then the file's chain afterwards is the old one with the first free cluster behind it, whether or not there
-- was memory to clear that cluster, and no entry but the last one and the new one has changed.
pub append_cluster-grows :
    (fs : Fs) (allocated : Bool) (d : Disk) (c last e : ℕ) (xs : List ℕ)
    → Apart fs
    → IsChain fs d c (xs ++ (last ∷ []))
    → read_fat_entry fs d last ≡ some e
    → fat32_eoc ≤ e
    → last < fs.total_clusters + 2
    → find_free_cluster fs d ≢ 0
    → let new = find_free_cluster fs d in
      (d' : Disk) × (append_cluster fs allocated last d ≡ some (new, d'))
      × IsChain fs d' c (xs ++ (last ∷ new ∷ []))
      × Appends fs last new d d'
append_cluster-grows fs allocated d c last e xs apart h end big small found =
    let new = find_free_cluster fs d in
    let free = (find_free_cluster-FindsFree fs d apart.fits).bound found in
    let r = append_cluster-Appends fs allocated last e d apart small end (ground arith) found in
    (
      r.0,
      r.1,
      IsChain-grow fs d r.0 c last new e xs apart.fits r.2 h end big free.2
          (in_chain-new fs new apart.fits found free.0 free.1),
      r.2,
    )
