-- ===== src/Fat32/Entries.antt =====
-- The entries of the file allocation table: what is written is read back, and nothing else changes.
use experiment.Base.{
  ℕ, ◌+◌, ◌-◌, ◌/◌, ◌%◌, ◌^◌, ◌≤◌, ◌<◌, ◌≡◌, ◌≢◌, refl, ap, true, false, ◌&&◌, some, arith, ltb,
  leb, ◌==◌, ==_refl,
}
use experiment.Fat32.{
  fat32_eoc, Disk, Fs, word_at, byte_of, fat_sector, ent_offset, read_fat_entry, put_word,
  write_fat_entry,
}

-- A table that its drive can hold: every cluster is a number below the marks for the end of a chain,
-- and the numbers of its sectors do not wrap.
pub record Fits (fs : Fs) : Type 0 where
  pub clusters : fs.total_clusters + 2 ≤ fat32_eoc
  pub sectors : fs.fat_start_lba + (fs.total_clusters + 2) / 128 < 2 ^ 32

byte_of-word : (v : ℕ) → word_at (byte_of v) 0 ≡ v % 2 ^ 32
unfolding word_at byte_of
byte_of-word v = omega arith

put_word-here :
    (lba e v j o : ℕ) (d : Disk)
    → o ≡ e + j
    → j < 4
    → (put_word lba e v d).bytes lba o ≡ byte_of v j
unfolding put_word
put_word-here lba e v j o d at small =
    let inside : (leb e o && ltb o (e + 4)) ≡ true = ground arith in
    let place : o - e ≡ j = omega arith in rw (==_refl lba, inside) (ap (byte_of v) place)

put_word-elsewhere :
    (lba e v l o : ℕ) (d : Disk)
    → (l == lba && leb e o && ltb o (e + 4)) ≡ false
    → (put_word lba e v d).bytes l o ≡ d.bytes l o
unfolding put_word
put_word-elsewhere lba e v l o d out = rw out refl

word_at-put_word :
    (lba e v : ℕ) (d : Disk) → word_at ((put_word lba e v d).bytes lba) e ≡ v % 2 ^ 32
unfolding word_at
word_at-put_word lba e v d =
    rw
      (
        put_word-here lba e v 0 e d (omega arith) (omega arith),
        put_word-here lba e v 1 (e + 1) d refl (omega arith),
        put_word-here lba e v 2 (e + 2) d refl (omega arith),
        put_word-here lba e v 3 (e + 3) d refl (omega arith),
      )
      (byte_of-word v)

-- Two entries share no byte.
entries_apart :
    (fs : Fs) (c k j o : ℕ)
    → Fits fs
    → c < fs.total_clusters + 2
    → k < fs.total_clusters + 2
    → k ≢ c
    → j < 4
    → o ≡ ent_offset k + j
    → (fat_sector fs k == fat_sector fs c && leb (ent_offset c) o && ltb o (ent_offset c + 4))
      ≡ false
unfolding fat_sector ent_offset
entries_apart fs c k j o fits hc hk ne small at = ground (arith, fits.clusters, fits.sectors)

word_at-elsewhere :
    (fs : Fs) (c k v : ℕ) (d : Disk)
    → Fits fs
    → c < fs.total_clusters + 2
    → k < fs.total_clusters + 2
    → k ≢ c
    → word_at
        ((put_word (fat_sector fs c) (ent_offset c) v d).bytes (fat_sector fs k))
        (ent_offset k)
      ≡ word_at (d.bytes (fat_sector fs k)) (ent_offset k)
unfolding word_at
word_at-elsewhere fs c k v d fits hc hk ne =
    rw
      (
        same 0 (ent_offset k) (omega arith) (omega arith),
        same 1 (ent_offset k + 1) (omega arith) refl,
        same 2 (ent_offset k + 2) (omega arith) refl,
        same 3 (ent_offset k + 3) (omega arith) refl,
      )
      refl
  where
    same :
        (j o : ℕ)
        → j < 4
        → o ≡ ent_offset k + j
        → (put_word (fat_sector fs c) (ent_offset c) v d).bytes (fat_sector fs k) o
          ≡ d.bytes (fat_sector fs k) o
    same j o small at =
        put_word-elsewhere (fat_sector fs c) (ent_offset c) v (fat_sector fs k) o d
          (entries_apart fs c k j o fits hc hk ne small at)

-- What a write of an entry does to the table.
pub record Writes (fs : Fs) (c v : ℕ) (d d' : Disk) : Type 0 where
  pub here : read_fat_entry fs d' c ≡ some (v % 2 ^ 28)
  pub elsewhere :
      (k : ℕ) → k < fs.total_clusters + 2 → k ≢ c → read_fat_entry fs d' k ≡ read_fat_entry fs d k
  pub broken : (l : ℕ) → d'.broken l ≡ d.broken l

pub write_fat_entry-Writes :
    (fs : Fs) (c v : ℕ) (d : Disk)
    → Fits fs
    → c < fs.total_clusters + 2
    → d.broken (fat_sector fs c) ≡ false
    → (d' : Disk) × (write_fat_entry fs c v d ≡ some d') × Writes fs c v d d'
unfolding write_fat_entry read_fat_entry
write_fat_entry-Writes fs c v d fits hc sound = (
  put_word (fat_sector fs c) (ent_offset c) v d,
  rw sound refl,
  record {
    here =
        rw sound (ap some (omega (arith, word_at-put_word (fat_sector fs c) (ent_offset c) v d)));
    elsewhere = λ k hk ne. rw (word_at-elsewhere fs c k v d fits hc hk ne) refl;
    broken = λ l. refl;
  },
)

pub read_fat_entry_sound :
    (fs : Fs) (c e : ℕ) (d : Disk)
    → read_fat_entry fs d c ≡ some e
    → d.broken (fat_sector fs c) ≡ false
unfolding read_fat_entry
read_fat_entry_sound fs c e d h = ground arith
