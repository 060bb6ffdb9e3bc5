-- ===== src/Fat32.antt =====
-- fs/fat32.c: the file allocation table, the clusters of a file, and the names and dates of
-- directory entries. A sector is what bread() hands out for its number: null when the drive fails
-- there, else its bytes; bwrite() writes them back. A buffer is a function from offsets to bytes.

pub mod Entries
pub mod Free
pub mod Grow
pub mod Chain
pub mod Freed
pub mod Read
pub mod Names
pub mod Date
mod Tests
use experiment.Base.{
  ℕ, zero, suc, ◌+◌, ◌-◌, ◌*◌, ◌/◌, ◌%◌, ◌^◌, Bool, true, false, ◌&&◌, ◌||◌, not, Option, none,
  some, ltb, leb, ◌==◌, if◌then◌else◌,
}

pub record Disk : Type 0 where
  pub bytes : (lba offset : ℕ) → ℕ
  pub broken : (lba : ℕ) → Bool

-- The fields of `fat32_fs_t` that these functions read.
pub record Fs : Type 0 where
  pub fat_start_lba : ℕ
  pub sectors_per_cluster : ℕ
  pub bytes_per_cluster : ℕ
  pub first_data_sector : ℕ
  pub total_clusters : ℕ

-- FAT32_EOC and FAT32_EOC_MARK
abbrev pub fat32_eoc : ℕ
fat32_eoc = 0x0FFFFFF8

abbrev pub fat32_eoc_mark : ℕ
fat32_eoc_mark = 0x0FFFFFFF

-- A little-endian word of 32 bits in a sector, and its bytes.
pub word_at : (ℕ → ℕ) → (offset : ℕ) → ℕ
word_at s e = s e + 2 ^ 8 * s (e + 1) + 2 ^ 16 * s (e + 2) + 2 ^ 24 * s (e + 3)

pub byte_of : (value j : ℕ) → ℕ
byte_of v zero = v % 2 ^ 8
byte_of v (suc zero) = v / 2 ^ 8 % 2 ^ 8
byte_of v (suc (suc zero)) = v / 2 ^ 16 % 2 ^ 8
byte_of v _ = v / 2 ^ 24 % 2 ^ 8

pub fat_sector : Fs → (cluster : ℕ) → ℕ
fat_sector fs c = (fs.fat_start_lba + c * 4 % 2 ^ 32 / 512) % 2 ^ 32

pub ent_offset : (cluster : ℕ) → ℕ
ent_offset c = c * 4 % 2 ^ 32 % 512

-- `none` is a return of 1. FAT32_CLUSTER_MASK keeps 28 bits.
pub read_fat_entry : Fs → Disk → (cluster : ℕ) → Option ℕ
unfolding word_at fat_sector ent_offset
read_fat_entry fs d c =
    if d.broken (fat_sector fs c)
    then none
    else some (word_at (d.bytes (fat_sector fs c)) (ent_offset c) % 2 ^ 28)

pub put_word : (lba e value : ℕ) → Disk → Disk
unfolding byte_of
put_word lba e v d = record d {
  bytes = λ l o. if l == lba && leb e o && ltb o (e + 4) then byte_of v (o - e) else d.bytes l o;
}

pub write_fat_entry : Fs → (cluster value : ℕ) → Disk → Option Disk
unfolding put_word fat_sector ent_offset
write_fat_entry fs c v d =
    if d.broken (fat_sector fs c)
    then none
    else some (put_word (fat_sector fs c) (ent_offset c) v d)

-- The `n` clusters that the scan has left, from `i` on.
pub find_free_from : Fs → Disk → (n i : ℕ) → ℕ
unfolding read_fat_entry
find_free_from fs d zero i = 0
find_free_from fs d (suc n) i =
    let rest = find_free_from fs d n (suc i) in
    elim (read_fat_entry fs d i) [ none ↦ 0 | some entry ↦ if entry == 0 then i else rest ]

pub find_free_cluster : Fs → Disk → ℕ
unfolding find_free_from
find_free_cluster fs d = find_free_from fs d ((fs.total_clusters + 2) % 2 ^ 32 - 2) 2

-- Whether the loop of fat32_free_chain goes into the cluster.
pub in_chain : Fs → (cluster : ℕ) → Bool
in_chain fs c =
    ltb c fat32_eoc && not (c == 0) && not (ltb c 2 || leb ((fs.total_clusters + 2) % 2 ^ 32) c)

-- `none` is a chain longer than the fuel.
pub free_chain : (fuel : ℕ) → Fs → (cluster : ℕ) → Disk → Option Disk
unfolding in_chain read_fat_entry write_fat_entry
free_chain zero fs c d = none
free_chain (suc fuel) fs c d = elim (in_chain fs c) [
  | false ↦ some d
  | true ↦ elim (read_fat_entry fs d c) [
    | none ↦ some d
    | some next ↦ elim (write_fat_entry fs c 0 d) [
      | none ↦ some d
      | some d' ↦ free_chain fuel fs next d'
    ]
  ]
]

-- fat32_free_chain: each round but the last two frees a cluster that is in use.
pub fat32_free_chain : Fs → (start_cluster : ℕ) → Disk → Option Disk
unfolding free_chain
fat32_free_chain fs c d = free_chain (fs.total_clusters + 4) fs c d
