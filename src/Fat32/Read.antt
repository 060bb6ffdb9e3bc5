-- ===== src/Fat32/Read.antt =====
-- fat32_vfs_read: the cluster of the offset is found along the chain, then cluster after cluster is
-- read into a buffer of its own and copied from there.
use experiment.Base.{
  ℕ, zero, suc, ◌+◌, ◌-◌, ◌*◌, ◌/◌, ◌%◌, ◌^◌, Bool, true, false, ◌&&◌, Option, none, some, ltb, leb,
  if◌then◌else◌, ◌>>=◌,
}
use experiment.Fat32.{Disk, Fs, fat32_eoc, read_fat_entry}
pub mod Contents
pub mod Loop
pub mod File

-- memcpy(to + at, from + start, n)
pub copy_bytes : (at n : ℕ) → (from : ℕ → ℕ) → (start : ℕ) → (to : ℕ → ℕ) → ℕ → ℕ
copy_bytes at n from start to o =
    if leb at o && ltb o (at + n) then from (start + (o - at)) else to o

unfoldable pub cluster_to_lba : Fs → (cluster : ℕ) → ℕ
cluster_to_lba fs c =
    (fs.first_data_sector + (c + 2 ^ 32 - 2) % 2 ^ 32 * fs.sectors_per_cluster) % 2 ^ 32

-- The `n` sectors that the loop of fat32_read_cluster has left, from `i` on; `none` is a return of 1.
pub read_sectors : Disk → (lba n i : ℕ) → (buffer : ℕ → ℕ) → Option (ℕ → ℕ)
unfolding copy_bytes
read_sectors d lba zero i buffer = some buffer
read_sectors d lba (suc n) i buffer =
    let rest =
      read_sectors d lba n (suc i)
        (copy_bytes (i * 512) 512 (d.bytes ((lba + i) % 2 ^ 32)) 0 buffer) in
    if d.broken ((lba + i) % 2 ^ 32) then none else rest

pub read_cluster : Fs → Disk → (cluster : ℕ) → (buffer : ℕ → ℕ) → Option (ℕ → ℕ)
unfolding read_sectors cluster_to_lba
read_cluster fs d c buffer = read_sectors d (cluster_to_lba fs c) fs.sectors_per_cluster 0 buffer

-- The next cluster, unless the table cannot be read or the chain ends.
pub next_cluster : Fs → Disk → (cluster : ℕ) → Option ℕ
unfolding read_fat_entry
next_cluster fs d c = elim (read_fat_entry fs d c) [
  | none ↦ none
  | some next ↦ if leb fat32_eoc next then none else some next
]

-- `none` is a return of 0.
pub skip_clusters : Fs → Disk → (clusters_to_skip cluster : ℕ) → Option ℕ
unfolding next_cluster
skip_clusters fs d zero c = some c
skip_clusters fs d (suc n) c = next_cluster fs d c >>= λ next. skip_clusters fs d n next

-- chunk_size
pub chunk_size : Fs → (cluster_offset left : ℕ) → ℕ
chunk_size fs cluster_offset left =
    let room = fs.bytes_per_cluster - cluster_offset in if ltb left room then left else room

-- The loop of fat32_vfs_read: the result is `bytes_read` and the buffer; `none` is a loop longer
-- than the fuel.
pub read_loop :
    (fuel : ℕ)
    → Fs
    → Disk
    → (size cluster cluster_offset bytes_read : ℕ) → (cluster_buf buffer : ℕ → ℕ)
    → Option (ℕ × (ℕ → ℕ))
unfolding read_cluster next_cluster chunk_size copy_bytes
read_loop zero fs d size c co done cluster_buf buffer = none
read_loop (suc fuel) fs d size c co done cluster_buf buffer = elim (ltb done size) [
  | false ↦ some (done, buffer)
  | true ↦ elim (read_cluster fs d c cluster_buf) [
    | none ↦ some (done, buffer)
    | some loaded ↦
        let chunk = chunk_size fs co (size - done) in
        let copied = copy_bytes done chunk loaded co buffer in
        elim (ltb (done + chunk) size) [
          | false ↦ some (done + chunk, copied)
          | true ↦ elim (next_cluster fs d c) [
            | none ↦ some (done + chunk, copied)
            | some next ↦ read_loop fuel fs d size next 0 (done + chunk) loaded copied
          ]
        ]
  ]
]

-- The size that is left of the file behind the offset, if less than asked for.
pub read_size : (node_size offset size : ℕ) → ℕ
read_size node_size offset size =
    if ltb node_size ((offset + size) % 2 ^ 64) then node_size - offset else size

-- `cluster` and `node_size` are the node's `inode` and `size`; `allocated` is what kmalloc returns:
-- the buffer of a cluster, with what it held before, or null. Each round reads a byte at least.
pub fat32_vfs_read :
    Fs
    → Disk
    → (allocated : Option (ℕ → ℕ)) → (cluster node_size offset size : ℕ) → (buffer : ℕ → ℕ)
    → Option (ℕ × (ℕ → ℕ))
unfolding read_size skip_clusters read_loop
fat32_vfs_read fs d allocated cluster node_size offset size buffer =
    if leb node_size offset
    then some (0, buffer)
    else let wanted = read_size node_size offset size in
      elim (skip_clusters fs d (offset / fs.bytes_per_cluster % 2 ^ 32) cluster) [
        | none ↦ some (0, buffer)
        | some c ↦ elim allocated [
          | none ↦ some (0, buffer)
          | some cluster_buf ↦
              read_loop (suc wanted) fs d wanted c (offset % fs.bytes_per_cluster) 0 cluster_buf
                buffer
        ]
      ]
