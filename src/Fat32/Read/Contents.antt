-- ===== src/Fat32/Read/Contents.antt =====
-- fat32_vfs_read against the contents of a file: the bytes of its clusters in the order of its chain.
use experiment.Base.{
  ℕ, zero, suc, ◌+◌, ◌-◌, ◌*◌, ◌/◌, ◌%◌, ◌^◌, ◌≤◌, ◌<◌, ◌≡◌, refl, ap₂, ◌∙◌, ◌⊎◌, true, false, ◌&&◌,
  some, List, [], ◌∷◌, arith, Bool-cases, inl, inr, ltb, leb, if◌then◌else◌,
}
use experiment.Fat32.{Disk, Fs}
use experiment.Fat32.Read.{copy_bytes, cluster_to_lba, read_sectors, read_cluster}

-- The byte of a cluster on the drive, and the byte of a file whose clusters these are.
unfoldable pub cluster_byte : Fs → Disk → (cluster place : ℕ) → ℕ
cluster_byte fs d c j = d.bytes ((cluster_to_lba fs c + j / 512) % 2 ^ 32) (j % 512)

unfoldable pub file_byte : Fs → Disk → List ℕ → (place : ℕ) → ℕ
unfolding cluster_byte
file_byte fs d [] p = 0
file_byte fs d (x ∷ xs) p =
    let rest = file_byte fs d xs (p - fs.bytes_per_cluster) in
    if ltb p fs.bytes_per_cluster then cluster_byte fs d x p else rest

-- A drive with sectors of 512 bytes that does not fail.
pub record Sound (fs : Fs) (d : Disk) : Type 0 where
  pub cluster : fs.bytes_per_cluster ≡ fs.sectors_per_cluster * 512
  pub some_bytes : 0 < fs.bytes_per_cluster
  pub small : fs.bytes_per_cluster < 2 ^ 32
  pub works : (l : ℕ) → d.broken l ≡ false

pub copy_bytes-inside :
    (at n start o : ℕ) (from to : ℕ → ℕ)
    → at ≤ o
    → o < at + n
    → copy_bytes at n from start to o ≡ from (start + (o - at))
unfolding copy_bytes
copy_bytes-inside at n start o from to low high =
    let inside : (leb at o && ltb o (at + n)) ≡ true = ground arith in rw inside refl

pub copy_bytes-outside :
    (at n start o : ℕ) (from to : ℕ → ℕ)
    → (o < at) ⊎ (at + n ≤ o)
    → copy_bytes at n from start to o ≡ to o
unfolding copy_bytes
copy_bytes-outside at n start o from to out =
    let outside : (leb at o && ltb o (at + n)) ≡ false = ground arith in rw outside refl

-- The buffer after the sectors from `i` on.
record Loads (d : Disk) (lba n i : ℕ) (buffer : ℕ → ℕ) : Type 0 where
  loaded : ℕ → ℕ
  result : read_sectors d lba n i buffer ≡ some loaded
  before : (j : ℕ) → j < i * 512 → loaded j ≡ buffer j
  sectors :
      (j : ℕ)
      → i * 512 ≤ j
      → j < (i + n) * 512
      → loaded j ≡ d.bytes ((lba + j / 512) % 2 ^ 32) (j % 512)

read_sectors-Loads :
    (d : Disk) (lba n i : ℕ) (buffer : ℕ → ℕ)
    → ((l : ℕ) → d.broken l ≡ false)
    → Loads d lba n i buffer
unfolding read_sectors
read_sectors-Loads d lba zero i buffer works = record {
  loaded = buffer;
  result = refl;
  before = λ j h. refl;
  sectors = λ j low high. absurd (omega arith);
}
read_sectors-Loads d lba (suc n) i buffer works =
    let sector = d.bytes ((lba + i) % 2 ^ 32) in
    let rest =
      read_sectors-Loads d lba n (suc i) (copy_bytes (i * 512) 512 sector 0 buffer) works in
    record {
      loaded = rest.loaded;
      result = rw (works ((lba + i) % 2 ^ 32)) rest.result;
      before = λ j h.
          rest.before j (omega arith) ∙ copy_bytes-outside (i * 512) 512 0 j sector buffer (inl h);
      sectors = λ j low high. elim (Bool-cases (ltb j (suc i * 512))) [
        | inl now ↦
            let row : i ≡ j / 512 = ground arith in
            let column : 0 + (j - i * 512) ≡ j % 512 = ground arith in
            rest.before j (ground arith)
            ∙ copy_bytes-inside (i * 512) 512 0 j sector buffer low (ground arith)
            ∙ ap₂ (λ (r : ℕ) (c : ℕ). d.bytes ((lba + r) % 2 ^ 32) c) row column
        | inr later ↦ rest.sectors j (ground arith) (omega arith)
      ];
    }

pub read_cluster-bytes :
    (fs : Fs) (d : Disk) (c : ℕ) (buffer : ℕ → ℕ)
    → Sound fs d
    → (loaded : ℕ → ℕ) × (read_cluster fs d c buffer ≡ some loaded)
      × ((j : ℕ) → j < fs.bytes_per_cluster → loaded j ≡ cluster_byte fs d c j)
unfolding read_cluster cluster_byte
read_cluster-bytes fs d c buffer sound =
    let r =
      read_sectors-Loads d (cluster_to_lba fs c) fs.sectors_per_cluster 0 buffer sound.works in
    (r.loaded, r.result, λ j small. r.sectors j (omega arith) (omega (arith, sound.cluster)))
