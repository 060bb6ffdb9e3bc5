-- ===== src/Fat32/Read/Loop.antt =====
-- The loop of fat32_vfs_read, and the whole function.
use experiment.Base.{
  ℕ, zero, suc, ◌+◌, ◌-◌, ◌*◌, ◌≤◌, ◌<◌, ◌≡◌, refl, ap, sym, subst, ◌∙◌, ◌⊎◌, false, Option, some,
  List, [], ◌∷◌, arith, Bool-cases, inl, inr, ltb, leb, lt→ltb, length,
}
use native.Mathlib.Nat.{suc-mul}
use experiment.Fat32.{Disk, Fs, fat32_eoc, read_fat_entry}
use experiment.Fat32.Freed.{IsChain, IsChain-next, IsChain-head}
use experiment.Fat32.Read.{copy_bytes, next_cluster, skip_clusters, chunk_size, read_loop}
use experiment.Fat32.Read.Contents.{
  cluster_byte, file_byte, Sound, copy_bytes-inside, copy_bytes-outside, read_cluster-bytes,
}

-- What the loop leaves behind: the rest of the bytes wanted, from `done` on.
pub record Copies (fs : Fs) (d : Disk) (xs : List ℕ) (size co done : ℕ) (buffer : ℕ → ℕ)
    (r : Option (ℕ × (ℕ → ℕ))) : Type 0 where
  pub copied : ℕ → ℕ
  pub result : r ≡ some (size, copied)
  pub inside : (o : ℕ) → done ≤ o → o < size → copied o ≡ file_byte fs d xs (co + (o - done))
  pub outside : (o : ℕ) → (o < done) ⊎ (size ≤ o) → copied o ≡ buffer o

Copies-none :
    (fs : Fs) (d : Disk) (xs : List ℕ) (size co done : ℕ) (buffer : ℕ → ℕ)
    → done ≡ size
    → Copies fs d xs size co done buffer (some (done, buffer))
Copies-none fs d xs size co done buffer e = record {
  copied = buffer;
  result = ap (λ n. some (n, buffer)) e;
  inside = λ o low high. absurd (omega arith);
  outside = λ o h. refl;
}

-- The bytes of the first cluster.
file_byte-first :
    (fs : Fs) (d : Disk) (x p : ℕ) (xs : List ℕ)
    → p < fs.bytes_per_cluster
    → file_byte fs d (x ∷ xs) p ≡ cluster_byte fs d x p
unfolding file_byte
file_byte-first fs d x p xs h = rw (lt→ltb p fs.bytes_per_cluster h) refl

file_byte-later :
    (fs : Fs) (d : Disk) (x p : ℕ) (xs : List ℕ)
    → file_byte fs d (x ∷ xs) (fs.bytes_per_cluster + p) ≡ file_byte fs d xs p
unfolding file_byte
file_byte-later fs d x p xs =
    let out : ltb (fs.bytes_per_cluster + p) fs.bytes_per_cluster ≡ false = ground arith in
    let back : fs.bytes_per_cluster + p - fs.bytes_per_cluster ≡ p = omega arith in
    rw out (ap (file_byte fs d xs) back)

-- One chunk, and what follows it, if anything does.
Copies-chunk :
    (fs : Fs) (d : Disk) (x size co done chunk : ℕ) (xs : List ℕ) (loaded buffer : ℕ → ℕ)
    {r : Option (ℕ × (ℕ → ℕ))}
    → ((j : ℕ) → j < fs.bytes_per_cluster → loaded j ≡ cluster_byte fs d x j)
    → co + chunk ≤ fs.bytes_per_cluster
    → (done + chunk ≡ size) ⊎ (co + chunk ≡ fs.bytes_per_cluster)
    → Copies fs d xs size 0 (done + chunk) (copy_bytes done chunk loaded co buffer) r
    → done + chunk ≤ size
    → Copies fs d (x ∷ xs) size co done buffer r
Copies-chunk fs d x size co done chunk xs loaded buffer {r} holds fits last rest low = record {
  copied = rest.copied;
  result = rest.result;
  inside = λ o from to. elim (Bool-cases (ltb o (done + chunk))) [
    | inl now ↦
        rest.outside o (inl (ground arith))
        ∙ copy_bytes-inside done chunk co o loaded buffer from (ground arith)
        ∙ holds (co + (o - done)) (ground arith)
        ∙ sym (file_byte-first fs d x (co + (o - done)) xs (ground arith))
    | inr later ↦
        let place : co + (o - done) ≡ fs.bytes_per_cluster + (0 + (o - (done + chunk))) =
          ground arith in
        rest.inside o (ground arith) to
        ∙ sym (
            ap (file_byte fs d (x ∷ xs)) place
            ∙ file_byte-later fs d x (0 + (o - (done + chunk))) xs)
  ];
  outside = λ o out.
      rest.outside o (ground arith)
      ∙ copy_bytes-outside done chunk co o loaded buffer (ground arith);
}

cons_of : (xs : List ℕ) → 0 < length xs → (y : ℕ) × (ys : List ℕ) × (xs ≡ y ∷ ys)
cons_of [] h = absurd (omega arith)
cons_of (y ∷ ys) h = (y, ys, refl)

chunk_size-bounds :
    (fs : Fs) (co left : ℕ)
    → co < fs.bytes_per_cluster
    → 0 < left
    → (0 < chunk_size fs co left)
      × (chunk_size fs co left ≤ left)
      × (co + chunk_size fs co left ≤ fs.bytes_per_cluster)
      × ((chunk_size fs co left ≡ left) ⊎ (co + chunk_size fs co left ≡ fs.bytes_per_cluster))
unfolding chunk_size
chunk_size-bounds fs co left h k = elim (Bool-cases (ltb left (fs.bytes_per_cluster - co))) [
  | inl few ↦ rw few (k, omega arith, ground arith, inl refl)
  | inr many ↦ rw many (omega arith, ground arith, omega arith, inr (omega arith))
]

next_cluster-here :
    (fs : Fs) (d : Disk) (c y : ℕ)
    → read_fat_entry fs d c ≡ some y
    → y < fat32_eoc
    → next_cluster fs d c ≡ some y
unfolding next_cluster
next_cluster-here fs d c y entry small =
    let inside : leb fat32_eoc y ≡ false = ground arith in rw (next_cluster, entry, inside) refl

module _ (fs : Fs) (d : Disk) (size : ℕ) where
  pub read_loop-Copies :
      (fuel c co done : ℕ) (xs : List ℕ) (cluster_buf buffer : ℕ → ℕ)
      → Sound fs d
      → IsChain fs d c xs
      → done ≤ size
      → size < done + fuel
      → co < fs.bytes_per_cluster
      → co + (size - done) ≤ length xs * fs.bytes_per_cluster
      → Copies fs d xs size co done buffer (read_loop fuel fs d size c co done cluster_buf buffer)
  unfolding read_loop
  read_loop-Copies zero c co done xs cluster_buf buffer sound h low enough inside room =
      absurd (omega arith)
  read_loop-Copies (suc fuel) c co done [] cluster_buf buffer sound h low enough inside room =
      let over : ltb done size ≡ false = ground (arith, sound.some_bytes) in
      rw (read_loop, over)
        (Copies-none fs d [] size co done buffer (ground (arith, sound.some_bytes)))
  read_loop-Copies (suc fuel) c co done (x ∷ xs) cluster_buf buffer sound h low enough inside room =
      elim (Bool-cases (ltb done size)) [
        | inr over ↦
            rw (read_loop, over) (Copies-none fs d (x ∷ xs) size co done buffer (ground arith))
        | inl more ↦
            let load = read_cluster-bytes fs d c cluster_buf sound in
            let chunk = chunk_size fs co (size - done) in
            let bounds = chunk_size-bounds fs co (size - done) inside (ground arith) in
            let holds =
              subst
                (λ (n : ℕ). (j : ℕ) → j < fs.bytes_per_cluster → load.0 j ≡ cluster_byte fs d n j)
                (IsChain-head fs d c x xs h) load.2 in
            let copied = copy_bytes done chunk load.0 co buffer in
            elim (Bool-cases (ltb (done + chunk) size)) [
              | inr all ↦
                  rw (read_loop, more, load.1, all)
                    (Copies-chunk fs d x size co done chunk xs load.0 buffer holds bounds.2
                      (inl (ground (arith, bounds.1)))
                      (Copies-none fs d xs size 0 (done + chunk) copied (ground (arith, bounds.1)))
                      (ground (arith, bounds.1)))
              | inl part ↦
                  let full : co + chunk ≡ fs.bytes_per_cluster = ground (arith, bounds.1) in
                  let behind = cons_of xs (ground arith) in
                  let next =
                    IsChain-next fs d c x behind.0 behind.1
                      (subst (λ (l : List ℕ). IsChain fs d c (x ∷ l)) behind.2 h) in
                  let longer = ap length behind.2 in
                  let row : suc (length xs) * fs.bytes_per_cluster
                      ≡ fs.bytes_per_cluster + length xs * fs.bytes_per_cluster =
                    grind arith in
                  let left : 0 + (size - (done + chunk)) ≤ length xs * fs.bytes_per_cluster =
                    omega (arith, room, row, full) in
                  let rest =
                    read_loop-Copies fuel behind.0 0 (done + chunk) (behind.0 ∷ behind.1) load.0
                      copied sound next.3 (ground arith) (omega (arith, bounds.0)) sound.some_bytes
                      (rw (← longer) left) in
                  rw
                    (read_loop, more, load.1, part, next_cluster-here fs d c behind.0 next.1 next.2)
                    (subst
                      (λ (l : List ℕ).
                        Copies fs d (x ∷ l) size co done buffer
                          (read_loop fuel fs d size behind.0 0 (done + chunk) load.0 copied))
                      (sym behind.2)
                      (Copies-chunk fs d x size co done chunk (behind.0 ∷ behind.1) load.0 buffer
                        holds bounds.2 (inr full) rest (ground arith)))
            ]
      ]

-- The way along the chain to the cluster of the offset.
pub record Skips (fs : Fs) (d : Disk) (n c : ℕ) (xs : List ℕ) : Type 0 where
  pub there : ℕ
  pub behind : List ℕ
  pub result : skip_clusters fs d n c ≡ some there
  pub chain : IsChain fs d there behind
  pub size : length behind + n ≡ length xs
  pub bytes : (p : ℕ) → file_byte fs d xs (n * fs.bytes_per_cluster + p) ≡ file_byte fs d behind p

pub skip_clusters-Skips :
    (fs : Fs) (d : Disk) (n c : ℕ) (xs : List ℕ)
    → IsChain fs d c xs
    → n < length xs
    → Skips fs d n c xs
unfolding skip_clusters
skip_clusters-Skips fs d zero c xs h few = record {
  there = c;
  behind = xs;
  result = refl;
  chain = h;
  size = omega arith;
  bytes = λ p. ap (file_byte fs d xs) (omega arith);
}
skip_clusters-Skips fs d (suc n) c [] h few = absurd (omega arith)
skip_clusters-Skips fs d (suc n) c (x ∷ []) h few = absurd (omega arith)
skip_clusters-Skips fs d (suc n) c (x ∷ y ∷ ys) h few =
    let next = IsChain-next fs d c x y ys h in
    let rest = skip_clusters-Skips fs d n y (y ∷ ys) next.3 (omega arith) in
    let b = fs.bytes_per_cluster in
    record {
      there = rest.there;
      behind = rest.behind;
      result = rw (next_cluster-here fs d c y next.1 next.2) rest.result;
      chain = rest.chain;
      size = omega (arith, rest.size);
      bytes = λ p.
          let place : suc n * b + p ≡ b + (n * b + p) = omega (arith, suc-mul n b) in
          ap (file_byte fs d (x ∷ y ∷ ys)) place
          ∙ file_byte-later fs d x (n * b + p) (y ∷ ys)
          ∙ rest.bytes p;
    }
