-- ===== src/Bio/Refs.antt =====
-- The reference counts of the block cache: get_blk and brelse.
use experiment.Base.{
  ℕ, zero, suc, ◌+◌, ◌^◌, ◌<◌, ◌≤◌, ◌≡◌, ◌≢◌, refl, true, false, Option, none, some, List, [], ◌∷◌,
  ◌++◌, ◌||◌, subst, arith, ◌==◌, if◌then◌else◌, ltb, length,
}
use experiment.Bio.{
  init, init_from, zeroed, Storage, Cache, cache_size, holds_block, find_cached, find_unused,
  change, hit, recycle, get_blk, brelse,
}
use experiment.Bio.Lru.{
  in_list, in_list-move_to_head, find_cached-some, find_cached-none, find_unused-some,
  find_unused-none,
}

-- How many of the references are to buffer `i`.
unfoldable pub refs_to : ℕ → List ℕ → ℕ
refs_to i [] = 0
refs_to i (x ∷ xs) = if i == x then suc (refs_to i xs) else refs_to i xs

pub refs_to-bound : (i : ℕ) (refs : List ℕ) → refs_to i refs ≤ length refs
unfolding refs_to
refs_to-bound i [] = omega arith
refs_to-bound i (x ∷ xs) = ground (arith, refs_to-bound i xs)

-- The cache with the references `refs` outstanding: the counts are right, two different buffers in
-- use never hold one block, and the list has exactly the indices of the cache.
pub record IsValid {S : Type 0} (refs : List ℕ) (c : Cache S) : Type 0 where
  pub counted : (i : ℕ) → (c.buffers i).ref_count ≡ refs_to i refs
  pub unique :
      (i j : ℕ)
      → i < cache_size
      → j < cache_size
      → holds_block (c.buffers j).device (c.buffers j).block (c.buffers i) ≡ true
      → 0 < (c.buffers j).ref_count
      → i ≡ j
  pub listed : (i : ℕ) → in_list i c.lru ≡ ltb i cache_size

in_list-append : (j i : ℕ) (xs : List ℕ) → in_list j (xs ++ (i ∷ [])) ≡ (in_list j xs || (i == j))
unfolding in_list
in_list-append j i [] = ground arith
in_list-append j i (x ∷ xs) = ground (arith, in_list-append j i xs)

-- A cache in which no buffer is in use and the list has the indices below `n`.
record Fresh {S : Type 0} (n : ℕ) (c : Cache S) : Type 0 where
  idle : (i : ℕ) → (c.buffers i).ref_count ≡ 0
  listed : (i : ℕ) → in_list i c.lru ≡ ltb i n

-- One round of the loop.
abbrev with_buffer : {S : Type 0} → ℕ → List ℕ → Cache S → Cache S
with_buffer i bytes c = record c {
  buffers = change i (λ b. record b { bytes = bytes }) c.buffers;
  lru = c.lru ++ (i ∷ []);
}

init_from-Fresh :
    {S : Type 0} (rounds i : ℕ) (memory : ℕ → Option (List ℕ)) (c : Cache S)
    → ((j : ℕ) → memory j ≢ none)
    → Fresh i c
    → Fresh (i + rounds) (init_from rounds i memory c)
unfolding init_from
init_from-Fresh zero i memory c given f = subst (λ n. Fresh n c) (omega arith) f
init_from-Fresh {S = S} (suc rounds) i memory c given f = go (memory i) refl (λ bytes.
    init_from-Fresh rounds (i + 1) memory (with_buffer i bytes c) given (record {
      idle = λ j. ground (arith, f.idle j);
      listed = λ j. ground (arith, in_list-append j i c.lru, f.listed j);
    }))
  where
    go :
        (r : Option (List ℕ))
        → memory i ≡ r
        → ((bytes : List ℕ)
            → Fresh (i + 1 + rounds) (init_from rounds (i + 1) memory (with_buffer i bytes c)))
        → Fresh (i + suc rounds) (init_from (suc rounds) i memory c)
    go none e next = absurd (given i e)
    go (some bytes) e next =
        rw (init_from, e)
          (subst (λ n. Fresh n (init_from rounds (i + 1) memory (with_buffer i bytes c)))
            (omega arith) (next bytes))

-- When every kmalloc succeeds, bio_init leaves a cache in order, without references.
pub init-IsValid :
    {S : Type 0} (memory : ℕ → Option (List ℕ)) (store : S)
    → ((j : ℕ) → memory j ≢ none)
    → IsValid [] (init memory store)
unfolding init refs_to in_list
init-IsValid {S = S} memory store given =
    let start : Cache S = record { buffers = λ i. zeroed; lru = []; store = store } in
    let f =
      init_from-Fresh cache_size 0 memory start given
        (record { idle = λ i. refl; listed = λ i. ground arith }) in
    record {
      counted = f.idle;
      unique = λ i j hi hj same used. absurd (omega (arith, f.idle j));
      listed = f.listed;
    }

module _ (d : Storage) where
  open d use {State}

  hit-IsValid :
      (i : ℕ) (refs : List ℕ) (c : Cache State)
      → IsValid refs c
      → length refs + 1 < 2 ^ 32
      → i < cache_size
      → 0 < (c.buffers i).ref_count
      → IsValid (i ∷ refs) (hit d i c)
  unfolding hit refs_to
  hit-IsValid i refs c v small inside used = record {
    counted = λ j. ground (arith, v.counted j, refs_to-bound j refs);
    unique = λ j k hj hk same open_. ground (arith, v.unique j k hj hk);
    listed = λ j. ground (arith, in_list-move_to_head j i c.lru, v.listed j);
  }

  recycle-IsValid :
      (i device block : ℕ) (refs : List ℕ) (c : Cache State)
      → IsValid refs c
      → i < cache_size
      → (c.buffers i).ref_count ≡ 0
      → ((k : ℕ) → k < cache_size → holds_block device block (c.buffers k) ≡ false)
      → IsValid (i ∷ refs) (recycle d i device block c)
  unfolding recycle refs_to
  recycle-IsValid i device block refs c v inside unused nobody = record {
    counted = λ j. ground (arith, v.counted j);
    unique = λ j k hj hk same open_. ground (arith, v.unique j k hj hk, nobody j hj, nobody k hk);
    listed = λ j. ground (arith, in_list-move_to_head j i c.lru, v.listed j);
  }

  -- What get_blk does, from a cache `c` with the references `refs`: it adds a reference to a buffer
  -- that now holds the block, and changes no other; or there is none without a reference.
  unfoldable pub GetsBlock :
      (device block : ℕ) → List ℕ → Cache State → Option ℕ × Cache State → Type 0
  GetsBlock device block refs c (some i, e) =
      (i < cache_size)
      × IsValid (i ∷ refs) e
      × (holds_block device block (e.buffers i) ≡ true)
      × ((j : ℕ) → j ≢ i → e.buffers j ≡ c.buffers j)
  GetsBlock device block refs c (none, e) =
      (e ≡ c) × ((j : ℕ) → j < cache_size → refs_to j refs ≢ 0)

  hit-GetsBlock :
      (i device block : ℕ) (refs : List ℕ) (c : Cache State)
      → IsValid refs c
      → length refs + 1 < 2 ^ 32
      → find_cached cache_size 0 device block c.buffers ≡ some i
      → GetsBlock device block refs c (some i, hit d i c)
  unfolding GetsBlock hit
  hit-GetsBlock i device block refs c v small e =
      let f = find_cached-some cache_size 0 device block c.buffers i e in
      (
        f.1,
        hit-IsValid i refs c v small f.1 (ground (arith, f.0)),
        ground (arith, f.0, v.counted i, refs_to-bound i refs),
        λ j ne. ground arith,
      )

  missed-GetsBlock :
      (device block : ℕ) (refs : List ℕ) (c : Cache State) (r : Option ℕ)
      → IsValid refs c
      → find_cached cache_size 0 device block c.buffers ≡ none
      → find_unused c.lru c.buffers ≡ r
      → GetsBlock device block refs c
          (elim r [ some i ↦ (some i, recycle d i device block c) | none ↦ (none, c) ])
  unfolding GetsBlock recycle
  missed-GetsBlock device block refs c (some i) v missed e =
      let f = find_unused-some c.lru c.buffers i e in
      let inside : i < cache_size = ground (arith, f.1, v.listed i) in
      (
        inside,
        recycle-IsValid i device block refs c v inside f.0 (λ k hk.
            find_cached-none cache_size 0 device block c.buffers k missed (omega arith) hk),
        ground arith,
        λ j ne. ground arith,
      )
  missed-GetsBlock device block refs c none v missed e =
      (refl, λ j hj. ground (arith, find_unused-none c.lru c.buffers j e, v.listed j, v.counted j))

  -- get_blk on a cache in order, with fewer than 2^32 - 1 references, gives a new reference to the
  -- one buffer in use that holds the block, leaves every other buffer as it was and the cache in
  -- order; it fails, with the cache unchanged, only if every buffer has a reference.
  pub get_blk-GetsBlock :
      (device block : ℕ) (refs : List ℕ) (c : Cache State)
      → IsValid refs c
      → length refs + 1 < 2 ^ 32
      → GetsBlock device block refs c (get_blk d device block c)
  unfolding get_blk
  get_blk-GetsBlock device block refs c v small =
      go (find_cached cache_size 0 device block c.buffers) refl
    where
      go :
          (r : Option ℕ)
          → find_cached cache_size 0 device block c.buffers ≡ r
          → GetsBlock device block refs c (get_blk d device block c)
      go (some i) e = rw (get_blk, e) (hit-GetsBlock i device block refs c v small e)
      go none e =
          rw (get_blk, e)
            (missed-GetsBlock device block refs c (find_unused c.lru c.buffers) v e refl)

  -- On a cache in order, brelse gives one reference to its buffer back: the cache stays in order,
  -- and the other buffers as they were.
  pub brelse-IsValid :
      (i : ℕ) (refs : List ℕ) (c : Cache State)
      → IsValid (i ∷ refs) c
      → IsValid refs (brelse d i c) × ((j : ℕ) → j ≢ i → (brelse d i c).buffers j ≡ c.buffers j)
  unfolding brelse refs_to
  brelse-IsValid i refs c v = (
    record {
      counted = λ j. ground (arith, v.counted j);
      unique = λ j k hj hk same open_. ground (arith, v.unique j k hj hk);
      listed = v.listed;
    },
    λ j ne. ground arith,
  )
