-- ===== src/Bio/Read.antt =====
-- bread: from the block's number to a locked buffer with the block's bytes.
use experiment.Base.{
  ℕ, ◌+◌, ◌-◌, ◌%◌, ◌^◌, ◌<◌, ◌≡◌, ◌≢◌, refl, sym, subst, Bool, true, false, ◌⊎◌, Option, none,
  some, List, [], ◌∷◌, arith, ◌==◌, if◌then◌else◌, Bool-cases, inl, inr, length, All,
}
use experiment.Bio.{
  Storage, Cache, Outcome, returned, waiting, cache_size, holds_block, change, set_locked, get_blk,
  read_block, read_locked, bread_from, bread, Turns, hit, recycle, find_cached, find_unused,
}
use experiment.Bio.Lru.{find_cached-some}
use experiment.Bio.Refs.{IsValid, refs_to, refs_to-bound, GetsBlock, get_blk-GetsBlock}

-- Buffer `i` has a reference and the block.
pub record InUse {S : Type 0} (i device block : ℕ) (c : Cache S) : Type 0 where
  pub has_block : holds_block device block (c.buffers i) ≡ true
  pub no_wrap : (c.buffers i).ref_count < 2 ^ 32

-- A turn of other threads that does not give away the reference of the caller.
abbrev pub KeepsInUse : {S : Type 0} → (i device block : ℕ) → (Cache S → Cache S) → Type 0
KeepsInUse {S} i device block turn =
    (c : Cache S) → InUse i device block c → InUse i device block (turn c)

at_self : (i : ℕ) → (i == i) ≡ true
at_self i = ground arith

module _ (d : Storage) where
  open d use {State, storage_read}

  -- What bread found when it took the lock of buffer `i`: no one else had it.
  pub record Taken (i device block : ℕ) (c : Cache State) : Type 0 where
    pub in_use : InUse i device block c
    pub was_free : (c.buffers i).locked ≡ false

  -- The lock is held, and the bytes are those that were cached, or those of a read that succeeded.
  pub record Loaded (i device block : ℕ) (c e : Cache State) : Type 0 where
    pub in_use : InUse i device block e
    pub locked : (e.buffers i).locked ≡ true
    pub valid : (e.buffers i).valid ≡ true
    pub bytes :
        let r = storage_read device block (c.buffers i).bytes c.store in
        (((c.buffers i).valid ≡ true) × ((e.buffers i).bytes ≡ (c.buffers i).bytes))
        ⊎ ((((c.buffers i).valid ≡ false) × (r.0 ≡ true)) × ((e.buffers i).bytes ≡ r.1))

  -- The read failed; the lock and the reference are given back.
  pub record Failed (i device block : ℕ) (c e : Cache State) : Type 0 where
    pub no_bytes : (storage_read device block (c.buffers i).bytes c.store).0 ≡ false
    pub unlocked : (e.buffers i).locked ≡ false
    pub given_back : (e.buffers i).ref_count + 1 ≡ (c.buffers i).ref_count

  -- The cache `c` after some of the turns.
  pub data Passed : Turns d → Cache State → Cache State → Type 0 where
    here : {ts : Turns d} {c : Cache State} → Passed ts c c
    next :
        {t : Cache State → Cache State} {ts : Turns d} {c e : Cache State}
        → Passed ts (t c) e
        → Passed (t ∷ ts) c e

  -- How bread ends once get_blk gave it buffer `i` of the cache `start`: the cache in which it took the
  -- lock is `start` after some of the turns.
  pub ReadEnds : Turns d → (i device block : ℕ) → Cache State → Outcome State → Type 0
  ReadEnds ts i device block start (returned (some k) e) =
      (k ≡ i)
      × ((c : Cache State) × Passed ts start c × Taken i device block c × Loaded i device block c e)
  ReadEnds ts i device block start (returned none e) =
      (c : Cache State) × Passed ts start c × Taken i device block c × Failed i device block c e
  ReadEnds ts i device block start (waiting k e) =
      (k ≡ i) × InUse i device block e × ((e.buffers i).locked ≡ true)

  pass :
      (t : Cache State → Cache State) (ts : Turns d) (i device block : ℕ) (c : Cache State)
      (o : Outcome State)
      → ReadEnds ts i device block (t c) o
      → ReadEnds (t ∷ ts) i device block c o
  unfolding ReadEnds
  pass t ts i device block c (returned (some k) e) h = (h.0, (h.1.0, next h.1.1, h.1.2, h.1.3))
  pass t ts i device block c (returned none e) h = (h.0, next h.1, h.2, h.3)
  pass t ts i device block c (waiting k e) h = h

  -- The cache once the lock is taken, and once the read has put its bytes into the buffer.
  abbrev taken_cache : ℕ → Cache State → Cache State
  taken_cache i c = record c { buffers = change i (set_locked true) c.buffers }

  Loaded-cached :
      (i device block : ℕ) (c : Cache State)
      → InUse i device block c
      → (c.buffers i).valid ≡ true
      → Loaded i device block c (taken_cache i c)
  Loaded-cached i device block c u cached = record {
    in_use = record {
      has_block = ground (arith, u.has_block);
      no_wrap = ground (arith, u.no_wrap);
    };
    locked = ground arith;
    valid = ground (arith, cached);
    bytes = inl (cached, ground arith);
  }

  Loaded-read :
      (i device block : ℕ) (c : Cache State)
      → InUse i device block c
      → (c.buffers i).valid ≡ false
      → (storage_read device block (c.buffers i).bytes c.store).0 ≡ true
      → Loaded i device block c (record c {
        buffers =
            change i
              (λ b. record b {
                bytes = (storage_read device block (c.buffers i).bytes c.store).1;
                valid = true;
              })
              (change i (set_locked true) c.buffers);
      })
  Loaded-read i device block c u stale ok = record {
    in_use = record {
      has_block = ground (arith, u.has_block);
      no_wrap = ground (arith, u.no_wrap);
    };
    locked = ground arith;
    valid = ground arith;
    bytes = inr ((stale, ok), rw (at_self i) refl);
  }

  Failed-read :
      (i device block : ℕ) (c : Cache State)
      → InUse i device block c
      → (storage_read device block (c.buffers i).bytes c.store).0 ≡ false
      → Failed i device block c (record c {
        buffers =
            change i
              (λ b. record b {
                bytes = (storage_read device block (c.buffers i).bytes c.store).1;
                locked = false;
                ref_count = (b.ref_count + (2 ^ 32 - 1)) % 2 ^ 32;
              })
              (change i (set_locked true) c.buffers);
      })
  Failed-read i device block c u bad = record {
    no_bytes = bad;
    unlocked = rw (at_self i) refl;
    given_back = rw (at_self i) (ground (arith, u.has_block, u.no_wrap));
  }

  read_block-ReadEnds :
      (ts : Turns d) (i device block : ℕ) (c : Cache State)
      → InUse i device block c
      → (c.buffers i).locked ≡ false
      → ReadEnds ts i device block c (
          read_block d i device block (record c { buffers = change i (set_locked true) c.buffers }))
  unfolding ReadEnds read_block
  read_block-ReadEnds ts i device block c u free =
      let taken : Taken i device block c = record { in_use = u; was_free = free } in
      elim (Bool-cases (c.buffers i).valid) [
        | inl cached ↦
            rw (at_self i, cached) (refl, (c, here, taken, Loaded-cached i device block c u cached))
        | inr stale ↦ elim (Bool-cases (storage_read device block (c.buffers i).bytes c.store).0) [
          | inl ok ↦
              rw (at_self i, stale, ok)
                (refl, (c, here, taken, Loaded-read i device block c u stale ok))
          | inr bad ↦
              rw (at_self i, stale, bad) (c, here, taken, Failed-read i device block c u bad)
        ]
      ]

  -- A test of the lock that finds it free, whatever a taken lock leads to.
  unlocked_end :
      (ts : Turns d) (i device block : ℕ) (o : Outcome State) (c : Cache State)
      → InUse i device block c
      → (c.buffers i).locked ≡ false
      → ReadEnds ts i device block c
          (if (c.buffers i).locked then o else read_block d i device block (taken_cache i c))
  unlocked_end ts i device block o c u free =
      subst
        (λ (b : Bool).
          ReadEnds ts i device block c
            (if b then o else read_block d i device block (taken_cache i c)))
        (sym free) (read_block-ReadEnds ts i device block c u free)

  read_locked-ReadEnds :
      (turns : Turns d) (i device block : ℕ) (c : Cache State)
      → All (KeepsInUse i device block) turns
      → InUse i device block c
      → ReadEnds turns i device block c (read_locked d turns i device block c)
  unfolding read_locked ReadEnds
  read_locked-ReadEnds [] i device block c k u = elim (Bool-cases (c.buffers i).locked) [
    | inl taken ↦ rw taken (refl, u, taken)
    | inr free ↦ unlocked_end [] i device block (waiting i c) c u free
  ]
  read_locked-ReadEnds (turn ∷ turns) i device block c k u =
      elim (Bool-cases (c.buffers i).locked) [
        | inl taken ↦ rw taken (
            pass turn turns i device block c (read_locked d turns i device block (turn c))
              (read_locked-ReadEnds turns i device block (turn c) k.1 (k.0 c u)))
        | inr free ↦
            unlocked_end (turn ∷ turns) i device block (read_locked d turns i device block (turn c))
              c u free
      ]

  -- get_blk gave buffer `i` with the block's bytes only if it had them before: the buffer is not valid,
  -- or it was in use with the block, and valid, with the same bytes.
  pub Fresh : (i device block : ℕ) (before c : Cache State) → Type 0
  Fresh i device block before c =
      ((c.buffers i).valid ≡ false)
      ⊎ ((holds_block device block (before.buffers i) ≡ true)
          × ((before.buffers i).valid ≡ true)
          × ((c.buffers i).bytes ≡ (before.buffers i).bytes))

  -- How bread ends: as above once a buffer is found, or with null when there is none.
  pub BreadEnds :
      Turns d
      → (device block : ℕ) → List ℕ
      → Cache State
      → Option ℕ × Cache State
      → Outcome State
      → Type 0
  BreadEnds ts device block refs before (some i, c) o =
      Fresh i device block before c × ReadEnds ts i device block c o
  BreadEnds ts device block refs before (none, c) o =
      (o ≡ returned none c) × ((j : ℕ) → j < cache_size → refs_to j refs ≢ 0)

  hit-Fresh :
      (i device block : ℕ) (c : Cache State)
      → holds_block device block (c.buffers i) ≡ true
      → Fresh i device block c (hit d i c)
  unfolding Fresh hit
  hit-Fresh i device block c h = elim (Bool-cases (c.buffers i).valid) [
    | inl valid ↦ inr (h, valid, rw (at_self i) refl)
    | inr stale ↦ inl (rw (at_self i) stale)
  ]

  recycle-Fresh :
      (i device block : ℕ) (c : Cache State) → Fresh i device block c (recycle d i device block c)
  unfolding Fresh recycle
  recycle-Fresh i device block c = inl (rw (at_self i) refl)

  FreshBlk : (device block : ℕ) (before : Cache State) → Option ℕ × Cache State → Type 0
  unfolding Fresh
  FreshBlk device block before (none, c) = Unit
  FreshBlk device block before (some i, c) = Fresh i device block before c

  get_blk-FreshBlk :
      (device block : ℕ) (c : Cache State) → FreshBlk device block c (get_blk d device block c)
  unfolding get_blk FreshBlk
  get_blk-FreshBlk device block c = go (find_cached cache_size 0 device block c.buffers) refl
    where
      missed :
          (r : Option ℕ)
          → find_cached cache_size 0 device block c.buffers ≡ none
          → find_unused c.lru c.buffers ≡ r
          → FreshBlk device block c (get_blk d device block c)
      missed none e u = rw (get_blk, e, u) tt
      missed (some i) e u = rw (get_blk, e, u) (recycle-Fresh i device block c)

      go :
          (r : Option ℕ)
          → find_cached cache_size 0 device block c.buffers ≡ r
          → FreshBlk device block c (get_blk d device block c)
      go (some i) e =
          rw (get_blk, e)
            (hit-Fresh i device block c
              (find_cached-some cache_size 0 device block c.buffers i e).0)
      go none e = missed (find_unused c.lru c.buffers) e refl

  bread_from-BreadEnds :
      (turns : Turns d) (device block : ℕ) (refs : List ℕ) (c : Cache State)
      (g : Option ℕ × Cache State)
      → length refs + 1 < 2 ^ 32
      → GetsBlock d device block refs c g
      → FreshBlk device block c g
      → ((i : ℕ) → g.0 ≡ some i → All (KeepsInUse i device block) turns)
      → BreadEnds turns device block refs c g (bread_from d turns device block g)
  unfolding BreadEnds bread_from GetsBlock refs_to FreshBlk
  bread_from-BreadEnds turns device block refs c (none, e) small g f k = (refl, g.1)
  bread_from-BreadEnds turns device block refs c (some i, e) small g f k = (
    f,
    read_locked-ReadEnds turns i device block e (k i refl)
        (record { has_block = g.2; no_wrap = ground (arith, g.1.counted i, refs_to-bound i refs) }),
  )

  -- bread on a cache in order with fewer than 2^32 - 1 references, while the other threads do not
  -- give its reference away: it returns null without a change if every buffer has a reference;
  -- else it waits until the lock of the block's buffer is free, which it finds after some of the
  -- turns of the others, and returns that buffer, locked, valid, with the block, and with the bytes
  -- that were cached then or, if the buffer was not valid, those of a read of the block that
  -- succeeded; or, if the read fails, it returns null with the lock free and the reference given
  -- back. The buffer it waits for is valid only if it was in use with this block before the call, or
  -- one of the turns has made it so: what a buffer held for another block is never handed out. It
  -- still waits after all turns only if the lock is then taken.
  pub bread-BreadEnds :
      (turns : Turns d) (device block : ℕ) (refs : List ℕ) (c : Cache State)
      → IsValid refs c
      → length refs + 1 < 2 ^ 32
      → ((i : ℕ) → (get_blk d device block c).0 ≡ some i → All (KeepsInUse i device block) turns)
      → BreadEnds turns device block refs c
          (get_blk d device block c)
          (bread d turns device block c)
  unfolding bread
  bread-BreadEnds turns device block refs c v small k =
      bread_from-BreadEnds turns device block refs c (get_blk d device block c) small
        (get_blk-GetsBlock d device block refs c v small) (get_blk-FreshBlk device block c) k
