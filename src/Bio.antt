-- ===== src/Bio.antt =====
-- The block cache of kernel/io/bio.c, over a storage that is read and written by blocks. A pointer to
-- a buffer is its index in the cache; the flags are two Booleans.
pub mod Lru
pub mod Refs
pub mod Read
mod Tests
use experiment.Base.{
  ℕ, zero, suc, ◌+◌, ◌-◌, ◌%◌, ◌^◌, Bool, true, false, ◌&&◌, Option, none, some, List, [], ◌∷◌,
  ◌++◌, ltb, ◌==◌, if◌then◌else◌,
}

abbrev pub cache_size : ℕ
cache_size = 128

-- What the cache calls of kernel/io/storage.c. A read says whether it succeeded, and what it leaves in
-- the buffer that held `before`; a write says whether it succeeded.
pub record Storage : Type 1 where
  pub State : Type 0
  pub storage_read : (device block : ℕ) → (before : List ℕ) → State → Bool × List ℕ
  pub storage_write : (device block : ℕ) → List ℕ → State → Bool × State

pub record BufferHead : Type 0 where
  pub device : ℕ
  pub block : ℕ
  pub bytes : List ℕ
  pub valid : Bool
  pub dirty : Bool
  pub ref_count : ℕ
  pub locked : Bool

-- `lru` has the most recently used index first.
pub record Cache (S : Type 0) : Type 0 where
  pub buffers : ℕ → BufferHead
  pub lru : List ℕ
  pub store : S

pub remove : ℕ → List ℕ → List ℕ
remove i [] = []
remove i (x ∷ xs) = let rest = remove i xs in if x == i then rest else x ∷ rest

-- list_del, then list_add at the head
pub move_to_head : ℕ → List ℕ → List ℕ
unfolding remove
move_to_head i lru = i ∷ remove i lru

-- A change to the buffer at an index.
abbrev pub change : ℕ → (BufferHead → BufferHead) → (ℕ → BufferHead) → (ℕ → BufferHead)
change i f bs = λ j. if j == i then f (bs j) else bs j

abbrev pub holds_block : (device block : ℕ) → BufferHead → Bool
holds_block device block b = ltb 0 b.ref_count && (b.device == device && b.block == block)

-- for (i = ...; i < BIO_CACHE_SIZE; i++) with `rounds` rounds left
pub find_cached : (rounds i device block : ℕ) → (ℕ → BufferHead) → Option ℕ
find_cached zero i device block bs = none
find_cached (suc rounds) i device block bs =
    let later = find_cached rounds (i + 1) device block bs in
    if holds_block device block (bs i) then some i else later

-- The search of the list from its end.
pub find_unused : List ℕ → (ℕ → BufferHead) → Option ℕ
find_unused [] bs = none
find_unused (i ∷ lru) bs = elim (find_unused lru bs) [
  | some k ↦ some k
  | none ↦ if (bs i).ref_count == 0 then some i else none
]

abbrev pub add_ref : BufferHead → BufferHead
add_ref b = record b { ref_count = (b.ref_count + 1) % 2 ^ 32 }

abbrev pub drop_ref : BufferHead → BufferHead
drop_ref b = if ltb 0 b.ref_count then record b { ref_count = b.ref_count - 1 } else b

abbrev pub take_over : (device block : ℕ) → BufferHead → BufferHead
take_over device block b = record b {
  device = device;
  block = block;
  valid = false;
  dirty = false;
  ref_count = 1;
}

abbrev pub set_dirty : Bool → BufferHead → BufferHead
set_dirty d b = record b { dirty = d }

abbrev pub set_locked : Bool → BufferHead → BufferHead
set_locked l b = record b { locked = l }

-- How a call that may wait ends: it returns, or it still waits when the turns are used up.
pub data Outcome (S : Type 0) : Type 0 where
  returned : Option ℕ → Cache S → Outcome S
  waiting : ℕ → Cache S → Outcome S

-- The loop of bio_init from index `i`: `memory` gives the bytes behind each pointer of kmalloc, or
-- `none` where it fails, which ends the loop.
pub init_from : {S : Type 0} → (rounds i : ℕ) → (memory : ℕ → Option (List ℕ)) → Cache S → Cache S
init_from zero i memory c = c
init_from (suc rounds) i memory c = elim (memory i) [
  | none ↦ c
  | some bytes ↦ init_from rounds (i + 1) memory (record c {
    buffers = change i (λ b. record b { bytes = bytes }) c.buffers;
    lru = c.lru ++ (i ∷ []);
  })
]

-- memset(cache, 0, sizeof(cache))
abbrev pub zeroed : BufferHead
zeroed = record {
  device = 0;
  block = 0;
  bytes = [];
  valid = false;
  dirty = false;
  ref_count = 0;
  locked = false;
}

-- bio_init
pub init : {S : Type 0} → (memory : ℕ → Option (List ℕ)) → S → Cache S
unfolding init_from
init memory store =
    init_from cache_size 0 memory (record { buffers = λ i. zeroed; lru = []; store = store })

module _ (d : Storage) where
  open d use {State, storage_read, storage_write}

  -- What the other threads do to the cache during the calls of thread_sleep.
  abbrev pub Turns : Type 0
  Turns = List (Cache State → Cache State)

  pub hit : ℕ → Cache State → Cache State
  unfolding move_to_head
  hit i c = record c { buffers = change i add_ref c.buffers; lru = move_to_head i c.lru }

  -- An unused buffer is written back if it is dirty, then taken over.
  pub recycle : (i device block : ℕ) → Cache State → Cache State
  unfolding move_to_head
  recycle i device block c =
      let b = c.buffers i in
      record c {
        buffers = change i (take_over device block) c.buffers;
        lru = move_to_head i c.lru;
        store = if b.dirty then (storage_write b.device b.block b.bytes c.store).1 else c.store;
      }

  -- get_blk: a null result is `none`.
  pub get_blk : (device block : ℕ) → Cache State → Option ℕ × Cache State
  unfolding find_cached find_unused hit recycle
  get_blk device block c = elim (find_cached cache_size 0 device block c.buffers) [
    | some i ↦ (some i, hit i c)
    | none ↦ elim (find_unused c.lru c.buffers) [
      | some i ↦ (some i, recycle i device block c)
      | none ↦ (none, c)
    ]
  ]

  -- bread once it has the sleeplock of buffer `i`.
  pub read_block : (i device block : ℕ) → Cache State → Outcome State
  read_block i device block c =
      let r = storage_read device block (c.buffers i).bytes c.store in
      let filled = λ (b : BufferHead). record b { bytes = r.1; valid = true } in
      let failed = λ (b : BufferHead). record b {
        bytes = r.1;
        locked = false;
        ref_count = (b.ref_count + (2 ^ 32 - 1)) % 2 ^ 32;
      } in
      if (c.buffers i).valid
      then returned (some i) c
      else if r.0
      then returned (some i) (record c { buffers = change i filled c.buffers })
      else returned none (record c { buffers = change i failed c.buffers })

  -- while (lk->locked) thread_sleep(lk, ...), then the lock is taken and bread goes on.
  pub read_locked : Turns → (i device block : ℕ) → Cache State → Outcome State
  unfolding read_block
  read_locked [] i device block c =
      let go =
        read_block i device block (record c { buffers = change i (set_locked true) c.buffers }) in
      if (c.buffers i).locked then waiting i c else go
  read_locked (turn ∷ turns) i device block c =
      let again = read_locked turns i device block (turn c) in
      let go =
        read_block i device block (record c { buffers = change i (set_locked true) c.buffers }) in
      if (c.buffers i).locked then again else go

  pub bread_from : Turns → (device block : ℕ) → Option ℕ × Cache State → Outcome State
  unfolding read_locked
  bread_from turns device block (none, c) = returned none c
  bread_from turns device block (some i, c) = read_locked turns i device block c

  pub bread : Turns → (device block : ℕ) → Cache State → Outcome State
  unfolding bread_from get_blk
  bread turns device block c = bread_from turns device block (get_blk device block c)

  -- bwrite of a buffer that is there: the error is only printed.
  pub bwrite : ℕ → Cache State → Cache State
  bwrite i c =
      let b = c.buffers i in
      record c {
        buffers = change i (set_dirty false) c.buffers;
        store = (storage_write b.device b.block b.bytes c.store).1;
      }

  -- brelse of a buffer that is there.
  pub brelse : ℕ → Cache State → Cache State
  brelse i c = record c { buffers = change i (λ b. drop_ref (set_locked false b)) c.buffers }
