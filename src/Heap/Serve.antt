-- ===== src/Heap/Serve.antt =====
-- kmalloc of a size that has a class, over the whole heap.
use experiment.Base.{
  ℕ, ◌+◌, ◌*◌, ◌<◌, ◌≤◌, ◌≡◌, refl, true, false, Option, none, some, List, [], ◌∷◌, arith, ◌==◌,
  Bool-cases, inl, inr, ltb,
}
use experiment.Heap.{
  SlabHeader, Heap, header_size, pop_slot, take_slot, make_slab, take_from, find_slab, alloc_slab,
  get_cache_size, get_cache_index, kmalloc,
}
use experiment.Heap.Slots.{times}
use experiment.Heap.Slab.{Popped, pop_slot-Popped}
use experiment.Heap.Classes.{FitsClass, ClassOf, get_cache_index-ClassOf}
use experiment.Pmm.{page_size, alloc_page, Pmm}
use experiment.Pmm.Alloc.{FirstFit, exhausted, found, FreeRun, alloc_page-FirstFit}
use experiment.Heap.Valid.{in_slabs, HeapIsValid, with_slot, set_header-HeapIsValid}
use experiment.Heap.Grow.{
  grown, grown-HeapIsValid, non_null-none, non_null-free, grown_room, grown_listed,
}

-- What serving a request for `size` bytes gives.
unfoldable pub Serves : (ℕ → List ℕ) → (size : ℕ) → Heap → Option ℕ × Heap → Type 0
Serves live size h (none, t) = HeapIsValid live t × ((p : ℕ) → ¬ FreeRun h.pmm p 1)
Serves live size h (some a, t) =
    (virt : ℕ) × (i : ℕ) × (in_slabs virt (t.caches i) ≡ true)
    × (times a (live virt) ≡ 0)
    × ((virt + header_size ≤ a) × (a + size ≤ virt + page_size))
    × HeapIsValid (with_slot virt a live) t

take_slot-Serves :
    (live : ℕ → List ℕ) (size i virt : ℕ) (h k : Heap)
    → HeapIsValid live h
    → in_slabs virt (h.caches i) ≡ true
    → 0 < (h.headers virt).free_count
    → size ≤ get_cache_size i
    → Serves live size k (take_slot virt h)
unfolding take_slot Serves Popped
take_slot-Serves live size i virt h k v here room fits =
    go (pop_slot (h.headers virt)) refl
      (pop_slot-Popped virt (live virt) (h.headers virt) (v.slabs i virt here).is_slab room)
  where
    go :
        (r : Option (ℕ × SlabHeader))
        → pop_slot (h.headers virt) ≡ r
        → Popped virt (live virt) (h.headers virt) r
        → Serves live size k (take_slot virt h)
    go none e p = absurd p
    go (some (a, hd)) e p =
        rw (take_slot, e)
          (
            virt,
            i,
            here,
            p.0,
            (p.1.0, omega (arith, p.1.1, (v.slabs i virt here).size)),
            set_header-HeapIsValid live virt i a hd h v here p.2 p.3,
          )

find_slab-some :
    (headers : ℕ → SlabHeader) (slabs : List ℕ) (a : ℕ)
    → find_slab headers slabs ≡ some a
    → (in_slabs a slabs ≡ true) × (0 < (headers a).free_count)
unfolding find_slab in_slabs
find_slab-some headers [] a e = cc
find_slab-some headers (x ∷ slabs) a e = elim (Bool-cases (ltb 0 (headers x).free_count)) [
  | inl room ↦ ground arith
  | inr full ↦ ground (arith, find_slab-some headers slabs a)
]

make_slab-Serves :
    (live : ℕ → List ℕ) (size i : ℕ) (h : Heap)
    → HeapIsValid live h
    → FitsClass size i
    → Serves live size h (take_from (make_slab i h))
unfolding make_slab Serves
make_slab-Serves live size i h v fits = go (alloc_page h.pmm) refl (alloc_page-FirstFit v.bytes)
  where
    go :
        (r : Option ℕ × Pmm)
        → alloc_page h.pmm ≡ r
        → FirstFit h.pmm 1 r
        → Serves live size h (take_from (make_slab i h))
    go r e (exhausted full) = rw (make_slab, e, non_null-none, e) (v, full)
    go r e (found p t free least m) =
        rw (make_slab, e, non_null-free live h p v free, e)
          (take_slot-Serves live size i (p * page_size + h.hhdm_offset)
            (grown i p t (h.headers (p * page_size + h.hhdm_offset)) h) h
            (grown-HeapIsValid live i p t (h.headers (p * page_size + h.hhdm_offset)) h v fits.own
              free m)
            (grown_listed i p t (h.headers (p * page_size + h.hhdm_offset)) h)
            (grown_room i p t (h.headers (p * page_size + h.hhdm_offset)) h fits.fits_page)
            fits.large)

alloc_slab-Serves :
    (live : ℕ → List ℕ) (size i : ℕ) (h : Heap)
    → HeapIsValid live h
    → FitsClass size i
    → Serves live size h (alloc_slab i h)
unfolding alloc_slab
alloc_slab-Serves live size i h v fits = go (find_slab h.headers (h.caches i)) refl
  where
    go : (r : Option ℕ) → find_slab h.headers (h.caches i) ≡ r → Serves live size h (alloc_slab i h)
    go none e = rw (alloc_slab, e) (make_slab-Serves live size i h v fits)
    go (some a) e =
        let f = find_slab-some h.headers (h.caches i) a e in
        rw (alloc_slab, e) (take_slot-Serves live size i a h h v f.0 f.1 fits.large)

-- kmalloc of 1 to 2048 bytes on a heap in order, page 0 being marked as pmm_init leaves it, gives a slot that was not live, with at least that
-- many bytes behind its page's header and inside the page, and leaves the heap in order with that
-- slot live too; or it gives null, with the heap in order for the same live slots, only if no page
-- is free.
pub kmalloc-Serves :
    (live : ℕ → List ℕ) (size : ℕ) (h : Heap)
    → HeapIsValid live h
    → 0 < size
    → size ≤ 2048
    → Serves live size h (kmalloc size h)
unfolding kmalloc ClassOf
kmalloc-Serves live size h v pos small =
    go (get_cache_index size) refl (get_cache_index-ClassOf size)
  where
    nonzero : (size == 0) ≡ false
    nonzero = ground arith

    go :
        (r : Option ℕ)
        → get_cache_index size ≡ r
        → ClassOf size r
        → Serves live size h (kmalloc size h)
    go none e c = absurd (omega (arith, c))
    go (some i) e c = rw (kmalloc, nonzero, e) (alloc_slab-Serves live size i h v c)
