-- ===== src/Heap/Big.antt =====
-- kmalloc of a size above the classes: whole pages with a header in front.
use experiment.Base.{
  ℕ, ◌+◌, ◌-◌, ◌*◌, ◌/◌, ◌%◌, ◌^◌, ◌<◌, ◌≤◌, ◌≡◌, refl, subst, true, false, Option, none, some,
  List, arith, ◌==◌, Bool-cases, inl, inr, ==_iff,
}
use experiment.Heap.{SlabHeader, Heap, header_size, set_header, get_cache_index, alloc_big, kmalloc}
use experiment.Heap.Classes.{ClassOf}
use experiment.Heap.Valid.{in_slabs, HeapIsValid}
use experiment.Heap.Grow.{free_page-away, non_null-none, non_null-free}
use experiment.Pmm.{page_size, alloc_pages, Pmm}
use experiment.Pmm.Alloc.{FirstFit, exhausted, found, FreeRun, Marked, alloc_pages-FirstFit}

first_of_run : (s : Pmm) (p n : ℕ) → 0 < n → FreeRun s p n → FreeRun s p 1
unfolding FreeRun
first_of_run s p n pos free j lo hi = free j lo (omega arith)

-- A header on pages that were free changes no slab.
big-HeapIsValid :
    (live : ℕ → List ℕ) (p n : ℕ) (t : Pmm) (hd : SlabHeader) (h : Heap)
    → HeapIsValid live h
    → 0 < n
    → FreeRun h.pmm p n
    → Marked h.pmm p n t
    → HeapIsValid live (set_header (p * page_size + h.hhdm_offset) hd (record h { pmm = t }))
big-HeapIsValid live p n t hd h v pos free m =
    let virt = p * page_size + h.hhdm_offset in
    let away = free_page-away live h p v (first_of_run h.pmm p n pos free) in
    record {
      bytes = m.bytes;
      first_used = ground (arith, m.bits 0, v.first_used);
      slabs = λ j b e. elim (Bool-cases (b == virt)) [
        | inl at ↦ absurd (
            ground
              (arith, away j, subst (λ x. in_slabs x (h.caches j) ≡ true) ((==_iff b virt).0 at) e))
        | inr other ↦
            let old = v.slabs j b e in
            record {
              is_slab = rw other old.is_slab;
              size = rw other old.size;
              own = old.own;
              page = old.page;
              not_first = old.not_first;
              at_page = old.at_page;
              used = ground (arith, m.bits old.page, old.used);
            }
      ];
      unused = v.unused;
    }

-- What a request for a big block gives: the `n` pages from page `p` on, which were free.
pub ServesBig : (ℕ → List ℕ) → (size : ℕ) → Heap → Option ℕ × Heap → Type 0
ServesBig live size h (none, t) =
    HeapIsValid live t
    × ((p : ℕ) → ¬ FreeRun h.pmm p ((size + header_size + (page_size - 1)) / page_size))
ServesBig live size h (some a, t) =
    (p : ℕ) × (n : ℕ) × FreeRun h.pmm p n
    × Marked h.pmm p n t.pmm
    × (a ≡ p * page_size + h.hhdm_offset + header_size)
    × (size + header_size ≤ n * page_size)
    × HeapIsValid live t

alloc_big-ServesBig :
    (live : ℕ → List ℕ) (size : ℕ) (h : Heap)
    → HeapIsValid live h
    → size + header_size + page_size ≤ 2 ^ 64
    → ServesBig live size h (alloc_big size h)
unfolding alloc_big ServesBig
alloc_big-ServesBig live size h v small =
    go (alloc_pages n h.pmm) refl (alloc_pages-FirstFit n v.bytes (omega arith))
  where
    n : ℕ
    n = (size + header_size + (page_size - 1)) / page_size

    exact : ((size + header_size) % 2 ^ 64 + (page_size - 1)) % 2 ^ 64 / page_size ≡ n
    exact = omega arith

    go :
        (r : Option ℕ × Pmm)
        → alloc_pages n h.pmm ≡ r
        → FirstFit h.pmm n r
        → ServesBig live size h (alloc_big size h)
    go r e (exhausted full) = rw (alloc_big, exact, e, non_null-none, exact, e) (v, full)
    go r e (found p t free least m) =
        rw
          (
            alloc_big,
            exact,
            e,
            non_null-free live h p v (first_of_run h.pmm p n (omega arith) free),
            exact,
            e,
          )
          (p, n, free, m, refl, omega arith, big-HeapIsValid live p n t _ h v (omega arith) free m)

-- kmalloc of more than 2048 and at most 2^64 - 4160 bytes, on a heap in order, page 0 being marked
-- as pmm_init leaves it, takes the pages that hold the header and the bytes, all of which were free, puts the block behind the header,
-- and leaves the heap in order; it gives null only if there is no such run of free pages.
pub kmalloc-ServesBig :
    (live : ℕ → List ℕ) (size : ℕ) (h : Heap)
    → HeapIsValid live h
    → 2048 < size
    → size + header_size + page_size ≤ 2 ^ 64
    → ServesBig live size h (kmalloc size h)
unfolding kmalloc ClassOf get_cache_index
kmalloc-ServesBig live size h v large small =
    let nonzero : (size == 0) ≡ false = ground arith in
    let no_class : get_cache_index size ≡ none = ground arith in
    rw (kmalloc, nonzero, no_class) (alloc_big-ServesBig live size h v small)
