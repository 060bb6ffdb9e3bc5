-- ===== src/Heap/Tests.antt =====
-- Runs of the heap over a small page allocator, and its theorems there.
use experiment.Base.{
  ℕ, ◌≡◌, refl, true, false, Option, none, some, subst, List, [], arith, ◌==◌, if◌then◌else◌,
}
use experiment.Pmm.{Pmm, alloc_page, bitmap_test, byte_test}
use experiment.Pmm.Bits.{Bytes}
use experiment.Heap.{Heap, SlabHeader, kmalloc, kfree}
use experiment.Heap.Valid.{HeapIsValid, with_slot, in_slabs}
use experiment.Heap.Serve.{Serves, kmalloc-Serves}
use experiment.Heap.Big.{ServesBig, kmalloc-ServesBig}
use experiment.Heap.Release.{kfree-HeapIsValid}

-- Sixteen pages, of which the first is used.
abbrev pages : Pmm
pages = record {
  bitmap = λ i. if i == 0 then 1 else 0;
  bitmap_addr = 0x1000;
  bitmap_size = 3;
  highest_page = 16;
  highest_addr = 0x10000;
  hhdm_offset = 0;
}

pages-Bytes : Bytes pages
pages-Bytes = record { byte = λ i. ground arith }

abbrev blank : SlabHeader
blank = record {
  magic = false;
  is_slab = false;
  obj_size = 0;
  free_count = 0;
  free_list = [];
  page_count = 0;
}

abbrev empty : Heap
empty = record { hhdm_offset = 0x100000; caches = λ i. []; headers = λ a. blank; pmm = pages }

abbrev nothing_live : ℕ → List ℕ
nothing_live a = []

empty-HeapIsValid : HeapIsValid nothing_live empty
unfolding in_slabs bitmap_test byte_test
empty-HeapIsValid = record {
  bytes = pages-Bytes;
  first_used = refl;
  slabs = λ i a e. cc;
  unused = λ a gone. refl;
}

kmalloc-Serves_example : Serves nothing_live 100 empty (kmalloc 100 empty)
kmalloc-Serves_example =
    kmalloc-Serves nothing_live 100 empty empty-HeapIsValid (omega arith) (omega arith)

-- The heap after that call: a slab at 0x101000, whose first slot is live.
abbrev one_live : Heap
one_live = (kmalloc 100 empty).1

first_slot : (kmalloc 100 empty).0 ≡ some 0x101040
unfolding kmalloc alloc_page bitmap_test byte_test experiment.Heap.non_null
first_slot = refl

-- The page and the class of that slot, with the heap in order.
abbrev Served : ℕ → Heap → Type 0
Served a t =
    (virt : ℕ) × (i : ℕ) × (in_slabs virt (t.caches i) ≡ true)
    × HeapIsValid (with_slot virt a nothing_live) t

served : Served 0x101040 one_live
unfolding Serves
served = by_result (kmalloc 100 empty) first_slot kmalloc-Serves_example
  where
    by_result :
        (r : Option ℕ × Heap)
        → r.0 ≡ some 0x101040
        → Serves nothing_live 100 empty r
        → Served 0x101040 r.1
    by_result (none, t) e s = cc
    by_result (some a, t) e s =
        let same : a ≡ 0x101040 = cc in subst (λ x. Served x t) same (s.0, s.1, s.2, s.5)

one_live_offset : one_live.hhdm_offset ≡ 0x100000
unfolding kmalloc alloc_page bitmap_test byte_test experiment.Heap.non_null
one_live_offset = refl

kfree-HeapIsValid_example : HeapIsValid nothing_live (kfree 0x101040 one_live)
kfree-HeapIsValid_example =
    kfree-HeapIsValid nothing_live served.1 served.0 0x101040 one_live served.3 served.2
      (rw one_live_offset (omega arith))

kmalloc-ServesBig_example : ServesBig nothing_live 5000 empty (kmalloc 5000 empty)
kmalloc-ServesBig_example =
    kmalloc-ServesBig nothing_live 5000 empty empty-HeapIsValid (omega arith) (omega arith)
