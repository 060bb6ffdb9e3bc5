-- ===== src/Pmm/Tests.antt =====
-- Runs of pmm.c on a small bitmap, and its theorems there.
use experiment.Base.{
  ◌+◌, ◌*◌, ◌≤◌, ◌≡◌, ◌≢◌, refl, ◌⊎◌, true, none, some, List, [], ◌∷◌, arith, ◌==◌, if◌then◌else◌,
  All,
}
use experiment.Pmm.{
  usable, Pmm, find_highest, page_size, bitmap_set, bitmap_test, byte_set, byte_test, alloc_page,
  alloc_pages, free_pages, MemmapEntry, init, add64,
}
use experiment.Pmm.Bits.{Bytes}
use experiment.Pmm.Alloc.{FirstFit, alloc_pages-FirstFit}
use experiment.Pmm.Free.{SameMarks, free_pages-alloc_pages, alloc_pages_disjoint}
use experiment.Pmm.Init.{Initialised, UsableAreAligned, has_room, bitmap_bytes, init-Initialised}

-- Sixteen pages, of which 0 and 2 are used.
abbrev demo : Pmm
demo = record {
  bitmap = λ i. if i == 0 then 5 else 0;
  bitmap_addr = 0x1000;
  bitmap_size = 3;
  highest_page = 16;
  highest_addr = 0x10000;
  hhdm_offset = 0;
}

demo-Bytes : Bytes demo
demo-Bytes = record { byte = λ i. ground arith }

abbrev demo2 : Pmm
demo2 = (alloc_pages 2 demo).1

alloc_two : alloc_pages 2 demo ≡ (some (3 * page_size), demo2)
unfolding alloc_pages bitmap_test byte_test
alloc_two = refl

alloc_next : alloc_pages 3 demo2 ≡ (some (5 * page_size), (alloc_pages 3 demo2).1)
unfolding alloc_pages bitmap_test byte_test bitmap_set byte_set
alloc_next = refl

alloc_page_runs : (alloc_page demo).0 ≡ some page_size
unfolding alloc_page bitmap_test byte_test
alloc_page_runs = refl

alloc_too_many : (alloc_pages 14 demo).0 ≡ none
unfolding alloc_pages bitmap_test byte_test
alloc_too_many = refl

abbrev memory_map : List MemmapEntry
memory_map =
    record { base = 0; size = 0x3000; kind = 0 }
    ∷ record { base = 0x3000; size = 0x1000; kind = 1 }
    ∷ record { base = 0x4000; size = 0x4000; kind = 0 }
    ∷ record { base = 0x9fc00; size = 0x400; kind = 1 }
    ∷ []

memory_map-UsableAreAligned : UsableAreAligned memory_map
memory_map-UsableAreAligned =
    (λ u. omega arith, (λ u. absurd (cc u), (λ u. omega arith, (λ u. absurd (cc u), tt))))

alloc_pages-FirstFit_example : FirstFit demo 2 (alloc_pages 2 demo)
alloc_pages-FirstFit_example = alloc_pages-FirstFit 2 demo-Bytes (omega arith)

free_pages-alloc_pages_example : SameMarks demo (free_pages (3 * page_size) 2 demo2)
free_pages-alloc_pages_example =
    free_pages-alloc_pages 2 (3 * page_size) demo-Bytes (omega arith) alloc_two

memory_map-has_room : has_room memory_map (bitmap_bytes memory_map) ≡ true
unfolding find_highest
memory_map-has_room = refl

init-Initialised_example :
    (s : Pmm) × (init (λ i. 7) (some memory_map) 0x10000 ≡ some s) × Initialised memory_map s
init-Initialised_example =
    init-Initialised (λ i. 7) memory_map 0x10000 (λ i. omega arith) memory_map-UsableAreAligned
      memory_map-has_room mapped
  where
    mapped : All (λ e. usable e ≡ true → add64 e.base 0x10000 ≢ 0) memory_map
    mapped = (λ u. omega arith, (λ u. omega arith, (λ u. omega arith, (λ u. omega arith, tt))))

alloc_pages_disjoint_example :
    (3 * page_size + 2 * page_size ≤ 5 * page_size)
    ⊎ (5 * page_size + 3 * page_size ≤ 3 * page_size)
alloc_pages_disjoint_example =
    alloc_pages_disjoint 2 3 (3 * page_size) (5 * page_size) demo-Bytes (omega arith) (omega arith)
      alloc_two alloc_next
