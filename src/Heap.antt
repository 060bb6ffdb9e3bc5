-- ===== src/Heap.antt =====
-- The kernel heap of kernel/mem/heap.c, with KASAN off, over the page allocator. A page that the heap took
-- begins with a header, which stays there after the page was given back; the chain of free slots
-- through the slots themselves is a list.
pub mod Classes
pub mod Slots
pub mod Slab
pub mod Valid
pub mod Grow
pub mod Serve
pub mod Big
pub mod Release
mod Tests
use experiment.Base.{
  ℕ, zero, suc, ◌+◌, ◌-◌, ◌*◌, ◌/◌, ◌%◌, ◌^◌, Bool, true, false, ◌&&◌, not, Option, none, some,
  List, [], ◌∷◌, ltb, leb, ◌==◌, if◌then◌else◌,
}
use experiment.Pmm.{Pmm, page_size, alloc_page, alloc_pages, free_pages}
use experiment.Mem.{Memory, memcpy, memset}

-- sizeof(slab_header_t)
abbrev pub header_size : ℕ
header_size = 64

-- slab_header_t less its list node; `magic` says whether the field holds HEAP_MAGIC.
pub record SlabHeader : Type 0 where
  pub magic : Bool
  pub is_slab : Bool
  pub obj_size : ℕ
  pub free_count : ℕ
  pub free_list : List ℕ
  pub page_count : ℕ

-- `caches` has for each size class the addresses of its slabs, `headers` what stands at the start of
-- each page, by its virtual address.
pub record Heap : Type 0 where
  pub hhdm_offset : ℕ
  pub caches : ℕ → List ℕ
  pub headers : ℕ → SlabHeader
  pub pmm : Pmm

pub get_cache_index : (size : ℕ) → Option ℕ
get_cache_index size =
    if leb size 32
    then some 0
    else if leb size 64
    then some 1
    else if leb size 128
    then some 2
    else if leb size 256
    then some 3
    else if leb size 512
    then some 4
    else if leb size 1024
    then some 5
    else if leb size 2048
    then some 6
    else none

-- 32 << index
pub get_cache_size : (index : ℕ) → ℕ
get_cache_size index = 32 * 2 ^ index

pub init : (hhdm_offset : ℕ) → Heap → Heap
init off h = record h { hhdm_offset = off; caches = λ i. [] }

abbrev pub set_header : ℕ → SlabHeader → Heap → Heap
set_header virt hd h = record h { headers = λ a. if a == virt then hd else h.headers a }

-- The test of a physical address for null: page 0 is at address 0, so that it counts as none.
unfoldable pub non_null : Option ℕ → Option ℕ
non_null none = none
non_null (some zero) = none
non_null (some (suc phys)) = some (suc phys)

-- alloc_big; size_t wraps.
pub alloc_big : (size : ℕ) → Heap → Option ℕ × Heap
alloc_big size h =
    let total_size = (size + header_size) % 2 ^ 64 in
    let pages = (total_size + (page_size - 1)) % 2 ^ 64 / page_size in
    let r = alloc_pages pages h.pmm in
    elim (non_null r.0) [
      | none ↦ (none, record h { pmm = r.1 })
      | some phys ↦
          let virt = phys + h.hhdm_offset in
          (
            some (virt + header_size),
            set_header virt
                (record (h.headers virt) {
                  magic = true;
                  is_slab = false;
                  page_count = pages;
                  obj_size = size;
                })
                (record h { pmm = r.1 }),
          )
    ]

-- The first slab of a list with a free slot.
pub find_slab : (ℕ → SlabHeader) → List ℕ → Option ℕ
find_slab headers [] = none
find_slab headers (a ∷ slabs) =
    if ltb 0 (headers a).free_count then some a else find_slab headers slabs

-- The chain that is laid through a new slab: `count` slots from `base` on.
pub objects : (count base obj_size : ℕ) → List ℕ
objects zero base obj_size = []
objects (suc count) base obj_size = base ∷ objects count (base + obj_size) obj_size

-- How many slots of a size a page has.
pub capacity : (obj_size : ℕ) → ℕ
capacity obj_size = (page_size - header_size) / obj_size

pub new_header : (virt obj_size : ℕ) → SlabHeader → SlabHeader
unfolding objects capacity
new_header virt obj_size hd = record hd {
  magic = true;
  is_slab = true;
  obj_size = obj_size;
  free_count = capacity obj_size;
  free_list = objects (capacity obj_size) (virt + header_size) obj_size;
}

abbrev pub add_slab : (index virt : ℕ) → Heap → Heap
add_slab index virt h = record h {
  caches = λ i. if i == index then virt ∷ h.caches i else h.caches i;
}

-- A new slab for a class: its address.
pub make_slab : (index : ℕ) → Heap → Option ℕ × Heap
unfolding new_header get_cache_size
make_slab index h =
    let r = alloc_page h.pmm in
    elim (non_null r.0) [
      | none ↦ (none, record h { pmm = r.1 })
      | some phys ↦
          let virt = phys + h.hhdm_offset in
          (
            some virt,
            add_slab index virt (
                set_header virt (new_header virt (get_cache_size index) (h.headers virt))
                  (record h { pmm = r.1 })),
          )
    ]

-- slot = free_list; free_list = *slot; free_count--. An empty list is a null slot, whose load faults:
-- `none`.
pub pop_slot : SlabHeader → Option (ℕ × SlabHeader)
pop_slot hd = elim hd.free_list [
  | [] ↦ none
  | slot ∷ rest ↦ some (slot, record hd { free_list = rest; free_count = hd.free_count - 1 })
]

pub take_slot : (virt : ℕ) → Heap → Option ℕ × Heap
unfolding pop_slot
take_slot virt h = elim (pop_slot (h.headers virt)) [
  | none ↦ (none, h)
  | some r ↦ (some r.0, set_header virt r.1 h)
]

abbrev pub take_from : Option ℕ × Heap → Option ℕ × Heap
take_from (none, h) = (none, h)
take_from (some virt, h) = take_slot virt h

pub alloc_slab : (index : ℕ) → Heap → Option ℕ × Heap
unfolding find_slab make_slab take_slot
alloc_slab index h = elim (find_slab h.headers (h.caches index)) [
  | some virt ↦ take_slot virt h
  | none ↦ take_from (make_slab index h)
]

pub kmalloc : (size : ℕ) → Heap → Option ℕ × Heap
unfolding get_cache_index alloc_slab alloc_big
kmalloc size h =
    if size == 0
    then (none, h)
    else elim (get_cache_index size) [ some index ↦ alloc_slab index h | none ↦ alloc_big size h ]

pub kzalloc : (size : ℕ) → Heap → Memory → Option ℕ × Heap × Memory
unfolding kmalloc
kzalloc size h m =
    let r = kmalloc size h in
    elim r.0 [ none ↦ (none, r.1, m) | some ptr ↦ (some ptr, r.1, memset ptr 0 size m) ]

-- *slot = free_list; free_list = slot; free_count++
pub push_slot : (slot : ℕ) → SlabHeader → SlabHeader
push_slot slot hd = record hd { free_list = slot ∷ hd.free_list; free_count = hd.free_count + 1 }

pub drop_slab : (virt : ℕ) → List ℕ → List ℕ
drop_slab virt [] = []
drop_slab virt (a ∷ slabs) = let rest = drop_slab virt slabs in if a == virt then rest else a ∷ rest

-- The pages of a block go back to the page allocator.
abbrev pub give_back : (virt count : ℕ) → Heap → Heap
give_back virt count h = record h { pmm = free_pages (virt - h.hhdm_offset) count h.pmm }

-- The end of freeing a slot: a slab with every slot free leaves its class, and its page is freed.
pub release_if_free : (virt : ℕ) → Heap → Heap
unfolding capacity get_cache_index drop_slab
release_if_free virt h =
    let hd = h.headers virt in
    if hd.free_count == capacity hd.obj_size
    then elim (get_cache_index hd.obj_size) [
      | none ↦ h
      | some index ↦ give_back virt 1 (record h {
        caches = λ i. if i == index then drop_slab virt (h.caches i) else h.caches i;
      })
    ]
    else h

-- kfree; null is 0.
pub kfree : (ptr : ℕ) → Heap → Heap
unfolding push_slot release_if_free
kfree ptr h =
    let virt = ptr / page_size * page_size in
    let hd = h.headers virt in
    if ptr == 0
    then h
    else if not hd.magic
    then h
    else if hd.is_slab
    then release_if_free virt (set_header virt (push_slot ptr hd) h)
    else give_back virt hd.page_count h

-- krealloc: a grown block is moved with its old size.
pub krealloc : (ptr new_size : ℕ) → Heap → Memory → Option ℕ × Heap × Memory
unfolding kmalloc kfree
krealloc ptr new_size h m =
    let hd = h.headers (ptr / page_size * page_size) in
    let r = kmalloc new_size h in
    let moved : Option ℕ × Heap × Memory = elim r.0 [
      | none ↦ (none, r.1, m)
      | some new_ptr ↦ (some new_ptr, kfree ptr r.1, memcpy new_ptr ptr hd.obj_size m)
    ] in
    if ptr == 0
    then (r.0, r.1, m)
    else if new_size == 0
    then (none, kfree ptr h, m)
    else if not hd.magic
    then (none, h, m)
    else if leb new_size hd.obj_size
    then (some ptr, h, m)
    else moved
