-- ===== src/Pmm.antt =====
-- The physical page allocator of kernel/mem/pmm.c.
pub mod Bits
pub mod Alloc
pub mod Free
pub mod Fields
pub mod Init
mod Tests
use Prim.Native.Nat.{bit_and, bit_or}
use experiment.Base.{
  ℕ, zero, suc, ◌+◌, ◌-◌, ◌*◌, ◌/◌, ◌%◌, ◌^◌, Bool, true, false, ◌&&◌, not, Option, none, some,
  List, [], ◌∷◌, ltb, leb, ◌==◌, if◌then◌else◌,
}

abbrev pub page_size : ℕ
page_size = 4096

-- The file's static variables. `bitmap` is the memory behind the pointer: byte `i` of the bitmap,
-- also past its end; `bitmap_addr` is the pointer itself.
pub record Pmm : Type 0 where
  pub bitmap : ℕ → ℕ
  pub bitmap_addr : ℕ
  pub bitmap_size : ℕ
  pub highest_page : ℕ
  pub highest_addr : ℕ
  pub hhdm_offset : ℕ

-- The three bit operations on one byte, `bit` below 8; `~m` on a byte is `255 - m`.
pub byte_set : ℕ → ℕ → ℕ
byte_set b k = bit_or b (2 ^ k)

pub byte_unset : ℕ → ℕ → ℕ
byte_unset b k = bit_and b (255 - 2 ^ k)

unfoldable pub byte_test : ℕ → ℕ → Bool
byte_test b k = if bit_and b (2 ^ k) == 0 then false else true

abbrev write_byte : (ℕ → ℕ) → ℕ → ℕ → (ℕ → ℕ)
write_byte m i v j = if j == i then v else m j

pub bitmap_set : ℕ → Pmm → Pmm
bitmap_set bit s = record s {
  bitmap = write_byte s.bitmap (bit / 8) (byte_set (s.bitmap (bit / 8)) (bit % 8));
}

pub bitmap_unset : ℕ → Pmm → Pmm
bitmap_unset bit s = record s {
  bitmap = write_byte s.bitmap (bit / 8) (byte_unset (s.bitmap (bit / 8)) (bit % 8));
}

unfoldable pub bitmap_test : ℕ → Pmm → Bool
bitmap_test bit s = byte_test (s.bitmap (bit / 8)) (bit % 8)

-- for (i = ...; i < highest_page; i++) with `rounds` rounds left: the address, or null as `none`.
pub alloc_page_from : (rounds i : ℕ) → Pmm → Option ℕ × Pmm
alloc_page_from zero i s = (none, s)
alloc_page_from (suc rounds) i s =
    let later = alloc_page_from rounds (i + 1) s in
    if bitmap_test i s then later else (some (i * page_size), bitmap_set i s)

unfoldable pub alloc_page : Pmm → Option ℕ × Pmm
unfolding alloc_page_from
alloc_page s = alloc_page_from s.highest_page 0 s

pub free_page : (ptr : ℕ) → Pmm → Pmm
free_page ptr s = bitmap_unset (ptr / page_size) s

-- The inner loop that counts the free pages from page `i + j` on; it stops at the first that is
-- used or past the end.
pub count_free : (rounds i j : ℕ) → Pmm → ℕ
count_free zero i j s = 0
count_free (suc rounds) i j s =
    let more = count_free rounds i (j + 1) s in
    if ltb (i + j) s.highest_page && not (bitmap_test (i + j) s) then suc more else 0

-- for (j = 0; j < count; j++) bitmap_set(i + j), and the same with bitmap_unset
pub set_range : (count i : ℕ) → Pmm → Pmm
set_range zero i s = s
set_range (suc count) i s = set_range count (i + 1) (bitmap_set i s)

pub unset_range : (count i : ℕ) → Pmm → Pmm
unset_range zero i s = s
unset_range (suc count) i s = unset_range count (i + 1) (bitmap_unset i s)

-- The outer loop with its skip over the pages already counted. Each round moves `i` forward, so
-- `highest_page` rounds of fuel are enough.
pub alloc_pages_from : (fuel count i : ℕ) → Pmm → Option ℕ × Pmm
alloc_pages_from zero count i s = (none, s)
alloc_pages_from (suc fuel) count i s =
    let free_count = count_free count i 0 s in
    let next = alloc_pages_from fuel count (i + 1) s in
    let skip = alloc_pages_from fuel count (i + free_count + 1) s in
    if ltb i s.highest_page
    then (if bitmap_test i s
        then next
        else (if free_count == count then (some (i * page_size), set_range count i s) else skip))
    else (none, s)

pub alloc_pages : (count : ℕ) → Pmm → Option ℕ × Pmm
unfolding alloc_pages_from count_free set_range
alloc_pages count s = alloc_pages_from s.highest_page count 0 s

pub free_pages : (ptr count : ℕ) → Pmm → Pmm
unfolding unset_range
free_pages ptr count s = unset_range count (ptr / page_size) s

-- `struct limine_memmap_entry`; `kind` 0 is LIMINE_MEMMAP_USABLE.
pub record MemmapEntry : Type 0 where
  pub base : ℕ
  pub size : ℕ
  pub kind : ℕ

abbrev pub usable : MemmapEntry → Bool
usable e = e.kind == 0

-- uint64_t addition
abbrev pub add64 : ℕ → ℕ → ℕ
add64 a b = (a + b) % 2 ^ 64

pub find_highest : List MemmapEntry → (highest_addr : ℕ) → ℕ
find_highest [] h = h
find_highest (e ∷ es) h =
    find_highest es (if usable e && ltb h (add64 e.base e.size) then add64 e.base e.size else h)

-- The first usable entry that is large enough takes the bitmap.
pub find_place : List MemmapEntry → (bitmap_size hhdm_offset : ℕ) → ℕ
find_place [] n off = 0
find_place (e ∷ es) n off =
    let rest = find_place es n off in if usable e && leb n e.size then add64 e.base off else rest

-- for (j = 0; j < length; j += PAGE_SIZE): with j below a length of `fuel` at most, the fuel
-- does not run out.
pub unset_entry : (fuel base size j : ℕ) → Pmm → Pmm
unset_entry zero base size j s = s
unset_entry (suc fuel) base size j s =
    let rest =
      unset_entry fuel base size (add64 j page_size) (bitmap_unset (add64 base j / page_size) s) in
    if ltb j size then rest else s

pub unset_usable : List MemmapEntry → Pmm → Pmm
unfolding unset_entry
unset_usable [] s = s
unset_usable (e ∷ es) s =
    unset_usable es (if usable e then unset_entry e.size e.base e.size 0 s else s)

-- `none` is the halt after an error message. `memory` is what the bytes hold at each address
-- before; the memset reaches the first `bitmap_size` of them.
pub init : (memory : ℕ → ℕ) → Option (List MemmapEntry) → (hhdm_offset : ℕ) → Option Pmm
unfolding find_highest find_place unset_usable set_range bitmap_set
init memory none off = none
init memory (some es) off =
    let highest = find_highest es 0 in
    let size = highest / page_size / 8 + 1 in
    let addr = find_place es size off in
    let filled : Pmm = record {
      bitmap = λ i. if ltb i size then 255 else memory (addr + i);
      bitmap_addr = addr;
      bitmap_size = size;
      highest_page = highest / page_size;
      highest_addr = highest;
      hhdm_offset = off;
    } in
    let start = (addr + 2 ^ 64 - off) % 2 ^ 64 / page_size in
    let pages = (size + page_size - 1) / page_size in
    if addr == 0 then none else some (bitmap_set 0 (set_range pages start (unset_usable es filled)))

pub get_highest_addr : Pmm → ℕ
get_highest_addr s = s.highest_addr
