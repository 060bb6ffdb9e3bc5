-- ===== src/Pmm/Init.antt =====
-- What pmm_init leaves marked, for a memory map as the boot protocol documents it.
use experiment.Base.{
  ℕ, zero, suc, ◌+◌, ◌-◌, ◌*◌, ◌/◌, ◌%◌, ◌^◌, ◌≤◌, ◌<◌, ◌≡◌, ◌≢◌, refl, Bool, true, false, ◌&&◌,
  ◌||◌, not, inl, inr, some, List, [], ◌∷◌, arith, ◌==◌, ltb, leb, Bool-cases, All, if◌then◌else◌,
  holds_under, holds_under_lem, lt→ltb,
}
use experiment.Pmm.{
  Pmm, page_size, bitmap_test, bitmap_set, MemmapEntry, usable, add64, find_highest, find_place,
  unset_entry, unset_usable, set_range, init, byte_test,
}
use experiment.Pmm.Bits.{
  Bytes, in_range, bitmap_test-unset, bitmap_unset-Bytes, set_range-Bytes, bitmap_test-set_range,
  bitmap_test-set, bitmap_set-Bytes,
}
use experiment.Pmm.Fields.{
  SameFields, SameFields-trans, bitmap_set-SameFields, set_range-SameFields,
  unset_usable-SameFields,
}

-- An entry that begins and ends on a page boundary and lies below 2^64.
pub record IsAligned (e : MemmapEntry) : Type 0 where
  pub base_page : e.base % page_size ≡ 0
  pub size_page : e.size % page_size ≡ 0
  pub fits : e.base + e.size < 2 ^ 64

-- Every usable entry is; the others may lie anywhere.
abbrev pub UsableAreAligned : List MemmapEntry → Type 0
UsableAreAligned = All (λ e. usable e ≡ true → IsAligned e)

-- Page `k` lies in a usable entry.
abbrev pub covered : List MemmapEntry → ℕ → Bool
covered [] k = false
covered (e ∷ es) k =
    (usable e && in_range (e.base / page_size) (e.size / page_size) k) || covered es k

unset_entry-Bytes :
    (fuel base size j : ℕ) {s : Pmm} → Bytes s → Bytes (unset_entry fuel base size j s)
unfolding unset_entry
unset_entry-Bytes zero base size j b = b
unset_entry-Bytes (suc fuel) base size j b = elim (Bool-cases (ltb j size)) [
  | inl more ↦ rw more (unset_entry-Bytes fuel base size _ (bitmap_unset-Bytes _ b))
  | inr done ↦ rw done b
]

bitmap_test-unset_entry :
    (fuel base size j k : ℕ) {s : Pmm}
    → Bytes s
    → base % page_size ≡ 0
    → size % page_size ≡ 0
    → j % page_size ≡ 0
    → base + size < 2 ^ 64
    → size ≤ j + fuel
    → bitmap_test k (unset_entry fuel base size j s)
      ≡ (not (in_range ((base + j) / page_size) ((size - j) / page_size) k) && bitmap_test k s)
unfolding unset_entry
bitmap_test-unset_entry zero base size j k b hb hs hj fits enough = ground arith
bitmap_test-unset_entry (suc fuel) base size j k {s} b hb hs hj fits enough =
    elim (Bool-cases (ltb j size)) [
      | inl more ↦ rw more (
          ground (
            arith,
            bitmap_test-unset_entry fuel base size (add64 j page_size) k
                (bitmap_unset-Bytes (add64 base j / page_size) b),
            bitmap_test-unset (add64 base j / page_size) k b,
          ))
      | inr done ↦ rw done (ground arith)
    ]

unset_usable-Bytes : (es : List MemmapEntry) {s : Pmm} → Bytes s → Bytes (unset_usable es s)
unfolding unset_usable
unset_usable-Bytes [] b = b
unset_usable-Bytes (e ∷ es) b = elim (Bool-cases (usable e)) [
  | inl use_it ↦ rw use_it (unset_usable-Bytes es (unset_entry-Bytes e.size e.base e.size 0 b))
  | inr skip ↦ rw skip (unset_usable-Bytes es b)
]

bitmap_test-unset_usable :
    (es : List MemmapEntry) (k : ℕ) {s : Pmm}
    → Bytes s
    → UsableAreAligned es
    → bitmap_test k (unset_usable es s) ≡ (not (covered es k) && bitmap_test k s)
unfolding unset_usable
bitmap_test-unset_usable [] k b a = refl
bitmap_test-unset_usable (e ∷ es) k {s} b a = elim (Bool-cases (usable e)) [
  | inl use_it ↦ ground (
    arith,
    bitmap_test-unset_usable es k (unset_entry-Bytes e.size e.base e.size 0 b) a.1,
    bitmap_test-unset_entry e.size e.base e.size 0 k b,
    a.0 use_it,
  )
  | inr skip ↦ ground (arith, bitmap_test-unset_usable es k b a.1)
]

-- The highest address is at or above the start value and the end of every usable entry.
le-find_highest : (es : List MemmapEntry) (h : ℕ) → h ≤ find_highest es h
unfolding find_highest
le-find_highest [] h = omega arith
le-find_highest (e ∷ es) h =
    ground (arith, le-find_highest es h, le-find_highest es (add64 e.base e.size))

covered-lt :
    (es : List MemmapEntry) (h k : ℕ)
    → UsableAreAligned es
    → covered es k ≡ true
    → k < find_highest es h / page_size
unfolding find_highest
covered-lt [] h k a c = cc
covered-lt (e ∷ es) h k a c = elim (Bool-cases (usable e)) [
  | inl use_it ↦ ground (
    arith,
    a.0 use_it,
    le-find_highest es h,
    le-find_highest es (add64 e.base e.size),
    covered-lt es h k a.1,
    covered-lt es (add64 e.base e.size) k a.1,
  )
  | inr skip ↦ ground (arith, skip, covered-lt es h k a.1, c)
]

ones_table : holds_under (λ j. byte_test 255 j) 8 ≡ true
unfolding holds_under byte_test
ones_table = refl

-- The state before the usable regions are unset: every bit of the bitmap is set.
abbrev filled : (ℕ → ℕ) → List MemmapEntry → ℕ → Pmm
filled memory es off =
    let highest = find_highest es 0 in
    let size = highest / page_size / 8 + 1 in
    let addr = find_place es size off in
    record {
      bitmap = λ i. if ltb i size then 255 else memory (addr + i);
      bitmap_addr = addr;
      bitmap_size = size;
      highest_page = highest / page_size;
      highest_addr = highest;
      hhdm_offset = off;
    }

filled-Bytes :
    (memory : ℕ → ℕ) (es : List MemmapEntry) (off : ℕ)
    → ((i : ℕ) → memory i < 256)
    → Bytes (filled memory es off)
filled-Bytes memory es off small = record {
  byte = λ i. ground (arith, small (find_place es (find_highest es 0 / page_size / 8 + 1) off + i));
}

bitmap_test-filled :
    (memory : ℕ → ℕ) (es : List MemmapEntry) (off k : ℕ)
    → k < 8 * (find_highest es 0 / page_size / 8 + 1)
    → bitmap_test k (filled memory es off) ≡ true
unfolding bitmap_test
bitmap_test-filled memory es off k h =
    rw (lt→ltb (k / 8) (find_highest es 0 / page_size / 8 + 1) (omega arith))
      (holds_under_lem _ (k % 8) (omega arith) ones_table)

-- The pages that hold the bitmap.
abbrev pub start_page : Pmm → ℕ
start_page s = (s.bitmap_addr + 2 ^ 64 - s.hhdm_offset) % 2 ^ 64 / page_size

abbrev pub bitmap_pages : Pmm → ℕ
bitmap_pages s = (s.bitmap_size + page_size - 1) / page_size

-- A page that the bitmap counts is marked unless it lies in a usable entry, outside the bitmap,
-- and is not page 0; and every page of a usable entry is counted.
pub record Initialised (es : List MemmapEntry) (s : Pmm) : Type 0 where
  pub bytes : Bytes s
  pub marks :
      (k : ℕ)
      → k < 8 * s.bitmap_size
      → bitmap_test k s
        ≡ ((0 == k) || in_range (start_page s) (bitmap_pages s) k || not (covered es k))
  pub counted : (k : ℕ) → covered es k ≡ true → k < s.highest_page
  pub in_bitmap : s.highest_page < 8 * s.bitmap_size

initialised :
    (es : List MemmapEntry) (f : Pmm)
    → Bytes f
    → UsableAreAligned es
    → ((k : ℕ) → k < 8 * f.bitmap_size → bitmap_test k f ≡ true)
    → f.highest_page ≡ find_highest es 0 / page_size
    → f.bitmap_size ≡ f.highest_page / 8 + 1
    → Initialised es (bitmap_set 0 (set_range (bitmap_pages f) (start_page f) (unset_usable es f)))
initialised es f b a full pages size =
    let b1 = unset_usable-Bytes es b in
    let b2 = set_range-Bytes (bitmap_pages f) (start_page f) b1 in
    let same : SameFields f
        (bitmap_set 0 (set_range (bitmap_pages f) (start_page f) (unset_usable es f))) =
      SameFields-trans
        (SameFields-trans (unset_usable-SameFields es f)
          (set_range-SameFields (bitmap_pages f) (start_page f) (unset_usable es f)))
        (bitmap_set-SameFields 0 _) in
    record {
      bytes = bitmap_set-Bytes 0 b2;
      marks = λ k h.
          rw (same.size, same.addr, same.offset)
            (ground (
              arith,
              full k (omega arith),
              bitmap_test-set 0 k b2,
              bitmap_test-set_range (bitmap_pages f) (start_page f) k b1,
              bitmap_test-unset_usable es k b a,
            ));
      counted = λ k c. omega (arith, covered-lt es 0 k a c);
      in_bitmap = omega arith;
    }

-- Some usable entry is large enough for a bitmap of `n` bytes.
abbrev pub has_room : List MemmapEntry → ℕ → Bool
has_room [] n = false
has_room (e ∷ es) n = (usable e && leb n e.size) || has_room es n

-- The bytes that the bitmap of a memory map takes.
abbrev pub bitmap_bytes : List MemmapEntry → ℕ
bitmap_bytes es = find_highest es 0 / page_size / 8 + 1

find_place-ne_zero :
    (es : List MemmapEntry) (n off : ℕ)
    → has_room es n ≡ true
    → All (λ e. usable e ≡ true → add64 e.base off ≢ 0) es
    → (find_place es n off == 0) ≡ false
unfolding find_place
find_place-ne_zero [] n off r mapped = cc
find_place-ne_zero (e ∷ es) n off r mapped = elim (Bool-cases (usable e)) [
  | inl use_it ↦ ground (
    arith,
    mapped.0 use_it,
    λ (room : has_room es n ≡ true). find_place-ne_zero es n off room mapped.1,
  )
  | inr skip ↦ ground (arith, skip, find_place-ne_zero es n off (ground (arith, skip, r)) mapped.1)
]

-- With a memory map whose usable entries are page aligned and below 2^64, one of which has room
-- for the bitmap, and none of which is mapped at address 0 - the entries that are not usable may be
-- any -, pmm_init does not halt, and it leaves the
-- allocator initialised: the free pages are exactly those of the usable entries less page 0 and
-- the bitmap's own pages, and all of them are in reach of the search and inside the bitmap.
pub init-Initialised :
    (memory : ℕ → ℕ) (es : List MemmapEntry) (off : ℕ)
    → ((i : ℕ) → memory i < 256)
    → UsableAreAligned es
    → has_room es (bitmap_bytes es) ≡ true
    → All (λ e. usable e ≡ true → add64 e.base off ≢ 0) es
    → (s : Pmm) × (init memory (some es) off ≡ some s) × Initialised es s
unfolding init
init-Initialised memory es off small a room mapped =
    let f = filled memory es off in
    (
      bitmap_set 0 (set_range (bitmap_pages f) (start_page f) (unset_usable es f)),
      rw (find_place-ne_zero es (bitmap_bytes es) off room mapped),
      initialised es f (filled-Bytes memory es off small) a (bitmap_test-filled memory es off) refl
          refl,
    )
