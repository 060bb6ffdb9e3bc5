-- ===== src/Heap/Grow.antt =====
-- A heap that takes a page for a new slab.
use experiment.Base.{
  ℕ, zero, suc, ◌+◌, ◌*◌, ◌^◌, ◌<◌, ◌≡◌, ◌≢◌, refl, sym, subst, true, false, none, some, List, [],
  ◌∷◌, arith, ◌==◌, Bool-cases, inl, inr, ==_iff,
}
use experiment.Heap.{
  non_null, SlabHeader, Heap, capacity, new_header, set_header, get_cache_size, get_cache_index,
  add_slab,
}
use experiment.Heap.Slab.{new_header-IsSlab}
use experiment.Pmm.{page_size, bitmap_test, Pmm}
use experiment.Pmm.Alloc.{FreeRun, Marked}
use experiment.Heap.Valid.{in_slabs, SlabOf, HeapIsValid, at_self}

-- A page that was free is no slab of the heap.
pub free_page-away :
    (live : ℕ → List ℕ) (h : Heap) (p : ℕ)
    → HeapIsValid live h
    → FreeRun h.pmm p 1
    → (i : ℕ) → in_slabs (p * page_size + h.hhdm_offset) (h.caches i) ≡ false
unfolding FreeRun
free_page-away live h p v free i =
    elim (Bool-cases (in_slabs (p * page_size + h.hhdm_offset) (h.caches i))) [
      | inr away ↦ away
      | inl there ↦
          let s = v.slabs i (p * page_size + h.hhdm_offset) there in
          let same : s.page ≡ p = omega (arith, s.at_page) in
          let is_free = free p (omega arith) (omega arith) in
          absurd
            (ground (arith, is_free, s.used, subst (λ q. bitmap_test q h.pmm ≡ true) same s.used))
    ]

pub non_null-none : non_null none ≡ none
unfolding non_null
non_null-none = refl

-- A page that was free is not page 0, so that its address is not null.
pub not_first :
    (live : ℕ → List ℕ) (h : Heap) (p : ℕ) → HeapIsValid live h → FreeRun h.pmm p 1 → p ≢ 0
unfolding FreeRun
not_first live h p v free e = ground (
  arith,
  free p (omega arith) (omega arith),
  subst (λ q. bitmap_test q h.pmm ≡ true) (sym e) v.first_used,
)

pub non_null-free :
    (live : ℕ → List ℕ) (h : Heap) (p : ℕ)
    → HeapIsValid live h
    → FreeRun h.pmm p 1
    → non_null (some (p * page_size)) ≡ some (p * page_size)
unfolding non_null
non_null-free live h zero v free = absurd (not_first live h zero v free refl)
non_null-free live h (suc p) v free = go (suc p * page_size) (omega arith)
  where
    go : (n : ℕ) → 0 < n → non_null (some n) ≡ some n
    go zero h = absurd (omega arith)
    go (suc n) h = refl

-- The heap with one page more, a new slab of class `i`.
abbrev pub grown : (i p : ℕ) → Pmm → SlabHeader → Heap → Heap
grown i p t hd h =
    let virt = p * page_size + h.hhdm_offset in
    add_slab i virt (set_header virt (new_header virt (get_cache_size i) hd) (record h { pmm = t }))

positive_size : (i : ℕ) → 0 < get_cache_size i
unfolding get_cache_size
positive_size i = omega (arith, positive-pow i)
  where
    positive-pow : (k : ℕ) → 0 < 2 ^ k
    positive-pow zero = omega arith
    positive-pow (suc k) = omega (arith, positive-pow k)

grown-SlabOf :
    (live : ℕ → List ℕ) (i p : ℕ) (t : Pmm) (hd : SlabHeader) (h : Heap)
    → live (p * page_size + h.hhdm_offset) ≡ []
    → get_cache_index (get_cache_size i) ≡ some i
    → Marked h.pmm p 1 t
    → p ≢ 0
    → SlabOf i
        (p * page_size + h.hhdm_offset)
        (live (p * page_size + h.hhdm_offset))
        (grown i p t hd h)
unfolding new_header
grown-SlabOf live i p t hd h none_live own m some_page =
    let virt = p * page_size + h.hhdm_offset in
    record {
      is_slab =
          rw (at_self virt, none_live)
            (new_header-IsSlab virt (get_cache_size i) hd (positive_size i));
      size = rw (at_self virt) refl;
      own = own;
      page = p;
      not_first = some_page;
      at_page = refl;
      used = ground (arith, m.bits p);
    }

pub grown-HeapIsValid :
    (live : ℕ → List ℕ) (i p : ℕ) (t : Pmm) (hd : SlabHeader) (h : Heap)
    → HeapIsValid live h
    → get_cache_index (get_cache_size i) ≡ some i
    → FreeRun h.pmm p 1
    → Marked h.pmm p 1 t
    → HeapIsValid live (grown i p t hd h)
unfolding in_slabs
grown-HeapIsValid live i p t hd h v own free m =
    let virt = p * page_size + h.hhdm_offset in
    let away = free_page-away live h p v free in
    record {
      bytes = m.bytes;
      first_used = ground (arith, m.bits 0, v.first_used);
      slabs = λ j b e. elim (Bool-cases (b == virt)) [
        | inl at ↦
            let q : b ≡ virt = (==_iff b virt).0 at in
            let k : j ≡ i = ground (arith, e, away j, at) in
            subst (λ x. SlabOf x b (live b) (grown i p t hd h)) (sym k)
              (subst (λ x. SlabOf i x (live x) (grown i p t hd h)) (sym q)
                (grown-SlabOf live i p t hd h (v.unused virt away) own m
                  (not_first live h p v free)))
        | inr other ↦
            let old = v.slabs j b (ground (arith, e)) in
            record {
              is_slab = rw other old.is_slab;
              size = rw other old.size;
              own = old.own;
              page = old.page;
              not_first = old.not_first;
              at_page = old.at_page;
              used = ground (arith, m.bits old.page, old.used);
            }
      ];
      unused = λ b gone. v.unused b (λ k. ground (arith, gone k));
    }

in_slabs-head : (a : ℕ) (xs : List ℕ) → in_slabs a (a ∷ xs) ≡ true
unfolding in_slabs
in_slabs-head a xs = ground arith

-- The new slab of the heap has a free slot.
pub grown_room :
    (i p : ℕ) (t : Pmm) (hd : SlabHeader) (h : Heap)
    → 0 < capacity (get_cache_size i)
    → 0 < ((grown i p t hd h).headers (p * page_size + h.hhdm_offset)).free_count
unfolding new_header
grown_room i p t hd h room = rw (at_self (p * page_size + h.hhdm_offset)) room

pub grown_listed :
    (i p : ℕ) (t : Pmm) (hd : SlabHeader) (h : Heap)
    → in_slabs (p * page_size + h.hhdm_offset) ((grown i p t hd h).caches i) ≡ true
grown_listed i p t hd h =
    rw (at_self i) (in_slabs-head (p * page_size + h.hhdm_offset) (h.caches i))
