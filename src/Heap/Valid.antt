-- ===== src/Heap/Valid.antt =====
-- The heap in order: every slab with its slots free or live.
use experiment.Base.{
  ℕ, ◌+◌, ◌*◌, ◌≡◌, ◌≢◌, sym, subst, ◌∙◌, Bool, true, false, ◌||◌, some, List, [], ◌∷◌, arith, ◌==◌,
  Bool-cases, inl, inr, if◌then◌else◌, ==_iff,
}
use experiment.Heap.{SlabHeader, Heap, set_header, get_cache_size, get_cache_index}
use experiment.Heap.Slab.{IsSlab}
use experiment.Pmm.{page_size, bitmap_test}
use experiment.Pmm.Bits.{Bytes}

unfoldable pub in_slabs : ℕ → List ℕ → Bool
in_slabs a [] = false
in_slabs a (x ∷ xs) = (a == x) || in_slabs a xs

-- A slab of class `index` at `virt`: a used page with its slots free or live.
pub record SlabOf (index virt : ℕ) (live : List ℕ) (h : Heap) : Type 0 where
  pub is_slab : IsSlab virt live (h.headers virt)
  pub size : (h.headers virt).obj_size ≡ get_cache_size index
  pub own : get_cache_index (get_cache_size index) ≡ some index
  pub page : ℕ
  pub at_page : virt ≡ page * page_size + h.hhdm_offset
  pub used : bitmap_test page h.pmm ≡ true
  pub not_first : page ≢ 0

-- The heap with the live slots `live` on each page. Page 0 is never handed out: pmm_init marks it.
pub record HeapIsValid (live : ℕ → List ℕ) (h : Heap) : Type 0 where
  pub bytes : Bytes h.pmm
  pub first_used : bitmap_test 0 h.pmm ≡ true
  pub slabs : (i a : ℕ) → in_slabs a (h.caches i) ≡ true → SlabOf i a (live a) h
  pub unused : (a : ℕ) → ((i : ℕ) → in_slabs a (h.caches i) ≡ false) → live a ≡ []

abbrev pub with_slot : (virt a : ℕ) → (ℕ → List ℕ) → (ℕ → List ℕ)
with_slot virt a live = λ p. if p == virt then a ∷ live p else live p

pub at_self : (i : ℕ) → (i == i) ≡ true
at_self i = ground arith

-- A new header for a slab of the heap, with the slots `slots` live.
pub set_header-HeapIsValid :
    (live : ℕ → List ℕ) (virt i a : ℕ) (hd : SlabHeader) (h : Heap)
    → HeapIsValid live h
    → in_slabs virt (h.caches i) ≡ true
    → IsSlab virt (a ∷ live virt) hd
    → hd.obj_size ≡ (h.headers virt).obj_size
    → HeapIsValid (with_slot virt a live) (set_header virt hd h)
set_header-HeapIsValid live virt i a hd h v here slab same = record {
  bytes = v.bytes;
  first_used = v.first_used;
  slabs = λ j b e. elim (Bool-cases (b == virt)) [
    | inl at ↦
        let p : b ≡ virt = (==_iff b virt).0 at in
        let old = v.slabs j virt (subst (λ x. in_slabs x (h.caches j) ≡ true) p e) in
        subst (λ x. SlabOf j x (with_slot virt a live x) (set_header virt hd h)) (sym p)
          (record {
            is_slab = rw (at_self virt) slab;
            size = rw (at_self virt) (same ∙ old.size);
            own = old.own;
            page = old.page;
            not_first = old.not_first;
            at_page = old.at_page;
            used = old.used;
          })
    | inr other ↦
        let old = v.slabs j b e in
        record {
          is_slab = rw other old.is_slab;
          size = rw other old.size;
          own = old.own;
          page = old.page;
          not_first = old.not_first;
          at_page = old.at_page;
          used = old.used;
        }
  ];
  unused = λ b away. elim (Bool-cases (b == virt)) [
    | inl at ↦ let p : b ≡ virt = (==_iff b virt).0 at in absurd (cc (here, away i, p))
    | inr other ↦ rw other (v.unused b away)
  ];
}
