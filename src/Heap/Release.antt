-- ===== src/Heap/Release.antt =====
-- kfree of a live slot: the slot is free again, and a slab without live slots gives its page back.
use experiment.Base.{
  ℕ, ◌-◌, ◌*◌, ◌/◌, ◌%◌, ◌≡◌, ◌≢◌, refl, ap, sym, subst, ◌∙◌, Bool, true, false, Option, some, List,
  [], ◌∷◌, arith, ◌==◌, Bool-cases, inl, inr, if◌then◌else◌, length, ==_iff, not, ◌&&◌,
}
use experiment.Heap.{
  Heap, capacity, push_slot, set_header, drop_slab, get_cache_size, get_cache_index, kfree,
  release_if_free, give_back,
}
use experiment.Heap.Slab.{IsSlab, push_slot-IsSlab, page_of_slot}
use experiment.Heap.Valid.{HeapIsValid, SlabOf, in_slabs, with_slot, at_self}
use experiment.Pmm.{page_size}
use experiment.Pmm.Free.{bitmap_test-free_pages, free_pages-Bytes}

-- The slot goes back into the chain.
pushed-HeapIsValid :
    (live : ℕ → List ℕ) (virt a : ℕ) (h : Heap)
    → HeapIsValid (with_slot virt a live) h
    → HeapIsValid live (set_header virt (push_slot a (h.headers virt)) h)
unfolding push_slot
pushed-HeapIsValid live virt a h v = record {
  bytes = v.bytes;
  first_used = v.first_used;
  slabs = λ j b e. elim (Bool-cases (b == virt)) [
    | inl at ↦
        let p : b ≡ virt = (==_iff b virt).0 at in
        let old = v.slabs j virt (subst (λ x. in_slabs x (h.caches j) ≡ true) p e) in
        let held : IsSlab virt (a ∷ live virt) (h.headers virt) =
          subst (λ t. IsSlab virt (if t then a ∷ live virt else live virt) (h.headers virt))
            (at_self virt) old.is_slab in
        subst (λ x. SlabOf j x (live x) (set_header virt (push_slot a (h.headers virt)) h)) (sym p)
          (record {
            is_slab = rw (at_self virt) (push_slot-IsSlab virt a (live virt) (h.headers virt) held);
            size = rw (at_self virt) old.size;
            own = old.own;
            page = old.page;
            not_first = old.not_first;
            at_page = old.at_page;
            used = old.used;
          })
    | inr other ↦
        let old = v.slabs j b e in
        record {
          is_slab = rw other (
              subst (λ t. IsSlab b (if t then a ∷ live b else live b) (h.headers b)) other
                old.is_slab);
          size = rw other old.size;
          own = old.own;
          page = old.page;
          not_first = old.not_first;
          at_page = old.at_page;
          used = old.used;
        }
  ];
  unused = λ b gone. let w = v.unused b gone in ground (arith, w);
}

in_slabs-drop_slab :
    (b virt : ℕ) (xs : List ℕ) → in_slabs b (drop_slab virt xs) ≡ (not (b == virt) && in_slabs b xs)
unfolding in_slabs drop_slab
in_slabs-drop_slab b virt [] = ground arith
in_slabs-drop_slab b virt (x ∷ xs) = ground (arith, in_slabs-drop_slab b virt xs)

-- A slab is in the list of one class only.
one_class :
    (live : ℕ → List ℕ) (i j virt : ℕ) (h : Heap)
    → SlabOf i virt (live virt) h
    → SlabOf j virt (live virt) h
    → i ≡ j
one_class live i j virt h s t =
    let same : get_cache_index (get_cache_size i) ≡ get_cache_index (get_cache_size j) =
      ap get_cache_index (sym s.size ∙ t.size) in
    some_injective (sym s.own ∙ same ∙ t.own)
  where
    some_injective : {x y : ℕ} → ◌≡◌ {A = Option ℕ} (some x) (some y) → x ≡ y
    some_injective e = cc

-- The heap without the slab at `virt` of class `i`.
abbrev without_slab : (i virt : ℕ) → Heap → Heap
without_slab i virt h =
    give_back virt 1
      (record h { caches = λ k. if k == i then drop_slab virt (h.caches k) else h.caches k })

-- What the other lists still have are the other slabs.
still_listed :
    (live : ℕ → List ℕ) (i j virt b : ℕ) (h : Heap)
    → HeapIsValid live h
    → in_slabs virt (h.caches i) ≡ true
    → in_slabs b ((without_slab i virt h).caches j) ≡ true
    → (in_slabs b (h.caches j) ≡ true) × (b ≢ virt)
still_listed live i j virt b h v here e = elim (Bool-cases (j == i)) [
  | inl same ↦ (
    ground (arith, e, in_slabs-drop_slab b virt (h.caches j)),
    λ p. ground (arith, e, in_slabs-drop_slab b virt (h.caches j)),
  )
  | inr ne ↦
      let there : in_slabs b (h.caches j) ≡ true = ground (arith, e) in
      (
        there,
        λ p.
            let k =
              one_class live i j virt h (v.slabs i virt here)
                (v.slabs j virt (subst (λ x. in_slabs x (h.caches j) ≡ true) p there)) in
            ground (arith, k),
      )
]

still_unlisted :
    (i virt b k : ℕ) (h : Heap)
    → b ≢ virt
    → in_slabs b ((without_slab i virt h).caches k) ≡ false
    → in_slabs b (h.caches k) ≡ false
still_unlisted i virt b k h ne e = ground (arith, in_slabs-drop_slab b virt (h.caches k))

without_slab-HeapIsValid :
    (live : ℕ → List ℕ) (i virt : ℕ) (h : Heap)
    → HeapIsValid live h
    → in_slabs virt (h.caches i) ≡ true
    → live virt ≡ []
    → HeapIsValid live (without_slab i virt h)
without_slab-HeapIsValid live i virt h v here empty =
    let s = v.slabs i virt here in
    record {
      bytes = free_pages-Bytes (virt - h.hhdm_offset) 1 v.bytes;
      first_used =
          let freed : (virt - h.hhdm_offset) / page_size ≡ s.page = omega (arith, s.at_page) in
          ground (
            arith,
            bitmap_test-free_pages (virt - h.hhdm_offset) 1 0 v.bytes,
            v.first_used,
            freed,
            s.not_first,
          );
      slabs = λ j b e.
          let l = still_listed live i j virt b h v here e in
          let old = v.slabs j b l.0 in
          record {
            is_slab = old.is_slab;
            size = old.size;
            own = old.own;
            page = old.page;
            not_first = old.not_first;
            at_page = old.at_page;
            used =
                let freed : (virt - h.hhdm_offset) / page_size ≡ s.page =
                  omega (arith, s.at_page) in
                let apart : old.page ≢ s.page =
                  λ same. l.1 (omega (arith, old.at_page, s.at_page, same)) in
                ground (
                  arith,
                  bitmap_test-free_pages (virt - h.hhdm_offset) 1 old.page v.bytes,
                  old.used,
                  freed,
                  apart,
                );
          };
      unused = λ b gone. elim (Bool-cases (b == virt)) [
        | inl at ↦ subst (λ x. live x ≡ []) (sym ((==_iff b virt).0 at)) empty
        | inr other ↦ v.unused b (λ k. still_unlisted i virt b k h (ground arith) (gone k))
      ];
    }

nil_of_length : (xs : List ℕ) → length xs ≡ 0 → xs ≡ []
nil_of_length [] e = refl
nil_of_length (x ∷ xs) e = absurd (omega arith)

release_if_free-HeapIsValid :
    (live : ℕ → List ℕ) (i virt : ℕ) (h : Heap)
    → HeapIsValid live h
    → in_slabs virt (h.caches i) ≡ true
    → HeapIsValid live (release_if_free virt h)
unfolding release_if_free
release_if_free-HeapIsValid live i virt h v here =
    let s = v.slabs i virt here in
    let class : get_cache_index (h.headers virt).obj_size ≡ some i =
      ap get_cache_index s.size ∙ s.own in
    elim (Bool-cases ((h.headers virt).free_count == capacity (h.headers virt).obj_size)) [
      | inr busy ↦ rw busy v
      | inl free ↦
          rw (free, class)
            (without_slab-HeapIsValid live i virt h v here
              (nil_of_length (live virt) (ground (arith, s.is_slab.total, s.is_slab.counted))))
    ]

marked_slab :
    (null magic slab : Bool) (h good big : Heap)
    → null ≡ false
    → magic ≡ true
    → slab ≡ true
    → (if null then h else if not magic then h else if slab then good else big) ≡ good
marked_slab null magic slab h good big n m s = rw (n, m, s) refl

kfree-slab :
    (virt a : ℕ) (h : Heap)
    → (a == 0) ≡ false
    → a / page_size * page_size ≡ virt
    → (h.headers virt).magic ≡ true
    → (h.headers virt).is_slab ≡ true
    → kfree a h ≡ release_if_free virt (set_header virt (push_slot a (h.headers virt)) h)
unfolding kfree
kfree-slab virt a h nonnull p m s =
    let there = a / page_size * page_size in
    subst (λ x. kfree a h ≡ release_if_free x (set_header x (push_slot a (h.headers x)) h)) p
      (marked_slab (a == 0) (h.headers there).magic (h.headers there).is_slab h _ _ nonnull
        (subst (λ x. (h.headers x).magic ≡ true) (sym p) m)
        (subst (λ x. (h.headers x).is_slab ≡ true) (sym p) s))

-- kfree of a live slot, on a heap in order whose pages are mapped at an aligned offset, leaves the heap
-- in order with that slot no longer live.
pub kfree-HeapIsValid :
    (live : ℕ → List ℕ) (i virt a : ℕ) (h : Heap)
    → HeapIsValid (with_slot virt a live) h
    → in_slabs virt (h.caches i) ≡ true
    → h.hhdm_offset % page_size ≡ 0
    → HeapIsValid live (kfree a h)
unfolding kfree
kfree-HeapIsValid live i virt a h v here aligned =
    let s = v.slabs i virt here in
    let held : IsSlab virt (a ∷ live virt) (h.headers virt) =
      subst (λ t. IsSlab virt (if t then a ∷ live virt else live virt) (h.headers virt))
        (at_self virt) s.is_slab in
    let p = page_of_slot virt a (live virt) (h.headers virt) held (omega (arith, s.at_page)) in
    let nonnull : (a == 0) ≡ false = ground (arith, p.1) in
    subst (HeapIsValid live) (sym (kfree-slab virt a h nonnull p.0 held.marked held.slab))
      (release_if_free-HeapIsValid live i virt _ (pushed-HeapIsValid live virt a h v) here)
