-- ===== src/Pmm/Free.antt =====
-- pmm_free_page and pmm_free_pages against the allocations that they undo.
use experiment.Base.{
  ℕ, ◌+◌, ◌*◌, ◌/◌, ◌≤◌, ◌<◌, ◌≡◌, ap, subst, ◌⊎◌, ◌&&◌, not, inl, inr, Option, some, arith, ◌==◌,
  ltb, Bool-cases, tests,
}
use experiment.Pmm.{Pmm, page_size, bitmap_test, free_page, free_pages, alloc_pages}
use experiment.Pmm.Bits.{
  Bytes, in_range, unset_range-Bytes, bitmap_test-unset, bitmap_test-unset_range,
}
use experiment.Pmm.Alloc.{FreeRun, Marked, FirstFit, found, exhausted, alloc_pages-FirstFit}

-- Freeing `n` pages from the address `ptr` on clears exactly the marks of the pages from the one
-- that holds `ptr` on.
pub bitmap_test-free_pages :
    (ptr n j : ℕ) {s : Pmm}
    → Bytes s
    → bitmap_test j (free_pages ptr n s) ≡ (not (in_range (ptr / page_size) n j) && bitmap_test j s)
unfolding free_pages
bitmap_test-free_pages ptr n j b = bitmap_test-unset_range n (ptr / page_size) j b

pub free_pages-Bytes : (ptr n : ℕ) {s : Pmm} → Bytes s → Bytes (free_pages ptr n s)
unfolding free_pages
free_pages-Bytes ptr n b = unset_range-Bytes n (ptr / page_size) b

pub bitmap_test-free_page :
    (ptr j : ℕ) {s : Pmm}
    → Bytes s
    → bitmap_test j (free_page ptr s) ≡ (not (ptr / page_size == j) && bitmap_test j s)
unfolding free_page
bitmap_test-free_page ptr j b = bitmap_test-unset (ptr / page_size) j b

-- Every page is marked in `t` as it is in `s`.
pub SameMarks : Pmm → Pmm → Type 0
SameMarks s t = (j : ℕ) → bitmap_test j t ≡ bitmap_test j s

free_pages-Marked :
    (i n : ℕ) {s t : Pmm}
    → FreeRun s i n
    → Marked s i n t
    → SameMarks s (free_pages (i * page_size) n t)
unfolding SameMarks FreeRun
free_pages-Marked i n {s} {t} run m j = elim (Bool-cases (in_range i n j)) [
  | inl inside ↦ ground (arith, run j, m.bits j, bitmap_test-free_pages (i * page_size) n j m.bytes)
  | inr outside ↦ ground (arith, m.bits j, bitmap_test-free_pages (i * page_size) n j m.bytes)
]

-- What an answered search knows of its page and of the new state.
record Answer (s : Pmm) (n p : ℕ) (t : Pmm) : Type 0 where
  page : ℕ
  address : p ≡ page * page_size
  run : FreeRun s page n
  marked : Marked s page n t

FirstFit-some :
    {s : Pmm} {n : ℕ} {r : Option ℕ × Pmm} (p : ℕ) (t : Pmm)
    → FirstFit s n r
    → r ≡ (some p, t)
    → Answer s n p t
FirstFit-some p t (exhausted full) e = cc
FirstFit-some {s} {n} p t (found i u run first m) e = record {
  page = i;
  address = ground arith;
  run = run;
  marked = subst (λ v. Marked s i n v) (ap (λ a. a.1) e) m;
}

-- On a bitmap of bytes, pmm_free_pages undoes pmm_alloc_pages of at least one page: after the
-- pages at the answered address are freed, every page is marked as before the allocation.
pub free_pages-alloc_pages :
    (n p : ℕ) {s t : Pmm}
    → Bytes s
    → 0 < n
    → alloc_pages n s ≡ (some p, t)
    → SameMarks s (free_pages p n t)
free_pages-alloc_pages n p {s} {t} b pos e =
    let a = FirstFit-some p t (alloc_pages-FirstFit n b pos) e in
    rw a.address (free_pages-Marked a.page n a.run a.marked)

-- A page that an allocation marked is in no run that is free afterwards.
not_both :
    (i n j m k : ℕ) {s t : Pmm}
    → Marked s i n t
    → FreeRun t j m
    → i ≤ k
    → k < i + n
    → j ≤ k
    → k < j + m
    → ⊥
unfolding FreeRun
not_both i n j m k a run li hi lj hj = ground (arith, a.bits k, run k lj hj)

apart :
    (i n j m : ℕ) {s t : Pmm}
    → 0 < n
    → 0 < m
    → Marked s i n t
    → FreeRun t j m
    → (i + n ≤ j) ⊎ (j + m ≤ i)
apart i n j m pn pm a run = elim (Bool-cases (ltb i j)) [
  | inl before ↦ elim (Bool-cases (ltb j (i + n))) [
    | inl meet ↦ absurd (
        not_both i n j m j a run (omega (tests, before)) (omega (tests, meet)) (omega arith)
          (omega arith))
    | inr clear ↦ inl (omega (tests, clear))
  ]
  | inr after ↦ elim (Bool-cases (ltb i (j + m))) [
    | inl meet ↦ absurd (
        not_both i n j m i a run (omega arith) (omega arith) (omega (tests, after))
          (omega (tests, meet)))
    | inr clear ↦ inr (omega (tests, clear))
  ]
]

-- On a bitmap of bytes, two allocations of at least one page each, with no free in between, never
-- overlap: one ends before the other begins.
pub alloc_pages_disjoint :
    (n m p q : ℕ) {s t u : Pmm}
    → Bytes s
    → 0 < n
    → 0 < m
    → alloc_pages n s ≡ (some p, t)
    → alloc_pages m t ≡ (some q, u)
    → (p + n * page_size ≤ q) ⊎ (q + m * page_size ≤ p)
alloc_pages_disjoint n m p q {s} {t} {u} b pn pm e f =
    let a = FirstFit-some p t (alloc_pages-FirstFit n b pn) e in
    let c = FirstFit-some q u (alloc_pages-FirstFit m a.marked.bytes pm) f in
    omega (arith, apart a.page n c.page m pn pm a.marked c.run, a.address, c.address)
