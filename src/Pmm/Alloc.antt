-- ===== src/Pmm/Alloc.antt =====
-- pmm_alloc_page, pmm_alloc_pages and their inverses, in terms of the pages marked as used.
use experiment.Base.{
  ℕ, zero, suc, ◌+◌, ◌*◌, ◌≤◌, ◌<◌, ◌≡◌, refl, ◌∙◌, Bool, true, false, ◌&&◌, ◌||◌, not, inl, inr,
  Option, none, some, arith, ◌==◌, ltb, Bool-cases, ltb→lt, tests, ==_iff,
}
use experiment.Pmm.{
  Pmm, page_size, bitmap_set, bitmap_test, alloc_page_from, alloc_page, count_free, set_range,
  alloc_pages_from, alloc_pages,
}
use experiment.Pmm.Bits.{
  Bytes, in_range, bitmap_test-set, bitmap_set-Bytes, set_range-Bytes, bitmap_test-set_range,
}

-- Page `j` exists and is not marked.
abbrev pub free_at : Pmm → ℕ → Bool
free_at s j = ltb j s.highest_page && not (bitmap_test j s)

unfoldable pub FreeRun : Pmm → ℕ → ℕ → Type 0
FreeRun s i n = (j : ℕ) → i ≤ j → j < i + n → free_at s j ≡ true

-- `t` is `s` with the `n` pages from `i` on marked, and the same pages exist.
pub record Marked (s : Pmm) (i n : ℕ) (t : Pmm) : Type 0 where
  pub bits : (j : ℕ) → bitmap_test j t ≡ (in_range i n j || bitmap_test j s)
  pub bytes : Bytes t
  pub pages : t.highest_page ≡ s.highest_page

-- What a first-fit search for `n` pages may answer.
pub data FirstFit (s : Pmm) (n : ℕ) : Option ℕ × Pmm → Type 0 where
  exhausted : ((i : ℕ) → ¬ FreeRun s i n) → FirstFit s n (none, s)
  found :
      (i : ℕ) (t : Pmm)
      → FreeRun s i n
      → ((k : ℕ) → k < i → ¬ FreeRun s k n)
      → Marked s i n t
      → FirstFit s n (some (i * page_size), t)

highest_page-set : (i : ℕ) (s : Pmm) → (bitmap_set i s).highest_page ≡ s.highest_page
unfolding bitmap_set
highest_page-set i s = refl

highest_page-set_range : (n i : ℕ) (s : Pmm) → (set_range n i s).highest_page ≡ s.highest_page
unfolding set_range
highest_page-set_range zero i s = refl
highest_page-set_range (suc n) i s =
    highest_page-set_range n (i + 1) (bitmap_set i s) ∙ highest_page-set i s

set_range-Marked : (n i : ℕ) {s : Pmm} → Bytes s → Marked s i n (set_range n i s)
set_range-Marked n i {s} b = record {
  bits = λ j. bitmap_test-set_range n i j b;
  bytes = set_range-Bytes n i b;
  pages = highest_page-set_range n i s;
}

bitmap_set-Marked : (i : ℕ) {s : Pmm} → Bytes s → Marked s i 1 (bitmap_set i s)
bitmap_set-Marked i {s} b = record {
  bits = λ j. ground (arith, bitmap_test-set i j b);
  bytes = bitmap_set-Bytes i b;
  pages = highest_page-set i s;
}

-- The counting loop: how far the run of free pages from `i + j` on reaches.
count_free-le : (r i j : ℕ) (s : Pmm) → count_free r i j s ≤ r
unfolding count_free
count_free-le zero i j s = omega arith
count_free-le (suc r) i j s = ground (arith, count_free-le r i (j + 1) s)

count_free-free :
    (r i j k : ℕ) (s : Pmm) → i + j ≤ k → k < i + j + count_free r i j s → free_at s k ≡ true
unfolding count_free
count_free-free zero i j k s lo hi = absurd (omega arith)
count_free-free (suc r) i j k s lo hi = elim (Bool-cases (i + j == k)) [
  | inl e ↦ ground arith
  | inr ne ↦ ground (arith, count_free-free r i (j + 1) k s)
]

count_free_stops :
    (r i j m : ℕ) (s : Pmm)
    → count_free r i j s < r
    → m ≡ i + j + count_free r i j s
    → free_at s m ≡ false
unfolding count_free
count_free_stops zero i j m s h e = absurd (omega arith)
count_free_stops (suc r) i j m s h e = ground (arith, count_free_stops r i (j + 1) m s)

-- A page that is not free rules out every start from which the run would cover it.
not_FreeRun : (s : Pmm) (i n m : ℕ) → free_at s m ≡ false → i ≤ m → m < i + n → ¬ FreeRun s i n
unfolding FreeRun
not_FreeRun s i n m e lo hi run = ground (arith, run m lo hi)

count_free-FreeRun : (n i : ℕ) (s : Pmm) → count_free n i 0 s ≡ n → FreeRun s i n
unfolding FreeRun
count_free-FreeRun n i s e j lo hi = count_free-free n i 0 j s (omega arith) (omega arith)

-- No run of `n` starts below `i`.
abbrev pub Tried : Pmm → ℕ → ℕ → Type 0
Tried s n i = (k : ℕ) → k < i → ¬ FreeRun s k n

Tried-step :
    (s : Pmm) (n i m : ℕ)
    → Tried s n i
    → free_at s m ≡ false
    → i ≤ m
    → m < i + n
    → Tried s n (m + 1)
Tried-step s n i m tried e lo hi k h = elim (Bool-cases (ltb k i)) [
  | inl below ↦ tried k (ltb→lt k i below)
  | inr above ↦ not_FreeRun s k n m e (omega arith) (omega (tests, above, lo))
]

-- The pages that the counting loop went over are no start either.
Tried-skip :
    (s : Pmm) (n i : ℕ)
    → Tried s n i
    → (count_free n i 0 s == n) ≡ false
    → Tried s n (i + count_free n i 0 s + 1)
Tried-skip s n i tried fewer =
    let short : count_free n i 0 s < n = ground (arith, count_free-le n i 0 s) in
    Tried-step s n i (i + count_free n i 0 s) tried
      (count_free_stops n i 0 (i + count_free n i 0 s) s short (omega arith)) (omega arith)
      (omega arith)

not_free_at-used : (s : Pmm) (i : ℕ) → bitmap_test i s ≡ true → free_at s i ≡ false
not_free_at-used s i e = ground arith

Tried-end :
    (s : Pmm) (n i : ℕ) → 0 < n → s.highest_page ≤ i → Tried s n i → (k : ℕ) → ¬ FreeRun s k n
unfolding FreeRun
Tried-end s n i pos past tried k run = elim (Bool-cases (ltb k i)) [
  | inl below ↦ tried k (ltb→lt k i below) run
  | inr above ↦ ground (arith, run k (omega arith) (omega arith))
]

FirstFit-alloc_from :
    (fuel n i : ℕ) {s : Pmm}
    → Bytes s
    → 0 < n
    → s.highest_page ≤ i + fuel
    → Tried s n i
    → FirstFit s n (alloc_pages_from fuel n i s)
unfolding alloc_pages_from
FirstFit-alloc_from zero n i {s} b pos enough tried =
    exhausted (Tried-end s n i pos (omega arith) tried)
FirstFit-alloc_from (suc fuel) n i {s} b pos enough tried =
    elim (Bool-cases (ltb i s.highest_page)) [
      | inr past ↦ rw past (exhausted (Tried-end s n i pos (omega (tests, past)) tried))
      | inl within ↦ rw within (elim (Bool-cases (bitmap_test i s)) [
        | inl used ↦ rw used (
            FirstFit-alloc_from fuel n (i + 1) b pos (omega arith)
              (Tried-step s n i i tried (not_free_at-used s i used) (omega arith) (omega arith)))
        | inr unused ↦ rw unused (elim (Bool-cases (count_free n i 0 s == n)) [
          | inl all ↦ rw all (
              found i (set_range n i s) (count_free-FreeRun n i s ((==_iff _ _).0 all)) tried
                (set_range-Marked n i b))
          | inr fewer ↦ rw fewer (
              FirstFit-alloc_from fuel n (i + count_free n i 0 s + 1) b pos (omega arith)
                (Tried-skip s n i tried fewer))
        ])
      ])
    ]

-- On a bitmap of bytes, pmm_alloc_pages of at least one page is a first-fit search: it answers the
-- lowest start of a run of `n` free pages below `highest_page` and marks exactly that run, or it
-- answers null, with the state unchanged, and there is no such run.
pub alloc_pages-FirstFit : (n : ℕ) {s : Pmm} → Bytes s → 0 < n → FirstFit s n (alloc_pages n s)
unfolding alloc_pages
alloc_pages-FirstFit n {s} b pos =
    FirstFit-alloc_from s.highest_page n 0 b pos (omega arith) (λ k h. absurd (omega arith))

FreeRun-one : (s : Pmm) (i : ℕ) → i < s.highest_page → bitmap_test i s ≡ false → FreeRun s i 1
unfolding FreeRun
FreeRun-one s i h unused j lo hi = let e : j ≡ i = omega arith in rw (e, unused) (ground arith)

FirstFit-page_from :
    (rounds i : ℕ) {s : Pmm}
    → Bytes s
    → s.highest_page ≡ i + rounds
    → Tried s 1 i
    → FirstFit s 1 (alloc_page_from rounds i s)
unfolding alloc_page_from
FirstFit-page_from zero i {s} b e tried =
    exhausted (Tried-end s 1 i (omega arith) (omega arith) tried)
FirstFit-page_from (suc rounds) i {s} b e tried = elim (Bool-cases (bitmap_test i s)) [
  | inl used ↦ rw used (
      FirstFit-page_from rounds (i + 1) b (omega arith)
        (Tried-step s 1 i i tried (not_free_at-used s i used) (omega arith) (omega arith)))
  | inr unused ↦ rw unused (
      found i (bitmap_set i s) (FreeRun-one s i (omega arith) unused) tried (bitmap_set-Marked i b))
]

-- On a bitmap of bytes, pmm_alloc_page is the same first-fit search for one page.
pub alloc_page-FirstFit : {s : Pmm} → Bytes s → FirstFit s 1 (alloc_page s)
unfolding alloc_page
alloc_page-FirstFit {s} b =
    FirstFit-page_from s.highest_page 0 b (omega arith) (λ k h. absurd (omega arith))
