-- ===== src/VmArea/Disjoint.antt =====
-- The ranges of a process never overlap, and a clone is a copy.
use experiment.Base.{
  ℕ, ◌+◌, ◌%◌, ◌^◌, ◌<◌, ◌≤◌, ◌≡◌, refl, sym, subst, append-nil, ◌∙◌, Bool, true, false, ◌||◌, List,
  [], ◌∷◌, ◌++◌, leb, arith, All, length, length-append, Bool-cases, inl, inr, append_assoc,
  replicate,
}
use experiment.VmArea.{VmArea, VmAreas, overlaps, any_overlap, init, add, clone_from, clone}

-- Each range apart from those behind it.
abbrev Apart : List VmArea → Type 0
Apart [] = Unit
Apart (a ∷ rs) = (any_overlap a.start a.end rs ≡ false) × Apart rs

-- No address lies in both of two ranges.
unfoldable pub Disjoint : VmArea → VmArea → Type 0
Disjoint a b = (x : ℕ) → ¬ (((a.start ≤ x) × (x < a.end)) × ((b.start ≤ x) × (x < b.end)))

-- Any two of the ranges.
abbrev AllDisjoint : List VmArea → Type 0
AllDisjoint [] = Unit
AllDisjoint (a ∷ rs) = All (Disjoint a) rs × AllDisjoint rs

overlaps-Disjoint : (a b : VmArea) → overlaps a.start a.end b ≡ false → Disjoint a b
unfolding Disjoint
overlaps-Disjoint a b h x both = ground (arith, h, both.0.0, both.0.1, both.1.0, both.1.1)

Disjoint-comm : (a b : VmArea) → Disjoint a b → Disjoint b a
unfolding Disjoint
Disjoint-comm a b h x both = h x (both.1, both.0)

Disjoint-overlaps :
    (a b : VmArea)
    → a.start < a.end
    → b.start < b.end
    → Disjoint a b
    → overlaps a.start a.end b ≡ false
unfolding Disjoint
Disjoint-overlaps a b some_a some_b h = elim (Bool-cases (overlaps a.start a.end b)) [
  | inr apart ↦ apart
  | inl meets ↦ elim (Bool-cases (leb a.start b.start)) [
    | inl below ↦
        absurd (h b.start ((ground (arith, below), ground (arith, meets)), (omega arith, some_b)))
    | inr above ↦
        absurd (h a.start ((omega arith, some_a), (ground (arith, above), ground (arith, meets))))
  ]
]

-- No address of a new range lies in the others.
any_overlap-Disjoint :
    (a : VmArea) (rs : List VmArea)
    → any_overlap a.start a.end rs ≡ false
    → All (λ b. Disjoint b a) rs
unfolding any_overlap
any_overlap-Disjoint a [] h = tt
any_overlap-Disjoint a (b ∷ rs) h = (
  Disjoint-comm a b (overlaps-Disjoint a b (ground (arith, h))),
  any_overlap-Disjoint a rs (ground (arith, h)),
)

Disjoint-any_overlap :
    (a : VmArea) (rs : List VmArea)
    → a.start < a.end
    → All (λ b. b.start < b.end) rs
    → All (Disjoint a) rs
    → any_overlap a.start a.end rs ≡ false
unfolding any_overlap
Disjoint-any_overlap a [] some_a filled h = refl
Disjoint-any_overlap a (b ∷ rs) some_a filled h = ground (
  arith,
  Disjoint-overlaps a b some_a filled.0 h.0,
  Disjoint-any_overlap a rs some_a filled.1 h.1,
)

AllDisjoint-Apart : (rs : List VmArea) → All (λ b. b.start < b.end) rs → AllDisjoint rs → Apart rs
AllDisjoint-Apart [] filled h = tt
AllDisjoint-Apart (a ∷ rs) filled h =
    (Disjoint-any_overlap a rs filled.0 filled.1 h.0, AllDisjoint-Apart rs filled.1 h.1)

-- The ranges hold at least one byte each, no two overlap, and the count is their number.
pub record IsValid (v : VmAreas) : Type 0 where
  pub apart : AllDisjoint v.areas
  pub filled : All (λ a. a.start < a.end) v.areas
  pub counted : v.count ≡ length v.areas

any_overlap-append :
    (s e : ℕ) (xs ys : List VmArea)
    → any_overlap s e (xs ++ ys) ≡ (any_overlap s e xs || any_overlap s e ys)
unfolding any_overlap
any_overlap-append s e [] ys = refl
any_overlap-append s e (a ∷ xs) ys = ground (arith, any_overlap-append s e xs ys)

snoc_all :
    (P : VmArea → Type 0) (a : VmArea) (rs : List VmArea) → P a → All P rs → All P (rs ++ (a ∷ []))
snoc_all P a [] h p = (h, tt)
snoc_all P a (b ∷ rs) h p = (p.0, snoc_all P a rs h p.1)

-- A range behind the others that is apart from each of them.
AllDisjoint-snoc :
    (a : VmArea) (rs : List VmArea)
    → All (λ b. Disjoint b a) rs
    → AllDisjoint rs
    → AllDisjoint (rs ++ (a ∷ []))
AllDisjoint-snoc a [] h p = (tt, tt)
AllDisjoint-snoc a (b ∷ rs) h p =
    (snoc_all (Disjoint b) a rs h.0 p.0, AllDisjoint-snoc a rs h.1 p.1)

-- vm_area_add keeps the ranges disjoint - no address lies in two of them -, not empty and counted, on every branch, while there are
-- fewer than 2^32 - 1 of them.
pub add-IsValid :
    (ok : Bool) (s e f : ℕ) {v : VmAreas}
    → IsValid v
    → length v.areas + 1 < 2 ^ 32
    → IsValid (add ok s e f v).1
unfolding add
add-IsValid ok s e f {v} i small = elim (Bool-cases (leb e s)) [
  | inl bad ↦ rw bad i
  | inr good ↦ rw good (elim (Bool-cases (any_overlap s e v.areas)) [
    | inl meets ↦ rw meets i
    | inr clear_of ↦ rw clear_of (elim (Bool-cases ok) [
      | inr fails ↦ rw fails i
      | inl ok_ ↦ rw ok_ (record {
        apart =
            AllDisjoint-snoc (record { start = s; end = e; flags = f }) v.areas
              (any_overlap-Disjoint (record { start = s; end = e; flags = f }) v.areas clear_of)
              i.apart;
        filled =
            snoc_all (λ b. b.start < b.end) (record { start = s; end = e; flags = f }) v.areas
              (ground arith) i.filled;
        counted = omega (
          arith,
          length-append v.areas (record { start = s; end = e; flags = f } ∷ []),
          i.counted,
        );
      })
    ])
  ])
]

overlaps_comm : (a b : VmArea) → overlaps a.start a.end b ≡ overlaps b.start b.end a
overlaps_comm a b = ground arith

-- In a list of ranges that are apart, a range overlaps none of those before it.
Apart-middle :
    (xs : List VmArea) (a : VmArea) (ys : List VmArea)
    → Apart (xs ++ (a ∷ ys))
    → any_overlap a.start a.end xs ≡ false
unfolding any_overlap
Apart-middle [] a ys p = refl
Apart-middle (b ∷ xs) a ys p = ground (
  arith,
  p.0,
  any_overlap-append b.start b.end xs (a ∷ ys),
  overlaps_comm a b,
  Apart-middle xs a ys p.1,
)

add-some :
    (a : VmArea) (v : VmAreas)
    → a.start < a.end
    → any_overlap a.start a.end v.areas ≡ false
    → (add true a.start a.end a.flags v).1
      ≡ record { areas = v.areas ++ (a ∷ []); count = (v.count + 1) % 2 ^ 32 }
unfolding add
add-some a v h clear_of = ground (arith, clear_of)

vm_areas_eq :
    {xs ys : List VmArea} {m n : ℕ}
    → xs ≡ ys
    → m ≡ n
    → ◌≡◌ {A = VmAreas} (record { areas = xs; count = m }) (record { areas = ys; count = n })
vm_areas_eq p q = λ i. record { areas = p i; count = q i }

clone_from-copies :
    (rs : List VmArea) (dest : VmAreas)
    → Apart (dest.areas ++ rs)
    → All (λ a. a.start < a.end) rs
    → dest.count ≡ length dest.areas
    → length dest.areas + length rs < 2 ^ 32
    → clone_from (replicate (length rs) true) rs dest
      ≡ record { areas = dest.areas ++ rs; count = length dest.areas + length rs }
unfolding clone_from
clone_from-copies [] dest p f c small = vm_areas_eq (sym (append-nil dest.areas)) (omega arith)
clone_from-copies (a ∷ rs) dest p f c small =
    let grown : VmAreas = record {
      areas = dest.areas ++ (a ∷ []);
      count = (dest.count + 1) % 2 ^ 32;
    } in
    let len = length-append dest.areas (a ∷ []) in
    rw (add-some a dest f.0 (Apart-middle dest.areas a rs p)) (
      clone_from-copies rs grown (subst Apart (sym (append_assoc dest.areas (a ∷ []) rs)) p) f.1
        (omega arith) (omega arith)
      ∙ vm_areas_eq (append_assoc dest.areas (a ∷ []) rs) (omega arith))

-- A clone of fewer than 2^32 ranges that are in order, for which every allocation succeeds, has
-- the source's ranges, in order, and its count.
pub clone-copies :
    {v : VmAreas}
    → IsValid v
    → length v.areas < 2 ^ 32
    → clone (replicate (length v.areas) true) v ≡ v
unfolding clone init
clone-copies {v} i small =
    clone_from-copies v.areas _ (AllDisjoint-Apart v.areas i.filled i.apart) i.filled refl
      (omega arith)
    ∙ vm_areas_eq refl (omega arith)
