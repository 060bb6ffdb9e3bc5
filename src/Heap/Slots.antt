-- ===== src/Heap/Slots.antt =====
-- The slots of a slab: where they stand in the page.
use experiment.Base.{
  ℕ, zero, suc, ◌+◌, ◌-◌, ◌*◌, ◌/◌, ◌<◌, ◌≤◌, ◌≡◌, ◌≢◌, ◌⊎◌, refl, Bool, true, false, ◌||◌, List,
  [], ◌∷◌, arith, ◌==◌, Bool-cases, inl, inr, if◌then◌else◌,
}
use native.Mathlib.Nat.{div-mul-le_self}
use experiment.Heap.{objects, capacity, header_size}
use experiment.Pmm.{page_size}

-- Whether an address is one of the `count` slots from `base` on.
unfoldable pub is_slot : (count base obj_size a : ℕ) → Bool
is_slot zero base obj_size a = false
is_slot (suc count) base obj_size a = (a == base) || is_slot count (base + obj_size) obj_size a

-- How often a list has an address.
unfoldable pub times : ℕ → List ℕ → ℕ
times a [] = 0
times a (x ∷ xs) = if a == x then suc (times a xs) else times a xs

pub is_slot-inside :
    (count base obj_size a : ℕ)
    → is_slot count base obj_size a ≡ true
    → (base ≤ a) × (a + obj_size ≤ base + count * obj_size)
unfolding is_slot
is_slot-inside zero base obj_size a e = cc
is_slot-inside (suc count) base obj_size a e = elim (Bool-cases (a == base)) [
  | inl here ↦ (ground arith, ground arith)
  | inr there ↦
      let r = is_slot-inside count (base + obj_size) obj_size a (ground arith) in
      (omega (arith, r.0), omega (arith, r.1))
]

-- Two different slots do not overlap.
pub is_slot-apart :
    (count base obj_size a b : ℕ)
    → is_slot count base obj_size a ≡ true
    → is_slot count base obj_size b ≡ true
    → a ≢ b
    → (a + obj_size ≤ b) ⊎ (b + obj_size ≤ a)
unfolding is_slot
is_slot-apart zero base obj_size a b ea eb ne = cc
is_slot-apart (suc count) base obj_size a b ea eb ne = elim (Bool-cases (a == base)) [
  | inl first ↦ inl (ground (arith, is_slot-inside count (base + obj_size) obj_size b))
  | inr later ↦ elim (Bool-cases (b == base)) [
    | inl first ↦ inr (ground (arith, is_slot-inside count (base + obj_size) obj_size a))
    | inr later_b ↦
        is_slot-apart count (base + obj_size) obj_size a b (ground arith) (ground arith) ne
  ]
]

-- The chain of a new slab has each slot once and nothing else.
pub times-objects :
    (count base obj_size a : ℕ)
    → 0 < obj_size
    → times a (objects count base obj_size) ≡ (if is_slot count base obj_size a then 1 else 0)
unfolding times objects is_slot
times-objects zero base obj_size a h = refl
times-objects (suc count) base obj_size a h = ground (
  arith,
  times-objects count (base + obj_size) obj_size a,
  is_slot-inside count (base + obj_size) obj_size a,
)

-- A slot of a slab stands behind the header and inside the page.
pub slot_in_page :
    (virt obj_size a : ℕ)
    → 0 < obj_size
    → is_slot (capacity obj_size) (virt + header_size) obj_size a ≡ true
    → (virt + header_size ≤ a) × (a + obj_size ≤ virt + page_size)
unfolding capacity
slot_in_page virt obj_size a h e =
    let r =
      is_slot-inside ((page_size - header_size) / obj_size) (virt + header_size) obj_size a e in
    (r.0, omega (arith, r.1, div-mul-le_self (page_size - header_size) obj_size))
