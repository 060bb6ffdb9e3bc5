-- ===== src/Heap/Slab.antt =====
-- Taking a slot of a slab and giving it back.
use experiment.Base.{
  ℕ, zero, suc, ◌+◌, ◌*◌, ◌/◌, ◌%◌, ◌<◌, ◌≤◌, ◌≡◌, ◌≢◌, refl, ap, sym, subst, true, Option, none,
  some, List, [], ◌∷◌, arith, if◌then◌else◌, length,
}
use experiment.Heap.{SlabHeader, header_size, capacity, new_header, pop_slot, push_slot, objects}
use experiment.Heap.Slots.{is_slot, times, times-objects, slot_in_page}
use experiment.Pmm.{page_size}

-- The slab at `virt` with the slots `live` handed out: each slot is free or live, and not both.
pub record IsSlab (virt : ℕ) (live : List ℕ) (hd : SlabHeader) : Type 0 where
  pub marked : hd.magic ≡ true
  pub slab : hd.is_slab ≡ true
  pub sized : 0 < hd.obj_size
  pub counted : hd.free_count ≡ length hd.free_list
  pub total : length hd.free_list + length live ≡ capacity hd.obj_size
  pub slots :
      (a : ℕ)
      → times a hd.free_list + times a live
        ≡ (if is_slot (capacity hd.obj_size) (virt + header_size) hd.obj_size a then 1 else 0)

length-objects : (n base obj_size : ℕ) → length (objects n base obj_size) ≡ n
unfolding objects
length-objects zero base obj_size = refl
length-objects (suc n) base obj_size = ap suc (length-objects n (base + obj_size) obj_size)

-- A new slab has every slot free.
pub new_header-IsSlab :
    (virt obj_size : ℕ) (hd : SlabHeader)
    → 0 < obj_size
    → IsSlab virt [] (new_header virt obj_size hd)
unfolding new_header times
new_header-IsSlab virt obj_size hd h = record {
  marked = refl;
  slab = refl;
  sized = h;
  counted = sym (length-objects (capacity obj_size) (virt + header_size) obj_size);
  total = omega (arith, length-objects (capacity obj_size) (virt + header_size) obj_size);
  slots = λ a. omega (arith, times-objects (capacity obj_size) (virt + header_size) obj_size a h);
}

-- What taking a slot gives: a slot that was not live, inside the page behind the header.
unfoldable pub Popped : (virt : ℕ) → List ℕ → SlabHeader → Option (ℕ × SlabHeader) → Type 0
Popped virt live hd none = ⊥
Popped virt live hd (some (a, e)) =
    (times a live ≡ 0)
    × ((virt + header_size ≤ a) × (a + hd.obj_size ≤ virt + page_size))
    × IsSlab virt (a ∷ live) e
    × (e.obj_size ≡ hd.obj_size)

pub pop_slot-Popped :
    (virt : ℕ) (live : List ℕ) (hd : SlabHeader)
    → IsSlab virt live hd
    → 0 < hd.free_count
    → Popped virt live hd (pop_slot hd)
unfolding pop_slot Popped times
pop_slot-Popped virt live hd s h = go hd.free_list refl
  where
    go : (fl : List ℕ) → hd.free_list ≡ fl → Popped virt live hd (pop_slot hd)
    go [] e = absurd (omega (arith, s.counted, ap length e))
    go (a ∷ rest) e =
        let all = λ (b : ℕ).
          subst
            (λ fl. times b fl + times b live ≡ (
              if is_slot (capacity hd.obj_size) (virt + header_size) hd.obj_size b then 1 else 0))
            e (s.slots b) in
        let is : is_slot (capacity hd.obj_size) (virt + header_size) hd.obj_size a ≡ true =
          ground (arith, all a) in
        rw (pop_slot, e)
          (
            ground (arith, all a),
            slot_in_page virt hd.obj_size a s.sized is,
            record {
              marked = s.marked;
              slab = s.slab;
              sized = s.sized;
              counted = omega (arith, s.counted, ap length e);
              total = omega (arith, s.total, ap length e);
              slots = λ b. ground (arith, all b);
            },
            refl,
          )

-- Giving a live slot back.
pub push_slot-IsSlab :
    (virt a : ℕ) (live : List ℕ) (hd : SlabHeader)
    → IsSlab virt (a ∷ live) hd
    → IsSlab virt live (push_slot a hd)
unfolding push_slot times
push_slot-IsSlab virt a live hd s = record {
  marked = s.marked;
  slab = s.slab;
  sized = s.sized;
  counted = omega (arith, s.counted);
  total = omega (arith, s.total);
  slots = λ b. ground (arith, s.slots b);
}

-- The page of a live slot is found from its address.
pub page_of_slot :
    (virt a : ℕ) (live : List ℕ) (hd : SlabHeader)
    → IsSlab virt (a ∷ live) hd
    → virt % page_size ≡ 0
    → (a / page_size * page_size ≡ virt) × (a ≢ 0)
unfolding times
page_of_slot virt a live hd s aligned =
    let is : is_slot (capacity hd.obj_size) (virt + header_size) hd.obj_size a ≡ true =
      ground (arith, s.slots a) in
    let i = slot_in_page virt hd.obj_size a s.sized is in
    (omega (arith, i.0, i.1, s.sized), omega (arith, i.0))
