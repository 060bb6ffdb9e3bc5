-- ===== src/VmArea.antt =====
-- The address ranges of a process, from kernel/task/process.c: a list of ranges and its count. A
-- call that allocates is told whether kmalloc succeeds.
pub mod Disjoint
mod Tests
use experiment.Base.{
  ℕ, zero, suc, ◌+◌, ◌-◌, ◌%◌, ◌^◌, Bool, true, false, ◌&&◌, ◌||◌, not, Option, none, some, List,
  [], ◌∷◌, ◌++◌, ltb, leb, if◌then◌else◌,
}

pub record VmArea : Type 0 where
  pub start : ℕ
  pub end : ℕ
  pub flags : ℕ

pub record VmAreas : Type 0 where
  pub areas : List VmArea
  pub count : ℕ

-- !(end <= existing->start || start >= existing->end)
abbrev pub overlaps : (start end : ℕ) → VmArea → Bool
overlaps start end a = not (leb end a.start || leb a.end start)

pub any_overlap : (start end : ℕ) → List VmArea → Bool
any_overlap start end [] = false
any_overlap start end (a ∷ rs) = overlaps start end a || any_overlap start end rs

-- vm_area_init
pub init : VmAreas
init = record { areas = []; count = 0 }

-- vm_area_add on a process that is not null: the area, or `none`. The count is a uint32_t.
pub add : (allocates : Bool) (start end flags : ℕ) → VmAreas → Option VmArea × VmAreas
unfolding any_overlap
add allocates start end flags v =
    let area : VmArea = record { start = start; end = end; flags = flags } in
    if leb end start
    then (none, v)
    else if any_overlap start end v.areas
    then (none, v)
    else if allocates
    then (some area, record { areas = v.areas ++ (area ∷ []); count = (v.count + 1) % 2 ^ 32 })
    else (none, v)

-- The loop of vm_area_clone over the source's areas, with the fate of each allocation.
pub clone_from : (allocs : List Bool) → List VmArea → VmAreas → VmAreas
unfolding add
clone_from allocs [] dest = dest
clone_from [] (a ∷ rs) dest = clone_from [] rs dest
clone_from (ok ∷ allocs) (a ∷ rs) dest = clone_from allocs rs (add ok a.start a.end a.flags dest).1

pub clone : (allocs : List Bool) → (src : VmAreas) → VmAreas
unfolding clone_from init
clone allocs src = clone_from allocs src.areas init

-- vm_area_clear frees each area and empties the list.
pub clear : VmAreas → VmAreas
clear v = record { areas = []; count = 0 }
