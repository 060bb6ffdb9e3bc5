-- ===== src/Pmm/Fields.antt =====
-- The operations on the bitmap leave the allocator's other variables alone.
use experiment.Base.{ℕ, zero, suc, ◌+◌, ◌≡◌, List, [], ◌∷◌, arith, inl, inr, Bool-cases, ltb}
use experiment.Pmm.{
  Pmm, MemmapEntry, usable, bitmap_set, bitmap_unset, set_range, unset_entry, unset_usable,
}

pub record SameFields (s t : Pmm) : Type 0 where
  pub addr : t.bitmap_addr ≡ s.bitmap_addr
  pub size : t.bitmap_size ≡ s.bitmap_size
  pub pages : t.highest_page ≡ s.highest_page
  pub highest : t.highest_addr ≡ s.highest_addr
  pub offset : t.hhdm_offset ≡ s.hhdm_offset

pub SameFields-trans : {s t u : Pmm} → SameFields s t → SameFields t u → SameFields s u
SameFields-trans a b = omega arith

pub bitmap_set-SameFields : (i : ℕ) (s : Pmm) → SameFields s (bitmap_set i s)
unfolding bitmap_set
bitmap_set-SameFields i s = omega arith

pub set_range-SameFields : (n i : ℕ) (s : Pmm) → SameFields s (set_range n i s)
unfolding set_range
set_range-SameFields zero i s = omega arith
set_range-SameFields (suc n) i s =
    SameFields-trans (bitmap_set-SameFields i s) (set_range-SameFields n (i + 1) (bitmap_set i s))

bitmap_unset-SameFields : (i : ℕ) (s : Pmm) → SameFields s (bitmap_unset i s)
unfolding bitmap_unset
bitmap_unset-SameFields i s = omega arith

unset_entry-SameFields :
    (fuel base size j : ℕ) (s : Pmm) → SameFields s (unset_entry fuel base size j s)
unfolding unset_entry
unset_entry-SameFields zero base size j s = omega arith
unset_entry-SameFields (suc fuel) base size j s = elim (Bool-cases (ltb j size)) [
  | inl more ↦
      rw more
        (SameFields-trans (bitmap_unset-SameFields _ s) (unset_entry-SameFields fuel base size _ _))
  | inr done ↦ rw done (omega arith)
]

pub unset_usable-SameFields : (es : List MemmapEntry) (s : Pmm) → SameFields s (unset_usable es s)
unfolding unset_usable
unset_usable-SameFields [] s = omega arith
unset_usable-SameFields (e ∷ es) s = elim (Bool-cases (usable e)) [
  | inl use_it ↦ rw use_it (
      SameFields-trans (unset_entry-SameFields e.size e.base e.size 0 s)
        (unset_usable-SameFields es _))
  | inr skip ↦ rw skip (unset_usable-SameFields es s)
]
