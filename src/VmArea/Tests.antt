-- ===== src/VmArea/Tests.antt =====
-- The ranges of a small process, and the theorems there.
use experiment.Base.{◌≡◌, refl, true, none, [], ◌∷◌, arith}
use experiment.VmArea.{VmAreas, add}
use experiment.VmArea.Disjoint.{Disjoint, IsValid, add-IsValid}

-- Two ranges with a gap.
abbrev two_areas : VmAreas
two_areas = record {
  areas =
      record { start = 0x1000; end = 0x2000; flags = 3 }
      ∷ record { start = 0x4000; end = 0x5000; flags = 1 }
      ∷ [];
  count = 2;
}

two_areas-IsValid : IsValid two_areas
unfolding Disjoint
two_areas-IsValid = record {
  apart = (((λ x both. omega (arith, both.0.0, both.0.1, both.1.0, both.1.1)), tt), (tt, tt));
  filled = (omega arith, (omega arith, tt));
  counted = refl;
}

add_rejects : (add true 0x1800 0x2800 0 two_areas).0 ≡ none
unfolding add
add_rejects = refl

add_accepts : (add true 0x2000 0x4000 0 two_areas).1.count ≡ 3
unfolding add
add_accepts = refl

add-IsValid_example : IsValid (add true 0x2000 0x4000 0 two_areas).1
add-IsValid_example = add-IsValid true 0x2000 0x4000 0 two_areas-IsValid (omega arith)
