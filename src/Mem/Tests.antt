-- ===== src/Mem/Tests.antt =====
-- Runs of the memory functions, and their theorems there.
use experiment.Base.{◌%◌, ◌≡◌, refl}
use experiment.Mem.{Memory, memmove}
use experiment.Mem.Copy.{Copied}
use experiment.Mem.Move.{memmove-Copied}

-- Every byte holds its own address.
abbrev ramp : Memory
ramp a = a % 256

-- An overlapping move to a higher address, with the source's alignment and without.
moved_by_8 : memmove 24 16 20 ramp 43 ≡ 35
unfolding memmove
moved_by_8 = refl

moved_by_3 : memmove 19 16 20 ramp 38 ≡ 35
unfolding memmove
moved_by_3 = refl

moved_down : memmove 3 16 40 ramp 42 ≡ 55
unfolding memmove
moved_down = refl

memmove-Copied_example : Copied 20 19 16 ramp (memmove 19 16 20 ramp)
memmove-Copied_example = memmove-Copied 19 16 20 ramp
