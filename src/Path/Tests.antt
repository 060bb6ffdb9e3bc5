-- ===== src/Path/Tests.antt =====
-- Runs of path.c on short paths, and its theorems there.
use experiment.Base.{◌≡◌, ◌<◌, refl, [], ◌∷◌, arith, length}
use experiment.Path.{Chars, slash, simplified, build_absolute, segment_loop}
use experiment.Str.{strcmp}
use experiment.Path.Tokens.{parts, resolve}
use experiment.Path.Simplify.{segments, normal}
use experiment.Path.Plain.{plain_path, walked, moved, move_of, simplified-plain_path}
use experiment.Path.Absolute.{relative_to}

-- "/a/./b//../c/"
abbrev crooked : Chars
crooked = 47 ∷ 97 ∷ 47 ∷ 46 ∷ 47 ∷ 98 ∷ 47 ∷ 47 ∷ 46 ∷ 46 ∷ 47 ∷ 99 ∷ 47 ∷ []

-- "/a/c"
abbrev straight : Chars
straight = 47 ∷ 97 ∷ 47 ∷ 99 ∷ []

-- "../c"
abbrev up_c : Chars
up_c = 46 ∷ 46 ∷ 47 ∷ 99 ∷ []

normal-crooked : normal crooked ≡ straight
unfolding normal segments parts resolve experiment.Path.Output.joined experiment.Path.push_segment
    strcmp
normal-crooked = refl

simplified-crooked : simplified 64 crooked ≡ straight
unfolding simplified strcmp
simplified-crooked = refl

up_from_a : relative_to (47 ∷ 97 ∷ []) up_c ≡ 47 ∷ 99 ∷ []
unfolding relative_to parts resolve experiment.Path.Output.joined experiment.Path.push_segment
    strcmp
up_from_a = refl

crooked_fits : length (normal crooked) < 64
crooked_fits = rw normal-crooked (omega arith)

crooked_short : length (normal crooked) < 256
crooked_short = rw normal-crooked (omega arith)

plain_crooked_fits : length (plain_path crooked) < 64
unfolding plain_path parts experiment.Path.Tokens.parts_from walked moved move_of
    experiment.Path.Output.joined
plain_crooked_fits = omega arith

simplified-plain_path_example : simplified 64 crooked ≡ plain_path crooked
simplified-plain_path_example =
    simplified-plain_path 64 crooked (ground arith) (omega arith) plain_crooked_fits

up_fits : length (relative_to (47 ∷ 97 ∷ []) up_c) < 16
up_fits = rw up_from_a (omega arith)
