-- ===== src/Str/Tests.antt =====
-- Runs of the string functions of string.c, and their theorems there.
use experiment.Base.{◌≡◌, refl, some, [], ◌∷◌, arith}
use experiment.Base.Int.{pos, negsuc}
use experiment.Str.{Chars, strcmp, memcmp, strrchr}
use experiment.Str.Compare.{IsCString}

abbrev cat : Chars
cat = 99 ∷ 97 ∷ 116 ∷ []

abbrev car : Chars
car = 99 ∷ 97 ∷ 114 ∷ []

cat-IsCString : IsCString cat
cat-IsCString = omega arith

car-IsCString : IsCString car
car-IsCString = omega arith

strcmp_above : strcmp cat car ≡ pos 2
unfolding strcmp
strcmp_above = refl

strcmp_prefix : strcmp [] car ≡ negsuc 98
unfolding strcmp
strcmp_prefix = refl

memcmp_below : memcmp car cat 3 ≡ negsuc 1
unfolding memcmp
memcmp_below = refl

strrchr_last : strrchr (97 ∷ cat) 97 ≡ some 2
unfolding strrchr
strrchr_last = refl

strrchr_end : strrchr cat 0 ≡ some 3
unfolding strrchr
strrchr_end = refl
