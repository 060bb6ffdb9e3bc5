-- ===== src/Print/Tests.antt =====
-- Runs of the formatted printing, and its theorems there.
use experiment.Base.{ℕ, ◌-◌, ◌^◌, ◌≡◌, refl, some, [], ◌∷◌, if◌then◌else◌, ◌==◌}
use experiment.Str.{Chars}
use experiment.Print.{signed_content, vcbprintf}
use experiment.Print.Numbers.{read_int, IsValue, read_int-signed_content}

-- The string at every address, and the arguments 42 and -7.
abbrev some_text : ℕ → Chars
some_text p = 104 ∷ 105 ∷ []

abbrev some_args : ℕ → ℕ
some_args i = if i == 0 then 42 else 2 ^ 64 - 7

-- "%4u|"
abbrev wide_unsigned : Chars
wide_unsigned = 37 ∷ 52 ∷ 117 ∷ 124 ∷ []

-- "%-4d%li"
abbrev two_signed : Chars
two_signed = 37 ∷ 45 ∷ 52 ∷ 100 ∷ 37 ∷ 108 ∷ 105 ∷ []

-- "42  -7"
print_signed : vcbprintf some_text some_args two_signed ≡ some (52 ∷ 50 ∷ 32 ∷ 32 ∷ 45 ∷ 55 ∷ [], 6)
unfolding vcbprintf
print_signed = refl

-- "42  42|": the digits are there twice, and the total counts them once.
print_unsigned_twice :
    vcbprintf some_text some_args wide_unsigned ≡ some (52 ∷ 50 ∷ 32 ∷ 32 ∷ 52 ∷ 50 ∷ 124 ∷ [], 5)
unfolding vcbprintf
print_unsigned_twice = refl

-- "%o" of 42: "5252".
print_octal_twice : vcbprintf some_text some_args (37 ∷ 111 ∷ []) ≡ some (53 ∷ 50 ∷ 53 ∷ 50 ∷ [], 2)
unfolding vcbprintf
print_octal_twice = refl

read_int-signed_content_example : IsValue (2 ^ 32) (2 ^ 31) (read_int (signed_content 0 (2 ^ 31)))
read_int-signed_content_example = read_int-signed_content 0 (2 ^ 31)
