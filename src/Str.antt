-- ===== src/Str.antt =====
-- The string functions of kernel/lib/string.c. A C string is the list of its bytes before the
-- terminating 0, none of which is 0.
pub mod Compare
pub mod Copy
pub mod Search
mod Tests
use experiment.Base.{
  ℕ, zero, suc, ◌+◌, ◌-◌, ◌≡◌, ◌≢◌, Bool, true, false, List, [], ◌∷◌, ◌++◌, Option, none, some, ltb,
  ◌==◌, if◌then◌else◌,
}
use experiment.Base.Int.{ℤ, pos, sub_ℕ}

abbrev pub Chars : Type 0
Chars = List ℕ

-- The first byte of a string, its terminator included.
abbrev pub first_byte : Chars → ℕ
first_byte [] = 0
first_byte (c ∷ cs) = c

unfoldable pub strcmp : Chars → Chars → ℤ
strcmp [] t = sub_ℕ 0 (first_byte t)
strcmp (c ∷ s) [] = sub_ℕ c 0
strcmp (c ∷ s) (d ∷ t) = if c == d then strcmp s t else sub_ℕ c d

pub strncmp : Chars → Chars → (n : ℕ) → ℤ
strncmp s t zero = pos 0
strncmp [] t (suc n) = sub_ℕ 0 (first_byte t)
strncmp (c ∷ s) [] (suc n) = sub_ℕ c 0
strncmp (c ∷ s) (d ∷ t) (suc n) = if c == d then strncmp s t n else sub_ℕ c d

unfoldable pub strlen : Chars → ℕ
strlen [] = 0
strlen (c ∷ s) = suc (strlen s)

-- memcmp over the first `n` bytes of two buffers of at least that size.
unfoldable pub memcmp : List ℕ → List ℕ → (n : ℕ) → ℤ
memcmp xs ys zero = pos 0
memcmp [] ys (suc n) = pos 0
memcmp (x ∷ xs) [] (suc n) = pos 0
memcmp (x ∷ xs) (y ∷ ys) (suc n) = if x == y then memcmp xs ys n else sub_ℕ x y

-- The bytes that strncpy stores: the string cut at `n`, then zeros up to `n`.
pub strncpy : Chars → (n : ℕ) → List ℕ
strncpy s zero = []
strncpy [] (suc n) = 0 ∷ strncpy [] n
strncpy (c ∷ s) (suc n) = c ∷ strncpy s n

-- The bytes that strcpy stores, and the string that strcat leaves.
pub strcpy : Chars → List ℕ
strcpy [] = 0 ∷ []
strcpy (c ∷ s) = c ∷ strcpy s

pub strcat : Chars → Chars → Chars
strcat [] src = src
strcat (c ∷ dest) src = c ∷ strcat dest src

-- strrchr: the offset of the last byte equal to `c`, the terminator included.
unfoldable strrchr_from : (at : ℕ) → Option ℕ → Chars → (c : ℕ) → Option ℕ
strrchr_from at last [] c = if 0 == c then some at else last
strrchr_from at last (d ∷ s) c = strrchr_from (at + 1) (if d == c then some at else last) s c

unfoldable pub strrchr : Chars → (c : ℕ) → Option ℕ
unfolding strrchr_from
strrchr s c = strrchr_from 0 none s c
