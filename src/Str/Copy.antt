-- ===== src/Str/Copy.antt =====
-- The copying functions: what they store, and how it reads back as a string.
use experiment.Base.{
  ℕ, zero, suc, ◌+◌, ◌-◌, ◌≡◌, refl, ap, List, [], ◌∷◌, ◌++◌, arith, length, take, replicate, ◌==◌,
  if◌then◌else◌,
}
use experiment.Str.{Chars, strlen, strncpy, strcpy, strcat}
use experiment.Str.Compare.{IsCString}

-- The C string at the start of a buffer: its bytes up to the first 0.
pub as_string : List ℕ → Chars
as_string [] = []
as_string (c ∷ cs) = if c == 0 then [] else c ∷ as_string cs

take-nil : (n : ℕ) → take {A = ℕ} n [] ≡ []
take-nil zero = refl
take-nil (suc n) = refl

-- strncpy of a C string stores exactly `n` bytes, the first `n` of the string padded with zeros,
-- and they read back as the string cut at `n`.
pub strncpy_lem :
    (s : Chars) (n : ℕ)
    → IsCString s
    → (strncpy s n ≡ take n s ++ replicate (n - strlen s) 0) × (as_string (strncpy s n) ≡ take n s)
unfolding strncpy strlen as_string
strncpy_lem s zero h = let e : 0 - strlen s ≡ 0 = omega arith in (rw e, refl)
strncpy_lem [] (suc n) h =
    let e : n - 0 ≡ n = omega arith in
    let e' : suc n - 0 ≡ suc n = omega arith in
    let rest = strncpy_lem [] n h in (rw e' (ground (arith, rest, e, take-nil n)), refl)
strncpy_lem (c ∷ s) (suc n) h =
    let e : suc n - suc (strlen s) ≡ n - strlen s = omega arith in
    let rest = strncpy_lem s n h.1 in (rw e (ap (λ r. c ∷ r) rest.0), ground (arith, h.0, rest))

-- strcpy stores a C string and its terminator, which read back as the string.
pub strcpy_lem :
    (s : Chars) → IsCString s → (length (strcpy s) ≡ strlen s + 1) × (as_string (strcpy s) ≡ s)
unfolding strcpy strlen as_string
strcpy_lem [] h = (refl, refl)
strcpy_lem (c ∷ s) h =
    let rest = strcpy_lem s h.1 in (omega (arith, rest.0), ground (arith, h.0, rest.1))

-- strcat leaves the two strings joined, of the sum of their lengths.
pub strcat_lem : (d s : Chars) → (strcat d s ≡ d ++ s) × (strlen (strcat d s) ≡ strlen d + strlen s)
unfolding strcat strlen
strcat_lem [] s = (refl, omega arith)
strcat_lem (c ∷ d) s = let rest = strcat_lem d s in (ap (λ r. c ∷ r) rest.0, omega (arith, rest.1))

pub strlen-length : (s : Chars) → strlen s ≡ length s
unfolding strlen
strlen-length [] = refl
strlen-length (c ∷ s) = ap suc (strlen-length s)
