-- ===== src/Str/Compare.antt =====
-- Comparison: strcmp and strncmp decide equality, memcmp.
use experiment.Base.{
  ℕ, zero, suc, ◌≡◌, ◌≢◌, ◌↔◌, refl, true, false, [], ◌∷◌, ==_refl, arith, All, take,
}
use experiment.Base.Int.{is_zero}
use experiment.Str.{Chars, memcmp, strcmp, strncmp}

-- No byte of a C string is 0.
abbrev pub IsCString : Chars → Type 0
IsCString = All (λ c. c ≢ 0)

-- Two C strings compare equal exactly when they are the same.
pub strcmp-zero :
    (s t : Chars) → IsCString s → IsCString t → (is_zero (strcmp s t) ≡ true) ↔ (s ≡ t)
unfolding strcmp
strcmp-zero [] [] hs ht = (λ e. refl, λ e. refl)
strcmp-zero [] (d ∷ t) hs ht = (λ e. ground (arith, ht.0), λ e. cc)
strcmp-zero (c ∷ s) [] hs ht = (λ e. ground (arith, hs.0), λ e. cc)
strcmp-zero (c ∷ s) (d ∷ t) hs ht =
    let rest = strcmp-zero s t hs.1 ht.1 in
    (λ e. ground (arith, rest.0), λ e. ground (arith, rest.1))

-- strncmp over `n` bytes is zero on two C strings exactly when they agree in their first `n` bytes,
-- or up to their ends.
pub strncmp-zero :
    (s t : Chars) (n : ℕ)
    → IsCString s
    → IsCString t
    → (is_zero (strncmp s t n) ≡ true) ↔ (take n s ≡ take n t)
unfolding strncmp
strncmp-zero s t zero hs ht = (λ e. refl, λ e. refl)
strncmp-zero [] [] (suc n) hs ht = (λ e. refl, λ e. refl)
strncmp-zero [] (d ∷ t) (suc n) hs ht = (λ e. ground (arith, ht.0), λ e. cc)
strncmp-zero (c ∷ s) [] (suc n) hs ht = (λ e. ground (arith, hs.0), λ e. cc)
strncmp-zero (c ∷ s) (d ∷ t) (suc n) hs ht =
    let rest = strncmp-zero s t n hs.1 ht.1 in
    (λ e. ground (arith, rest.0), λ e. ground (arith, rest.1))

-- memcmp of a buffer with itself, and of two that differ in their first byte.
pub memcmp_self : (xs : Chars) (n : ℕ) → is_zero (memcmp xs xs n) ≡ true
unfolding memcmp
memcmp_self xs zero = refl
memcmp_self [] (suc n) = refl
memcmp_self (x ∷ xs) (suc n) = rw (==_refl x) (memcmp_self xs n)

pub memcmp_first :
    (c d : ℕ) (xs ys : Chars) (n : ℕ) → c ≢ d → is_zero (memcmp (c ∷ xs) (d ∷ ys) (suc n)) ≡ false
unfolding memcmp
memcmp_first c d xs ys n ne = ground arith
