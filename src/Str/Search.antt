-- ===== src/Str/Search.antt =====
-- strrchr: where the last occurrence of a byte stands.
use experiment.Base.{
  ℕ, suc, ◌+◌, ◌≡◌, ◌≢◌, refl, ap, ◌∙◌, ◌⊎◌, Bool, false, ◌||◌, Option, none, some, [], ◌∷◌, ◌++◌,
  arith, Bool-cases, inl, inr, ◌==◌, ==_iff, take, drop, length,
}
use experiment.Str.{Chars, strlen, strrchr, strrchr_from}

abbrev pub has : ℕ → Chars → Bool
has c [] = false
has c (d ∷ s) = (d == c) || has c s

-- The string cut at its last `c`.
pub record CutsAt (c k : ℕ) (s : Chars) : Type 0 where
  pub parts : s ≡ take k s ++ (c ∷ drop (suc k) s)
  pub last : has c (drop (suc k) s) ≡ false

strrchr_from-cases :
    (at c : ℕ) (found : Option ℕ) (s : Chars)
    → c ≢ 0
    → ((has c s ≡ false) × (strrchr_from at found s c ≡ found))
      ⊎ ((k : ℕ) × (strrchr_from at found s c ≡ some (at + k)) × CutsAt c k s)
unfolding strrchr_from
strrchr_from-cases at c found [] ne =
    let none_here : (0 == c) ≡ false = ground arith in rw none_here (inl (refl, refl))
strrchr_from-cases at c found (d ∷ s) ne = elim (Bool-cases (d == c)) [
  | inl e ↦
      rw (strrchr_from, e)
        (elim (strrchr_from-cases (at + 1) c (some at) s ne) [
          | inl (out, r) ↦ inr (
            0,
            r ∙ ap some (omega arith),
            record { parts = ap (λ x. x ∷ s) ((==_iff d c).0 e); last = out },
          )
          | inr (k, r, cut) ↦ inr (
            suc k,
            r ∙ ap some (omega arith),
            record { parts = ap (λ r. d ∷ r) cut.parts; last = cut.last },
          )
        ])
  | inr n ↦
      rw (strrchr_from, n)
        (elim (strrchr_from-cases (at + 1) c found s ne) [
          | inl (out, r) ↦ inl (out, r)
          | inr (k, r, cut) ↦ inr (
            suc k,
            r ∙ ap some (omega arith),
            record { parts = ap (λ r. d ∷ r) cut.parts; last = cut.last },
          )
        ])
]

-- For a byte that is not 0, strrchr finds nothing exactly when the string does not have it, and
-- otherwise the place of its last occurrence.
pub strrchr-cases :
    (c : ℕ) (s : Chars)
    → c ≢ 0
    → ((has c s ≡ false) × (strrchr s c ≡ none)) ⊎ ((k : ℕ) × (strrchr s c ≡ some k) × CutsAt c k s)
unfolding strrchr
strrchr-cases c s ne = elim (strrchr_from-cases 0 c none s ne) [
  | inl h ↦ inl h
  | inr (k, r, cut) ↦ inr (k, r ∙ ap some (omega arith), cut)
]

pub strlen-length : (s : Chars) → strlen s ≡ length s
unfolding strlen
strlen-length [] = refl
strlen-length (c ∷ s) = ap suc (strlen-length s)
