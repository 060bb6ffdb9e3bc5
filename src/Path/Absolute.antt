-- ===== src/Path/Absolute.antt =====
-- path_build_absolute: which path it resolves, and that it stays inside its buffer.
use experiment.Base.{
  ℕ, ◌+◌, ◌≤◌, ◌<◌, ◌≡◌, refl, ap, sym, subst, ◌∙◌, Bool, true, false, ◌&&◌, Option, none, some,
  List, [], ◌∷◌, ◌++◌, arith, length, length-append, Bool-cases, inl, inr, ◌==◌, ltb, if◌then◌else◌,
  lt→ltb,
}
use mathlib.Core.List.{reverse}
use experiment.Str.{Chars}
use experiment.Str.Copy.{strlen-length}
use experiment.Path.{
  slash, path_max_len, copy_from, root_of, ends_in_slash, or_slash, join_input, build_absolute,
}
use experiment.Path.Tokens.{parts, parts_from, add_part, resolve}
use experiment.Path.Output.{joined}
use experiment.Path.Simplify.{
  segments, normal, copy_from-fits, copy_from-bound, simplified-bound, simplified-normal,
}

-- In a buffer of two bytes or more the result and its terminator stay inside.
pub build_absolute-bound :
    (base input : Option Chars) (size : ℕ)
    → 2 ≤ size
    → length (build_absolute base input size) < size
unfolding build_absolute
build_absolute-bound base none size h =
    omega (arith, copy_from-bound size 0 (root_of base) (omega arith))
build_absolute-bound base (some []) size h =
    omega (arith, copy_from-bound size 0 (root_of base) (omega arith))
build_absolute-bound base (some (c ∷ input)) size h = elim (Bool-cases (c == slash)) [
  | inl abs ↦ rw abs ((simplified-bound size (copy_from size 0 (c ∷ input))).0 h)
  | inr rel ↦ rw rel ((simplified-bound size (join_input (root_of base) size (c ∷ input))).0 h)
]

add_part-append : (s : Chars) (xs ys : List Chars) → add_part s xs ++ ys ≡ add_part s (xs ++ ys)
add_part-append [] xs ys = refl
add_part-append (c ∷ s) xs ys = refl

-- A path that goes on after a slash: the parts of both, in order.
parts_from-slash :
    (s part t : Chars) → parts_from part (s ++ (slash ∷ t)) ≡ parts_from part s ++ parts t
unfolding parts_from parts
parts_from-slash [] part t = sym (add_part-append part [] (parts_from [] t))
parts_from-slash (c ∷ s) part t = elim (Bool-cases (c == slash)) [
  | inl cut ↦ rw cut (
      ap (λ r. add_part part r) (parts_from-slash s [] t)
      ∙ sym (add_part-append part (parts_from [] s) (parts_from [] t)))
  | inr keep ↦ rw keep (parts_from-slash s (part ++ (c ∷ [])) t)
]

parts_from-ends_in_slash :
    (s part t : Chars)
    → ends_in_slash s ≡ true
    → parts_from part (s ++ t) ≡ parts_from part s ++ parts t
unfolding parts_from parts ends_in_slash
parts_from-ends_in_slash [] part t e = cc
parts_from-ends_in_slash (c ∷ []) part t e = rw e (sym (add_part-append part [] (parts_from [] t)))
parts_from-ends_in_slash (c ∷ d ∷ s) part t e = elim (Bool-cases (c == slash)) [
  | inl cut ↦ rw cut (
      ap (λ r. add_part part r) (parts_from-ends_in_slash (d ∷ s) [] t e)
      ∙ sym (add_part-append part (parts_from [] (d ∷ s)) (parts_from [] t)))
  | inr keep ↦ rw keep (parts_from-ends_in_slash (d ∷ s) (part ++ (c ∷ [])) t e)
]

-- The separator between a root and a relative input that fit.
abbrev sep_of : Chars → Chars
sep_of root = if ends_in_slash root then [] else slash ∷ []

longer : (b : Chars) → ends_in_slash (slash ∷ b) ≡ false → 0 < length b
unfolding ends_in_slash
longer [] e = cc
longer (c ∷ b) e = omega arith

and_false : (a b : Bool) → (a && false && b) ≡ false
and_false true b = refl
and_false false b = refl

join_input-fits :
    (b input : Chars) (size : ℕ)
    → length (slash ∷ b) + 1 + length input < size
    → join_input (slash ∷ b) size input ≡ (slash ∷ b) ++ (sep_of (slash ∷ b) ++ input)
unfolding join_input or_slash
join_input-fits b input size h = elim (Bool-cases (ends_in_slash (slash ∷ b))) [
  | inl ends ↦ rw (
    copy_from-fits size 0 (slash ∷ b) (omega arith),
    strlen-length (slash ∷ b),
    ends,
    and_false (ltb 1 (length (slash ∷ b))) (ltb (length (slash ∷ b) + 1) size),
    copy_from-fits size (length (slash ∷ b) + 0) input (omega arith),
  )
  | inr more ↦ rw (
    copy_from-fits size 0 (slash ∷ b) (omega arith),
    strlen-length (slash ∷ b),
    more,
    lt→ltb 1 (length (slash ∷ b)) (omega (arith, longer b more)),
    lt→ltb (length (slash ∷ b) + 1) size (omega arith),
    copy_from-fits size (length (slash ∷ b) + 1) input (omega arith),
  )
]

parts-join :
    (root input : Chars) → parts (root ++ (sep_of root ++ input)) ≡ parts root ++ parts input
unfolding parts
parts-join root input = elim (Bool-cases (ends_in_slash root)) [
  | inl ends ↦ rw ends (parts_from-ends_in_slash root [] input ends)
  | inr more ↦ rw more (parts_from-slash root [] input)
]

resolve-append : (xs ys st : List Chars) → resolve st (xs ++ ys) ≡ resolve (resolve st xs) ys
unfolding resolve
resolve-append [] ys st = refl
resolve-append (x ∷ xs) ys st = resolve-append xs ys _

-- What a relative input names: the segments of the base, then its own parts, resolved in turn.
unfoldable pub relative_to : Chars → Chars → Chars
relative_to base input = slash ∷ joined (reverse (resolve (resolve [] (parts base)) (parts input)))

join_length :
    (root input : Chars) → length (root ++ (sep_of root ++ input)) ≤ length root + 1 + length input
join_length root input = elim (Bool-cases (ends_in_slash root)) [
  | inl ends ↦ rw ends (omega (arith, length-append root input))
  | inr more ↦ rw more (omega (arith, length-append root (slash ∷ input)))
]

normal-join :
    (b input : Chars)
    → normal ((slash ∷ b) ++ (sep_of (slash ∷ b) ++ input)) ≡ relative_to (slash ∷ b) input
unfolding normal segments relative_to
normal-join b input =
    ap (λ ss. slash ∷ joined (reverse ss))
      (ap (resolve []) (parts-join (slash ∷ b) input)
        ∙ resolve-append (parts (slash ∷ b)) (parts input) [])

-- A relative input, which is not empty, is resolved against a base that starts with a slash: the
-- result is the normal form of the base's segments followed by the input's parts, when the joined
-- path is below 256 bytes and it and the result fit the buffer.
pub build_absolute-relative :
    (b input : Chars) (c size : ℕ)
    → (c == slash) ≡ false
    → length (slash ∷ b) + 1 + length (c ∷ input) < size
    → length (slash ∷ b) + 1 + length (c ∷ input) < path_max_len
    → length (relative_to (slash ∷ b) (c ∷ input)) < size
    → build_absolute (some (slash ∷ b)) (some (c ∷ input)) size
      ≡ relative_to (slash ∷ b) (c ∷ input)
unfolding build_absolute relative_to root_of
build_absolute-relative b input c size rel fits short out =
    let e = normal-join b (c ∷ input) in
    rw (rel, join_input-fits b (c ∷ input) size fits)
      (simplified-normal size _ (omega (arith, join_length (slash ∷ b) (c ∷ input)))
          (subst (λ q. length q < size) (sym e) out)
        ∙ e)

-- An absolute input below 256 bytes, which fits the buffer as does its normal form, gives its
-- normal form, whatever the base.
pub build_absolute-absolute :
    (base : Option Chars) (input : Chars) (size : ℕ)
    → length (slash ∷ input) < size
    → length (slash ∷ input) < path_max_len
    → length (normal (slash ∷ input)) < size
    → build_absolute base (some (slash ∷ input)) size ≡ normal (slash ∷ input)
unfolding build_absolute
build_absolute-absolute base input size fits short out =
    rw (copy_from-fits size 0 (slash ∷ input) (omega arith))
      (simplified-normal size (slash ∷ input) short out)
