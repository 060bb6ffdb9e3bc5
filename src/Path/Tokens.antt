-- ===== src/Path/Tokens.antt =====
-- The loop of path_simplify against a plain reading of a path: its parts between slashes, resolved
-- from left to right.
use experiment.Base.{
  ℕ, zero, suc, ◌≤◌, ◌<◌, ◌≡◌, refl, ap, ◌∙◌, false, List, [], ◌∷◌, ◌++◌, arith, length, Bool-cases,
  inl, inr, ◌==◌, if◌then◌else◌,
}
use mathlib.Core.List.{append-nil, append_assoc}
use experiment.Str.{Chars}
use experiment.Path.{slash, skip_slashes, cut_segment, push_segment, segment_loop}

-- A finished part, if it is not empty, before the others.
abbrev pub add_part : Chars → List Chars → List Chars
add_part [] parts = parts
add_part (c ∷ cs) parts = (c ∷ cs) ∷ parts

-- The parts of a path, `part` having been read of the first.
unfoldable pub parts_from : (part : Chars) → Chars → List Chars
parts_from part [] = add_part part []
parts_from part (c ∷ p) =
    let next = parts_from (part ++ (c ∷ [])) p in
    let rest = add_part part (parts_from [] p) in if c == slash then rest else next

unfoldable pub parts : Chars → List Chars
unfolding parts_from
parts p = parts_from [] p

-- Resolved against the stack of the segments before.
unfoldable pub resolve : List Chars → List Chars → List Chars
resolve stack [] = stack
resolve stack (s ∷ rest) = resolve (push_segment s stack) rest

pub parts-nil : parts [] ≡ []
unfolding parts
parts-nil = refl

pub parts-skip_slashes : (p : Chars) → parts (skip_slashes p) ≡ parts p
unfolding parts skip_slashes
parts-skip_slashes [] = refl
parts-skip_slashes (c ∷ p) = elim (Bool-cases (c == slash)) [
  | inl skip ↦ rw skip (parts-skip_slashes p)
  | inr keep ↦ ground arith
]

add_part-parts_nil : (part : Chars) → add_part part [] ≡ add_part part (parts [])
unfolding parts
add_part-parts_nil part = refl

parts_from-cut_segment :
    (part p : Chars)
    → parts_from part p ≡ add_part (part ++ (cut_segment p).0) (parts (cut_segment p).1)
unfolding parts cut_segment
parts_from-cut_segment part [] = rw append-nil (add_part-parts_nil part)
parts_from-cut_segment part (c ∷ p) = elim (Bool-cases (c == slash)) [
  | inl cut ↦ rw (cut, append-nil)
  | inr keep ↦ rw keep (
      parts_from-cut_segment (part ++ (c ∷ [])) p
      ∙ ap (λ q. add_part q (parts (cut_segment p).1))
          (append_assoc part (c ∷ []) (cut_segment p).0))
]

-- A non-empty rest of a path that starts with no slash: its first part, then the parts of the rest.
parts-cut_segment :
    (c : ℕ) (p : Chars)
    → (c == slash) ≡ false
    → parts (c ∷ p) ≡ (cut_segment (c ∷ p)).0 ∷ parts (cut_segment (c ∷ p)).1
unfolding parts cut_segment
parts-cut_segment c p h = parts_from-cut_segment [] (c ∷ p) ∙ rw h

skip_slashes-shorter : (p : Chars) → length (skip_slashes p) ≤ length p
unfolding skip_slashes
skip_slashes-shorter [] = omega arith
skip_slashes-shorter (c ∷ p) = ground (arith, skip_slashes-shorter p)

skip_slashes-head : (p q : Chars) (c : ℕ) → skip_slashes p ≡ c ∷ q → (c == slash) ≡ false
unfolding skip_slashes
skip_slashes-head [] q c e = cc
skip_slashes-head (d ∷ p) q c e = ground (arith, skip_slashes-head p q c)

cut_segment-shorter : (p : Chars) → length (cut_segment p).1 ≤ length p
unfolding cut_segment
cut_segment-shorter [] = omega arith
cut_segment-shorter (c ∷ p) = ground (arith, cut_segment-shorter p)

cut_segment-cons_shorter : (c : ℕ) (p : Chars) → length (cut_segment (c ∷ p)).1 ≤ length p
unfolding cut_segment
cut_segment-cons_shorter c p = ground (arith, cut_segment-shorter p)

-- The loop resolves the parts of the buffer, if its fuel is above the buffer's length.
pub segment_loop-resolve :
    (fuel : ℕ) (p : Chars) (st : List Chars)
    → length p < fuel
    → segment_loop fuel p st ≡ resolve st (parts p)
unfolding segment_loop resolve
segment_loop-resolve zero p st h = absurd (omega arith)
segment_loop-resolve (suc fuel) p st h = go (skip_slashes p) refl (λ c q e.
    segment_loop-resolve fuel (cut_segment (c ∷ q)).1 (push_segment (cut_segment (c ∷ q)).0 st)
      (omega (arith, skip_slashes-shorter p, cut_segment-cons_shorter c q, ap length e)))
  where
    go :
        (q : Chars)
        → skip_slashes p ≡ q
        → ((c : ℕ) (q : Chars)
            → skip_slashes p ≡ c ∷ q
            → segment_loop fuel (cut_segment (c ∷ q)).1 (push_segment (cut_segment (c ∷ q)).0 st)
              ≡ resolve (push_segment (cut_segment (c ∷ q)).0 st) (parts (cut_segment (c ∷ q)).1))
        → segment_loop (suc fuel) p st ≡ resolve st (parts p)
    go [] e rec = rw (e, segment_loop, ← parts-skip_slashes p, e, parts-nil)
    go (c ∷ q) e rec =
        rw
          (
            e,
            segment_loop,
            ← parts-skip_slashes p,
            e,
            parts-cut_segment c q (skip_slashes-head p q c e),
          )
          (rec c q e)
