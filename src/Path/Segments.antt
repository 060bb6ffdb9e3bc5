-- ===== src/Path/Segments.antt =====
-- The segments that path_simplify keeps: what a part between slashes is, and what the stack holds.
use experiment.Base.{
  ◌+◌, ◌≤◌, ◌<◌, ◌≡◌, refl, false, List, [], ◌∷◌, ◌++◌, arith, length, Bool-cases, inl, inr, ◌==◌,
  ltb, All, lt→ltb,
}
use experiment.Base.Int.{is_zero}
use mathlib.Core.List.{reverse_aux}
use experiment.Str.{Chars, strcmp}
use experiment.Path.{slash, dot, dot_dot, path_max_segments, tail, push_segment}
use experiment.Path.Tokens.{parts, parts_from, add_part, resolve}

abbrev pub NoSlash : Chars → Type 0
NoSlash = All (λ c. (c == slash) ≡ false)

-- A part as it stands between slashes.
pub record IsPart (s : Chars) : Type 0 where
  pub filled : 0 < length s
  pub no_slash : NoSlash s

-- A part that names an entry: neither `.` nor `..`.
pub record IsSegment (s : Chars) : Type 0 where
  pub part : IsPart s
  pub not_dot : is_zero (strcmp s dot) ≡ false
  pub not_dot_dot : is_zero (strcmp s dot_dot) ≡ false

NoSlash-append : (s t : Chars) → NoSlash s → NoSlash t → NoSlash (s ++ t)
NoSlash-append [] t hs ht = ht
NoSlash-append (c ∷ s) t hs ht = (hs.0, NoSlash-append s t hs.1 ht)

add_part-IsPart :
    (s : Chars) (rest : List Chars) → NoSlash s → All IsPart rest → All IsPart (add_part s rest)
add_part-IsPart [] rest hs hr = hr
add_part-IsPart (c ∷ s) rest hs hr = (record { filled = omega arith; no_slash = hs }, hr)

pub parts_from-IsPart : (s p : Chars) → NoSlash s → All IsPart (parts_from s p)
unfolding parts_from
parts_from-IsPart s [] hs = add_part-IsPart s [] hs tt
parts_from-IsPart s (c ∷ p) hs = elim (Bool-cases (c == slash)) [
  | inl cut ↦ rw cut (add_part-IsPart s (parts_from [] p) hs (parts_from-IsPart [] p tt))
  | inr keep ↦
      rw keep (parts_from-IsPart (s ++ (c ∷ [])) p (NoSlash-append s (c ∷ []) hs (keep, tt)))
]

pub parts-IsPart : (p : Chars) → All IsPart (parts p)
unfolding parts
parts-IsPart p = parts_from-IsPart [] p tt

-- A stack of segments stays one, of 64 at most.
tail-All : (st : List Chars) → All IsSegment st → All IsSegment (tail st)
unfolding tail
tail-All [] h = h
tail-All (s ∷ st) h = h.1

push_segment-IsSegment :
    (s : Chars) (st : List Chars) → IsPart s → All IsSegment st → All IsSegment (push_segment s st)
unfolding push_segment tail
push_segment-IsSegment s st hs hst = elim (Bool-cases (is_zero (strcmp s dot))) [
  | inl here ↦ rw here hst
  | inr on ↦ rw on (elim (Bool-cases (is_zero (strcmp s dot_dot))) [
    | inl up ↦ rw up (tail-All st hst)
    | inr down ↦ rw down (elim (Bool-cases (ltb (length st) path_max_segments)) [
      | inl room ↦ rw room (record { part = hs; not_dot = on; not_dot_dot = down }, hst)
      | inr full ↦ rw full hst
    ])
  ])
]

push_segment-length :
    (s : Chars) (st : List Chars)
    → length st ≤ path_max_segments
    → length (push_segment s st) ≤ path_max_segments
unfolding push_segment tail
push_segment-length s [] h = ground arith
push_segment-length s (t ∷ st) h = ground arith

pub resolve-IsSegment :
    (ss st : List Chars) → All IsPart ss → All IsSegment st → All IsSegment (resolve st ss)
unfolding resolve
resolve-IsSegment [] st hs hst = hst
resolve-IsSegment (s ∷ ss) st hs hst =
    resolve-IsSegment ss (push_segment s st) hs.1 (push_segment-IsSegment s st hs.0 hst)

pub resolve-length :
    (ss st : List Chars)
    → length st ≤ path_max_segments
    → length (resolve st ss) ≤ path_max_segments
unfolding resolve
resolve-length [] st h = h
resolve-length (s ∷ ss) st h = resolve-length ss (push_segment s st) (push_segment-length s st h)

-- Segments are pushed as they are while there is room.
push_segment-push :
    (s : Chars) (st : List Chars)
    → IsSegment s
    → length st < path_max_segments
    → push_segment s st ≡ s ∷ st
unfolding push_segment
push_segment-push s st hs h =
    rw (hs.not_dot, hs.not_dot_dot, lt→ltb (length st) path_max_segments h)

pub resolve-segments :
    (ss st : List Chars)
    → All IsSegment ss
    → length ss + length st ≤ path_max_segments
    → resolve st ss ≡ reverse_aux ss st
unfolding resolve
resolve-segments [] st hs h = refl
resolve-segments (s ∷ ss) st hs h =
    rw (push_segment-push s st hs.0 (omega arith)) (resolve-segments ss (s ∷ st) hs.1 (omega arith))
