-- ===== src/Path/Plain.antt =====
-- What path_simplify gives, by a definition of its own: the segments that are kept.
use experiment.Base.{
  ℕ, ◌<◌, ◌≡◌, ◌≢◌, refl, ap, sym, subst, ◌∙◌, false, ◌&&◌, List, [], ◌∷◌, ◌++◌, arith, length, All,
  ◌==◌, ltb, if◌then◌else◌, Bool-cases, inl, inr,
}
use mathlib.Core.List.{reverse}
use experiment.Str.{Chars, strcmp}
use experiment.Base.Int.{is_zero}
use experiment.Str.Compare.{IsCString}
use experiment.Path.{slash, dot, dot_dot, tail, path_max_len, push_segment, simplified}
use experiment.Path.Tokens.{parts, parts_from, add_part, resolve}
use experiment.Path.Output.{joined}
use experiment.Path.Simplify.{segments, normal, simplified-normal}

-- A part between two slashes is a name, or says to stay, or to go up.
pub data Move : Type 0 where
  stay : Move
  up : Move
  into : Chars → Move

unfoldable pub move_of : Chars → Move
move_of [] = into []
move_of (c ∷ []) = if c == b'.' then stay else into (c ∷ [])
move_of (c ∷ d ∷ []) = if (c == b'.') && (d == b'.') then up else into (c ∷ d ∷ [])
move_of (c ∷ d ∷ e ∷ s) = into (c ∷ d ∷ e ∷ s)

-- The directories that a path goes through, the last first: going up leaves the last one, at the root
-- it stays there, and below 64 directories there is no way into another.
unfoldable pub moved : Move → List Chars → List Chars
moved stay dirs = dirs
moved up [] = []
moved up (d ∷ dirs) = dirs
moved (into s) dirs = if ltb (length dirs) 64 then s ∷ dirs else dirs

unfoldable pub walked : List Chars → List Chars → List Chars
unfolding moved move_of
walked dirs [] = dirs
walked dirs (s ∷ rest) = walked (moved (move_of s) dirs) rest

unfoldable pub plain_path : Chars → Chars
unfolding walked
plain_path p = slash ∷ joined (reverse (walked [] (parts p)))

-- What the two comparisons of the code say.
no_chars : (is_zero (strcmp [] dot) ≡ false) × (is_zero (strcmp [] dot_dot) ≡ false)
unfolding strcmp
no_chars = (refl, refl)

one_char :
    (c : ℕ)
    → (is_zero (strcmp (c ∷ []) dot) ≡ (c == b'.')) × (is_zero (strcmp (c ∷ []) dot_dot) ≡ false)
unfolding strcmp
one_char c = (ground arith, ground arith)

two_chars :
    (c d : ℕ)
    → d ≢ 0
    → (is_zero (strcmp (c ∷ d ∷ []) dot) ≡ false)
      × (is_zero (strcmp (c ∷ d ∷ []) dot_dot) ≡ ((c == b'.') && (d == b'.')))
unfolding strcmp
two_chars c d h = (ground (arith, h), ground (arith, h))

more_chars :
    (c d e : ℕ) (s : Chars)
    → d ≢ 0
    → e ≢ 0
    → (is_zero (strcmp (c ∷ d ∷ e ∷ s) dot) ≡ false)
      × (is_zero (strcmp (c ∷ d ∷ e ∷ s) dot_dot) ≡ false)
unfolding strcmp
more_chars c d e s h k = (ground (arith, h, k), ground (arith, h, k))

push_segment-moved :
    (s : Chars) (dirs : List Chars) → IsCString s → push_segment s dirs ≡ moved (move_of s) dirs
unfolding push_segment tail moved move_of
push_segment-moved [] dirs h = rw (push_segment, no_chars.0, no_chars.1) refl
push_segment-moved (c ∷ []) dirs h = elim (Bool-cases (c == b'.')) [
  | inl e ↦ rw (push_segment, (one_char c).0, e) refl
  | inr e ↦ rw (push_segment, (one_char c).0, (one_char c).1, e) refl
]
push_segment-moved (c ∷ d ∷ []) [] h = elim (Bool-cases ((c == b'.') && (d == b'.'))) [
  | inl e ↦ rw (push_segment, (two_chars c d h.1.0).0, (two_chars c d h.1.0).1, e) refl
  | inr e ↦ rw (push_segment, (two_chars c d h.1.0).0, (two_chars c d h.1.0).1, e) refl
]
push_segment-moved (c ∷ d ∷ []) (t ∷ dirs) h = elim (Bool-cases ((c == b'.') && (d == b'.'))) [
  | inl e ↦ rw (push_segment, (two_chars c d h.1.0).0, (two_chars c d h.1.0).1, e) refl
  | inr e ↦ rw (push_segment, (two_chars c d h.1.0).0, (two_chars c d h.1.0).1, e) refl
]
push_segment-moved (c ∷ d ∷ e ∷ s) dirs h =
    let no = more_chars c d e s h.1.0 h.1.1.0 in rw (push_segment, no.0, no.1) refl

resolve-walked :
    (ps : List Chars) (dirs : List Chars) → All IsCString ps → resolve dirs ps ≡ walked dirs ps
unfolding resolve walked
resolve-walked [] dirs h = refl
resolve-walked (s ∷ ps) dirs h =
    resolve-walked ps (push_segment s dirs) h.1
    ∙ ap (λ d. walked d ps) (push_segment-moved s dirs h.0)

add_part-all :
    (s : Chars) (ps : List Chars) → IsCString s → All IsCString ps → All IsCString (add_part s ps)
add_part-all [] ps h k = k
add_part-all (c ∷ s) ps h k = (h, k)

snoc_all : (c : ℕ) (s : Chars) → c ≢ 0 → IsCString s → IsCString (s ++ (c ∷ []))
snoc_all c [] h k = (h, tt)
snoc_all c (d ∷ s) h k = (k.0, snoc_all c s h k.1)

parts_from-all : (part p : Chars) → IsCString part → IsCString p → All IsCString (parts_from part p)
unfolding parts_from
parts_from-all part [] h k = add_part-all part [] h tt
parts_from-all part (c ∷ p) h k = elim (Bool-cases (c == slash)) [
  | inl cut ↦ rw cut (add_part-all part (parts_from [] p) h (parts_from-all [] p tt k.1))
  | inr keep ↦ rw keep (parts_from-all (part ++ (c ∷ [])) p (snoc_all c part k.0 h) k.1)
]

parts-all : (p : Chars) → IsCString p → All IsCString (parts p)
unfolding parts
parts-all p h = parts_from-all [] p tt h

-- A string below 256 bytes whose plain form fits the buffer comes out in its plain form: a slash, then
-- the directories that the path goes through, with a slash between two. The parts between the slashes
-- are taken from left to right: nothing between two slashes is no part, a single dot stays, a double
-- dot goes back from the directory before it, or stays at the root, and any other part goes into a
-- directory, of which no more than 64 are taken.
pub simplified-plain_path :
    (size : ℕ) (p : Chars)
    → IsCString p
    → length p < path_max_len
    → length (plain_path p) < size
    → simplified size p ≡ plain_path p
unfolding plain_path normal segments
simplified-plain_path size p str short fits =
    let same : normal p ≡ plain_path p =
      ap (λ d. slash ∷ joined (reverse d)) (resolve-walked (parts p) [] (parts-all p str)) in
    simplified-normal size p short (subst (λ q. length q < size) (sym same) fits) ∙ same
