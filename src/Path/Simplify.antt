-- ===== src/Path/Simplify.antt =====
-- path_simplify: inside its buffer, equal to the plain reading of the path, in normal form.
use experiment.Base.{
  ℕ, ◌+◌, ◌≤◌, ◌<◌, ◌≡◌, refl, ap, sym, subst, ◌∙◌, List, [], ◌∷◌, ◌++◌, arith, length, All,
  append-nil, append_assoc, lt→ltb,
}
use mathlib.Core.List.{reverse, reverse_aux, reverse-reverse}
use experiment.Str.{Chars}
use experiment.Path.{slash, path_max_len, path_max_segments, copy_from, segment_loop, simplified}
use experiment.Path.Tokens.{parts, parts_from, add_part, resolve, segment_loop-resolve}
use experiment.Path.Output.{slashed, joined, emit_path-bound, emit_path-fits, emit_path-full}
use experiment.Path.Segments.{
  NoSlash, IsSegment, parts-IsPart, resolve-IsSegment, resolve-length, resolve-segments,
}

-- The segments that a path names, in order.
unfoldable pub segments : Chars → List Chars
segments p = reverse (resolve [] (parts p))

-- The path in normal form.
unfoldable pub normal : Chars → Chars
unfolding segments
normal p = slash ∷ joined (segments p)

pub copy_from-fits : (n i : ℕ) (s : Chars) → i + length s < n → copy_from n i s ≡ s
unfolding copy_from
copy_from-fits n i [] h = refl
copy_from-fits n i (c ∷ s) h =
    rw (lt→ltb (i + 1) n (omega arith)) (ap (λ r. c ∷ r) (copy_from-fits n (i + 1) s (omega arith)))

pub copy_from-bound : (n i : ℕ) (s : Chars) → i < n → i + length (copy_from n i s) < n
unfolding copy_from
copy_from-bound n i [] h = omega arith
copy_from-bound n i (c ∷ s) h = ground (arith, copy_from-bound n (i + 1) s)

-- In a buffer of two bytes or more, path_simplify writes its terminator inside the buffer; in a
-- buffer of one byte it writes it one byte past the end.
pub simplified-bound :
    (size : ℕ) (p : Chars)
    → (2 ≤ size → length (simplified size p) < size)
      × (size ≡ 1 → length (simplified size p) ≡ size)
unfolding simplified
simplified-bound size p =
    let segs =
      reverse
        (segment_loop (length (copy_from path_max_len 0 p) + 1) (copy_from path_max_len 0 p) []) in
    (
      λ h. omega (arith, emit_path-bound size 1 segs h),
      λ e. rw (emit_path-full size 1 segs (omega arith)) (sym e),
    )

All-reverse_aux :
    (P : Chars → Type 0) (xs ys : List Chars) → All P xs → All P ys → All P (reverse_aux xs ys)
All-reverse_aux P [] ys hx hy = hy
All-reverse_aux P (x ∷ xs) ys hx hy = All-reverse_aux P xs (x ∷ ys) hx.1 (hx.0, hy)

pub segments-IsSegment : (p : Chars) → All IsSegment (segments p)
unfolding segments
segments-IsSegment p =
    All-reverse_aux IsSegment (resolve [] (parts p)) []
      (resolve-IsSegment (parts p) [] (parts-IsPart p) tt) tt

filled_of : (ss : List Chars) → All IsSegment ss → All (λ s. 0 < length s) ss
filled_of [] h = tt
filled_of (s ∷ ss) h = (h.0.part.filled, filled_of ss h.1)

-- A path below 256 bytes whose normal form fits the buffer comes out as its normal form: the
-- segments between slashes, without empty ones and single dots, each double dot taking back the
-- segment before it, and no more than 64 of them.
pub simplified-normal :
    (size : ℕ) (p : Chars)
    → length p < path_max_len
    → length (normal p) < size
    → simplified size p ≡ normal p
unfolding simplified normal segments
simplified-normal size p short fits =
    rw
      (
        copy_from-fits path_max_len 0 p (omega arith),
        segment_loop-resolve (length p + 1) p [] (omega arith),
      )
      (ap (λ r. slash ∷ r)
        (emit_path-fits size 1 (reverse (resolve [] (parts p)))
          (filled_of (reverse (resolve [] (parts p))) (segments-IsSegment p)) (omega arith)))

add_part-filled : (s : Chars) (rest : List Chars) → 0 < length s → add_part s rest ≡ s ∷ rest
add_part-filled [] rest h = absurd (omega arith)
add_part-filled (c ∷ s) rest h = refl

-- Reading segments joined by slashes gives the segments back.
parts_from-slashed :
    (rest : List Chars) (s part : Chars)
    → All IsSegment rest
    → NoSlash s
    → parts_from part (s ++ slashed rest) ≡ add_part (part ++ s) rest
unfolding parts_from slashed
parts_from-slashed [] [] part hr hs = rw append-nil
parts_from-slashed (t ∷ rest) [] part hr hs =
    rw (append-nil, parts_from-slashed rest t [] hr.1 hr.0.part.no_slash)
      (ap (λ r. add_part part r) (add_part-filled t rest hr.0.part.filled))
parts_from-slashed rest (c ∷ s) part hr hs = rw hs.0 (
    parts_from-slashed rest s (part ++ (c ∷ [])) hr hs.1
    ∙ ap (λ q. add_part q rest) (append_assoc part (c ∷ []) s))

parts-normal : (ss : List Chars) → All IsSegment ss → parts (slash ∷ joined ss) ≡ ss
unfolding parts parts_from joined
parts-normal [] h = refl
parts-normal (s ∷ ss) h =
    parts_from-slashed ss s [] h.1 h.0.part.no_slash ∙ add_part-filled s ss h.0.part.filled

length-reverse_aux : (xs ys : List Chars) → length (reverse_aux xs ys) ≡ length xs + length ys
length-reverse_aux [] ys = omega arith
length-reverse_aux (x ∷ xs) ys = omega (arith, length-reverse_aux xs (x ∷ ys))

length-segments : (p : Chars) → length (segments p) ≤ path_max_segments
unfolding segments
length-segments p =
    omega (
      arith,
      resolve-length (parts p) [] (omega arith),
      length-reverse_aux (resolve [] (parts p)) [],
    )

segments-joined :
    (ss : List Chars)
    → All IsSegment ss
    → length ss ≤ path_max_segments
    → segments (slash ∷ joined ss) ≡ ss
unfolding segments
segments-joined ss h small =
    rw (parts-normal ss h, resolve-segments ss [] h (omega arith)) (reverse-reverse ss)

-- The normal form of a normal form is itself.
normal_idempotent : (p : Chars) → normal (normal p) ≡ normal p
unfolding normal
normal_idempotent p =
    ap (λ ss. slash ∷ joined ss)
      (segments-joined (segments p) (segments-IsSegment p) (length-segments p))

-- For a path below 256 bytes whose normal form fits the buffer and is below 256 bytes, the normal
-- form is a fixed point: simplifying it again changes nothing.
pub simplified_idempotent :
    (size : ℕ) (p : Chars)
    → length p < path_max_len
    → length (normal p) < size
    → length (normal p) < path_max_len
    → simplified size (simplified size p) ≡ simplified size p
simplified_idempotent size p short fits small =
    let e = normal_idempotent p in
    rw (simplified-normal size p short fits)
      (simplified-normal size (normal p) small (subst (λ q. length q < size) (sym e) fits) ∙ e)
