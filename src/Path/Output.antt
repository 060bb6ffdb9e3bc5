-- ===== src/Path/Output.antt =====
-- The output loop of path_simplify: it stays inside the buffer, and it writes the segments joined by
-- slashes when they fit.
use experiment.Base.{
  ℕ, ◌+◌, ◌-◌, ◌≤◌, ◌<◌, ◌≡◌, refl, ap, List, [], ◌∷◌, ◌++◌, arith, length, length-append,
  Bool-cases, inl, inr, ltb, All, lt→ltb, le→ltb,
}
use experiment.Str.{Chars}
use experiment.Path.{slash, emit_segment, emit_slash, emit_path}

-- The segments, a slash before each; and the same less the first slash.
unfoldable pub slashed : List Chars → Chars
slashed [] = []
slashed (s ∷ rest) = slash ∷ (s ++ slashed rest)

unfoldable pub joined : List Chars → Chars
unfolding slashed
joined [] = []
joined (s ∷ rest) = s ++ slashed rest

emit_segment-bound :
    (size idx : ℕ) (s : Chars) → idx < size → idx + length (emit_segment size idx s) < size
unfolding emit_segment
emit_segment-bound size idx [] h = omega arith
emit_segment-bound size idx (c ∷ s) h = ground (arith, emit_segment-bound size (idx + 1) s)

emit_slash-bound :
    (size idx : ℕ) (rest : List Chars) → idx < size → idx + length (emit_slash size idx rest) < size
unfolding emit_slash
emit_slash-bound size idx [] h = omega arith
emit_slash-bound size idx (s ∷ rest) h = ground arith

-- The index that the output ends at is inside the buffer.
pub emit_path-bound :
    (size idx : ℕ) (segs : List Chars) → idx < size → idx + length (emit_path size idx segs) < size
unfolding emit_path
emit_path-bound size idx [] h = omega arith
emit_path-bound size idx (s ∷ rest) h = elim (Bool-cases (ltb idx (size - 1))) [
  | inr full ↦ rw full (omega arith)
  | inl room ↦
      let chars = emit_segment size idx s in
      let sep = emit_slash size (idx + length chars) rest in
      rw room (
        omega (
          arith,
          length-append chars (sep ++ emit_path size (idx + length chars + length sep) rest),
          length-append sep (emit_path size (idx + length chars + length sep) rest),
          emit_path-bound size (idx + length chars + length sep) rest
              (emit_slash-bound size (idx + length chars) rest (emit_segment-bound size idx s h)),
        ))
]

emit_segment-fits : (size idx : ℕ) (s : Chars) → idx + length s < size → emit_segment size idx s ≡ s
unfolding emit_segment
emit_segment-fits size idx [] h = refl
emit_segment-fits size idx (c ∷ s) h =
    rw (lt→ltb idx (size - 1) (omega arith))
      (ap (λ r. c ∷ r) (emit_segment-fits size (idx + 1) s (omega arith)))

-- Segments that are not empty come out joined when they fit.
pub emit_path-fits :
    (size idx : ℕ) (segs : List Chars)
    → All (λ s. 0 < length s) segs
    → idx + length (joined segs) < size
    → emit_path size idx segs ≡ joined segs
unfolding emit_path joined
emit_path-fits size idx [] filled h = refl
emit_path-fits size idx (s ∷ []) filled h =
    rw
      (
        lt→ltb idx (size - 1) (omega (arith, length-append {0} s [])),
        emit_segment-fits size idx s (omega (arith, length-append {0} s [])),
      )
      refl
emit_path-fits size idx (s ∷ t ∷ rest) filled h =
    let len = length-append s (slash ∷ (t ++ slashed rest)) in
    rw
      (
        lt→ltb idx (size - 1) (omega (arith, filled.0)),
        emit_segment-fits size idx s (omega arith),
        lt→ltb (idx + length s) (size - 1) (omega arith),
      )
      (ap (λ r. s ++ (slash ∷ r))
        (emit_path-fits size (idx + length s + 1) (t ∷ rest) filled.1 (omega arith)))

-- With no room left before the terminator nothing comes out.
pub emit_path-full :
    (size idx : ℕ) (segs : List Chars) → size - 1 ≤ idx → emit_path size idx segs ≡ []
unfolding emit_path
emit_path-full size idx [] h = refl
emit_path-full size idx (s ∷ rest) h = rw (le→ltb idx (size - 1) h)
