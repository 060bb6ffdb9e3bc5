-- ===== src/Path.antt =====
-- The path functions of kernel/lib/path.c over C strings, lists of the bytes before the 0. A
-- function that fills a buffer of `size` bytes returns the string that it leaves there: its
-- terminator stands at the index that is the length of the string.
pub mod Tokens
mod Tests
pub mod Output
pub mod Segments
pub mod Simplify
pub mod Plain
pub mod Absolute
use experiment.Base.{
  ℕ, zero, suc, ◌+◌, ◌-◌, Bool, true, false, ◌&&◌, not, Option, none, some, List, [], ◌∷◌, ◌++◌,
  ltb, ◌==◌, if◌then◌else◌, length,
}
use experiment.Base.Int.{is_zero}
use experiment.Str.{Chars, strcmp, strlen}
use mathlib.Core.List.{reverse}

abbrev pub path_max_len : ℕ
path_max_len = 256

abbrev pub path_max_segments : ℕ
path_max_segments = 64

abbrev pub slash : ℕ
slash = b'/'

abbrev pub dot : Chars
dot = b'.' ∷ []

abbrev pub dot_dot : Chars
dot_dot = b'.' ∷ b'.' ∷ []

-- while (i + 1 < dst_size && src[i]) dst[i] = src[i], i++
pub copy_from : (dst_size i : ℕ) → Chars → Chars
copy_from n i [] = []
copy_from n i (c ∷ src) = if ltb (i + 1) n then c ∷ copy_from n (i + 1) src else []

-- `none` is a null pointer; the result `none` is a buffer left alone.
pub path_safe_copy : (dst : Bool) (dst_size : ℕ) (src : Option Chars) → Option Chars
unfolding copy_from
path_safe_copy dst n none = if dst && ltb 0 n then some [] else none
path_safe_copy dst n (some src) = if dst && ltb 0 n then some (copy_from n 0 src) else none

-- while (*p == '/') p++
unfoldable pub skip_slashes : Chars → Chars
skip_slashes [] = []
skip_slashes (c ∷ p) = let rest = skip_slashes p in if c == slash then rest else c ∷ p

-- while (*p && *p != '/') p++; if (*p) *p++ = 0: the segment, and what follows its slash.
pub cut_segment : Chars → Chars × Chars
cut_segment [] = ([], [])
cut_segment (c ∷ p) =
    let rest = cut_segment p in if c == slash then ([], p) else (c ∷ rest.0, rest.1)

unfoldable pub tail : List Chars → List Chars
tail [] = []
tail (s ∷ st) = st

-- The end of one round: `segments` is a stack, its top first.
pub push_segment : Chars → List Chars → List Chars
unfolding tail
push_segment segment segments =
    if is_zero (strcmp segment dot)
    then segments
    else if is_zero (strcmp segment dot_dot)
    then tail segments
    else if ltb (length segments) path_max_segments
    then segment ∷ segments
    else segments

-- The loop over the buffer. Each round shortens what is left, so that a fuel above the length of the
-- buffer is enough.
pub segment_loop : (fuel : ℕ) → Chars → List Chars → List Chars
segment_loop zero p segments = segments
segment_loop (suc fuel) p segments = elim (skip_slashes p) [
  | [] ↦ segments
  | c ∷ q ↦ let cut = cut_segment (c ∷ q) in segment_loop fuel cut.1 (push_segment cut.0 segments)
]

-- for (j = 0; seg[j] && idx < path_size - 1; j++) path[idx++] = seg[j]
pub emit_segment : (path_size idx : ℕ) → Chars → Chars
emit_segment size idx [] = []
emit_segment size idx (c ∷ seg) =
    if ltb idx (size - 1) then c ∷ emit_segment size (idx + 1) seg else []

-- The slash after a segment that is not the last.
pub emit_slash : (path_size idx : ℕ) → List Chars → Chars
emit_slash size idx [] = []
emit_slash size idx (s ∷ rest) = if ltb idx (size - 1) then slash ∷ [] else []

pub emit_path : (path_size idx : ℕ) → List Chars → Chars
unfolding emit_segment emit_slash
emit_path size idx [] = []
emit_path size idx (seg ∷ rest) =
    let chars = emit_segment size idx seg in
    let sep = emit_slash size (idx + length chars) rest in
    let others = emit_path size (idx + length chars + length sep) rest in
    if ltb idx (size - 1) then chars ++ (sep ++ others) else []

-- The string that path_simplify leaves in a buffer of `path_size` bytes, at least one.
pub simplified : (path_size : ℕ) → Chars → Chars
unfolding copy_from segment_loop skip_slashes cut_segment push_segment emit_path
simplified size path =
    let buffer = copy_from path_max_len 0 path in
    slash ∷ emit_path size 1 (reverse (segment_loop (length buffer + 1) buffer []))

-- `none` is the null pointer; an empty buffer is left alone.
pub path_simplify : Option Chars → (path_size : ℕ) → Option Chars
unfolding simplified
path_simplify none size = none
path_simplify (some path) size = if size == 0 then some path else some (simplified size path)

-- The root that a relative path is resolved against.
pub root_of : Option Chars → Chars
root_of none = slash ∷ []
root_of (some []) = slash ∷ []
root_of (some (c ∷ base)) = c ∷ base

-- Whether the string ends in a slash.
pub ends_in_slash : Chars → Bool
ends_in_slash [] = false
ends_in_slash (c ∷ []) = c == slash
ends_in_slash (c ∷ d ∷ s) = ends_in_slash (d ∷ s)

-- output[0] = '/' where the copy of the root came out empty, for a buffer of one byte.
pub or_slash : Chars → Chars
or_slash [] = slash ∷ []
or_slash (c ∷ s) = c ∷ s

-- for (i = 0; input[i] && idx + 1 < size; i++) output[idx++] = input[i]
pub join_input : (root : Chars) (size : ℕ) (input : Chars) → Chars
unfolding or_slash ends_in_slash copy_from
join_input root size input =
    let start = or_slash (copy_from size 0 root) in
    let sep =
      if ltb 1 (strlen start) && not (ends_in_slash start) && ltb (strlen start + 1) size
      then slash ∷ []
      else [] in
    start ++ (sep ++ copy_from size (strlen start + length sep) input)

-- The string left in `output`, a buffer of `size` bytes that is not null.
pub build_absolute : (base input : Option Chars) (size : ℕ) → Chars
unfolding join_input simplified root_of
build_absolute base none size = copy_from size 0 (root_of base)
build_absolute base (some []) size = copy_from size 0 (root_of base)
build_absolute base (some (c ∷ input)) size =
    if c == slash
    then simplified size (copy_from size 0 (c ∷ input))
    else simplified size (join_input (root_of base) size (c ∷ input))

-- `none` is a buffer left alone.
pub path_build_absolute : (output : Bool) (base input : Option Chars) (size : ℕ) → Option Chars
unfolding build_absolute
path_build_absolute output base input size =
    if output && ltb 0 size then some (build_absolute base input size) else none
