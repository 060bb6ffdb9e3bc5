-- ===== src/Fat32/Names.antt =====
-- fat_name_to_str and str_to_fat_name: the eleven characters of a directory entry and the name that
-- programs see. A C string is the list of its characters before the 0.
use experiment.Base.{
  ℕ, zero, suc, ◌-◌, ◌≤◌, ◌≡◌, refl, ap, ap₂, sym, ◌∙◌, Bool, true, false, ◌&&◌, not, List, [], ◌∷◌,
  ◌++◌, arith, All, leb, ◌==◌, if◌then◌else◌, length, drop, append-nil,
}

-- ' ' and '.'
abbrev pub space : ℕ
space = 32

abbrev pub dot : ℕ
dot = 46

-- At most `n` characters, up to the first space.
pub until_space : (n : ℕ) → List ℕ → List ℕ
until_space zero cs = []
until_space (suc n) [] = []
until_space (suc n) (c ∷ cs) = let rest = until_space n cs in if c == space then [] else c ∷ rest

-- What follows the name: nothing, or a dot and the extension.
pub extension_str : List ℕ → List ℕ
unfolding until_space
extension_str [] = []
extension_str (c ∷ cs) = if c == space then [] else dot ∷ until_space 3 (c ∷ cs)

-- The bytes it stores before the last 0. Read as a string they end at a 0 among them, if the entry
-- has one.
pub fat_name_to_str : (fat_name : List ℕ) → List ℕ
unfolding until_space extension_str
fat_name_to_str f = until_space 8 f ++ extension_str (drop 8 f)

-- 'a' to 'z' become 'A' to 'Z'.
pub to_upper : ℕ → ℕ
to_upper c = if leb 97 c && leb c 122 then c - 32 else c

-- The loop over the name: the characters it writes, with room for `n`, and what it has not read.
pub name_chars : (n : ℕ) → (filename : List ℕ) → List ℕ × List ℕ
unfolding to_upper
name_chars zero cs = ([], cs)
name_chars (suc n) [] = ([], [])
name_chars (suc n) (c ∷ cs) =
    let rest = name_chars n cs in if c == dot then ([], c ∷ cs) else (to_upper c ∷ rest.0, rest.1)

pub skip_to_dot : List ℕ → List ℕ
skip_to_dot [] = []
skip_to_dot (c ∷ cs) = let rest = skip_to_dot cs in if c == dot then c ∷ cs else rest

-- The loop over the extension.
pub extension_chars : (n : ℕ) → List ℕ → List ℕ
unfolding to_upper
extension_chars zero cs = []
extension_chars (suc n) [] = []
extension_chars (suc n) (c ∷ cs) = to_upper c ∷ extension_chars n cs

-- `n` places that memset filled with spaces, with characters written over the first ones.
pub pad : (n : ℕ) → List ℕ → List ℕ
pad zero cs = []
pad (suc n) [] = space ∷ pad n []
pad (suc n) (c ∷ cs) = c ∷ pad n cs

pub str_to_fat_name : (filename : List ℕ) → List ℕ
unfolding name_chars skip_to_dot extension_chars pad
str_to_fat_name s =
    let name = name_chars 8 s in
    pad 8 name.0 ++ pad 3 (elim (skip_to_dot name.1) [ [] ↦ [] | c ∷ cs ↦ extension_chars 3 cs ])

-- A character that stands for itself in both forms.
abbrev pub plain : ℕ → Bool
plain c = not (c == 0) && not (c == space) && not (c == dot) && not (leb 97 c && leb c 122)

abbrev pub IsPlain : List ℕ → Type 0
IsPlain = All (λ c. plain c ≡ true)

until_space-pad :
    (n : ℕ) (cs rest : List ℕ) → IsPlain cs → length cs ≤ n → until_space n (pad n cs ++ rest) ≡ cs
unfolding until_space pad
until_space-pad zero [] rest p small = refl
until_space-pad zero (c ∷ cs) rest p small = absurd (omega arith)
until_space-pad (suc n) [] rest p small = refl
until_space-pad (suc n) (c ∷ cs) rest p small =
    let ne : (c == space) ≡ false = ground arith in
    rw ne (ap (λ r. c ∷ r) (until_space-pad n cs rest p.1 (omega arith)))

to_upper-plain : (c : ℕ) → plain c ≡ true → to_upper c ≡ c
unfolding to_upper
to_upper-plain c h = ground arith

name_chars-plain :
    (n : ℕ) (cs rest : List ℕ)
    → IsPlain cs
    → length cs ≤ n
    → name_chars n (cs ++ (dot ∷ rest)) ≡ (cs, dot ∷ rest)
unfolding name_chars
name_chars-plain zero [] rest p small = refl
name_chars-plain zero (c ∷ cs) rest p small = absurd (omega arith)
name_chars-plain (suc n) [] rest p small = refl
name_chars-plain (suc n) (c ∷ cs) rest p small =
    let ne : (c == dot) ≡ false = ground arith in
    rw (ne, name_chars-plain n cs rest p.1 (omega arith))
      (ap (λ u. (u ∷ cs, dot ∷ rest)) (to_upper-plain c p.0))

name_chars-end : (n : ℕ) (cs : List ℕ) → IsPlain cs → length cs ≤ n → name_chars n cs ≡ (cs, [])
unfolding name_chars
name_chars-end zero [] p small = refl
name_chars-end zero (c ∷ cs) p small = absurd (omega arith)
name_chars-end (suc n) [] p small = refl
name_chars-end (suc n) (c ∷ cs) p small =
    let ne : (c == dot) ≡ false = ground arith in
    rw (ne, name_chars-end n cs p.1 (omega arith)) (ap (λ u. (u ∷ cs, [])) (to_upper-plain c p.0))

extension_chars-plain :
    (n : ℕ) (cs : List ℕ) → IsPlain cs → length cs ≤ n → extension_chars n cs ≡ cs
unfolding extension_chars
extension_chars-plain zero [] p small = refl
extension_chars-plain zero (c ∷ cs) p small = absurd (omega arith)
extension_chars-plain (suc n) [] p small = refl
extension_chars-plain (suc n) (c ∷ cs) p small =
    ap₂ ◌∷◌ (to_upper-plain c p.0) (extension_chars-plain n cs p.1 (omega arith))

drop-pad : (n : ℕ) (cs rest : List ℕ) → length cs ≤ n → drop n (pad n cs ++ rest) ≡ rest
unfolding pad
drop-pad zero [] rest small = refl
drop-pad zero (c ∷ cs) rest small = absurd (omega arith)
drop-pad (suc n) [] rest small = drop-pad n [] rest (omega arith)
drop-pad (suc n) (c ∷ cs) rest small = drop-pad n cs rest (omega arith)

extension_str-none : extension_str (pad 3 []) ≡ []
unfolding extension_str pad
extension_str-none = refl

extension_str-cons :
    (c : ℕ) (cs : List ℕ)
    → (c == space) ≡ false
    → extension_str (c ∷ cs) ≡ dot ∷ until_space 3 (c ∷ cs)
unfolding extension_str
extension_str-cons c cs ne = ap (λ (b : Bool). if b then [] else dot ∷ until_space 3 (c ∷ cs)) ne

extension_str-some :
    (c : ℕ) (e : List ℕ)
    → IsPlain (c ∷ e)
    → length e ≤ 2
    → extension_str (pad 3 (c ∷ e)) ≡ dot ∷ c ∷ e
unfolding pad
extension_str-some c e p small =
    let ne : (c == space) ≡ false = ground arith in
    let whole =
      ap (until_space 3) (sym (append-nil (pad 3 (c ∷ e))))
      ∙ until_space-pad 3 (c ∷ e) [] p (omega arith) in
    extension_str-cons c (pad 2 e) ne ∙ ap (λ r. dot ∷ r) whole

fat_name_to_str-pad :
    (n e : List ℕ)
    → IsPlain n
    → length n ≤ 8
    → fat_name_to_str (pad 8 n ++ pad 3 e) ≡ n ++ extension_str (pad 3 e)
unfolding fat_name_to_str
fat_name_to_str-pad n e p small =
    rw (until_space-pad 8 n (pad 3 e) p small, drop-pad 8 n (pad 3 e) small) refl

-- If name and extension are at most eight and three characters, none of them a 0, a space, a dot or a
-- small letter, then the text that programs see for a directory entry with this name, looked up
-- again, is the name of that entry.
pub str_to_fat_name-fat_name_to_str :
    (n e : List ℕ)
    → IsPlain n
    → IsPlain e
    → length n ≤ 8
    → length e ≤ 3
    → str_to_fat_name (fat_name_to_str (pad 8 n ++ pad 3 e)) ≡ pad 8 n ++ pad 3 e
unfolding str_to_fat_name skip_to_dot
str_to_fat_name-fat_name_to_str n [] p q small few =
    rw
      (
        fat_name_to_str-pad n [] p small,
        extension_str-none,
        append-nil n,
        name_chars-end 8 n p small,
      )
      refl
str_to_fat_name-fat_name_to_str n (c ∷ e) p q small few =
    rw
      (
        fat_name_to_str-pad n (c ∷ e) p small,
        extension_str-some c e q (omega arith),
        name_chars-plain 8 n (c ∷ e) p small,
      )
      (ap (λ r. pad 8 n ++ pad 3 r) (extension_chars-plain 3 (c ∷ e) q few))
