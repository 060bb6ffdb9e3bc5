-- ===== src/Print/Counts.antt =====
-- The total that vcbprintf returns against the characters that it emits.
use experiment.Base.{
  ℕ, zero, suc, ◌+◌, ◌-◌, ◌*◌, ◌%◌, ◌^◌, ◌≤◌, ◌<◌, ◌≡◌, ◌≢◌, refl, ap, sym, ◌∙◌, ◌⊎◌, Bool, true,
  false, ◌&&◌, ◌||◌, not, Option, some, [], ◌∷◌, ◌++◌, arith, Bool-cases, inl, inr, ltb, ◌==◌,
  if◌then◌else◌, length, length-append, length-replicate, replicate, min,
}
use experiment.Str.{Chars}
use experiment.Print.{
  space, percent, numeral, emit_unsigned, read_unsigned, pad_of, field, Piece, convert_unsigned,
  convert_octal, convert_string, convert_content, signed_content, hex_content, null_text, convert,
  parse_align, parse_width, parse_length, behind, one_char, print_from, vcbprintf,
}

field-length :
    (left_align : Bool) (pad : ℕ) (content : Chars)
    → length (field left_align pad content) ≡ pad + length content
unfolding field
field-length true pad content =
    omega (arith, length-append content (replicate pad space), length-replicate pad space)
field-length false pad content =
    omega (arith, length-append (replicate pad space) content, length-replicate pad space)

convert_content-count :
    (left_align : Bool) (width : ℕ) (content : Chars)
    → let p = convert_content left_align width content in length p.chars ≡ p.total
unfolding convert_content
convert_content-count left_align width content =
    field-length left_align (pad_of width (length content)) content

convert_string-count :
    (left_align : Bool) (width : ℕ) (s : Chars)
    → length s < 2 ^ 31
    → let p = convert_string left_align width s in length p.chars ≡ p.total
unfolding convert_string
convert_string-count left_align width s small =
    let whole : min (length s) (2 ^ 31 - 1) ≡ length s = omega (arith, small) in
    field-length left_align (pad_of width (min (length s) (2 ^ 31 - 1))) s ∙ omega (arith, small)

-- The characters of a number that a conversion emits a second time.
pub repeated : (spec : ℕ) → (left_align : Bool) → (width value : ℕ) → ℕ
repeated spec left_align width value =
    if spec == 117
    then if ltb (length (emit_unsigned value 10 false)) width && not left_align
      then length (numeral 64 10 false value)
      else 0
    else if spec == 111
    then if left_align then 0 else length (numeral 64 8 false value)
    else 0

convert_unsigned-count :
    (left_align : Bool) (width value : ℕ)
    → let p = convert_unsigned left_align width value in
      length p.chars ≡ p.total + repeated 117 left_align width value
unfolding convert_unsigned repeated
convert_unsigned-count left_align width value =
    let out = emit_unsigned value 10 false in
    let pad = width - length out in
    let again = numeral 64 10 false value in
    ground (
      arith,
      length-append out (replicate pad space),
      length-append out (replicate pad space ++ again),
      length-append (replicate pad space) again,
      length-replicate pad space,
    )

convert_octal-count :
    (left_align : Bool) (width value : ℕ)
    → let p = convert_octal left_align width value in
      length p.chars ≡ p.total + repeated 111 left_align width value
unfolding convert_octal repeated
convert_octal-count left_align width value =
    let out = emit_unsigned value 8 false in
    let pad = pad_of width (length out) in
    let again = numeral 64 8 false value in
    ground (
      arith,
      length-append out (replicate pad space),
      length-append out (replicate pad space ++ again),
      length-append (replicate pad space) again,
      length-replicate pad space,
    )

repeated-other :
    (spec : ℕ) (left_align : Bool) (width value : ℕ)
    → spec ≢ 117
    → spec ≢ 111
    → repeated spec left_align width value ≡ 0
unfolding repeated
repeated-other spec left_align width value h k =
    let not_u : (spec == 117) ≡ false = ground arith in
    let not_o : (spec == 111) ≡ false = ground arith in rw (not_u, not_o) refl

plain-count :
    {spec : ℕ} (left_align : Bool) (width value : ℕ) (p : Piece)
    → spec ≢ 117
    → spec ≢ 111
    → length p.chars ≡ p.total
    → length p.chars ≡ p.total + repeated spec left_align width value
plain-count {spec} left_align width value p h k e =
    omega (arith, e, repeated-other spec left_align width value h k)

pub convert-count :
    (text : ℕ → Chars) (spec : ℕ) (left_align : Bool) (width length_mod slot : ℕ)
    → ((p : ℕ) → length (text p) < 2 ^ 31)
    → let p = convert text spec left_align width length_mod slot in
      length p.chars ≡ p.total + repeated spec left_align width (read_unsigned length_mod slot)
unfolding convert
convert-count text spec left_align width length_mod slot small =
    let value = read_unsigned length_mod slot in
    elim (Bool-cases (spec == 115)) [
      | inl e ↦
          rw (convert, e)
            (plain-count left_align width value
              (convert_string left_align width
                (if slot % 2 ^ 64 == 0 then null_text else text (slot % 2 ^ 64)))
              (ground arith) (ground arith)
              (convert_string-count left_align width
                (if slot % 2 ^ 64 == 0 then null_text else text (slot % 2 ^ 64))
                (shown (slot % 2 ^ 64))))
      | inr not_s ↦ elim (Bool-cases (spec == 99)) [
        | inl e ↦
            rw (convert, not_s, e)
              (plain-count left_align width value
                (convert_content left_align width (slot % 2 ^ 8 ∷ [])) (ground arith) (ground arith)
                (convert_content-count left_align width (slot % 2 ^ 8 ∷ [])))
        | inr not_c ↦ elim (Bool-cases (spec == 100 || spec == 105)) [
          | inl e ↦
              rw (convert, not_s, not_c, e)
                (plain-count left_align width value
                  (convert_content left_align width (signed_content length_mod slot)) (ground arith)
                  (ground arith)
                  (convert_content-count left_align width (signed_content length_mod slot)))
          | inr not_d ↦ elim (Bool-cases (spec == 117)) [
            | inl e ↦
                let u : spec ≡ 117 = ground arith in
                rw (convert, not_s, not_c, not_d, e)
                  (convert_unsigned-count left_align width value
                    ∙ ap
                        (λ k.
                          (convert_unsigned left_align width value).total
                          + repeated k left_align width value)
                        (sym u))
            | inr not_u ↦ elim (Bool-cases (spec == 120 || spec == 88 || spec == 112)) [
              | inl e ↦
                  rw (convert, not_s, not_c, not_d, not_u, e)
                    (plain-count left_align width value
                      (convert_content left_align width (hex_content spec length_mod slot))
                      (ground arith) (ground arith)
                      (convert_content-count left_align width (hex_content spec length_mod slot)))
              | inr not_x ↦ elim (Bool-cases (spec == 111)) [
                | inl e ↦
                    let o : spec ≡ 111 = ground arith in
                    rw (convert, not_s, not_c, not_d, not_u, not_x, e)
                      (convert_octal-count left_align width value
                        ∙ ap
                            (λ k.
                              (convert_octal left_align width value).total
                              + repeated k left_align width value)
                            (sym o))
                | inr not_o ↦
                    rw (convert, not_s, not_c, not_d, not_u, not_x, not_o)
                      (plain-count left_align width value
                        (record { chars = percent ∷ spec ∷ []; total = 2; slots = 0 })
                        (ground arith) (ground arith) refl)
              ]
            ]
          ]
        ]
      ]
    ]
  where
    shown : (p : ℕ) → length (if p == 0 then null_text else text p) < 2 ^ 31
    shown p = elim (Bool-cases (p == 0)) [
      | inl null ↦ rw null (omega arith)
      | inr there ↦ rw there (small p)
    ]

parse_width-shorter :
    (width : ℕ) (format : Chars) → length (parse_width width format).1 ≤ length format
unfolding parse_width
parse_width-shorter width [] = omega arith
parse_width-shorter width (c ∷ format) =
    ground (arith, parse_width-shorter ((width * 10 + (c - 48)) % 2 ^ 32) format)

parse_length-shorter :
    (length_mod : ℕ) (format : Chars) → length (parse_length length_mod format).1 ≤ length format
unfolding parse_length
parse_length-shorter length_mod [] = omega arith
parse_length-shorter length_mod (c ∷ format) =
    ground (arith, parse_length-shorter (suc length_mod) format)

parse_align-shorter : (format : Chars) → length (parse_align format).1 ≤ length format
unfolding parse_align
parse_align-shorter [] = omega arith
parse_align-shorter (c ∷ format) = ground arith

-- A run that ends, with at least as many characters as its total says.
pub record Prints (r : Option (Chars × ℕ)) : Type 0 where
  pub chars : Chars
  pub total : ℕ
  pub result : r ≡ some (chars, total)
  pub bound : total ≤ length chars

Prints-nil : Prints (some ([], 0))
Prints-nil = record { chars = []; total = 0; result = refl; bound = omega arith }

behind-Prints :
    (p : Piece) (r : Option (Chars × ℕ)) → p.total ≤ length p.chars → Prints r → Prints (behind p r)
unfolding behind
behind-Prints p r small h = record {
  chars = p.chars ++ h.chars;
  total = (p.total + h.total) % 2 ^ 32;
  result = rw h.result refl;
  bound = omega (arith, length-append p.chars h.chars, small, h.bound);
}

nil_or_cons : (xs : Chars) → (xs ≡ []) ⊎ ((y : ℕ) × (ys : Chars) × (xs ≡ y ∷ ys))
nil_or_cons [] = inl refl
nil_or_cons (y ∷ ys) = inr (y, ys, refl)

print_from-Prints :
    (fuel : ℕ) (text : ℕ → Chars) (args : ℕ → ℕ) (i : ℕ) (format : Chars)
    → ((p : ℕ) → length (text p) < 2 ^ 31)
    → length format < fuel
    → Prints (print_from fuel text args i format)
unfolding print_from
print_from-Prints zero text args i format small enough = absurd (omega arith)
print_from-Prints (suc fuel) text args i [] small enough = Prints-nil
print_from-Prints (suc fuel) text args i (c ∷ []) small enough = elim (Bool-cases (c == percent)) [
  | inl e ↦ rw (print_from, e) Prints-nil
  | inr plain ↦
      rw (print_from, plain)
        (behind-Prints (one_char c) (print_from fuel text args i []) (omega arith)
          (print_from-Prints fuel text args i [] small (omega arith)))
]
print_from-Prints (suc fuel) text args i (c ∷ d ∷ flags) small enough =
    elim (Bool-cases (c == percent)) [
      | inr plain ↦
          rw (print_from, plain)
            (behind-Prints (one_char c) (print_from fuel text args i (d ∷ flags)) (omega arith)
              (print_from-Prints fuel text args i (d ∷ flags) small (omega arith)))
      | inl conversion ↦ elim (Bool-cases (d == percent)) [
        | inl double ↦
            rw (print_from, conversion, double)
              (behind-Prints (one_char percent) (print_from fuel text args i flags) (omega arith)
                (print_from-Prints fuel text args i flags small (omega arith)))
        | inr single ↦
            let align = parse_align (d ∷ flags) in
            let width = parse_width 0 align.1 in
            let length_mod = parse_length 0 width.1 in
            elim (nil_or_cons length_mod.1) [
              | inl e ↦ rw (print_from, conversion, single, e) Prints-nil
              | inr (spec, rest, e) ↦
                  let piece = convert text spec align.0 width.0 length_mod.0 (args i) in
                  let count = convert-count text spec align.0 width.0 length_mod.0 (args i) small in
                  let shorter = ap length e in
                  rw (print_from, conversion, single, e)
                    (behind-Prints piece (print_from fuel text args (i + piece.slots) rest)
                      (omega (arith, count))
                      (print_from-Prints fuel text args (i + piece.slots) rest small (
                        omega (
                          arith,
                          shorter,
                          enough,
                          parse_align-shorter (d ∷ flags),
                          parse_width-shorter 0 align.1,
                          parse_length-shorter 0 width.1,
                        ))))
            ]
      ]
    ]

-- For texts of less than 2 ^ 31 characters, vcbprintf ends on every format, well-formed or not, and
-- the total that it returns is at most the number of characters that it has emitted.
pub vcbprintf-Prints :
    (text : ℕ → Chars) (args : ℕ → ℕ) (format : Chars)
    → ((p : ℕ) → length (text p) < 2 ^ 31)
    → Prints (vcbprintf text args format)
unfolding vcbprintf
vcbprintf-Prints text args format small =
    print_from-Prints (suc (length format)) text args 0 format small (omega arith)
