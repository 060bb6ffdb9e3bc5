-- ===== src/Print.antt =====
-- The formatted printing of lib/string.c. The characters that go to the callback are a list in their
-- order. The arguments are the slots of 64 bits that va_arg reads one after the other, `args i`
-- being the one with number `i`; `text p` is the C string at the address `p`. An int is its 32
-- bits, and wraps around where it overflows.

pub mod Numbers
pub mod Counts
pub mod Buffer
mod Tests
use experiment.Base.{
  ℕ, zero, suc, ◌+◌, ◌-◌, ◌*◌, ◌/◌, ◌%◌, ◌^◌, Bool, true, false, ◌&&◌, ◌||◌, Option, none, some,
  List, [], ◌∷◌, ◌++◌, ltb, leb, ◌==◌, if◌then◌else◌, length, replicate, min,
}
use experiment.Base.Int.{ℤ, pos, negsuc}
use experiment.Str.{Chars}

-- The conversion characters.
abbrev pub space : ℕ
space = 32

abbrev pub percent : ℕ
percent = 37

abbrev pub minus : ℕ
minus = 45

-- "0123456789abcdef"[d] or its capitals
pub digit : (uppercase : Bool) → (d : ℕ) → ℕ
digit uppercase d = if ltb d 10 then 48 + d else if uppercase then 55 + d else 87 + d

-- The buffer of digits, the last digit first; it has room for `room`.
pub digits : (room base : ℕ) → (uppercase : Bool) → (value : ℕ) → List ℕ
unfolding digit
digits zero base uppercase v = []
digits (suc room) base uppercase v =
    let rest = digits room base uppercase (v / base) in
    if v == 0 then [] else digit uppercase (v % base) ∷ rest

pub backwards : List ℕ → List ℕ
backwards [] = []
backwards (c ∷ cs) = backwards cs ++ (c ∷ [])

pub numeral : (room base : ℕ) → (uppercase : Bool) → (value : ℕ) → Chars
unfolding digits backwards
numeral room base uppercase v = if v == 0 then 48 ∷ [] else backwards (digits room base uppercase v)

-- cb_emit_unsigned; what it returns is the length.
pub emit_unsigned : (value base : ℕ) → (uppercase : Bool) → Chars
unfolding numeral
emit_unsigned v base uppercase = numeral 32 base uppercase v

-- read_unsigned_arg and read_signed_arg
pub read_unsigned : (length_mod slot : ℕ) → ℕ
read_unsigned length_mod slot = if leb 1 length_mod then slot % 2 ^ 64 else slot % 2 ^ 32

pub read_signed : (length_mod slot : ℕ) → ℤ
read_signed length_mod slot =
    let w = if leb 1 length_mod then 2 ^ 64 else 2 ^ 32 in
    let v = slot % w in if leb (w / 2) v then negsuc (w - v - 1) else pos v

-- value < 0, and -(value + 1) + 1 then, as an unsigned number
pub is_negative : ℤ → Bool
is_negative (pos n) = false
is_negative (negsuc n) = true

pub magnitude : ℤ → ℕ
magnitude (pos n) = n
magnitude (negsuc n) = n + 1

-- The width is a signed int, whose upper half is negative.
pub pad_of : (width content_len : ℕ) → ℕ
pad_of width content_len =
    if ltb width (2 ^ 31) && ltb content_len width then width - content_len else 0

pub field : (left_align : Bool) → (pad : ℕ) → Chars → Chars
field left_align pad content =
    if left_align then content ++ replicate pad space else replicate pad space ++ content

-- What a conversion emits, what it adds to the total, and how many slots it reads.
pub record Piece : Type 0 where
  pub chars : Chars
  pub total : ℕ
  pub slots : ℕ

-- `%u`: the digits are out before the width is looked at.
pub convert_unsigned : (left_align : Bool) → (width value : ℕ) → Piece
unfolding emit_unsigned numeral
convert_unsigned left_align width value =
    let out = emit_unsigned value 10 false in
    let content_len = length out in
    let pad = width - content_len in
    if ltb content_len width
    then if left_align
      then record { chars = out ++ replicate pad space; total = content_len + pad; slots = 1 }
      else record {
        chars = out ++ (replicate pad space ++ numeral 64 10 false value);
        total = pad + content_len;
        slots = 1;
      }
    else record { chars = out; total = content_len; slots = 1 }

pub convert_octal : (left_align : Bool) → (width value : ℕ) → Piece
unfolding emit_unsigned numeral pad_of
convert_octal left_align width value =
    let out = emit_unsigned value 8 false in
    let pad = pad_of width (length out) in
    record {
      chars =
          if left_align
          then out ++ replicate pad space
          else out ++ (replicate pad space ++ numeral 64 8 false value);
      total = length out + pad;
      slots = 1;
    }

pub convert_string : (left_align : Bool) → (width : ℕ) → (s : Chars) → Piece
unfolding pad_of field
convert_string left_align width s =
    let content_len = min (length s) (2 ^ 31 - 1) in
    let pad = pad_of width content_len in
    record { chars = field left_align pad s; total = pad + content_len; slots = 1 }

-- The conversions that render into a buffer first.
pub convert_content : (left_align : Bool) → (width : ℕ) → (content : Chars) → Piece
unfolding pad_of field
convert_content left_align width content =
    let pad = pad_of width (length content) in
    record { chars = field left_align pad content; total = pad + length content; slots = 1 }

pub signed_content : (length_mod slot : ℕ) → Chars
unfolding read_signed is_negative magnitude numeral
signed_content length_mod slot =
    let value = read_signed length_mod slot in
    let number = numeral 64 10 false (magnitude value) in
    if is_negative value then minus ∷ number else number

-- `p` has the prefix "0x" and reads a pointer, `X` the capital digits.
pub hex_content : (spec length_mod slot : ℕ) → Chars
unfolding read_unsigned numeral
hex_content spec length_mod slot =
    if spec == 112
    then 48 ∷ 120 ∷ numeral 64 16 false (slot % 2 ^ 64)
    else numeral 64 16 (spec == 88) (read_unsigned length_mod slot)

-- "(null)"
abbrev pub null_text : Chars
null_text = 40 ∷ 110 ∷ 117 ∷ 108 ∷ 108 ∷ 41 ∷ []

-- The switch over `spec`: s, c, d and i, u, x and X and p, o.
pub convert :
    (text : ℕ → Chars) → (spec : ℕ) → (left_align : Bool) → (width length_mod slot : ℕ) → Piece
unfolding convert_string convert_content convert_unsigned convert_octal signed_content hex_content
    read_unsigned
convert text spec left_align width length_mod slot =
    if spec == 115
    then convert_string left_align width
        (if slot % 2 ^ 64 == 0 then null_text else text (slot % 2 ^ 64))
    else if spec == 99
    then convert_content left_align width (slot % 2 ^ 8 ∷ [])
    else if spec == 100 || spec == 105
    then convert_content left_align width (signed_content length_mod slot)
    else if spec == 117
    then convert_unsigned left_align width (read_unsigned length_mod slot)
    else if spec == 120 || spec == 88 || spec == 112
    then convert_content left_align width (hex_content spec length_mod slot)
    else if spec == 111
    then convert_octal left_align width (read_unsigned length_mod slot)
    else record { chars = percent ∷ spec ∷ []; total = 2; slots = 0 }

-- The flags before a conversion.
pub parse_align : Chars → Bool × Chars
parse_align [] = (false, [])
parse_align (c ∷ format) = if c == minus then (true, format) else (false, c ∷ format)

pub parse_width : (width : ℕ) → Chars → ℕ × Chars
parse_width width [] = (width, [])
parse_width width (c ∷ format) =
    let rest = parse_width ((width * 10 + (c - 48)) % 2 ^ 32) format in
    if leb 48 c && leb c 57 then rest else (width, c ∷ format)

pub parse_length : (length_mod : ℕ) → Chars → ℕ × Chars
parse_length length_mod [] = (length_mod, [])
parse_length length_mod (c ∷ format) =
    let rest = parse_length (suc length_mod) format in
    if c == 108 then rest else (length_mod, c ∷ format)

-- What follows a piece.
pub behind : Piece → Option (Chars × ℕ) → Option (Chars × ℕ)
behind p none = none
behind p (some (chars, total)) = some (p.chars ++ chars, (p.total + total) % 2 ^ 32)

abbrev pub one_char : ℕ → Piece
one_char c = record { chars = c ∷ []; total = 1; slots = 0 }

-- The characters and the total; `none` is a format longer than the fuel. `i` slots have been read.
pub print_from :
    (fuel : ℕ)
    → (text : ℕ → Chars) → (args : ℕ → ℕ) → (i : ℕ) → (format : Chars) → Option (Chars × ℕ)
unfolding convert parse_align parse_width parse_length behind
print_from zero text args i format = none
print_from (suc fuel) text args i [] = some ([], 0)
print_from (suc fuel) text args i (c ∷ format) = elim (c == percent) [
  | false ↦ behind (one_char c) (print_from fuel text args i format)
  | true ↦ elim format [
    | [] ↦ some ([], 0)
    | d ∷ flags ↦ elim (d == percent) [
      | true ↦ behind (one_char percent) (print_from fuel text args i flags)
      | false ↦
          let align = parse_align (d ∷ flags) in
          let width = parse_width 0 align.1 in
          let length_mod = parse_length 0 width.1 in
          elim length_mod.1 [
            | [] ↦ some ([], 0)
            | spec ∷ rest ↦
                let piece = convert text spec align.0 width.0 length_mod.0 (args i) in
                behind piece (print_from fuel text args (i + piece.slots) rest)
          ]
    ]
  ]
]

unfoldable pub vcbprintf :
    (text : ℕ → Chars) → (args : ℕ → ℕ) → (format : Chars) → Option (Chars × ℕ)
unfolding print_from
vcbprintf text args format = print_from (suc (length format)) text args 0 format

-- vsnprintk_callback for each character: how many are stored, and the buffer.
pub store_chars : (has_buffer : Bool) → (capacity stored : ℕ) → Chars → (ℕ → ℕ) → ℕ × (ℕ → ℕ)
store_chars has_buffer capacity stored [] buffer = (stored, buffer)
store_chars has_buffer capacity stored (c ∷ cs) buffer = elim (has_buffer && ltb stored capacity) [
  | true ↦
      store_chars has_buffer capacity (suc stored) cs (λ o. if o == stored then c else buffer o)
  | false ↦ store_chars has_buffer capacity stored cs buffer
]

-- The value returned, from count_callback, and the buffer; `has_buffer` is a pointer that is not
-- null.
pub vsnprintk :
    (text : ℕ → Chars)
    → (args : ℕ → ℕ) → (has_buffer : Bool) → (size : ℕ) → (format : Chars) → (buffer : ℕ → ℕ)
    → Option (ℕ × (ℕ → ℕ))
unfolding vcbprintf store_chars
vsnprintk text args has_buffer size format buffer = elim (vcbprintf text args format) [
  | none ↦ none
  | some (chars, total) ↦
      let kept = store_chars has_buffer (size - 1) 0 chars buffer in
      some (
        length chars % 2 ^ 32,
        if ltb 0 size && has_buffer then (λ o. if o == kept.0 then 0 else kept.1 o) else kept.1,
      )
]
