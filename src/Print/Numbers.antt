-- ===== src/Print/Numbers.antt =====
-- The text of a number reads back as the number.
use experiment.Base.{
  ℕ, zero, suc, ◌+◌, ◌-◌, ◌*◌, ◌/◌, ◌%◌, ◌^◌, ◌≤◌, ◌<◌, ◌≡◌, ◌≢◌, refl, ap, ap₂, sym, ◌∙◌, Bool,
  false, [], ◌∷◌, ◌++◌, arith, All, Bool-cases, inl, inr, ltb, leb, ◌==◌, ==_iff, if◌then◌else◌,
}
use native.Mathlib.Nat.{div-add-mod', mod-lt, div-lt_iff_lt-mul, pow-suc, pow-zero}
use experiment.Str.{Chars}
use experiment.Print.{
  minus, digit, digits, backwards, numeral, read_signed, is_negative, magnitude, signed_content,
}
use experiment.Base.Int.{ℤ, pos, negsuc}

-- The reading of a text in some base, digits of both cases.
abbrev pub digit_value : ℕ → ℕ
digit_value c = if ltb c 58 then c - 48 else if ltb c 71 then c - 55 else c - 87

pub read_number : (base so_far : ℕ) → Chars → ℕ
read_number base so_far [] = so_far
read_number base so_far (c ∷ cs) = read_number base (so_far * base + digit_value c) cs

read_number-snoc :
    (base so_far c : ℕ) (cs : Chars)
    → read_number base so_far (cs ++ (c ∷ [])) ≡ read_number base so_far cs * base + digit_value c
unfolding read_number
read_number-snoc base so_far c [] = refl
read_number-snoc base so_far c (d ∷ cs) = read_number-snoc base (so_far * base + digit_value d) c cs

digit_value-digit : (uppercase : Bool) (d : ℕ) → d < 16 → digit_value (digit uppercase d) ≡ d
unfolding digit
digit_value-digit uppercase d small = ground arith

read_number-digits :
    (room base v : ℕ) (uppercase : Bool)
    → 0 < base
    → base ≤ 16
    → v < base ^ room
    → read_number base 0 (backwards (digits room base uppercase v)) ≡ v
unfolding read_number digits backwards
read_number-digits zero base v uppercase some_base sixteen small =
    let one : base ^ 0 ≡ 1 = pow-zero base in omega (arith, one, small)
read_number-digits (suc room) base v uppercase some_base sixteen small =
    elim (Bool-cases (v == 0)) [
      | inl null ↦ rw null (sym ((==_iff v 0).0 null))
      | inr more ↦
          let less : v / base < base ^ room =
            (div-lt_iff_lt-mul some_base).1 (omega (arith, small, pow-suc base room)) in
          let last = v % base in
          let last_small : last < 16 = omega (arith, mod-lt v some_base, sixteen) in
          let value = digit_value-digit uppercase last last_small in
          let higher = read_number-digits room base (v / base) uppercase some_base sixteen less in
          rw more (
            read_number-snoc base 0 (digit uppercase last)
              (backwards (digits room base uppercase (v / base)))
            ∙ ap₂ (λ (q : ℕ) (r : ℕ). q * base + r) higher value
            ∙ div-add-mod' v base)
    ]

-- No digit is a sign.
abbrev IsUnsigned : Chars → Type 0
IsUnsigned = All (λ c. 48 ≤ c)

IsUnsigned-snoc : (c : ℕ) (cs : Chars) → 48 ≤ c → IsUnsigned cs → IsUnsigned (cs ++ (c ∷ []))
IsUnsigned-snoc c [] h k = (h, tt)
IsUnsigned-snoc c (d ∷ cs) h k = (k.0, IsUnsigned-snoc c cs h k.1)

digits-IsUnsigned :
    (room base v : ℕ) (uppercase : Bool) → IsUnsigned (backwards (digits room base uppercase v))
unfolding digits backwards digit
digits-IsUnsigned zero base v uppercase = tt
digits-IsUnsigned (suc room) base v uppercase = elim (Bool-cases (v == 0)) [
  | inl null ↦ rw null tt
  | inr more ↦ rw more (
      IsUnsigned-snoc (digit uppercase (v % base))
        (backwards (digits room base uppercase (v / base))) (ground arith)
        (digits-IsUnsigned room base (v / base) uppercase))
]

numeral-IsUnsigned :
    (room base v : ℕ) (uppercase : Bool) → IsUnsigned (numeral room base uppercase v)
unfolding numeral
numeral-IsUnsigned room base v uppercase = elim (Bool-cases (v == 0)) [
  | inl null ↦ rw null (omega arith, tt)
  | inr more ↦ rw more (digits-IsUnsigned room base v uppercase)
]

-- In a base of at most 16, with room for all its digits, the text of a number read in that base is
-- the number, in small and in capital digits, and 0 has a text as well.
pub read_number-numeral :
    (room base v : ℕ) (uppercase : Bool)
    → 2 ≤ base
    → base ≤ 16
    → v < base ^ room
    → (read_number base 0 (numeral room base uppercase v) ≡ v)
      × (numeral room base uppercase v ≢ [])
unfolding numeral read_number
read_number-numeral room base v uppercase two sixteen small = elim (Bool-cases (v == 0)) [
  | inl null ↦ rw null (ground (arith, (==_iff v 0).0 null), λ e. cc)
  | inr more ↦
      let reads = read_number-digits room base v uppercase (omega arith) sixteen small in
      rw more (
        reads,
        λ e. let null : 0 ≡ v = sym (ap (read_number base 0) e) ∙ reads in absurd (ground arith),
      )
]

-- The reading of a decimal number with a sign.
abbrev pub negated : ℕ → ℤ
negated zero = pos 0
negated (suc n) = negsuc n

abbrev pub read_int : Chars → ℤ
read_int [] = pos 0
read_int (c ∷ cs) =
    if c == minus then negated (read_number 10 0 cs) else pos (read_number 10 0 (c ∷ cs))

-- The number that `w` values stand for, half of them negative: `value` is slot modulo w, from -w/2 on.
pub IsValue : (w slot : ℕ) → ℤ → Type 0
IsValue w slot (pos n) = (n + n < w) × (n ≡ slot % w)
IsValue w slot (negsuc n) = (n + n + 2 ≤ w) × (slot % w + n + 1 ≡ w)

read_int-unsigned : (cs : Chars) → IsUnsigned cs → read_int cs ≡ pos (read_number 10 0 cs)
unfolding read_number
read_int-unsigned [] h = refl
read_int-unsigned (c ∷ cs) h = let plain : (c == minus) ≡ false = ground arith in rw plain refl

abbrev int_size : (length_mod : ℕ) → ℕ
int_size length_mod = if leb 1 length_mod then 2 ^ 64 else 2 ^ 32

read_signed-IsValue :
    (length_mod slot : ℕ) → IsValue (int_size length_mod) slot (read_signed length_mod slot)
unfolding read_signed IsValue
read_signed-IsValue length_mod slot = elim (Bool-cases (leb 1 length_mod)) [
  | inl long ↦ rw long (elim (Bool-cases (leb (2 ^ 63) (slot % 2 ^ 64))) [
    | inl below ↦ rw below (ground (arith, below), ground (arith, below))
    | inr above ↦ rw above (ground (arith, above), refl)
  ])
  | inr short ↦ rw short (elim (Bool-cases (leb (2 ^ 31) (slot % 2 ^ 32))) [
    | inl below ↦ rw below (ground (arith, below), ground (arith, below))
    | inr above ↦ rw above (ground (arith, above), refl)
  ])
]

-- A number of at most 64 bits, printed with its sign, reads back as itself.
read_int-signed :
    (w slot : ℕ) (value : ℤ)
    → w ≤ 2 ^ 64
    → IsValue w slot value
    → read_int (
        if is_negative value
        then minus ∷ numeral 64 10 false (magnitude value)
        else numeral 64 10 false (magnitude value))
      ≡ value
unfolding IsValue is_negative magnitude
read_int-signed w slot (pos n) small h =
    read_int-unsigned (numeral 64 10 false n) (numeral-IsUnsigned 64 10 n false)
    ∙ ap pos (read_number-numeral 64 10 n false (omega arith) (omega arith) (omega arith)).0
read_int-signed w slot (negsuc n) small h =
    let succ : n + 1 ≡ suc n = omega arith in
    ap negated
      ((read_number-numeral 64 10 (n + 1) false (omega arith) (omega arith) (omega arith)).0 ∙ succ)

-- What `%d` and `%i` print of an argument reads back as the argument, for every value, the least one
-- included: as the number from -2^31 to 2^31 - 1 that equals the slot modulo 2^32, or with `l` and
-- `ll` as that of 64 bits.
pub read_int-signed_content :
    (length_mod slot : ℕ)
    → IsValue
        (if leb 1 length_mod then 2 ^ 64 else 2 ^ 32)
        slot
        (read_int (signed_content length_mod slot))
unfolding signed_content
read_int-signed_content length_mod slot =
    let is = read_signed-IsValue length_mod slot in
    let reads =
      read_int-signed (int_size length_mod) slot (read_signed length_mod slot) (ground arith) is in
    rw reads is
