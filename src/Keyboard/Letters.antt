-- ===== src/Keyboard/Letters.antt =====
-- What the letter keys enter.
use experiment.Base.{
  ℕ, ◌+◌, ◌-◌, ◌%◌, ◌/◌, ◌<◌, ◌≡◌, ◌≢◌, refl, Bool, true, false, ◌&&◌, ◌||◌, not, ◌==◌,
  if◌then◌else◌, arith, holds_under, holds_under_lem, lt→ltb, Bool-cases, inl, inr,
}
use experiment.Keyboard.{enqueue_raw}
use experiment.Keyboard.Keys.{
  Keys, scancode_table_size, to_char, to_char_shifted, is_lower, is_upper, control, translated,
  enter_char, enqueue_char, plain_key, process_scancode,
}

-- What the tables say of a key whose plain character is a small letter: shifted, it is the capital
-- letter, and it is no modifier.
letter_fact : (code : ℕ) → Bool
letter_fact code =
    let plain = to_char code in
    not (is_lower plain)
    || (to_char_shifted code + 32 == plain)
      && not (code == 0x2A)
      && not (code == 0x36)
      && not (code == 0x1D)
      && not (code == 0x38)
      && not (code == 0x3A)

letter_facts : holds_under letter_fact scancode_table_size ≡ true
unfolding letter_fact holds_under is_lower to_char to_char_shifted
letter_facts = refl

pub letter_fact_lem :
    (code : ℕ)
    → code < scancode_table_size
    → is_lower (to_char code) ≡ true
    → (to_char_shifted code + 32 ≡ to_char code)
      × (code ≢ 0x2A)
      × (code ≢ 0x36)
      × (code ≢ 0x1D)
      × (code ≢ 0x38)
      × (code ≢ 0x3A)
unfolding letter_fact
letter_fact_lem code small letter =
    let fact = holds_under_lem letter_fact code small letter_facts in
    (
      ground (arith, fact, letter),
      ground (arith, fact, letter),
      ground (arith, fact, letter),
      ground (arith, fact, letter),
      ground (arith, fact, letter),
      ground (arith, fact, letter),
    )

==_false : {a b : ℕ} → a ≢ b → (a == b) ≡ false
==_false h = ground (arith, h)

-- The key of a letter goes through every test to its character.
pub process_scancode_plain :
    (code : ℕ) (k : Keys)
    → code < scancode_table_size
    → is_lower (to_char code) ≡ true
    → k.extended_scancode ≡ false
    → let queued : Keys = record k { raw = enqueue_raw code k.raw } in
      process_scancode code k ≡ enter_char (translated code queued) queued
unfolding process_scancode plain_key
process_scancode_plain code k small letter no_prefix =
    let f = letter_fact_lem code small letter in
    let whole : code % 128 ≡ code = omega (arith, small) in
    let pressed : code / 128 % 2 ≡ 0 = omega (arith, small) in
    let no_e0 : code ≢ 0xE0 = omega (arith, small) in
    rw
      (
        no_prefix,
        whole,
        pressed,
        ==_false no_e0,
        ==_false f.1,
        ==_false f.2,
        ==_false f.3,
        ==_false f.4,
        ==_false f.5,
        lt→ltb code scancode_table_size small,
      )
      refl

-- The control code of a letter is that of the letter it is small or capital of.
control_small : (c : ℕ) → is_lower c ≡ true → control c ≡ c - 96
unfolding control is_lower
control_small c h = ground (arith, h)

control_capital : (c d : ℕ) → is_lower d ≡ true → c + 32 ≡ d → control c ≡ d - 96
unfolding control is_lower is_upper
control_capital c d h e = ground (arith, h, e)

pub translated-letter :
    (code : ℕ) (k : Keys)
    → code < scancode_table_size
    → is_lower (to_char code) ≡ true
    → translated code k ≡ (
        if k.ctrl_pressed
        then to_char code - 96
        else if k.shift_pressed
        then (if k.caps_lock then to_char code else to_char code - 32)
        else if k.caps_lock
        then to_char code - 32
        else to_char code)
unfolding translated
translated-letter code k small letter =
    let f = (letter_fact_lem code small letter).0 in
    elim (Bool-cases k.ctrl_pressed) [
      | inr no_ctrl ↦ elim (Bool-cases k.shift_pressed) [
        | inl s ↦ elim (Bool-cases k.caps_lock) [
          | inl c ↦ rw (no_ctrl, s, c, letter) refl
          | inr c ↦ rw (no_ctrl, s, c) (omega (arith, f))
        ]
        | inr s ↦ elim (Bool-cases k.caps_lock) [
          | inl c ↦ rw (no_ctrl, s, c, letter) (omega (arith, f))
          | inr c ↦ rw (no_ctrl, s, c) refl
        ]
      ]
      | inl ctrl ↦
          let use_shift =
            if k.caps_lock && is_lower (to_char code)
            then not k.shift_pressed
            else k.shift_pressed in
          elim (Bool-cases use_shift) [
            | inl t ↦ rw (ctrl, t) (control_capital (to_char_shifted code) (to_char code) letter f)
            | inr t ↦ rw (ctrl, t) (control_small (to_char code) letter)
          ]
    ]

-- The character of a letter is not 0, and the one of Ctrl+P only with ctrl and p.
entered :
    (plain c : ℕ) (ctrl shift caps : Bool)
    → is_lower plain ≡ true
    → c ≡ (
        if ctrl
        then plain - 96
        else if shift
        then (if caps then plain else plain - 32)
        else if caps
        then plain - 32
        else plain)
    → ((c == 0) ≡ false) × ((c == 0x10) ≡ (ctrl && plain == 112))
unfolding is_lower
entered plain c true shift caps letter e = (ground (arith, letter, e), ground (arith, letter, e))
entered plain c false true true letter e = (ground (arith, letter, e), ground (arith, letter, e))
entered plain c false true false letter e = (ground (arith, letter, e), ground (arith, letter, e))
entered plain c false false true letter e = (ground (arith, letter, e), ground (arith, letter, e))
entered plain c false false false letter e = (ground (arith, letter, e), ground (arith, letter, e))

enter_char-at :
    (c : ℕ) (dump : Bool) (k : Keys)
    → (c == 0) ≡ false
    → (c == 0x10) ≡ dump
    → enter_char c k ≡ (if dump then record k { dumps = k.dumps + 1 } else enqueue_char c k)
unfolding enter_char
enter_char-at c dump k some_char e = rw (some_char, e) refl

-- A letter key, pressed without the prefix, enters its small letter, or the capital one if exactly one
-- of shift and caps lock is on; with ctrl, the control code of the letter, the same for both, but for p, with which nothing is
-- entered and the threads are listed. The scancode goes to the raw ring.
pub process_scancode-letter :
    (code : ℕ) (k : Keys)
    → let plain = to_char code in
      code < scancode_table_size
      → is_lower plain ≡ true
      → k.extended_scancode ≡ false
      → process_scancode code k ≡ (
          if k.ctrl_pressed && plain == 112
          then record k { raw = enqueue_raw code k.raw; dumps = k.dumps + 1 }
          else enqueue_char
              (if k.ctrl_pressed
                then plain - 96
                else if k.shift_pressed
                then (if k.caps_lock then plain else plain - 32)
                else if k.caps_lock
                then plain - 32
                else plain)
              (record k { raw = enqueue_raw code k.raw }))
process_scancode-letter code k small letter no_prefix =
    let queued : Keys = record k { raw = enqueue_raw code k.raw } in
    let is = entered (to_char code) _ k.ctrl_pressed k.shift_pressed k.caps_lock letter refl in
    rw
      (
        process_scancode_plain code k small letter no_prefix,
        translated-letter code queued small letter,
      )
      (enter_char-at _ (k.ctrl_pressed && to_char code == 112) queued is.0 is.1)
