-- ===== src/Keyboard/Keys.antt =====
-- The translation of scancodes of drivers/keyboard.c, and the ring of characters it fills.
use experiment.Base.{
  ℕ, ◌+◌, ◌-◌, ◌%◌, ◌/◌, Bool, true, false, ◌&&◌, ◌||◌, not, Option, none, some, List, [], ◌∷◌,
  ◌==◌, ltb, leb, if◌then◌else◌, get_or, set,
}
use experiment.Keyboard.{RawRing, enqueue_raw}

abbrev pub scancode_table_size : ℕ
scancode_table_size = 84

abbrev pub scancode_to_char : List ℕ
scancode_to_char =
    0 ∷ 27 ∷ 49 ∷ 50 ∷ 51 ∷ 52 ∷ 53 ∷ 54 ∷ 55 ∷ 56 ∷ 57 ∷ 48 ∷ 45 ∷ 61 ∷ 8 ∷ 9 ∷ 113 ∷ 119 ∷ 101
    ∷ 114 ∷ 116 ∷ 121 ∷ 117 ∷ 105 ∷ 111 ∷ 112 ∷ 91 ∷ 93 ∷ 10 ∷ 0 ∷ 97 ∷ 115 ∷ 100 ∷ 102 ∷ 103 ∷ 104
    ∷ 106 ∷ 107 ∷ 108 ∷ 59 ∷ 39 ∷ 96 ∷ 0 ∷ 92 ∷ 122 ∷ 120 ∷ 99 ∷ 118 ∷ 98 ∷ 110 ∷ 109 ∷ 44 ∷ 46 ∷ 47
    ∷ 0 ∷ 42 ∷ 0 ∷ 32 ∷ 0 ∷ 0 ∷ 0 ∷ 0 ∷ 0 ∷ 0 ∷ 0 ∷ 0 ∷ 0 ∷ 0 ∷ 0 ∷ 0 ∷ 0 ∷ 0 ∷ 0 ∷ 0 ∷ 45 ∷ 0 ∷ 0
    ∷ 0 ∷ 43 ∷ 0 ∷ 0 ∷ 0 ∷ 0 ∷ 0 ∷ []

abbrev pub scancode_to_char_shifted : List ℕ
scancode_to_char_shifted =
    0 ∷ 27 ∷ 33 ∷ 64 ∷ 35 ∷ 36 ∷ 37 ∷ 94 ∷ 38 ∷ 42 ∷ 40 ∷ 41 ∷ 95 ∷ 43 ∷ 8 ∷ 9 ∷ 81 ∷ 87 ∷ 69 ∷ 82
    ∷ 84 ∷ 89 ∷ 85 ∷ 73 ∷ 79 ∷ 80 ∷ 123 ∷ 125 ∷ 10 ∷ 0 ∷ 65 ∷ 83 ∷ 68 ∷ 70 ∷ 71 ∷ 72 ∷ 74 ∷ 75 ∷ 76
    ∷ 58 ∷ 34 ∷ 126 ∷ 0 ∷ 124 ∷ 90 ∷ 88 ∷ 67 ∷ 86 ∷ 66 ∷ 78 ∷ 77 ∷ 60 ∷ 62 ∷ 63 ∷ 0 ∷ 42 ∷ 0 ∷ 32
    ∷ 0 ∷ 0 ∷ 0 ∷ 0 ∷ 0 ∷ 0 ∷ 0 ∷ 0 ∷ 0 ∷ 0 ∷ 0 ∷ 0 ∷ 0 ∷ 0 ∷ 0 ∷ 0 ∷ 45 ∷ 0 ∷ 0 ∷ 0 ∷ 43 ∷ 0 ∷ 0
    ∷ 0 ∷ 0 ∷ 0 ∷ []

-- keyboard_scancode_to_char and keyboard_scancode_to_char_shifted
unfoldable pub to_char : (scancode : ℕ) → ℕ
to_char scancode =
    if leb scancode_table_size scancode then 0 else get_or scancode_to_char scancode 0

unfoldable pub to_char_shifted : (scancode : ℕ) → ℕ
to_char_shifted scancode =
    if leb scancode_table_size scancode then 0 else get_or scancode_to_char_shifted scancode 0

-- The variables of keyboard.c. `waiter` is the thread in keyboard_waiter and `woken` the threads that
-- were made ready, the last first; `dumps` counts the calls of process_dump.
pub record Keys : Type 0 where
  pub raw : RawRing
  pub buffer : List ℕ
  pub write_ptr : ℕ
  pub read_ptr : ℕ
  pub waiter : Option ℕ
  pub woken : List ℕ
  pub shift_pressed : Bool
  pub ctrl_pressed : Bool
  pub alt_pressed : Bool
  pub caps_lock : Bool
  pub extended_scancode : Bool
  pub dumps : ℕ

abbrev pub buffer_size : ℕ
buffer_size = 128

unfoldable pub wake : Keys → Keys
wake k = elim k.waiter [ none ↦ k | some t ↦ record k { waiter = none; woken = t ∷ k.woken } ]

unfoldable pub enqueue_char : (c : ℕ) → Keys → Keys
enqueue_char c k =
    let next = (k.write_ptr + 1) % buffer_size in
    if next == k.read_ptr
    then k
    else wake (record k { buffer = set k.buffer k.write_ptr c; write_ptr = next })

unfoldable pub enqueue_sequence : (seq : List ℕ) → Keys → Keys
enqueue_sequence [] k = k
enqueue_sequence (c ∷ seq) k = enqueue_sequence seq (enqueue_char c k)

-- The escape sequence of a key with the prefix: the arrows, Home and End, and four with a tilde.
unfoldable pub sequence_of : (code : ℕ) → List ℕ
sequence_of code =
    if code == 0x48
    then 27 ∷ 91 ∷ 65 ∷ []
    else if code == 0x50
    then 27 ∷ 91 ∷ 66 ∷ []
    else if code == 0x4B
    then 27 ∷ 91 ∷ 68 ∷ []
    else if code == 0x4D
    then 27 ∷ 91 ∷ 67 ∷ []
    else if code == 0x47
    then 27 ∷ 91 ∷ 72 ∷ []
    else if code == 0x4F
    then 27 ∷ 91 ∷ 70 ∷ []
    else if code == 0x49
    then 27 ∷ 91 ∷ 53 ∷ 126 ∷ []
    else if code == 0x51
    then 27 ∷ 91 ∷ 54 ∷ 126 ∷ []
    else if code == 0x53
    then 27 ∷ 91 ∷ 51 ∷ 126 ∷ []
    else if code == 0x52
    then 27 ∷ 91 ∷ 50 ∷ 126 ∷ []
    else []

unfoldable pub extended_key : (code : ℕ) (is_release : Bool) → Keys → Keys
extended_key code is_release k =
    if code == 0x1D
    then record k { ctrl_pressed = not is_release }
    else if is_release
    then k
    else enqueue_sequence (sequence_of code) k

unfoldable pub is_lower : (c : ℕ) → Bool
is_lower c = leb 97 c && leb c 122

unfoldable pub is_upper : (c : ℕ) → Bool
is_upper c = leb 65 c && leb c 90

unfoldable pub control : (c : ℕ) → ℕ
control c = if is_lower c then c - 97 + 1 else if is_upper c then c - 65 + 1 else c

unfoldable pub translated : (code : ℕ) → Keys → ℕ
translated code k =
    let plain = to_char code in
    let use_shift =
      if k.caps_lock && is_lower plain then not k.shift_pressed else k.shift_pressed in
    let c = if use_shift then to_char_shifted code else to_char code in
    if k.ctrl_pressed then control c else c

-- Ctrl+P lists the threads.
unfoldable pub enter_char : (c : ℕ) → Keys → Keys
enter_char c k =
    if c == 0 then k else if c == 0x10 then record k { dumps = k.dumps + 1 } else enqueue_char c k

unfoldable pub plain_key : (code : ℕ) (is_release : Bool) → Keys → Keys
plain_key code is_release k =
    if code == 0x2A || code == 0x36
    then record k { shift_pressed = not is_release }
    else if code == 0x1D
    then record k { ctrl_pressed = not is_release }
    else if code == 0x38
    then record k { alt_pressed = not is_release }
    else if code == 0x3A && not is_release
    then record k { caps_lock = not k.caps_lock }
    else if is_release
    then k
    else if ltb code scancode_table_size
    then enter_char (translated code k) k
    else k

-- A scancode is a byte: its highest bit says that the key is released, the others are its code.
unfoldable pub process_scancode : (scancode : ℕ) → Keys → Keys
process_scancode scancode k =
    let is_release = not (scancode / 128 % 2 == 0) in
    let code = scancode % 128 in
    let queued : Keys = record k { raw = enqueue_raw scancode k.raw } in
    if scancode == 0xE0
    then record queued { extended_scancode = true }
    else if k.extended_scancode
    then extended_key code is_release (record queued { extended_scancode = false })
    else if code == 0x1D && is_release
    then record queued { ctrl_pressed = false }
    else plain_key code is_release queued
