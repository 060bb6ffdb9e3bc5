-- ===== src/Keyboard/Tests.antt =====
-- Runs of the ring of raw scancodes, and the theorem at one.
use experiment.Base.{◌≡◌, List, [], ◌∷◌, refl, replicate, true, false, some, arith, take}
use experiment.Keyboard.{RawRing, enqueue_raw}
use experiment.Keyboard.Keys.{
  Keys, process_scancode, extended_key, enqueue_sequence, sequence_of, enqueue_char, plain_key,
  translated, enter_char, to_char, to_char_shifted, is_lower, is_upper, control, wake,
}
use experiment.Keyboard.Letters.{process_scancode-letter}
use experiment.Keyboard.Fifo.{
  Call, scancode, read, run_ring, run_queue, run_ring-queue, flushed-Holds,
}

abbrev fresh_ring : RawRing
fresh_ring = record { raw_buffer = replicate 256 0; raw_write_ptr = 0; raw_read_ptr = 0 }

abbrev some_calls : List Call
some_calls = scancode 30 ∷ scancode 158 ∷ read 1 ∷ scancode 48 ∷ read 8 ∷ read 8 ∷ []

run_ring-queue_example : run_ring some_calls fresh_ring ≡ run_queue some_calls []
run_ring-queue_example =
    run_ring-queue some_calls fresh_ring [] (flushed-Holds (replicate 256 0) refl)

queue_runs : run_queue some_calls [] ≡ (30 ∷ []) ∷ (158 ∷ 48 ∷ []) ∷ [] ∷ []
unfolding run_queue
queue_runs = refl

-- A keyboard with shift pressed, and thread 7 waiting for a character.
abbrev shifted_keys : Keys
shifted_keys = record {
  raw = fresh_ring;
  buffer = replicate 128 0;
  write_ptr = 0;
  read_ptr = 0;
  waiter = some 7;
  woken = [];
  shift_pressed = true;
  ctrl_pressed = false;
  alt_pressed = false;
  caps_lock = false;
  extended_scancode = false;
  dumps = 0;
}

-- The key of the letter a
process_scancode-letter_example :
    process_scancode 30 shifted_keys
    ≡ enqueue_char 65 (record shifted_keys { raw = enqueue_raw 30 fresh_ring })
unfolding is_lower to_char
process_scancode-letter_example = process_scancode-letter 30 shifted_keys (omega arith) refl refl

-- Its character wakes the thread that waits.
letter_wakes : (process_scancode 30 shifted_keys).woken ≡ 7 ∷ []
unfolding process_scancode plain_key translated enter_char enqueue_char wake to_char to_char_shifted
    is_lower
letter_wakes = refl

-- The prefix and the key Up enter an escape sequence.
up_runs :
    take 3 (process_scancode 0x48 (process_scancode 0xE0 shifted_keys)).buffer ≡ 27 ∷ 91 ∷ 65 ∷ []
unfolding process_scancode extended_key enqueue_sequence sequence_of enqueue_char wake
up_runs = refl

-- Ctrl+P enters nothing.
dump_runs :
    let k = process_scancode 25 (record shifted_keys { ctrl_pressed = true }) in
    (k.dumps ≡ 1) × (k.write_ptr ≡ 0)
unfolding process_scancode plain_key translated control enter_char to_char to_char_shifted is_lower
    is_upper
dump_runs = (refl, refl)
