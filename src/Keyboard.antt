-- ===== src/Keyboard.antt =====
-- The ring of raw scancodes of drivers/keyboard.c.

pub mod Keys
pub mod Letters
pub mod Ring
pub mod Fifo
mod Tests
use experiment.Base.{
  ℕ, zero, suc, ◌+◌, ◌%◌, Bool, List, [], ◌∷◌, ◌==◌, if◌then◌else◌, get_or, set, not,
}

-- raw_buffer, raw_write_ptr and raw_read_ptr
pub record RawRing : Type 0 where
  pub raw_buffer : List ℕ
  pub raw_write_ptr : ℕ
  pub raw_read_ptr : ℕ

abbrev pub raw_buffer_size : ℕ
raw_buffer_size = 256

unfoldable pub enqueue_raw : (scancode : ℕ) → RawRing → RawRing
enqueue_raw scancode r =
    let next = (r.raw_write_ptr + 1) % raw_buffer_size in
    if next == r.raw_read_ptr
    then r
    else record r { raw_buffer = set r.raw_buffer r.raw_write_ptr scancode; raw_write_ptr = next }

-- The loop of keyboard_read_raw, with what it stores.
unfoldable pub read_loop : (max : ℕ) → RawRing → List ℕ × RawRing
read_loop zero r = ([], r)
read_loop (suc max) r =
    let rest = read_loop max (record r { raw_read_ptr = (r.raw_read_ptr + 1) % raw_buffer_size }) in
    if r.raw_read_ptr == r.raw_write_ptr
    then ([], r)
    else (get_or r.raw_buffer r.raw_read_ptr 0 ∷ rest.0, rest.1)

-- keyboard_read_raw, for an `out` that may be null
unfoldable pub read_raw : (has_out : Bool) (max : ℕ) → RawRing → List ℕ × RawRing
unfolding read_loop
read_raw has_out max r = if not has_out then ([], r) else read_loop max r
