-- ===== src/Keyboard/Fifo.antt =====
-- The ring of raw scancodes as a queue: what a reader gets from any sequence of calls.
use experiment.Base.{
  ℕ, ◌≡◌, refl, ap₂, true, List, [], ◌∷◌, ◌++◌, length, take, drop, ltb, if◌then◌else◌, arith,
}
use experiment.Keyboard.{RawRing, raw_buffer_size, enqueue_raw, read_raw}
use experiment.Keyboard.Ring.{Holds, enqueue_raw-Holds, read_loop-Holds, span}

-- An interrupt brings a scancode, or a program reads `max` of them at most.
pub data Call : Type 0 where
  scancode : ℕ → Call
  read : (max : ℕ) → Call

-- What the reads give, on the ring, and on a queue that drops what does not fit in 255 places.
unfoldable pub run_ring : List Call → RawRing → List (List ℕ)
run_ring [] r = []
run_ring (scancode c ∷ calls) r = run_ring calls (enqueue_raw c r)
run_ring (read max ∷ calls) r = let taken = read_raw true max r in taken.0 ∷ run_ring calls taken.1

unfoldable pub run_queue : List Call → (queue : List ℕ) → List (List ℕ)
run_queue [] queue = []
run_queue (scancode c ∷ calls) queue =
    run_queue calls (if ltb (length queue) 255 then queue ++ (c ∷ []) else queue)
run_queue (read max ∷ calls) queue = take max queue ∷ run_queue calls (drop max queue)

-- Refinement: on a ring that is in order and holds a queue, every sequence of scancodes and reads
-- gives the reads what the queue gives them, oldest first; a scancode is lost only while 255 are
-- held.
pub run_ring-queue :
    (calls : List Call) (r : RawRing) (queue : List ℕ)
    → Holds r queue
    → run_ring calls r ≡ run_queue calls queue
unfolding run_ring run_queue read_raw
run_ring-queue [] r queue h = refl
run_ring-queue (scancode c ∷ calls) r queue h = run_ring-queue calls _ _ (enqueue_raw-Holds c h)
run_ring-queue (read max ∷ calls) r queue h =
    let taken = read_loop-Holds max h in ap₂ ◌∷◌ taken.0 (run_ring-queue calls _ _ taken.1)

-- The ring that keyboard_reset_state_for_test and the flush leave: both pointers are 0.
pub flushed-Holds :
    (buffer : List ℕ)
    → length buffer ≡ raw_buffer_size
    → Holds (record { raw_buffer = buffer; raw_write_ptr = 0; raw_read_ptr = 0 }) []
unfolding span
flushed-Holds buffer size = record {
  storage = size;
  write_in = omega arith;
  read_in = omega arith;
  bytes = refl;
}
