-- ===== src/Keyboard/Ring.antt =====
-- The scancodes that the ring holds.
use experiment.Base.{
  ℕ, zero, suc, ◌+◌, ◌-◌, ◌%◌, ◌<◌, ◌≡◌, refl, ap, ap₂, ◌∙◌, List, [], ◌∷◌, ◌++◌, length, arith,
  get_or, set, length-set, get_or-set_self, get_or-set_ne, Bool-cases, inl, inr, ◌==◌, true, false,
  ltb, le→ltb, lt→ltb, ==_iff, ◌≢◌, if◌then◌else◌, take, drop,
}
use experiment.Keyboard.{RawRing, raw_buffer_size, enqueue_raw, read_loop}

-- The `n` bytes from index `at` on, going round at the end of the buffer.
unfoldable pub span : List ℕ → (at n : ℕ) → List ℕ
span buf at zero = []
span buf at (suc n) = get_or buf at 0 ∷ span buf ((at + 1) % raw_buffer_size) n

-- The number of scancodes between the two pointers.
abbrev pub held : RawRing → ℕ
held r = (r.raw_write_ptr + raw_buffer_size - r.raw_read_ptr) % raw_buffer_size

-- The ring is in order and holds `queue`, the oldest first.
pub record Holds (r : RawRing) (queue : List ℕ) : Type 0 where
  pub storage : length r.raw_buffer ≡ raw_buffer_size
  pub write_in : r.raw_write_ptr < raw_buffer_size
  pub read_in : r.raw_read_ptr < raw_buffer_size
  pub bytes : span r.raw_buffer r.raw_read_ptr (held r) ≡ queue

pub length-span : (buf : List ℕ) (at n : ℕ) → length (span buf at n) ≡ n
unfolding span
length-span buf at zero = refl
length-span buf at (suc n) = ap suc (length-span buf ((at + 1) % raw_buffer_size) n)

-- A write at the end of a span that leaves room extends it by the byte.
pub span-set :
    (buf : List ℕ) (at n i x : ℕ)
    → length buf ≡ raw_buffer_size
    → at < raw_buffer_size
    → n < raw_buffer_size
    → i ≡ (at + n) % raw_buffer_size
    → span (set buf i x) at (suc n) ≡ span buf at n ++ (x ∷ [])
unfolding span
span-set buf at zero i x hl ha hn e =
    let here : i ≡ at = omega arith in
    rw here (ap (λ v. v ∷ []) (get_or-set_self buf at x 0 (omega arith)))
span-set buf at (suc n) i x hl ha hn e =
    ap₂ ◌∷◌ (get_or-set_ne buf i at x 0 (omega arith))
      (span-set buf ((at + 1) % raw_buffer_size) n i x hl (omega arith) (omega arith) (omega arith))

-- A scancode is appended while fewer than 255 are held, and dropped otherwise.
pub enqueue_raw-Holds :
    (c : ℕ) {r : RawRing} {queue : List ℕ}
    → Holds r queue
    → Holds (enqueue_raw c r) (if ltb (length queue) 255 then queue ++ (c ∷ []) else queue)
unfolding enqueue_raw
enqueue_raw-Holds c {r} {queue} h =
    let size : held r ≡ length queue =
      omega (arith, length-span r.raw_buffer r.raw_read_ptr (held r), ap length h.bytes) in
    elim (Bool-cases ((r.raw_write_ptr + 1) % raw_buffer_size == r.raw_read_ptr)) [
      | inl t ↦
          let both = (==_iff ((r.raw_write_ptr + 1) % raw_buffer_size) r.raw_read_ptr).0 t in
          rw (enqueue_raw, t, le→ltb (length queue) 255 (omega (arith, size, both, h.write_in))) h
      | inr t ↦
          let apart : (r.raw_write_ptr + 1) % raw_buffer_size ≢ r.raw_read_ptr =
            ground (arith, t) in
          let more : ((r.raw_write_ptr + 1) % raw_buffer_size + raw_buffer_size - r.raw_read_ptr)
                % raw_buffer_size
              ≡ suc (held r) =
            omega (arith, apart, h.write_in, h.read_in) in
          rw
            (
              enqueue_raw,
              t,
              lt→ltb (length queue) 255 (omega (arith, size, apart, h.write_in, h.read_in)),
            )
            (record {
              storage = length-set r.raw_buffer r.raw_write_ptr c ∙ h.storage;
              write_in = omega arith;
              read_in = h.read_in;
              bytes =
                  ap (span (set r.raw_buffer r.raw_write_ptr c) r.raw_read_ptr) more
                  ∙ span-set r.raw_buffer r.raw_read_ptr (held r) r.raw_write_ptr c h.storage
                      h.read_in (omega arith) (omega (arith, h.write_in, h.read_in))
                  ∙ ap (λ q. q ++ (c ∷ [])) h.bytes;
            })
    ]

-- The oldest scancode is at the read pointer.
pub advance-Holds :
    {r : RawRing} {x : ℕ} {queue : List ℕ}
    → Holds r (x ∷ queue)
    → let next : RawRing = record r { raw_read_ptr = (r.raw_read_ptr + 1) % raw_buffer_size } in
      (get_or r.raw_buffer r.raw_read_ptr 0 ≡ x) × Holds next queue
unfolding span
advance-Holds {r} {x} {queue} h =
    let size : held r ≡ suc (length queue) =
      omega (arith, length-span r.raw_buffer r.raw_read_ptr (held r), ap length h.bytes) in
    let next : RawRing = record r { raw_read_ptr = (r.raw_read_ptr + 1) % raw_buffer_size } in
    let less : suc (held next) ≡ held r = omega (arith, size, h.write_in, h.read_in) in
    let split = ap (span r.raw_buffer r.raw_read_ptr) less ∙ h.bytes in
    (cc, record { storage = h.storage; write_in = h.write_in; read_in = omega arith; bytes = cc })

-- The loop takes the oldest scancodes, `max` at most.
pub read_loop-Holds :
    (max : ℕ) {r : RawRing} {queue : List ℕ}
    → Holds r queue
    → ((read_loop max r).0 ≡ take max queue) × Holds (read_loop max r).1 (drop max queue)
unfolding read_loop
read_loop-Holds zero h = (refl, h)
read_loop-Holds (suc max) {r} {queue = []} h =
    let size : held r ≡ 0 =
      omega (arith, length-span r.raw_buffer r.raw_read_ptr (held r), ap length h.bytes) in
    let same : (r.raw_read_ptr == r.raw_write_ptr) ≡ true =
      (==_iff r.raw_read_ptr r.raw_write_ptr).1 (omega (arith, size, h.write_in, h.read_in)) in
    rw same (refl, h)
read_loop-Holds (suc max) {r} {queue = x ∷ queue} h =
    let size : held r ≡ suc (length queue) =
      omega (arith, length-span r.raw_buffer r.raw_read_ptr (held r), ap length h.bytes) in
    let other : (r.raw_read_ptr == r.raw_write_ptr) ≡ false = ground (arith, size, h.read_in) in
    let first = advance-Holds h in
    let rest = read_loop-Holds max first.1 in rw other (ap₂ ◌∷◌ first.0 rest.0, rest.1)
