-- ===== src/Mem.antt =====
-- The memory functions of kernel/lib/string.c, on a memory that gives the byte at each address. A vector
-- load and store of `width` bytes reads all of them before it writes. Ranges do not wrap round the
-- end of the address space.
pub mod Copy
pub mod Move
pub mod Fill
mod Tests
use experiment.Base.{
  ℕ, zero, suc, ◌+◌, ◌-◌, ◌*◌, ◌/◌, ◌%◌, ◌^◌, Bool, true, false, ◌&&◌, ltb, leb, ◌==◌,
  if◌then◌else◌,
}

abbrev pub Memory : Type 0
Memory = ℕ → ℕ

-- Whether an address is one of the `n` from `start` on.
abbrev pub within : (start n a : ℕ) → Bool
within start n a = leb start a && ltb a (start + n)

-- A load of `width` bytes at `s` and their store at `d`.
pub move_block : (width d s : ℕ) → Memory → Memory
move_block width d s m = λ a. if within d width a then m (s + (a - d)) else m a

-- What the copying loops change: the pointers and the bytes still to do.
pub record Copying : Type 0 where
  pub n : ℕ
  pub d : ℕ
  pub s : ℕ
  pub m : Memory

-- while (n && (d & 31)) *d++ = *s++, n--
pub align_up : (n d s : ℕ) → Memory → Copying
unfolding move_block
align_up zero d s m = record { n = 0; d = d; s = s; m = m }
align_up (suc n) d s m =
    let more = align_up n (d + 1) (s + 1) (move_block 1 d s m) in
    if d % 32 == 0 then record { n = suc n; d = d; s = s; m = m } else more

-- while (n >= width) { move a block; d += width; s += width; n -= width; }: for a fuel of `n` at least
-- the loop ends by itself.
pub blocks_up : (fuel width : ℕ) → Copying → Copying
unfolding move_block
blocks_up zero width c = c
blocks_up (suc fuel) width c =
    let more = blocks_up fuel width (record {
      n = c.n - width;
      d = c.d + width;
      s = c.s + width;
      m = move_block width c.d c.s c.m;
    }) in
    if leb width c.n then more else c

-- while (n--) *d++ = *s++
pub bytes_up : (n d s : ℕ) → Memory → Memory
unfolding move_block
bytes_up zero d s m = m
bytes_up (suc n) d s m = bytes_up n (d + 1) (s + 1) (move_block 1 d s m)

-- memcpy_forward_impl: its two vector loops move the same blocks.
pub memcpy_forward : (dst src n : ℕ) → Memory → Memory
unfolding align_up blocks_up bytes_up
memcpy_forward dst src n m =
    let c = align_up n dst src m in let e = blocks_up c.n 32 c in bytes_up e.n e.d e.s e.m

pub memcpy : (dst src n : ℕ) → Memory → Memory
unfolding memcpy_forward
memcpy dst src n m = memcpy_forward dst src n m

-- Downwards, `d` and `s` stand behind the bytes to do: while (n && (d & 7)) *--d = *--s, n--
pub align_down : (n d s : ℕ) → Memory → Copying
unfolding move_block
align_down zero d s m = record { n = 0; d = d; s = s; m = m }
align_down (suc n) d s m =
    let more = align_down n (d - 1) (s - 1) (move_block 1 (d - 1) (s - 1) m) in
    if d % 8 == 0 then record { n = suc n; d = d; s = s; m = m } else more

-- while (n >= 8) *--d64 = *--s64, n -= 8
pub words_down : (fuel : ℕ) → Copying → Copying
unfolding move_block
words_down zero c = c
words_down (suc fuel) c =
    let more = words_down fuel (record {
      n = c.n - 8;
      d = c.d - 8;
      s = c.s - 8;
      m = move_block 8 (c.d - 8) (c.s - 8) c.m;
    }) in
    if leb 8 c.n then more else c

-- while (n--) *--d = *--s
pub bytes_down : (n d s : ℕ) → Memory → Memory
unfolding move_block
bytes_down zero d s m = m
bytes_down (suc n) d s m = bytes_down n (d - 1) (s - 1) (move_block 1 (d - 1) (s - 1) m)

pub memmove : (dst src n : ℕ) → Memory → Memory
unfolding align_down words_down bytes_down memcpy_forward
memmove dst src n m =
    let c = align_down n (dst + n) (src + n) m in
    let e = if c.s % 8 == 0 then words_down c.n c else c in
    if ltb src dst && ltb dst (src + n)
    then bytes_down e.n e.d e.s e.m
    else memcpy_forward dst src n m

-- rep stosb, and rep stosq with the byte in each place of the word
pub store_bytes : (p n byte : ℕ) → Memory → Memory
store_bytes p n byte m = λ a. if within p n a then byte else m a

pub memset : (p c n : ℕ) → Memory → Memory
unfolding store_bytes
memset p c n m =
    let byte = c % 256 in
    if p % 8 == 0 && leb 8 n
    then store_bytes (p + n / 8 * 8) (n % 8) byte (store_bytes p (n / 8 * 8) byte m)
    else store_bytes p n byte m
