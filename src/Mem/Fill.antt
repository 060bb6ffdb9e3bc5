-- ===== src/Mem/Fill.antt =====
-- memset: what it leaves in memory.
use experiment.Base.{ℕ, ◌%◌, ◌≡◌, ◌&&◌, arith, Bool-cases, inl, inr, leb, ◌==◌, if◌then◌else◌}
use experiment.Mem.{Memory, within, store_bytes, memset}

-- memset sets the `n` bytes at `p` to the low byte of `c` and changes no other, whether it stores words
-- or bytes.
pub memset_lem :
    (p c n : ℕ) (m : Memory) (a : ℕ) → memset p c n m a ≡ (if within p n a then c % 256 else m a)
unfolding memset store_bytes
memset_lem p c n m a = elim (Bool-cases (p % 8 == 0 && leb 8 n)) [
  | inl words ↦ rw words (ground arith)
  | inr bytes ↦ rw bytes (ground arith)
]
