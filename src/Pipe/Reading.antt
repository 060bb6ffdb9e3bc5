-- ===== src/Pipe/Reading.antt =====
-- pipe_inode_read: when it waits, and what it returns.
use experiment.Base.{
  ℕ, ◌≡◌, refl, ◌⊎◌, true, false, ◌&&◌, List, [], ◌∷◌, arith, inl, inr, All, Bool-cases, ◌==◌, ◌≢◌,
  length, ap, ◌<◌, lt→ltb,
}
use experiment.Base.Int.{is_pos}
use experiment.Pipe.{Pipe, Turns, Outcome, returned, waiting, read_pipe, inode_read}
use experiment.Pipe.Inv.{IsValid, contents, length-contents}
use experiment.Pipe.Stream.{Drained, drain-Drained}

-- The turns before which the reader looked, and the pipe that it then found.
pub data Passed : Turns → Pipe → Pipe → Type 0 where
  here : {ts : Turns} {p : Pipe} → Passed ts p p
  next : {t : Pipe → Pipe} {ts : Turns} {p q : Pipe} → Passed ts (t p) q → Passed (t ∷ ts) p q

abbrev pub run_turns : Turns → Pipe → Pipe
run_turns [] p = p
run_turns (t ∷ ts) p = run_turns ts (t p)

-- A turn of other threads leaves a ring that is in order.
abbrev pub KeepsValid : (Pipe → Pipe) → Type 0
KeepsValid t = (p : Pipe) → IsValid p → IsValid (t p)

-- How a read of `size` bytes from `p` ends. It returns what it finds after some of the turns, once
-- there is a byte or no writer is left; it still waits only if, after all of the turns, the pipe is
-- empty and has a writer.
pub ReadEnds : Turns → (size : ℕ) → Pipe → Outcome (List ℕ) → Type 0
ReadEnds ts size p (returned out q) =
    (r : Pipe) × Passed ts p r
    × Drained size r out q
    × ((contents r ≢ []) ⊎ (is_pos r.write_open ≡ false))
ReadEnds ts size p (waiting q) =
    (q ≡ run_turns ts p) × (contents q ≡ []) × (is_pos q.write_open ≡ true)

nil_of_empty : (p : Pipe) → p.count ≡ 0 → contents p ≡ []
nil_of_empty p e = by_length (contents p) (omega (arith, length-contents p))
  where
    by_length : (xs : List ℕ) → length xs ≡ 0 → xs ≡ []
    by_length [] h = refl
    by_length (x ∷ xs) h = absurd (omega arith)

readable :
    (p : Pipe)
    → (p.count == 0 && is_pos p.write_open) ≡ false
    → (contents p ≢ []) ⊎ (is_pos p.write_open ≡ false)
readable p e = elim (Bool-cases (is_pos p.write_open)) [
  | inr closed ↦ inr closed
  | inl writer ↦ inl (λ nil. ground (arith, length-contents p, ap length nil))
]

pass :
    (t : Pipe → Pipe) (ts : Turns) (size : ℕ) (p : Pipe) (o : Outcome (List ℕ))
    → ReadEnds ts size (t p) o
    → ReadEnds (t ∷ ts) size p o
unfolding ReadEnds
pass t ts size p (returned out q) e = (e.0, next e.1, e.2, e.3)
pass t ts size p (waiting q) e = e

read_pipe-ReadEnds :
    (ts : Turns) (size : ℕ) {p : Pipe}
    → All KeepsValid ts
    → IsValid p
    → ReadEnds ts size p (read_pipe ts size p)
unfolding read_pipe ReadEnds
read_pipe-ReadEnds [] size {p} k v = elim (Bool-cases (p.count == 0 && is_pos p.write_open)) [
  | inl stuck ↦ rw stuck (refl, nil_of_empty p (ground arith), ground arith)
  | inr go ↦ rw go (p, here, drain-Drained size v, readable p go)
]
read_pipe-ReadEnds (t ∷ ts) size {p} k v = elim (Bool-cases (p.count == 0 && is_pos p.write_open)) [
  | inl stuck ↦ rw stuck (pass t ts size p _ (read_pipe-ReadEnds ts size k.1 (k.0 p v)))
  | inr go ↦ rw go (p, here, drain-Drained size v, readable p go)
]

-- A read with no null pointer and room for at least one byte, on a pipe that is in order and that
-- the other threads leave in order, either returns, once the pipe that it finds holds a byte or
-- has no writer, the oldest bytes in order, as many as fit, and leaves the rest; or it still waits
-- after all turns, since the pipe is empty and has a writer.
pub inode_read-ReadEnds :
    (ts : Turns) (size : ℕ) {p : Pipe}
    → All KeepsValid ts
    → IsValid p
    → 0 < size
    → ReadEnds ts size p (inode_read ts true true true size p)
unfolding inode_read
inode_read-ReadEnds ts size k v h = rw (lt→ltb 0 size h) (read_pipe-ReadEnds ts size k v)
