-- ===== src/Pipe/Writing.antt =====
-- pipe_inode_write against readers that take bytes while it waits: it ends, and it loses, repeats
-- and reorders no byte.
use experiment.Base.{
  ℕ, zero, suc, ◌+◌, ◌<◌, ◌≡◌, refl, ap, sym, ◌∙◌, ◌⊎◌, true, false, ◌&&◌, ◌||◌, List, [], ◌∷◌,
  ◌++◌, append-nil, append_assoc, arith, inl, inr, All, Bool-cases, length, leb, lt→ltb,
}
use experiment.Base.Int.{is_pos, is_zero}
use experiment.Pipe.{
  Pipe, Turns, pipe_buf_size, fill, drain, Write, wrote, blocked, out_of_fuel, write_loop,
  write_pipe, inode_write,
}
use experiment.Pipe.Inv.{IsValid, contents}
use experiment.Pipe.Stream.{fill-Filled, drain-Drained}

-- From `p` with `xs` to write to `q` with `left` to write: the bytes `sent` went in and the bytes
-- `got` came out, both in order.
pub record Moved (xs : List ℕ) (p : Pipe) (left : List ℕ) (q : Pipe) : Type 0 where
  pub sent : List ℕ
  pub got : List ℕ
  pub split : xs ≡ sent ++ left
  pub bytes : got ++ contents q ≡ contents p ++ sent
  pub valid : IsValid q
  pub open_count : (is_pos q.read_open || is_zero q.read_open) ≡ true

-- A turn that takes bytes out of the pipe, puts none in, and may close the read end.
pub IsReader : (Pipe → Pipe) → Type 0
IsReader t =
    (xs : List ℕ) (p : Pipe)
    → IsValid p
    → (is_pos p.read_open || is_zero p.read_open) ≡ true
    → Moved xs p xs (t p)

Moved-trans :
    {xs left rest : List ℕ} {p q r : Pipe}
    → Moved xs p left q
    → Moved left q rest r
    → Moved xs p rest r
Moved-trans {xs} {left} {rest} {p} {q} {r} a b = record {
  sent = a.sent ++ b.sent;
  got = a.got ++ b.got;
  split = a.split ∙ ap (λ l. a.sent ++ l) b.split ∙ sym (append_assoc a.sent b.sent rest);
  bytes =
      append_assoc a.got b.got (contents r)
      ∙ ap (λ l. a.got ++ l) b.bytes
      ∙ sym (append_assoc a.got (contents q) b.sent)
      ∙ ap (λ l. l ++ b.sent) a.bytes
      ∙ append_assoc (contents p) a.sent b.sent;
  valid = b.valid;
  open_count = b.open_count;
}

Moved-none :
    {p : Pipe} (xs : List ℕ)
    → IsValid p
    → (is_pos p.read_open || is_zero p.read_open) ≡ true
    → Moved xs p xs p
Moved-none {p} xs v o = record {
  sent = [];
  got = [];
  split = refl;
  bytes = sym (append-nil (contents p));
  valid = v;
  open_count = o;
}

fill-Moved :
    (xs : List ℕ) {p : Pipe}
    → IsValid p
    → (is_pos p.read_open || is_zero p.read_open) ≡ true
    → Moved xs p (fill xs p).0 (fill xs p).1
fill-Moved xs {p} v o =
    let f = fill-Filled xs v in
    record {
      sent = f.sent;
      got = [];
      split = f.split;
      bytes = f.bytes;
      valid = f.valid;
      open_count = ground (arith, f.ends.readers);
    }

-- How a write of `xs` ends. It returns with nothing left or with the read end closed; it still waits
-- only with the pipe full and a reader left. It never runs out of fuel.
pub WriteEnds : List ℕ → Pipe → Write → Type 0
WriteEnds xs p (wrote left q) = Moved xs p left q × ((left ≡ []) ⊎ (is_zero q.read_open ≡ true))
WriteEnds xs p (blocked left q) =
    Moved xs p left q × (q.count ≡ pipe_buf_size) × (is_pos q.read_open ≡ true)
WriteEnds xs p out_of_fuel = ⊥

WriteEnds-after :
    {xs left : List ℕ} {p q : Pipe} (w : Write)
    → Moved xs p left q
    → WriteEnds left q w
    → WriteEnds xs p w
unfolding WriteEnds
WriteEnds-after (wrote rest r) m e = (Moved-trans m e.0, e.1)
WriteEnds-after (blocked rest r) m e = (Moved-trans m e.0, e.1, e.2)
WriteEnds-after out_of_fuel m e = e

fill-shorter :
    (x : ℕ) (xs : List ℕ) {p : Pipe}
    → IsValid p
    → p.count < pipe_buf_size
    → length (fill (x ∷ xs) p).0 < suc (length xs)
fill-shorter x xs v room = omega (arith, (fill-Filled (x ∷ xs) v).amount)

has_room :
    (p : Pipe)
    → (is_pos p.read_open || is_zero p.read_open) ≡ true
    → (leb pipe_buf_size p.count && is_pos p.read_open) ≡ false
    → is_zero p.read_open ≡ false
    → p.count < pipe_buf_size
has_room p o full closed = ground arith

-- The round that fills the pipe, given that the later rounds end well.
fill_round :
    (x : ℕ) (xs : List ℕ) (w : Write) {p : Pipe}
    → IsValid p
    → (is_pos p.read_open || is_zero p.read_open) ≡ true
    → WriteEnds (fill (x ∷ xs) p).0 (fill (x ∷ xs) p).1 w
    → WriteEnds (x ∷ xs) p w
fill_round x xs w v o e = WriteEnds-after w (fill-Moved (x ∷ xs) v o) e

write_loop-WriteEnds :
    (fuel : ℕ) (ts : Turns) (xs : List ℕ) {p : Pipe}
    → All IsReader ts
    → IsValid p
    → (is_pos p.read_open || is_zero p.read_open) ≡ true
    → length xs + length ts < fuel
    → WriteEnds xs p (write_loop fuel ts xs p)
unfolding write_loop WriteEnds IsReader
write_loop-WriteEnds zero ts xs k v o h = absurd (omega arith)
write_loop-WriteEnds (suc fuel) ts [] {p} k v o h = (Moved-none [] v o, inl refl)
write_loop-WriteEnds (suc fuel) [] (x ∷ xs) {p} k v o h =
    let m = fill-Moved (x ∷ xs) v o in
    elim (Bool-cases (leb pipe_buf_size p.count && is_pos p.read_open)) [
      | inl full ↦ rw full (Moved-none (x ∷ xs) v o, ground arith, ground arith)
      | inr room ↦ rw room (elim (Bool-cases (is_zero p.read_open)) [
        | inl closed ↦ rw closed (Moved-none (x ∷ xs) v o, inr closed)
        | inr reader ↦ rw reader (
            fill_round x xs _ v o (
              write_loop-WriteEnds fuel [] (fill (x ∷ xs) p).0 k m.valid m.open_count
                (omega (arith, fill-shorter x xs v (has_room p o room reader)))))
      ])
    ]
write_loop-WriteEnds (suc fuel) (t ∷ ts) (x ∷ xs) {p} k v o h =
    let m = fill-Moved (x ∷ xs) v o in
    let turned = k.0 (x ∷ xs) p v o in
    elim (Bool-cases (leb pipe_buf_size p.count && is_pos p.read_open)) [
      | inl full ↦ rw full (
          WriteEnds-after _ turned (
            write_loop-WriteEnds fuel ts (x ∷ xs) k.1 turned.valid turned.open_count (omega arith)))
      | inr room ↦ rw room (elim (Bool-cases (is_zero p.read_open)) [
        | inl closed ↦ rw closed (Moved-none (x ∷ xs) v o, inr closed)
        | inr reader ↦ rw reader (
            fill_round x xs _ v o (
              write_loop-WriteEnds fuel (t ∷ ts) (fill (x ∷ xs) p).0 k m.valid m.open_count
                (omega (arith, fill-shorter x xs v (has_room p o room reader)))))
      ])
    ]

-- A write of at least one byte through no null pointer, on a pipe in order whose read end count is
-- not negative, always ends when the other threads only read or close the read end: it returns
-- with everything written or the read end closed, or it still waits with the pipe full and a
-- reader left; and the bytes taken out meanwhile, then those held, are those held before, then
-- those written, which are the first of the caller's.
pub inode_write-WriteEnds :
    (ts : Turns) (xs : List ℕ) {p : Pipe}
    → All IsReader ts
    → IsValid p
    → (is_pos p.read_open || is_zero p.read_open) ≡ true
    → 0 < length xs
    → WriteEnds xs p (inode_write ts true true true xs p)
unfolding inode_write write_pipe WriteEnds
inode_write-WriteEnds ts xs {p} k v o h =
    rw (lt→ltb 0 (length xs) h) (elim (Bool-cases (is_zero p.read_open)) [
      | inl closed ↦ rw closed (Moved-none xs v o, inr closed)
      | inr reader ↦
          rw reader (write_loop-WriteEnds (length xs + length ts + 1) ts xs k v o (omega arith))
    ])

-- Reading `n` bytes is such a turn.
pub drain-IsReader : (n : ℕ) → IsReader (λ p. (drain n p).1)
unfolding IsReader
drain-IsReader n xs p v o =
    let d = drain-Drained n v in
    record {
      sent = [];
      got = (drain n p).0;
      split = refl;
      bytes = d.bytes ∙ sym (append-nil (contents p));
      valid = d.valid;
      open_count = ground (arith, d.ends.readers);
    }
