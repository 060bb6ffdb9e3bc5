-- ===== src/Pipe/Stream.antt =====
-- What the two inner loops of pipe.c move, in terms of the bytes that the pipe holds.
use experiment.Base.{
  ℕ, zero, suc, ◌+◌, ◌-◌, ◌<◌, ◌≡◌, refl, ap, sym, ◌∙◌, List, [], ◌∷◌, ◌++◌, arith, length, min,
  inl, inr, append-nil, append_assoc, Bool-cases, tests, ltb, ◌==◌, ==_iff, get_or, ltb→lt,
}
use experiment.Pipe.{Pipe, pipe_buf_size, take_byte, put_byte, drain, fill}
use experiment.Pipe.Inv.{
  IsValid, contents, put_byte-IsValid, contents-put_byte, take_byte-IsValid, contents-take_byte,
}

-- The ends of `q` are as open as those of `p`.
pub record SameEnds (p q : Pipe) : Type 0 where
  pub readers : q.read_open ≡ p.read_open
  pub writers : q.write_open ≡ p.write_open

-- Reading with room for `n` bytes: as many as there are, up to `n`, in order, and the rest stays.
pub record Drained (n : ℕ) (p : Pipe) (out : List ℕ) (q : Pipe) : Type 0 where
  pub valid : IsValid q
  pub ends : SameEnds p q
  pub bytes : out ++ contents q ≡ contents p
  pub amount : length out ≡ min n p.count

-- Writing: the bytes go in behind those that are held, until none is left or the pipe is full.
pub record Filled (xs : List ℕ) (p : Pipe) (left : List ℕ) (q : Pipe) : Type 0 where
  pub valid : IsValid q
  pub ends : SameEnds p q
  pub sent : List ℕ
  pub split : xs ≡ sent ++ left
  pub bytes : contents q ≡ contents p ++ sent
  pub amount : length left ≡ length xs - (pipe_buf_size - p.count)

count-take_byte : (p : Pipe) → (take_byte p).count ≡ p.count - 1
unfolding take_byte
count-take_byte p = refl

count-put_byte : (x : ℕ) (p : Pipe) → (put_byte x p).count ≡ p.count + 1
unfolding put_byte
count-put_byte x p = refl

take_byte-SameEnds : (p : Pipe) {q : Pipe} → SameEnds (take_byte p) q → SameEnds p q
unfolding take_byte
take_byte-SameEnds p e = record { readers = e.readers; writers = e.writers }

put_byte-SameEnds : (x : ℕ) (p : Pipe) {q : Pipe} → SameEnds (put_byte x p) q → SameEnds p q
unfolding put_byte
put_byte-SameEnds x p e = record { readers = e.readers; writers = e.writers }

pub drain-Drained : (n : ℕ) {p : Pipe} → IsValid p → Drained n p (drain n p).0 (drain n p).1
unfolding drain
drain-Drained zero v = record {
  valid = v;
  ends = record { readers = refl; writers = refl };
  bytes = refl;
  amount = omega arith;
}
drain-Drained (suc n) {p} v = elim (Bool-cases (p.count == 0)) [
  | inl empty ↦ rw empty (record {
    valid = v;
    ends = record { readers = refl; writers = refl };
    bytes = refl;
    amount = omega (arith, (==_iff _ _).0 empty);
  })
  | inr held ↦
      let has : 0 < p.count = ground arith in
      let rest = drain-Drained n (take_byte-IsValid v has) in
      rw held (record {
        valid = rest.valid;
        ends = take_byte-SameEnds p rest.ends;
        bytes =
            ap (λ r. get_or p.buffer p.read_pos 0 ∷ r) rest.bytes ∙ sym (contents-take_byte v has);
        amount = omega (arith, rest.amount, count-take_byte p);
      })
]

pub fill-Filled : (xs : List ℕ) {p : Pipe} → IsValid p → Filled xs p (fill xs p).0 (fill xs p).1
unfolding fill
fill-Filled [] {p} v = record {
  valid = v;
  ends = record { readers = refl; writers = refl };
  sent = [];
  split = refl;
  bytes = sym (append-nil (contents p));
  amount = omega arith;
}
fill-Filled (x ∷ xs) {p} v = elim (Bool-cases (ltb p.count pipe_buf_size)) [
  | inr full ↦ rw full (record {
    valid = v;
    ends = record { readers = refl; writers = refl };
    sent = [];
    split = refl;
    bytes = sym (append-nil (contents p));
    amount = omega (tests, full);
  })
  | inl room ↦
      let has : p.count < pipe_buf_size = ltb→lt _ _ room in
      let rest = fill-Filled xs (put_byte-IsValid x v has) in
      rw room (record {
        valid = rest.valid;
        ends = put_byte-SameEnds x p rest.ends;
        sent = x ∷ rest.sent;
        split = ap (λ r. x ∷ r) rest.split;
        bytes =
            rest.bytes
            ∙ ap (λ r. r ++ rest.sent) (contents-put_byte x v has)
            ∙ append_assoc (contents p) (x ∷ []) rest.sent;
        amount = omega (arith, rest.amount, count-put_byte x p);
      })
]
