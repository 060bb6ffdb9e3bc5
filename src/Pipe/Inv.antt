-- ===== src/Pipe/Inv.antt =====
-- The invariant of the ring of pipe.c, and the bytes that a pipe holds.
use experiment.Base.{
  ℕ, zero, suc, ◌+◌, ◌-◌, ◌%◌, ◌≤◌, ◌<◌, ◌≡◌, refl, ap, ap₂, ◌∙◌, List, [], ◌∷◌, ◌++◌, arith,
  get_or, set, length, length-set, get_or-set_self, get_or-set_ne,
}
use native.Mathlib.Numerals.{add-one}
use experiment.Pipe.{Pipe, pipe_buf_size, take_byte, put_byte}

pub record IsValid (p : Pipe) : Type 0 where
  pub storage : length p.buffer ≡ pipe_buf_size
  pub read_in : p.read_pos < pipe_buf_size
  pub count_in : p.count ≤ pipe_buf_size
  pub write_at : p.write_pos ≡ (p.read_pos + p.count) % pipe_buf_size

-- The `n` bytes from index `at` on, going round at the end of the buffer.
pub span : List ℕ → (at n : ℕ) → List ℕ
span buf at zero = []
span buf at (suc n) = get_or buf at 0 ∷ span buf ((at + 1) % pipe_buf_size) n

-- The bytes written and not yet read, oldest first.
unfoldable pub contents : Pipe → List ℕ
unfolding span
contents p = span p.buffer p.read_pos p.count

length-span : (buf : List ℕ) (at n : ℕ) → length (span buf at n) ≡ n
unfolding span
length-span buf at zero = refl
length-span buf at (suc n) = ap suc (length-span buf ((at + 1) % pipe_buf_size) n)

pub length-contents : (p : Pipe) → length (contents p) ≡ p.count
unfolding contents
length-contents p = length-span p.buffer p.read_pos p.count

-- A write at the end of a span that leaves room extends it by the byte.
span-set :
    (buf : List ℕ) (at n i x : ℕ)
    → length buf ≡ pipe_buf_size
    → at < pipe_buf_size
    → n < pipe_buf_size
    → i ≡ (at + n) % pipe_buf_size
    → span (set buf i x) at (suc n) ≡ span buf at n ++ (x ∷ [])
unfolding span
span-set buf at zero i x hl ha hn e =
    let here : i ≡ at = omega arith in
    rw here (ap (λ v. v ∷ []) (get_or-set_self buf at x 0 (omega arith)))
span-set buf at (suc n) i x hl ha hn e =
    ap₂ ◌∷◌ (get_or-set_ne buf i at x 0 (omega arith))
      (span-set buf ((at + 1) % pipe_buf_size) n i x hl (omega arith) (omega arith) (omega arith))

span-pos :
    (buf : List ℕ) (at n : ℕ)
    → 0 < n
    → span buf at n ≡ get_or buf at 0 ∷ span buf ((at + 1) % pipe_buf_size) (n - 1)
unfolding span
span-pos buf at zero h = absurd (omega arith)
span-pos buf at (suc n) h =
    ap (λ k. get_or buf at 0 ∷ span buf ((at + 1) % pipe_buf_size) k) (omega arith)

pub put_byte-IsValid :
    (x : ℕ) {p : Pipe} → IsValid p → p.count < pipe_buf_size → IsValid (put_byte x p)
unfolding put_byte
put_byte-IsValid x {p} v room = record {
  storage = length-set p.buffer p.write_pos x ∙ v.storage;
  read_in = v.read_in;
  count_in = omega arith;
  write_at = omega arith;
}

pub contents-put_byte :
    (x : ℕ) {p : Pipe}
    → IsValid p
    → p.count < pipe_buf_size
    → contents (put_byte x p) ≡ contents p ++ (x ∷ [])
unfolding contents put_byte
contents-put_byte x {p} v room =
    rw add-one
      (span-set p.buffer p.read_pos p.count p.write_pos x v.storage v.read_in room v.write_at)

pub take_byte-IsValid : {p : Pipe} → IsValid p → 0 < p.count → IsValid (take_byte p)
unfolding take_byte
take_byte-IsValid v some_left = omega arith

pub contents-take_byte :
    {p : Pipe}
    → IsValid p
    → 0 < p.count
    → contents p ≡ get_or p.buffer p.read_pos 0 ∷ contents (take_byte p)
unfolding contents take_byte
contents-take_byte {p} v some_left = span-pos p.buffer p.read_pos p.count some_left
