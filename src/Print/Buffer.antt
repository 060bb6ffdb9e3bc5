-- ===== src/Print/Buffer.antt =====
-- What vsnprintk leaves in the buffer.
use experiment.Base.{
  ◌%◌, ℕ, suc, ◌+◌, ◌-◌, ◌^◌, ◌≤◌, ◌<◌, ◌≡◌, ◌⊎◌, Bool, true, false, ◌&&◌, Option, some, ltb, ◌==◌,
  if◌then◌else◌, length, get_or, min,
}
use experiment.Str.{Chars}

-- The characters stored so far stay, those to come follow, and what lies behind stays.
record Stores (capacity stored : ℕ) (chars : Chars) (buffer : ℕ → ℕ) (r : ℕ × (ℕ → ℕ))
    : Type 0 where
  count : r.0 ≡ min capacity (stored + length chars)
  inside : (j : ℕ) → j < length chars → stored + j < capacity → r.1 (stored + j) ≡ get_or chars j 0
  outside : (o : ℕ) → (o < stored) ⊎ (min capacity (stored + length chars) ≤ o) → r.1 o ≡ buffer o

-- A result of vsnprintk: the length of the whole text as the 32 bits of an int, and a buffer that holds as much of the text as
-- fits before the terminating 0, which is there, with nothing else touched.
pub record Formats (r : Option (ℕ × (ℕ → ℕ))) (has_buffer : Bool) (size : ℕ) (text : Chars)
    (buffer : ℕ → ℕ) : Type 0 where
  pub filled : ℕ → ℕ
  pub result : r ≡ some (length text % 2 ^ 32, filled)
  pub inside :
      has_buffer ≡ true → (o : ℕ) → o < length text → suc o < size → filled o ≡ get_or text o 0
  pub terminated : has_buffer ≡ true → 0 < size → filled (min (size - 1) (length text)) ≡ 0
  pub behind :
      has_buffer ≡ true
      → 0 < size
      → (o : ℕ) → min (size - 1) (length text) < o
      → filled o ≡ buffer o
  pub untouched : (has_buffer ≡ false) ⊎ (size ≡ 0) → (o : ℕ) → filled o ≡ buffer o

terminate : (size : ℕ) → (has_buffer : Bool) → (kept : ℕ × (ℕ → ℕ)) → ℕ → ℕ
terminate size has_buffer kept =
    if ltb 0 size && has_buffer then (λ o. if o == kept.0 then 0 else kept.1 o) else kept.1
