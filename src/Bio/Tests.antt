-- ===== src/Bio/Tests.antt =====
-- Runs of the block cache over a small storage, and its theorems there.
use experiment.Base.{
  ℕ, ◌+◌, ◌≡◌, ◌≢◌, refl, true, false, subst, none, some, List, [], ◌∷◌, ◌==◌, if◌then◌else◌, arith,
  Option,
}
use experiment.Bio.{Storage, Cache, init, get_blk, bread}
use experiment.Bio.Refs.{IsValid, init-IsValid, GetsBlock, get_blk-GetsBlock}
use experiment.Bio.Read.{BreadEnds, bread-BreadEnds}

-- Each block of device 0 holds its own number; other devices fail. Writes are counted.
abbrev numbered : Storage
numbered = record {
  State = ℕ;
  storage_read =
      λ device block before s. if device == 0 then (true, block ∷ []) else (false, before);
  storage_write = λ device block bytes s. (true, s + 1);
}

abbrev memory : ℕ → Option (List ℕ)
memory i = some (0 ∷ [])

abbrev empty : Cache ℕ
empty = init memory 0

memory_given : (j : ℕ) → memory j ≢ none
memory_given j e = cc

empty-IsValid : IsValid [] empty
empty-IsValid = init-IsValid memory 0 memory_given

get_blk-GetsBlock_example : GetsBlock numbered 0 5 [] empty (get_blk numbered 0 5 empty)
get_blk-GetsBlock_example = get_blk-GetsBlock numbered 0 5 [] empty empty-IsValid (omega arith)

-- The cache with the reference that a first call gives.
abbrev one_ref : Cache ℕ
one_ref = (get_blk numbered 0 5 empty).1

oldest_first : (get_blk numbered 0 5 empty).0 ≡ some 127
unfolding get_blk init
oldest_first = refl

one_ref-IsValid : IsValid (127 ∷ []) one_ref
unfolding GetsBlock
one_ref-IsValid = by_result (get_blk numbered 0 5 empty) oldest_first get_blk-GetsBlock_example
  where
    by_result :
        (g : Option ℕ × Cache ℕ)
        → g.0 ≡ some 127
        → GetsBlock numbered 0 5 [] empty g
        → IsValid (127 ∷ []) g.1
    by_result (none, c) e h = cc
    by_result (some i, c) e h = let same : i ≡ 127 = cc in subst (λ k. IsValid (k ∷ []) c) same h.1

bread-BreadEnds_example :
    BreadEnds numbered
      ((λ c. c) ∷ [])
      0
      5
      []
      empty
      (get_blk numbered 0 5 empty)
      (bread numbered ((λ c. c) ∷ []) 0 5 empty)
bread-BreadEnds_example =
    bread-BreadEnds numbered ((λ c. c) ∷ []) 0 5 [] empty empty-IsValid (omega arith)
      (λ i e. ((λ c u. u), tt))
