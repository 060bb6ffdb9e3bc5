-- ===== src/Bio/Lru.antt =====
-- The list of the block cache and the two searches of get_blk.
use experiment.Base.{
  ℕ, zero, suc, ◌+◌, ◌<◌, ◌≤◌, ◌≡◌, ◌≢◌, Bool, true, false, ◌||◌, none, some, List, [], ◌∷◌, arith,
  ◌==◌, if◌then◌else◌, Bool-cases, inl, inr,
}
use experiment.Bio.{BufferHead, remove, move_to_head, find_cached, find_unused, holds_block}

unfoldable pub in_list : ℕ → List ℕ → Bool
in_list i [] = false
in_list i (x ∷ xs) = (x == i) || in_list i xs

in_list-remove :
    (j i : ℕ) (xs : List ℕ) → in_list j (remove i xs) ≡ (if j == i then false else in_list j xs)
unfolding in_list remove
in_list-remove j i [] = ground arith
in_list-remove j i (x ∷ xs) = ground (arith, in_list-remove j i xs)

-- Moving an index to the head loses no other.
pub in_list-move_to_head :
    (j i : ℕ) (xs : List ℕ)
    → in_list j (move_to_head i xs) ≡ (if j == i then true else in_list j xs)
unfolding in_list move_to_head
in_list-move_to_head j i xs = ground (arith, in_list-remove j i xs)

-- The search by block finds a buffer in use that holds it, in the cache.
pub find_cached-some :
    (rounds i device block : ℕ) (bs : ℕ → BufferHead) (k : ℕ)
    → find_cached rounds i device block bs ≡ some k
    → (holds_block device block (bs k) ≡ true) × (k < i + rounds)
unfolding find_cached
find_cached-some zero i device block bs k e = cc
find_cached-some (suc rounds) i device block bs k e =
    elim (Bool-cases (holds_block device block (bs i))) [
      | inl here ↦ ground arith
      | inr not_here ↦ ground (arith, find_cached-some rounds (i + 1) device block bs k)
    ]

pub find_cached-none :
    (rounds i device block : ℕ) (bs : ℕ → BufferHead) (k : ℕ)
    → find_cached rounds i device block bs ≡ none
    → i ≤ k
    → k < i + rounds
    → holds_block device block (bs k) ≡ false
unfolding find_cached
find_cached-none zero i device block bs k e h l = absurd (omega arith)
find_cached-none (suc rounds) i device block bs k e h l =
    ground (arith, find_cached-none rounds (i + 1) device block bs k)

-- The search for an unused buffer finds one of the list, or there is none in the list.
pub find_unused-some :
    (lru : List ℕ) (bs : ℕ → BufferHead) (k : ℕ)
    → find_unused lru bs ≡ some k
    → ((bs k).ref_count ≡ 0) × (in_list k lru ≡ true)
unfolding find_unused in_list
find_unused-some [] bs k e = cc
find_unused-some (i ∷ lru) bs k e = ground (arith, find_unused-some lru bs k)

pub find_unused-none :
    (lru : List ℕ) (bs : ℕ → BufferHead) (k : ℕ)
    → find_unused lru bs ≡ none
    → in_list k lru ≡ true
    → (bs k).ref_count ≢ 0
unfolding find_unused in_list
find_unused-none [] bs k e h = cc
find_unused-none (i ∷ lru) bs k e h = ground (arith, find_unused-none lru bs k)
