-- ===== src/Pmm/Bits.antt =====
-- One bit of the page bitmap after each of the bit operations of pmm.c.
use experiment.Base.{
  ℕ, zero, suc, ◌+◌, ◌/◌, ◌%◌, ◌<◌, ◌≡◌, refl, Bool, true, false, ◌&&◌, ◌||◌, not, inl, inr, arith,
  ◌==◌, ltb, leb, Bool-cases, holds_under, holds_under_lem,
}
use experiment.Pmm.{
  Pmm, byte_set, byte_unset, byte_test, bitmap_set, bitmap_unset, bitmap_test, set_range,
  unset_range,
}

pub record Bytes (s : Pmm) : Type 0 where
  pub byte : (i : ℕ) → s.bitmap i < 256

abbrev beq : Bool → Bool → Bool
beq true b = b
beq false b = not b

beq→eq : (a b : Bool) → beq a b ≡ true → a ≡ b
beq→eq a b h = ground arith

abbrev set_law : ℕ → ℕ → ℕ → Bool
set_law b k j = beq (byte_test (byte_set b k) j) ((k == j) || byte_test b j)

abbrev unset_law : ℕ → ℕ → ℕ → Bool
unset_law b k j = beq (byte_test (byte_unset b k) j) (not (k == j) && byte_test b j)

abbrev bound_law : ℕ → ℕ → Bool
bound_law b k = ltb (byte_set b k) 256 && ltb (byte_unset b k) 256

set_table : holds_under (λ b. holds_under (λ k. holds_under (λ j. set_law b k j) 8) 8) 256 ≡ true
unfolding holds_under byte_test byte_set
set_table = refl

unset_table :
    holds_under (λ b. holds_under (λ k. holds_under (λ j. unset_law b k j) 8) 8) 256 ≡ true
unfolding holds_under byte_test byte_unset
unset_table = refl

bound_table : holds_under (λ b. holds_under (λ k. bound_law b k) 8) 256 ≡ true
unfolding holds_under byte_set byte_unset
bound_table = refl

-- The test of bit `j` of a byte after bit `k` was set, or reset.
byte_test-set :
    (b k j : ℕ) → b < 256 → k < 8 → j < 8 → byte_test (byte_set b k) j ≡ ((k == j) || byte_test b j)
byte_test-set b k j hb hk hj =
    beq→eq _ _ (holds_under_lem _ j hj (holds_under_lem _ k hk (holds_under_lem _ b hb set_table)))

byte_test-unset :
    (b k j : ℕ)
    → b < 256
    → k < 8
    → j < 8
    → byte_test (byte_unset b k) j ≡ (not (k == j) && byte_test b j)
byte_test-unset b k j hb hk hj =
    beq→eq _ _
      (holds_under_lem _ j hj (holds_under_lem _ k hk (holds_under_lem _ b hb unset_table)))

byte_bounds : (b k : ℕ) → b < 256 → k < 8 → (byte_set b k < 256) × (byte_unset b k < 256)
byte_bounds b k hb hk = ground (arith, holds_under_lem _ k hk (holds_under_lem _ b hb bound_table))

-- Two bit numbers are equal when their byte and their place in it are.
bit_split : (i j : ℕ) → (i / 8 == j / 8) ≡ true → ((i % 8) == (j % 8)) ≡ (i == j)
bit_split i j h = ground arith

bit_apart : (i j : ℕ) → (i / 8 == j / 8) ≡ false → (i == j) ≡ false
bit_apart i j h = ground arith

-- Setting a bit sets that bit alone, and the bitmap still holds bytes.
pub bitmap_test-set :
    (i j : ℕ) {s : Pmm} → Bytes s → bitmap_test j (bitmap_set i s) ≡ ((i == j) || bitmap_test j s)
unfolding bitmap_test bitmap_set
bitmap_test-set i j {s} b = elim (Bool-cases (j / 8 == i / 8)) [
  | inl e ↦
      ground
        (arith, byte_test-set (s.bitmap (i / 8)) (i % 8) (j % 8) (b.byte (i / 8)), bit_split i j)
  | inr e ↦ ground (arith, bit_apart i j)
]

pub bitmap_set-Bytes : (i : ℕ) {s : Pmm} → Bytes s → Bytes (bitmap_set i s)
unfolding bitmap_set
bitmap_set-Bytes i {s} b = record {
  byte = λ j. ground (arith, byte_bounds (s.bitmap (i / 8)) (i % 8) (b.byte (i / 8)), b.byte j);
}

pub bitmap_test-unset :
    (i j : ℕ) {s : Pmm}
    → Bytes s
    → bitmap_test j (bitmap_unset i s) ≡ (not (i == j) && bitmap_test j s)
unfolding bitmap_test bitmap_unset
bitmap_test-unset i j {s} b = elim (Bool-cases (j / 8 == i / 8)) [
  | inl e ↦
      ground
        (arith, byte_test-unset (s.bitmap (i / 8)) (i % 8) (j % 8) (b.byte (i / 8)), bit_split i j)
  | inr e ↦ ground (arith, bit_apart i j)
]

pub bitmap_unset-Bytes : (i : ℕ) {s : Pmm} → Bytes s → Bytes (bitmap_unset i s)
unfolding bitmap_unset
bitmap_unset-Bytes i {s} b = record {
  byte = λ j. ground (arith, byte_bounds (s.bitmap (i / 8)) (i % 8) (b.byte (i / 8)), b.byte j);
}

-- Page `j` is one of the `n` pages from `i` on.
abbrev pub in_range : ℕ → ℕ → ℕ → Bool
in_range i n j = leb i j && ltb j (i + n)

pub set_range-Bytes : (n i : ℕ) {s : Pmm} → Bytes s → Bytes (set_range n i s)
unfolding set_range
set_range-Bytes zero i b = b
set_range-Bytes (suc n) i b = set_range-Bytes n (i + 1) (bitmap_set-Bytes i b)

pub bitmap_test-set_range :
    (n i j : ℕ) {s : Pmm}
    → Bytes s
    → bitmap_test j (set_range n i s) ≡ (in_range i n j || bitmap_test j s)
unfolding set_range
bitmap_test-set_range zero i j b = ground arith
bitmap_test-set_range (suc n) i j {s} b =
    ground (arith, bitmap_test-set_range n (i + 1) j (bitmap_set-Bytes i b), bitmap_test-set i j b)

pub unset_range-Bytes : (n i : ℕ) {s : Pmm} → Bytes s → Bytes (unset_range n i s)
unfolding unset_range
unset_range-Bytes zero i b = b
unset_range-Bytes (suc n) i b = unset_range-Bytes n (i + 1) (bitmap_unset-Bytes i b)

pub bitmap_test-unset_range :
    (n i j : ℕ) {s : Pmm}
    → Bytes s
    → bitmap_test j (unset_range n i s) ≡ (not (in_range i n j) && bitmap_test j s)
unfolding unset_range
bitmap_test-unset_range zero i j b = ground arith
bitmap_test-unset_range (suc n) i j {s} b =
    ground
      (arith, bitmap_test-unset_range n (i + 1) j (bitmap_unset-Bytes i b), bitmap_test-unset i j b)
