-- ===== src/Net/Checksum.antt =====
-- The Internet checksum: what the folded sum is, and that a receiver's check comes out as 0.
use experiment.Base.{
  ℕ, suc, ◌+◌, ◌-◌, ◌*◌, ◌/◌, ◌%◌, ◌^◌, ◌<◌, ◌≤◌, ◌≡◌, refl, ◌∙◌, Bool, true, false, List, [], ◌∷◌,
  ◌++◌, arith, Bool-cases, inl, inr, ◌==◌,
}
use experiment.Net.{sum_words, fold_sum, checksum}

-- The sum of the words, without a bound.
unfoldable pub total : List ℕ → ℕ
total [] = 0
total (x ∷ []) = x
total (x ∷ y ∷ rest) = x + y * 256 + total rest

unfoldable pub is_even : List ℕ → Bool
is_even [] = true
is_even (x ∷ []) = false
is_even (x ∷ y ∷ rest) = is_even rest

sum_words-total :
    (bytes : List ℕ) (start : ℕ)
    → start + total bytes < 2 ^ 32
    → sum_words bytes start ≡ start + total bytes
unfolding sum_words total
sum_words-total [] start h = omega arith
sum_words-total (x ∷ []) start h = omega arith
sum_words-total (x ∷ y ∷ rest) start h =
    let here : (start + (x + y * 256)) % 2 ^ 32 ≡ start + (x + y * 256) = omega arith in
    rw here (sum_words-total rest (start + (x + y * 256)) (omega arith) ∙ omega arith)

total-append : (xs ys : List ℕ) → is_even xs ≡ true → total (xs ++ ys) ≡ total xs + total ys
unfolding total is_even
total-append [] ys e = omega arith
total-append (x ∷ []) ys e = cc
total-append (x ∷ y ∷ rest) ys e = omega (arith, total-append rest ys e)

-- A folded sum fits 16 bits, keeps its remainder by 65535, is no larger, and is 0 only for 0.
record Folded (sum f : ℕ) : Type 0 where
  fits : f < 2 ^ 16
  same : f % 65535 ≡ sum % 65535
  filled : 0 < sum → 0 < f
  below : f ≤ sum

fold_sum-step :
    (fuel sum : ℕ)
    → Folded (sum % 2 ^ 16 + sum / 2 ^ 16) (fold_sum fuel (sum % 2 ^ 16 + sum / 2 ^ 16))
    → Folded sum (fold_sum (suc fuel) sum)
unfolding fold_sum
fold_sum-step fuel sum f = elim (Bool-cases (sum / 2 ^ 16 == 0)) [
  | inl small ↦
      rw small (record { fits = ground arith; same = refl; filled = λ h. h; below = omega arith })
  | inr large ↦ rw large (record {
    fits = f.fits;
    same = omega (arith, f.same);
    filled = λ h. f.filled (omega arith);
    below = omega (arith, f.below);
  })
]

fold_sum-small : (fuel sum : ℕ) → sum < 2 ^ 16 → Folded sum (fold_sum (suc fuel) sum)
unfolding fold_sum
fold_sum-small fuel sum h =
    let small : (sum / 2 ^ 16 == 0) ≡ true = ground arith in
    rw small (record { fits = h; same = refl; filled = λ k. k; below = omega arith })

fold_sum-Folded : (sum : ℕ) → sum < 2 ^ 32 → Folded sum (fold_sum 3 sum)
fold_sum-Folded sum h =
    let once = sum % 2 ^ 16 + sum / 2 ^ 16 in
    fold_sum-step 2 sum
      (fold_sum-step 1 once (fold_sum-small 0 (once % 2 ^ 16 + once / 2 ^ 16) (omega arith)))

checksum-fold :
    (bytes : List ℕ) (start : ℕ)
    → start + total bytes < 2 ^ 32
    → checksum bytes start ≡ 2 ^ 16 - 1 - fold_sum 3 (start + total bytes)
unfolding checksum
checksum-fold bytes start h =
    rw (sum_words-total bytes start h)
      (omega (arith, (fold_sum-Folded (start + total bytes) h).fits))

-- For an even number of bytes whose sum and start are below 2^32 - 2^16, the checksum is a 16-bit
-- number that fills the sum of the words up to a multiple of 65535, and when the bytes are
-- followed by it, low byte first, the checksum of the whole is 0.
pub checksum-checksum :
    (bytes : List ℕ) (start : ℕ)
    → is_even bytes ≡ true
    → start + total bytes + 2 ^ 16 < 2 ^ 32
    → let ck = checksum bytes start in
      (ck < 2 ^ 16)
      × ((start + total bytes + ck) % 65535 ≡ 0)
      × (checksum (bytes ++ (ck % 256 ∷ ck / 256 ∷ [])) start ≡ 0)
unfolding total
checksum-checksum bytes start e h =
    let ck = checksum bytes start in
    let c = checksum-fold bytes start (omega arith) in
    let f = fold_sum-Folded (start + total bytes) (omega arith) in
    let fits : ck < 2 ^ 16 = omega (arith, c) in
    let fills : (start + total bytes + ck) % 65535 ≡ 0 = omega (arith, c, f.fits, f.same) in
    let whole = bytes ++ (ck % 256 ∷ ck / 256 ∷ []) in
    let sum : total whole ≡ total bytes + ck =
      total-append bytes (ck % 256 ∷ ck / 256 ∷ []) e ∙ omega arith in
    let g = fold_sum-Folded (start + total whole) (omega arith) in
    (
      fits,
      fills,
      checksum-fold whole start (omega arith)
          ∙ omega (
            arith,
            g.fits,
            g.same,
            g.filled (omega (arith, c, f.fits, f.below, sum)),
            sum,
            fills,
          ),
    )
