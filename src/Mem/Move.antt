-- ===== src/Mem/Move.antt =====
-- memmove: right for every overlap.
use experiment.Base.{
  ℕ, zero, suc, ◌+◌, ◌-◌, ◌%◌, ◌≤◌, ◌≡◌, refl, ◌⊎◌, Bool, true, false, ◌&&◌, arith, Bool-cases, inl,
  inr, ltb, leb, ◌==◌, if◌then◌else◌,
}
use experiment.Mem.{
  Memory, move_block, Copying, memcpy, align_down, words_down, bytes_down, memmove,
}
use experiment.Mem.Copy.{
  Copied, Copied-down, Copied-eq, Copied-none, move_block-Copied, memcpy-Copied,
}

-- A copy of the `n` bytes at `s` to `d`, done from the end down to where `c` stands.
record GoneDown (n d s : ℕ) (m : Memory) (c : Copying) : Type 0 where
  done : ℕ
  left : c.n + done ≡ n
  at_d : c.d ≡ d + c.n
  at_s : c.s ≡ s + c.n
  copied : Copied done (d + c.n) (s + c.n) m c.m

block-GoneDown :
    (w left n d s : ℕ) (m : Memory) (c : Copying)
    → s ≤ d
    → c.n ≡ left + w
    → GoneDown n d s m c
    → GoneDown n d s m
        (record { n = left; d = c.d - w; s = c.s - w; m = move_block w (c.d - w) (c.s - w) c.m })
block-GoneDown w left n d s m c above room g = record {
  done = w + g.done;
  left = omega (arith, g.left);
  at_d = omega (arith, g.at_d);
  at_s = omega (arith, g.at_s);
  copied =
      Copied-down g.done w (d + left) (s + left) m c.m _ (omega arith)
        (Copied-eq refl (omega arith) (omega arith) g.copied)
        (Copied-eq refl (omega (arith, g.at_d)) (omega (arith, g.at_s))
          (move_block-Copied w (c.d - w) (c.s - w) c.m));
}

align_down-GoneDown :
    (k e t n d s : ℕ) (q m : Memory)
    → s ≤ d
    → GoneDown n d s m (record { n = k; d = e; s = t; m = q })
    → GoneDown n d s m (align_down k e t q)
unfolding align_down
align_down-GoneDown zero e t n d s q m above g = g
align_down-GoneDown (suc k) e t n d s q m above g = elim (Bool-cases (e % 8 == 0)) [
  | inl aligned ↦ rw aligned g
  | inr rough ↦ rw rough (
      align_down-GoneDown k (e - 1) (t - 1) n d s (move_block 1 (e - 1) (t - 1) q) m above (
        block-GoneDown 1 k n d s m (record { n = suc k; d = e; s = t; m = q }) above (omega arith)
          g))
]

words_down-GoneDown :
    (fuel n d s : ℕ) (m : Memory) (c : Copying)
    → s ≤ d
    → GoneDown n d s m c
    → GoneDown n d s m (words_down fuel c)
unfolding words_down
words_down-GoneDown zero n d s m c above g = g
words_down-GoneDown (suc fuel) n d s m c above g = elim (Bool-cases (leb 8 c.n)) [
  | inr short ↦ rw short g
  | inl room ↦ rw room (
      words_down-GoneDown fuel n d s m _ above
        (block-GoneDown 8 (c.n - 8) n d s m c above (ground arith) g))
]

bytes_down-Copied :
    (k n d s : ℕ) (m : Memory) (c : Copying)
    → c.n ≡ k
    → s ≤ d
    → GoneDown n d s m c
    → Copied n d s m (bytes_down k c.d c.s c.m)
unfolding bytes_down
bytes_down-Copied zero n d s m c e above g =
    Copied-eq (omega (arith, g.left)) (omega arith) (omega arith) g.copied
bytes_down-Copied (suc k) n d s m c e above g =
    bytes_down-Copied k n d s m
      (record { n = k; d = c.d - 1; s = c.s - 1; m = move_block 1 (c.d - 1) (c.s - 1) c.m }) refl
      above (block-GoneDown 1 k n d s m c above (omega arith) g)

words-GoneDown :
    (t : Bool) (n d s : ℕ) (m : Memory) (c : Copying)
    → s ≤ d
    → GoneDown n d s m c
    → GoneDown n d s m (if t then words_down c.n c else c)
words-GoneDown true n d s m c above g = words_down-GoneDown c.n n d s m c above g
words-GoneDown false n d s m c above g = g

upward :
    (dst src n : ℕ) → (ltb src dst && ltb dst (src + n)) ≡ false → (dst ≤ src) ⊎ (src + n ≤ dst)
upward dst src n e = elim (Bool-cases (ltb src dst)) [
  | inl below ↦ inr (ground arith)
  | inr above ↦ inl (ground arith)
]

-- memmove puts at the destination, byte for byte, what the source held before, and changes no other
-- byte, for any two ranges, overlapping or not, and any alignment.
pub memmove-Copied : (dst src n : ℕ) (m : Memory) → Copied n dst src m (memmove dst src n m)
unfolding memmove memcpy
memmove-Copied dst src n m = elim (Bool-cases (ltb src dst && ltb dst (src + n))) [
  | inr up ↦ rw up (memcpy-Copied dst src n m (upward dst src n up))
  | inl down ↦ rw down (
      bytes_down-Copied _ n dst src m _ refl (ground arith) (
        words-GoneDown _ n dst src m _ (ground arith) (
          align_down-GoneDown n (dst + n) (src + n) n dst src m m (ground arith) (record {
            done = 0;
            left = omega arith;
            at_d = refl;
            at_s = refl;
            copied = Copied-none (dst + n) (src + n) m;
          }))))
]
