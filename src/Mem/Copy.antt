-- ===== src/Mem/Copy.antt =====
-- What the copying functions leave in memory.
use experiment.Base.{
  ℕ, zero, suc, ◌+◌, ◌-◌, ◌%◌, ◌≤◌, ◌≡◌, refl, ◌⊎◌, arith, Bool-cases, inl, inr, leb, ◌==◌,
  if◌then◌else◌,
}
use experiment.Mem.{
  Memory, within, move_block, Copying, align_up, blocks_up, bytes_up, memcpy_forward, memcpy,
}

-- `r` has at the `n` addresses from `d` on what `m` has from `s` on, and is `m` elsewhere.
pub record Copied (n d s : ℕ) (m r : Memory) : Type 0 where
  pub at : (a : ℕ) → r a ≡ (if within d n a then m (s + (a - d)) else m a)

-- A copy upwards, first `k` bytes and then `n`, is right if it does not overlap or goes to lower
-- addresses.
Copied-up :
    (k n d s : ℕ) (m q r : Memory)
    → (d ≤ s) ⊎ (s + (k + n) ≤ d)
    → Copied k d s m q
    → Copied n (d + k) (s + k) q r
    → Copied (k + n) d s m r
Copied-up k n d s m q r apart x y = record {
  at = λ a. ground (arith, x.at a, x.at (s + k + (a - (d + k))), y.at a);
}

-- A copy downwards, first the `k` bytes at the end, is right if it goes to higher addresses.
pub Copied-down :
    (k n d s : ℕ) (m q r : Memory)
    → s ≤ d
    → Copied k (d + n) (s + n) m q
    → Copied n d s q r
    → Copied (n + k) d s m r
Copied-down k n d s m q r apart x y = record {
  at = λ a. ground (arith, x.at a, x.at (s + (a - d)), y.at a);
}

pub Copied-eq :
    {k d s k' d' s' : ℕ} {m r : Memory}
    → k ≡ k'
    → d ≡ d'
    → s ≡ s'
    → Copied k d s m r
    → Copied k' d' s' m r
Copied-eq p q e c = record { at = λ a. rw (← p, ← q, ← e) (c.at a) }

pub move_block-Copied : (w d s : ℕ) (m : Memory) → Copied w d s m (move_block w d s m)
unfolding move_block
move_block-Copied w d s m = record { at = λ a. refl }

pub Copied-none : (d s : ℕ) (m : Memory) → Copied 0 d s m m
Copied-none d s m = record { at = λ a. ground arith }

-- A copy of the `n` bytes at `s` to `d`, done from the start up to where `c` stands.
record GoneUp (n d s : ℕ) (m : Memory) (c : Copying) : Type 0 where
  done : ℕ
  left : done + c.n ≡ n
  at_d : c.d ≡ d + done
  at_s : c.s ≡ s + done
  copied : Copied done d s m c.m

abbrev Apart : (n d s : ℕ) → Type 0
Apart n d s = (d ≤ s) ⊎ (s + n ≤ d)

within-Apart : (k w n d s : ℕ) → k + w ≤ n → Apart n d s → Apart (k + w) d s
within-Apart k w n d s h (inl below) = inl below
within-Apart k w n d s h (inr clear) = inr (omega arith)

block-GoneUp :
    (w left n d s : ℕ) (m : Memory) (c : Copying)
    → Apart n d s
    → c.n ≡ w + left
    → GoneUp n d s m c
    → GoneUp n d s m (record { n = left; d = c.d + w; s = c.s + w; m = move_block w c.d c.s c.m })
block-GoneUp w left n d s m c apart room g = record {
  done = g.done + w;
  left = omega (arith, g.left);
  at_d = omega (arith, g.at_d);
  at_s = omega (arith, g.at_s);
  copied =
      Copied-up g.done w d s m c.m _ (within-Apart g.done w n d s (omega (arith, g.left)) apart)
        g.copied (Copied-eq refl g.at_d g.at_s (move_block-Copied w c.d c.s c.m));
}

align_up-GoneUp :
    (k e t n d s : ℕ) (q m : Memory)
    → Apart n d s
    → GoneUp n d s m (record { n = k; d = e; s = t; m = q })
    → GoneUp n d s m (align_up k e t q)
unfolding align_up
align_up-GoneUp zero e t n d s q m apart g = g
align_up-GoneUp (suc k) e t n d s q m apart g = elim (Bool-cases (e % 32 == 0)) [
  | inl aligned ↦ rw aligned g
  | inr rough ↦ rw rough (
      align_up-GoneUp k (e + 1) (t + 1) n d s (move_block 1 e t q) m apart (
        block-GoneUp 1 k n d s m (record { n = suc k; d = e; s = t; m = q }) apart (omega arith) g))
]

blocks_up-GoneUp :
    (fuel w n d s : ℕ) (m : Memory) (c : Copying)
    → Apart n d s
    → GoneUp n d s m c
    → GoneUp n d s m (blocks_up fuel w c)
unfolding blocks_up
blocks_up-GoneUp zero w n d s m c apart g = g
blocks_up-GoneUp (suc fuel) w n d s m c apart g = elim (Bool-cases (leb w c.n)) [
  | inr short ↦ rw short g
  | inl room ↦ rw room (
      blocks_up-GoneUp fuel w n d s m _ apart
        (block-GoneUp w (c.n - w) n d s m c apart (ground arith) g))
]

bytes_up-Copied :
    (k n d s : ℕ) (m : Memory) (c : Copying)
    → c.n ≡ k
    → Apart n d s
    → GoneUp n d s m c
    → Copied n d s m (bytes_up k c.d c.s c.m)
unfolding bytes_up
bytes_up-Copied zero n d s m c e apart g = Copied-eq (omega (arith, g.left)) refl refl g.copied
bytes_up-Copied (suc k) n d s m c e apart g =
    bytes_up-Copied k n d s m
      (record { n = k; d = c.d + 1; s = c.s + 1; m = move_block 1 c.d c.s c.m }) refl apart
      (block-GoneUp 1 k n d s m c apart (omega arith) g)

-- memcpy of ranges that do not overlap, or to a lower address, moves the bytes and changes no other,
-- whatever the alignment.
pub memcpy-Copied :
    (dst src n : ℕ) (m : Memory)
    → (dst ≤ src) ⊎ (src + n ≤ dst)
    → Copied n dst src m (memcpy dst src n m)
unfolding memcpy memcpy_forward
memcpy-Copied dst src n m apart =
    let start : GoneUp n dst src m (record { n = n; d = dst; s = src; m = m }) = record {
      done = 0;
      left = omega arith;
      at_d = omega arith;
      at_s = omega arith;
      copied = Copied-none dst src m;
    } in
    bytes_up-Copied _ n dst src m _ refl apart (
      blocks_up-GoneUp _ 32 n dst src m _ apart
        (align_up-GoneUp n dst src n dst src m m apart start))
