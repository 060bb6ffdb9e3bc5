-- ===== src/Pipe/Create.antt =====
-- pipe_alloc and the freeing in pipe_inode_close, whatever the calls of kmalloc answer: each answer is
-- an argument, and the addresses that were given and freed are recorded.
use experiment.Base.{
  zero, suc, ◌+◌, ◌<◌, List, ◌∷◌, ◌++◌, ap, ap₂, ◌∙◌, ℕ, ◌≡◌, refl, ◌≢◌, Bool, true, false, ◌&&◌,
  not, Option, none, some, [], arith, ◌==◌, if◌then◌else◌, replicate, length-replicate,
}
use experiment.Base.Int.{pos}
use experiment.Pipe.{
  close_end, other_ops, Pipe, pipe_buf_size, InodeOps, read_ops, write_ops, inode_close,
}
use experiment.Pipe.Inv.{IsValid, contents}

-- The fields of `vfs_inode_t`; `ptr` stays null.
pub record Inode : Type 0 where
  pub flags : ℕ
  pub inode : ℕ
  pub size : ℕ
  pub ref : ℕ
  pub iops : InodeOps
  pub device : ℕ

abbrev pub vfs_pipe : ℕ
vfs_pipe = 5

-- sizeof(pipe_t) and sizeof(vfs_inode_t)
abbrev pub pipe_bytes : ℕ
pipe_bytes = 4120

abbrev pub inode_bytes : ℕ
inode_bytes = 48

abbrev pub new_pipe : Pipe
new_pipe = record {
  buffer = replicate pipe_buf_size 0;
  read_pos = 0;
  write_pos = 0;
  count = 0;
  read_open = pos 1;
  write_open = pos 1;
}

abbrev pub new_inode : InodeOps → ℕ → Inode
new_inode ops p = record { flags = vfs_pipe; inode = 0; size = 0; ref = 1; iops = ops; device = p }

-- What the caller finds behind its two pointers: the addresses and the objects there.
pub record Created : Type 0 where
  pub pipe_addr : ℕ
  pub read_addr : ℕ
  pub write_addr : ℕ
  pub pipe : Pipe
  pub read_inode : Inode
  pub write_inode : Inode

abbrev pub created : (p ri wi : ℕ) → Created
created p ri wi = record {
  pipe_addr = p;
  read_addr = ri;
  write_addr = wi;
  pipe = new_pipe;
  read_inode = new_inode read_ops p;
  write_inode = new_inode write_ops p;
}

pub new_pipe-IsValid : IsValid new_pipe
new_pipe-IsValid = record {
  storage = length-replicate {A = ℕ} pipe_buf_size 0;
  read_in = omega arith;
  count_in = omega arith;
  write_at = omega arith;
}

contents-new_pipe : contents new_pipe ≡ []
unfolding contents
contents-new_pipe = refl

-- What the next calls of kmalloc answer, and what was given and freed so far, the last first.
pub record Calls : Type 0 where
  pub answers : List (Option ℕ)
  pub given : List ℕ
  pub freed : List ℕ

unfoldable pub kmalloc : Calls → Option ℕ × Calls
kmalloc s = elim s.answers [
  | [] ↦ (none, s)
  | a ∷ rest ↦ elim a [
    | none ↦ (none, record s { answers = rest })
    | some p ↦ (some p, record s { answers = rest; given = p ∷ s.given })
  ]
]

abbrev pub kfree : ℕ → Calls → Calls
kfree p s = record s { freed = p ∷ s.freed }

-- The three calls of kmalloc, each with the frees that undo those before it.
pub alloc_write : (p ri : ℕ) → Option ℕ × Calls → Option Created × Calls
alloc_write p ri (none, s) = (none, kfree p (kfree ri s))
alloc_write p ri (some wi, s) = (some (created p ri wi), s)

pub alloc_read : (p : ℕ) → Option ℕ × Calls → Option Created × Calls
alloc_read p (none, s) = (none, kfree p s)
alloc_read p (some ri, s) = alloc_write p ri (kmalloc s)

pub alloc_pipe : Option ℕ × Calls → Option Created × Calls
alloc_pipe (none, s) = (none, s)
alloc_pipe (some p, s) = alloc_read p (kmalloc s)

-- The Booleans say whether the caller's pointers are not null; `none` is the result -1.
unfoldable pub pipe_alloc : (read_inode write_inode : Bool) → Calls → Option Created × Calls
pipe_alloc ri wi s = if not (ri && wi) then (none, s) else alloc_pipe (kmalloc s)

-- pipe_inode_close on an inode: a null device ends it at once.
unfoldable pub close_inode : Inode → Pipe → Calls → Pipe × Calls
unfolding inode_close
close_inode node p s =
    let r = inode_close node.iops p in
    if node.device == 0 then (p, s) else (r.0, if r.1 then kfree node.device s else s)

-- A pipe that was made: its ring is in order and empty, its two inodes lead to it, the one with the
-- operations of a reader and the other with those of a writer, and what was allocated are the three
-- objects, of which nothing was freed.
pub record MadePipe (s : Calls) (c : Created) (t : Calls) : Type 0 where
  pub valid : IsValid c.pipe
  pub empty : contents c.pipe ≡ []
  pub opens : (c.pipe.read_open ≡ pos 1) × (c.pipe.write_open ≡ pos 1)
  pub reader : (c.read_inode.device ≡ c.pipe_addr) × (c.read_inode.iops ≡ read_ops)
  pub writer : (c.write_inode.device ≡ c.pipe_addr) × (c.write_inode.iops ≡ write_ops)
  pub allocated : t.given ≡ c.write_addr ∷ c.read_addr ∷ c.pipe_addr ∷ s.given
  pub kept : t.freed ≡ s.freed

-- How often an address stands in a list.
unfoldable pub times : ℕ → List ℕ → ℕ
times x [] = 0
times x (y ∷ ys) = if x == y then suc (times x ys) else times x ys

-- On failure each address was freed as often as it was given.
unfoldable pub Makes : Calls → Option Created × Calls → Type 0
Makes s (none, t) = (x : ℕ) → times x t.freed + times x s.given ≡ times x s.freed + times x t.given
Makes s (some c, t) = MadePipe s c t

-- How a call of kmalloc ends.
Answered : Calls → Option ℕ × Calls → Type 0
Answered s (none, t) = (t.given ≡ s.given) × (t.freed ≡ s.freed)
Answered s (some p, t) = (t.given ≡ p ∷ s.given) × (t.freed ≡ s.freed)

kmalloc-Answered : (s : Calls) → Answered s (kmalloc s)
unfolding kmalloc Answered
kmalloc-Answered s = go s.answers refl
  where
    go : (answers : List (Option ℕ)) → s.answers ≡ answers → Answered s (kmalloc s)
    go [] e = rw (kmalloc, e) (refl, refl)
    go (none ∷ rest) e = rw (kmalloc, e) (refl, refl)
    go (some p ∷ rest) e = rw (kmalloc, e) (refl, refl)

alloc_write-Makes :
    (p ri : ℕ) (s t : Calls) (r : Option ℕ × Calls)
    → t.given ≡ ri ∷ p ∷ s.given
    → t.freed ≡ s.freed
    → Answered t r
    → Makes s (alloc_write p ri r)
unfolding Makes alloc_write times contents Answered
alloc_write-Makes p ri s t (none, u) eg ef a = λ x. rw (a.0, a.1, eg, ef) (ground arith)
alloc_write-Makes p ri s t (some wi, u) eg ef a = record {
  valid = new_pipe-IsValid;
  empty = contents-new_pipe;
  opens = (refl, refl);
  reader = (refl, refl);
  writer = (refl, refl);
  allocated = a.0 ∙ ap (λ g. wi ∷ g) eg;
  kept = a.1 ∙ ef;
}

alloc_read-Makes :
    (p : ℕ) (s t : Calls) (r : Option ℕ × Calls)
    → t.given ≡ p ∷ s.given
    → t.freed ≡ s.freed
    → Answered t r
    → Makes s (alloc_read p r)
unfolding Makes alloc_read times Answered
alloc_read-Makes p s t (none, u) eg ef a = λ x. rw (a.0, a.1, eg, ef) (ground arith)
alloc_read-Makes p s t (some ri, u) eg ef a =
    alloc_write-Makes p ri s u (kmalloc u) (a.0 ∙ ap (λ g. ri ∷ g) eg) (a.1 ∙ ef)
      (kmalloc-Answered u)

alloc_pipe-Makes : (s : Calls) (r : Option ℕ × Calls) → Answered s r → Makes s (alloc_pipe r)
unfolding Makes alloc_pipe Answered
alloc_pipe-Makes s (none, t) a = λ x. rw (a.0, a.1) refl
alloc_pipe-Makes s (some p, t) a = alloc_read-Makes p s t (kmalloc t) a.0 a.1 (kmalloc-Answered t)

-- pipe_alloc, whatever its calls of kmalloc answer, either makes a pipe, with an empty ring in order
-- and one read and one write end, whose objects are what it allocated, and frees nothing; or, if a
-- pointer is null or any of the calls answers null, it frees each address exactly as often as it was
-- given.
pub pipe_alloc-Makes : (ri wi : Bool) (s : Calls) → Makes s (pipe_alloc ri wi s)
unfolding pipe_alloc Makes
pipe_alloc-Makes true true s = alloc_pipe-Makes s (kmalloc s) (kmalloc-Answered s)
pipe_alloc-Makes true false s = λ x. omega arith
pipe_alloc-Makes false wi s = λ x. omega arith

-- A pipe with `r` read ends and `w` write ends open, and its ends closed one after the other.
abbrev pub opened : Pipe → (r w : ℕ) → Pipe
opened p r w = record p { read_open = pos r; write_open = pos w }

unfoldable pub close_all : List InodeOps → (device : ℕ) → Pipe → Calls → Pipe × Calls
close_all [] d p s = (p, s)
close_all (o ∷ os) d p s = let c = close_inode (new_inode o d) p s in close_all os d c.0 c.1

unfoldable pub reads : List InodeOps → ℕ
reads [] = 0
reads (read_ops ∷ os) = suc (reads os)
reads (write_ops ∷ os) = reads os
reads (other_ops ∷ os) = reads os

unfoldable pub writes : List InodeOps → ℕ
writes [] = 0
writes (read_ops ∷ os) = writes os
writes (write_ops ∷ os) = suc (writes os)
writes (other_ops ∷ os) = writes os

-- A close that leaves an end open frees nothing.
close_open :
    (o : InodeOps) (d r w r' w' : ℕ) (p : Pipe) (s : Calls)
    → close_end o (opened p r w) ≡ opened p r' w'
    → d ≢ 0
    → 0 < r' + w'
    → close_inode (new_inode o d) (opened p r w) s ≡ (opened p r' w', s)
unfolding close_inode inode_close
close_open o d r w zero zero p s e set some_open = absurd (omega arith)
close_open o d r w zero (suc w') p s e set some_open =
    let nonnull : (d == 0) ≡ false = ground (arith, set) in rw (nonnull, e) refl
close_open o d r w (suc r') w' p s e set some_open =
    let nonnull : (d == 0) ≡ false = ground (arith, set) in rw (nonnull, e) refl

close_last :
    (o : InodeOps) (d r w : ℕ) (p : Pipe) (s : Calls)
    → close_end o (opened p r w) ≡ opened p 0 0
    → d ≢ 0
    → close_inode (new_inode o d) (opened p r w) s ≡ (opened p 0 0, kfree d s)
unfolding close_inode inode_close
close_last o d r w p s e set =
    let nonnull : (d == 0) ≡ false = ground (arith, set) in rw (nonnull, e) refl

close_all-open :
    (os : List InodeOps) (d r w : ℕ) (p : Pipe) (s : Calls)
    → d ≢ 0
    → 0 < r + w
    → close_all os d (opened p (reads os + r) (writes os + w)) s ≡ (opened p r w, s)
unfolding close_all reads writes close_end
close_all-open [] d r w p s set some_open =
    let no_read : 0 + r ≡ r = omega arith in
    let no_write : 0 + w ≡ w = omega arith in ap₂ (λ (a b : ℕ). (opened p a b, s)) no_read no_write
close_all-open (read_ops ∷ os) d r w p s set some_open =
    let shift : close_end read_ops (opened p (suc (reads os) + r) (writes os + w))
        ≡ opened p (reads os + r) (writes os + w) =
      ap (λ n. close_end read_ops (opened p n (writes os + w))) {x = suc (reads os) + r}
        {y = suc (reads os + r)} (omega arith) in
    rw
      (close_open read_ops d (suc (reads os) + r) (writes os + w) (reads os + r) (writes os + w) p s
        shift set (omega arith))
      (close_all-open os d r w p s set some_open)
close_all-open (write_ops ∷ os) d r w p s set some_open =
    let shift : close_end write_ops (opened p (reads os + r) (suc (writes os) + w))
        ≡ opened p (reads os + r) (writes os + w) =
      ap (λ n. close_end write_ops (opened p (reads os + r) n)) {x = suc (writes os) + w}
        {y = suc (writes os + w)} (omega arith) in
    rw
      (close_open write_ops d (reads os + r) (suc (writes os) + w) (reads os + r) (writes os + w) p
        s shift set (omega arith))
      (close_all-open os d r w p s set some_open)
close_all-open (other_ops ∷ os) d r w p s set some_open =
    rw
      (close_open other_ops d (reads os + r) (writes os + w) (reads os + r) (writes os + w) p s refl
        set (omega arith))
      (close_all-open os d r w p s set some_open)

close_all-append :
    (xs ys : List InodeOps) (d : ℕ) (p : Pipe) (s : Calls)
    → close_all (xs ++ ys) d p s ≡ close_all ys d (close_all xs d p s).0 (close_all xs d p s).1
unfolding close_all
close_all-append [] ys d p s = refl
close_all-append (o ∷ xs) ys d p s =
    let c = close_inode (new_inode o d) p s in close_all-append xs ys d c.0 c.1

-- The end of a pipe: with exactly the ends open that a sequence of closes closes, the last of them of a
-- reader or a writer, nothing is freed before that last close, and it frees the pipe, once. The
-- sequence may hold any number of ends of both kinds in any order, and the ring may hold anything.
pub close_all-frees :
    (os : List InodeOps) (o : InodeOps) (d : ℕ) (p : Pipe) (s : Calls)
    → d ≢ 0
    → o ≢ other_ops
    → let start = opened p (reads os + reads (o ∷ [])) (writes os + writes (o ∷ [])) in
      ((close_all os d start s).1 ≡ s)
      × ((close_all (os ++ (o ∷ [])) d start s).1.freed ≡ d ∷ s.freed)
unfolding close_all reads writes close_end
close_all-frees os read_ops d p s set end =
    let front = close_all-open os d 1 0 p s set (omega arith) in
    (
      rw front refl,
      rw (close_all-append os (read_ops ∷ []) d (opened p (reads os + 1) (writes os + 0)) s, front)
          (ap (λ c. c.1.freed) (close_last read_ops d 1 0 p s refl set)),
    )
close_all-frees os write_ops d p s set end =
    let front = close_all-open os d 0 1 p s set (omega arith) in
    (
      rw front refl,
      rw (close_all-append os (write_ops ∷ []) d (opened p (reads os + 0) (writes os + 1)) s, front)
          (ap (λ c. c.1.freed) (close_last write_ops d 0 1 p s refl set)),
    )
close_all-frees os other_ops d p s set end = absurd (end refl)
