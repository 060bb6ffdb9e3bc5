-- ===== src/Pipe.antt =====
-- The pipes of kernel/fs/pipe.c. Each operation runs under the pipe's lock but for the calls of
-- schedule(); what the other threads do to the pipe during the calls that one operation makes is a
-- list, `turns`, one entry for each call.
pub mod Create
pub mod Inv
pub mod Stream
pub mod Reading
pub mod Writing
mod Tests
use experiment.Base.{
  ℕ, zero, suc, ◌+◌, ◌-◌, ◌%◌, Bool, true, false, ◌&&◌, not, Option, none, some, List, [], ◌∷◌, ltb,
  leb, ◌==◌, if◌then◌else◌, get_or, set, length,
}
use experiment.Base.Int.{ℤ, dec, is_pos, is_zero}

abbrev pub pipe_buf_size : ℕ
pipe_buf_size = 4096

pub record Pipe : Type 0 where
  pub buffer : List ℕ
  pub read_pos : ℕ
  pub write_pos : ℕ
  pub count : ℕ
  pub read_open : ℤ
  pub write_open : ℤ

-- Which table of operations an inode points at.
pub data InodeOps : Type 0 where
  read_ops write_ops other_ops : InodeOps

abbrev pub Turns : Type 0
Turns = List (Pipe → Pipe)

-- How a call that may wait ends: it returns, or it still waits when the turns are used up.
pub data Outcome (A : Type 0) : Type 0 where
  returned : A → Pipe → Outcome A
  waiting : Pipe → Outcome A

-- while (p->count == 0 && p->write_open > 0) { release; schedule(); acquire; }
pub wait_readable : Turns → Pipe → Outcome (Unit {0})
wait_readable [] p = if p.count == 0 && is_pos p.write_open then waiting p else returned tt p
wait_readable (turn ∷ turns) p =
    let again = wait_readable turns (turn p) in
    if p.count == 0 && is_pos p.write_open then again else returned tt p

-- One byte out, one byte in.
pub take_byte : Pipe → Pipe
take_byte p = record p { read_pos = (p.read_pos + 1) % pipe_buf_size; count = p.count - 1 }

pub put_byte : ℕ → Pipe → Pipe
put_byte x p = record p {
  buffer = set p.buffer p.write_pos x;
  write_pos = (p.write_pos + 1) % pipe_buf_size;
  count = p.count + 1;
}

-- The reading loop, with room for `room` more bytes in the caller's buffer.
pub drain : (room : ℕ) → Pipe → List ℕ × Pipe
drain zero p = ([], p)
drain (suc room) p =
    let rest = drain room (take_byte p) in
    if p.count == 0 then ([], p) else (get_or p.buffer p.read_pos 0 ∷ rest.0, rest.1)

-- The inner writing loop: what is left of the caller's bytes when it stops.
pub fill : List ℕ → Pipe → List ℕ × Pipe
unfolding put_byte
fill [] p = ([], p)
fill (x ∷ xs) p =
    let rest = fill xs (put_byte x p) in if ltb p.count pipe_buf_size then rest else (x ∷ xs, p)

abbrev after : {A B : Type 0} → Outcome A → (A → Pipe → Outcome B) → Outcome B
after (returned a p) k = k a p
after (waiting p) k = waiting p

-- pipe_inode_read past its checks: `node`, `buffer` and `device` are not null and `size` is not 0.
pub read_pipe : Turns → (size : ℕ) → Pipe → Outcome (List ℕ)
unfolding wait_readable drain take_byte
read_pipe turns size p =
    after (wait_readable turns p) (λ _ q. let r = drain size q in returned r.0 r.1)

-- The checks: `none` is a null pointer. The bytes are those put into the caller's buffer.
pub inode_read : Turns → (node buffer device : Bool) → (size : ℕ) → Pipe → Outcome (List ℕ)
unfolding read_pipe
inode_read turns node buffer device size p =
    if node && buffer && device && ltb 0 size then read_pipe turns size p else returned [] p

-- The outer writing loop over what is left of the caller's bytes. A round that finds the buffer full
-- and a reader uses up a turn, and any other round ends the loop or writes at least one byte, so
-- that a fuel above the number of bytes and turns is enough while `read_open` is not negative.
pub data Write : Type 0 where
  wrote : (left : List ℕ) → Pipe → Write
  blocked : (left : List ℕ) → Pipe → Write
  out_of_fuel : Write

pub write_loop : (fuel : ℕ) → Turns → List ℕ → Pipe → Write
write_loop zero turns left p = out_of_fuel
write_loop (suc fuel) turns [] p = wrote [] p
write_loop (suc fuel) [] (x ∷ xs) p =
    let more = (let r = fill (x ∷ xs) p in write_loop fuel [] r.0 r.1) in
    if leb pipe_buf_size p.count && is_pos p.read_open
    then blocked (x ∷ xs) p
    else if is_zero p.read_open
    then wrote (x ∷ xs) p
    else more
write_loop (suc fuel) (turn ∷ turns) (x ∷ xs) p =
    let again = write_loop fuel turns (x ∷ xs) (turn p) in
    let more = (let r = fill (x ∷ xs) p in write_loop fuel (turn ∷ turns) r.0 r.1) in
    if leb pipe_buf_size p.count && is_pos p.read_open
    then again
    else if is_zero p.read_open
    then wrote (x ∷ xs) p
    else more

-- pipe_inode_write past its checks.
pub write_pipe : Turns → List ℕ → Pipe → Write
unfolding write_loop fill
write_pipe turns bytes p =
    if is_zero p.read_open
    then wrote bytes p
    else write_loop (length bytes + length turns + 1) turns bytes p

pub inode_write : Turns → (node buffer device : Bool) → List ℕ → Pipe → Write
unfolding write_pipe
inode_write turns node buffer device bytes p =
    if node && buffer && device && ltb 0 (length bytes)
    then write_pipe turns bytes p
    else wrote bytes p

close_end : InodeOps → Pipe → Pipe
close_end read_ops p = record p { read_open = dec p.read_open }
close_end write_ops p = record p { write_open = dec p.write_open }
close_end other_ops p = p

-- pipe_inode_close of a pipe's inode: the pipe, and whether it is freed.
pub inode_close : InodeOps → Pipe → Pipe × Bool
unfolding close_end
inode_close ops p =
    let q = close_end ops p in (q, not (is_pos q.read_open) && not (is_pos q.write_open))
