-- ===== src/Pipe/Tests.antt =====
-- Runs of pipe.c, and its theorems there.
use experiment.Base.{
  some, none, ℕ, ◌≡◌, refl, true, [], ◌∷◌, arith, replicate, length-set, length-replicate, ◌∙◌, set,
}
use experiment.Base.Int.{pos}
use experiment.Pipe.{Pipe, pipe_buf_size, read_ops, write_ops, inode_read, inode_write, drain, fill}
use experiment.Pipe.Create.{
  Calls, Makes, pipe_alloc, pipe_alloc-Makes, close_all, opened, close_all-frees, kmalloc, times,
  close_inode, new_pipe-IsValid, new_pipe,
}
use experiment.Pipe.Inv.{IsValid}
use experiment.Pipe.Stream.{fill-Filled}
use experiment.Pipe.Reading.{ReadEnds, KeepsValid, inode_read-ReadEnds}
use experiment.Pipe.Writing.{WriteEnds, inode_write-WriteEnds, drain-IsReader}

-- A pipe of two bytes that wrap round the end of the buffer.
abbrev wrapped : Pipe
wrapped = record {
  buffer = set (set (replicate pipe_buf_size 0) 4095 7) 0 8;
  read_pos = 4095;
  write_pos = 1;
  count = 2;
  read_open = pos 1;
  write_open = pos 1;
}

wrapped-IsValid : IsValid wrapped
wrapped-IsValid = record {
  storage =
      length-set {A = ℕ} (set (replicate pipe_buf_size 0) 4095 7) 0 8
      ∙ (length-set {A = ℕ} (replicate pipe_buf_size 0) 4095 7
          ∙ length-replicate {A = ℕ} pipe_buf_size 0);
  read_in = omega arith;
  count_in = omega arith;
  write_at = omega arith;
}

-- A turn that puts in a byte where there is room.
abbrev writer_turn : Pipe → Pipe
writer_turn p = (fill (9 ∷ []) p).1

writer_turn-KeepsValid : KeepsValid writer_turn
writer_turn-KeepsValid p v = (fill-Filled (9 ∷ []) v).valid

inode_read-ReadEnds_example :
    ReadEnds (writer_turn ∷ []) 3 new_pipe (inode_read (writer_turn ∷ []) true true true 3 new_pipe)
inode_read-ReadEnds_example =
    inode_read-ReadEnds (writer_turn ∷ []) 3 (writer_turn-KeepsValid, tt) new_pipe-IsValid
      (omega arith)

abbrev reader_turn : Pipe → Pipe
reader_turn p = (drain 2 p).1

inode_write-WriteEnds_example :
    WriteEnds
      (5 ∷ 6 ∷ [])
      wrapped
      (inode_write (reader_turn ∷ []) true true true (5 ∷ 6 ∷ []) wrapped)
inode_write-WriteEnds_example =
    inode_write-WriteEnds (reader_turn ∷ []) (5 ∷ 6 ∷ []) (drain-IsReader 2, tt) wrapped-IsValid
      refl (omega arith)

-- Two calls of kmalloc answer, the third does not.
abbrev short_of_memory : Calls
short_of_memory = record { answers = some 100 ∷ some 200 ∷ none ∷ []; given = []; freed = [] }

pipe_alloc-Makes_example : Makes short_of_memory (pipe_alloc true true short_of_memory)
pipe_alloc-Makes_example = pipe_alloc-Makes true true short_of_memory

-- Two read ends and a write end of a pipe that holds two bytes.
close_all-frees_example :
    let start = opened wrapped 2 1 in
    ((close_all (read_ops ∷ write_ops ∷ []) 100 start short_of_memory).1 ≡ short_of_memory)
    × ((close_all (read_ops ∷ write_ops ∷ read_ops ∷ []) 100 start short_of_memory).1.freed
        ≡ 100 ∷ [])
unfolding experiment.Pipe.Create.reads experiment.Pipe.Create.writes
close_all-frees_example =
    close_all-frees (read_ops ∷ write_ops ∷ []) read_ops 100 wrapped short_of_memory (omega arith)
      (λ e. cc)
