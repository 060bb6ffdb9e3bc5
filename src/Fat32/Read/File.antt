-- ===== src/Fat32/Read/File.antt =====
-- fat32_vfs_read hands out the bytes of the file.
use experiment.Base.{
  ℕ, suc, ◌+◌, ◌-◌, ◌*◌, ◌/◌, ◌%◌, ◌^◌, ◌≤◌, ◌<◌, ◌≡◌, refl, ap, sym, ◌∙◌, Option, some, List,
  arith, Bool-cases, inl, inr, leb, length, min,
}
use native.Mathlib.Nat.{div-add-mod', mod-lt, div-le_self, div-lt_iff_lt-mul}
use experiment.Fat32.{Disk, Fs}
use experiment.Fat32.Freed.{IsChain}
use experiment.Fat32.Read.{read_size, fat32_vfs_read}
use experiment.Fat32.Read.Contents.{file_byte, Sound}
use experiment.Fat32.Read.Loop.{read_loop-Copies, skip_clusters-Skips}

-- The result of a read of `size` bytes from `offset` of a file whose clusters are `xs`: what is there
-- of these bytes, and a buffer that holds them, with what stood behind them before.
pub record Reads (fs : Fs) (d : Disk) (xs : List ℕ) (node_size offset size : ℕ) (buffer : ℕ → ℕ)
    (r : Option (ℕ × (ℕ → ℕ))) : Type 0 where
  pub bytes_read : ℕ
  pub filled : ℕ → ℕ
  pub result : r ≡ some (bytes_read, filled)
  pub counted : bytes_read ≡ min size (node_size - offset)
  pub inside : (o : ℕ) → o < bytes_read → filled o ≡ file_byte fs d xs (offset + o)
  pub outside : (o : ℕ) → bytes_read ≤ o → filled o ≡ buffer o

read_size-min :
    (node_size offset size : ℕ)
    → offset < node_size
    → offset + size < 2 ^ 64
    → read_size node_size offset size ≡ min size (node_size - offset)
unfolding read_size
read_size-min node_size offset size h small = ground arith

-- On a drive that does not fail, with clusters `xs` that are the file's chain and hold its size of
-- less than 2 ^ 32 bytes, and with memory for a cluster, fat32_vfs_read ends. It returns the number
-- of bytes asked for that the file has behind the offset, none behind its end, and the buffer then
-- holds these bytes of the file; for an offset and a size whose sum is less than 2 ^ 64.
pub fat32_vfs_read-Reads :
    (fs : Fs) (d : Disk) (cluster_buf : ℕ → ℕ) (c node_size offset size : ℕ) (xs : List ℕ)
    (buffer : ℕ → ℕ)
    → Sound fs d
    → IsChain fs d c xs
    → node_size ≤ length xs * fs.bytes_per_cluster
    → node_size < 2 ^ 32
    → offset + size < 2 ^ 64
    → Reads fs d xs node_size offset size buffer
        (fat32_vfs_read fs d (some cluster_buf) c node_size offset size buffer)
unfolding fat32_vfs_read
fat32_vfs_read-Reads fs d cluster_buf c node_size offset size xs buffer sound h room short small =
    elim (Bool-cases (leb node_size offset)) [
      | inl past ↦ rw past (record {
        bytes_read = 0;
        filled = buffer;
        result = refl;
        counted = ground arith;
        inside = λ o b. absurd (omega arith);
        outside = λ o b. refl;
      })
      | inr within ↦
          let b = fs.bytes_per_cluster in
          let wanted = read_size node_size offset size in
          let counted = read_size-min node_size offset size (ground arith) small in
          let n = offset / b in
          let before : offset < node_size = ground arith in
          let whole : n % 2 ^ 32 ≡ n = omega (arith, div-le_self offset b, before) in
          let there : offset < length xs * b = ground arith in
          let way =
            skip_clusters-Skips fs d n c xs h ((div-lt_iff_lt-mul sound.some_bytes).1 there) in
          let split : length xs * b ≡ length way.behind * b + n * b =
            sym (ap (λ k. k * b) way.size) ∙ grind arith in
          let fits : offset % b + (wanted - 0) ≤ length way.behind * b =
            omega (arith, split, counted, room, div-add-mod' offset b, before) in
          let rest =
            read_loop-Copies fs d wanted (suc wanted) way.there (offset % b) 0 way.behind
              cluster_buf buffer sound way.chain (omega arith) (omega arith)
              (mod-lt offset sound.some_bytes) fits in
          rw (within, whole, way.result)
            (record {
              bytes_read = wanted;
              filled = rest.copied;
              result = rest.result;
              counted = counted;
              inside = λ o o_n.
                  rest.inside o (omega arith) o_n
                  ∙ sym (way.bytes (offset % b + (o - 0)))
                  ∙ ap (file_byte fs d xs) (omega (arith, div-add-mod' offset b));
              outside = λ o o_n. rest.outside o (inr o_n);
            })
    ]
