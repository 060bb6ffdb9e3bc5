-- ===== src/Fat32/Tests.antt =====
-- A small drive: clusters of one sector, the table in sector 8, data from sector 16 on. A file has
-- the clusters 2 and 3; cluster 4 is free, and the cluster 5 points to itself.
use experiment.Base.{
  ℕ, ◌+◌, ◌*◌, ◌%◌, ◌^◌, ◌≡◌, refl, true, false, none, some, [], ◌∷◌, ◌++◌, ◌<◌, arith, ◌==◌,
  if◌then◌else◌,
}
use experiment.Fat32.{
  Disk, Fs, fat32_eoc_mark, in_chain, read_fat_entry, write_fat_entry, find_free_cluster,
  fat32_free_chain,
}
use experiment.Fat32.Entries.{Fits, Writes, write_fat_entry-Writes}
use experiment.Fat32.Chain.{fat32_free_chain-ends}
use experiment.Fat32.Freed.{IsChain, mem, fat32_free_chain-frees}
use experiment.Fat32.Free.{FindsFree, find_free_cluster-FindsFree}
use experiment.Fat32.Grow.{append_cluster, Apart, Appends, append_cluster-grows}
use experiment.Fat32.Names.{str_to_fat_name, fat_name_to_str, pad, str_to_fat_name-fat_name_to_str}
use experiment.Fat32.Date.{leap_year, Date, date_word, next_day, fat32_datetime_to_unix}
use experiment.Fat32.Date.Days.{fat32_datetime_to_unix-next_day}
use experiment.Fat32.Read.{fat32_vfs_read}
use experiment.Fat32.Read.Contents.{Sound}
use experiment.Fat32.Read.File.{Reads, fat32_vfs_read-Reads}

abbrev small_fs : Fs
small_fs = record {
  fat_start_lba = 8;
  sectors_per_cluster = 1;
  bytes_per_cluster = 512;
  first_data_sector = 16;
  total_clusters = 4;
}

-- The low bytes of the entries for the clusters 2, 3 and 5; all bytes of the end mark.
abbrev table_byte : ℕ → ℕ
table_byte o =
    if o == 8
    then 3
    else if o == 12
    then 0xFF
    else if o == 13
    then 0xFF
    else if o == 14
    then 0xFF
    else if o == 15
    then 0x0F
    else if o == 20
    then 5
    else 0

abbrev small_disk : Disk
small_disk = record {
  bytes = λ lba o. if lba == 8 then table_byte o else (lba + o) % 256;
  broken = λ lba. false;
}

small_fs-Fits : Fits small_fs
small_fs-Fits = record { clusters = omega arith; sectors = omega arith }

small_fs-Apart : Apart small_fs
small_fs-Apart = record { fits = small_fs-Fits; behind = omega arith; room = omega arith }

small_fs-IsChain : IsChain small_fs small_disk 2 (2 ∷ 3 ∷ [])
unfolding IsChain in_chain read_fat_entry
small_fs-IsChain = (refl, refl, (3, refl, (refl, refl, (fat32_eoc_mark, refl, refl))))

write_fat_entry-Writes_example :
    (d : Disk) × (write_fat_entry small_fs 4 0x12345678 small_disk ≡ some d)
    × Writes small_fs 4 0x12345678 small_disk d
write_fat_entry-Writes_example =
    write_fat_entry-Writes small_fs 4 0x12345678 small_disk small_fs-Fits (omega arith) refl

fat32_free_chain-ends_example : (d : Disk) × (fat32_free_chain small_fs 5 small_disk ≡ some d)
fat32_free_chain-ends_example = fat32_free_chain-ends small_fs 5 small_disk small_fs-Fits

fat32_free_chain-frees_example :
    (d : Disk) × (fat32_free_chain small_fs 2 small_disk ≡ some d)
    × ((k : ℕ)
        → k < 6
        → read_fat_entry small_fs d k
          ≡ (if mem k (2 ∷ 3 ∷ []) then some 0 else read_fat_entry small_fs small_disk k))
fat32_free_chain-frees_example =
    fat32_free_chain-frees small_fs 2 small_disk (2 ∷ 3 ∷ []) small_fs-Fits small_fs-IsChain

find_free_cluster_four : find_free_cluster small_fs small_disk ≡ 4
unfolding find_free_cluster
find_free_cluster_four = refl

find_free_cluster-FindsFree_example :
    FindsFree small_fs small_disk 2 6 (find_free_cluster small_fs small_disk)
find_free_cluster-FindsFree_example = find_free_cluster-FindsFree small_fs small_disk small_fs-Fits

append_cluster-grows_example :
    (d : Disk) × (append_cluster small_fs true 3 small_disk ≡ some (4, d))
    × IsChain small_fs d 2 (2 ∷ 3 ∷ 4 ∷ [])
    × Appends small_fs 3 4 small_disk d
unfolding find_free_cluster read_fat_entry
append_cluster-grows_example =
    append_cluster-grows small_fs true small_disk 2 3 fat32_eoc_mark (2 ∷ []) small_fs-Apart
      small_fs-IsChain refl (omega arith) (omega arith) (λ e. absurd (omega (arith, e)))

small_disk-Sound : Sound small_fs small_disk
small_disk-Sound = record {
  cluster = refl;
  some_bytes = omega arith;
  small = omega arith;
  works = λ l. refl;
}

fat32_vfs_read-Reads_example :
    Reads small_fs small_disk
      (2 ∷ 3 ∷ [])
      600
      500
      200
      (λ o. 0)
      (fat32_vfs_read small_fs small_disk (some (λ o. 7)) 2 600 500 200 (λ o. 0))
fat32_vfs_read-Reads_example =
    fat32_vfs_read-Reads small_fs small_disk (λ o. 7) 2 600 500 200 (2 ∷ 3 ∷ []) (λ o. 0)
      small_disk-Sound small_fs-IsChain (omega arith) (omega arith) (omega arith)

-- "AB.TX"
str_to_fat_name-fat_name_to_str_example :
    str_to_fat_name (fat_name_to_str (pad 8 (65 ∷ 66 ∷ []) ++ pad 3 (84 ∷ 88 ∷ [])))
    ≡ pad 8 (65 ∷ 66 ∷ []) ++ pad 3 (84 ∷ 88 ∷ [])
str_to_fat_name-fat_name_to_str_example =
    str_to_fat_name-fat_name_to_str (65 ∷ 66 ∷ []) (84 ∷ 88 ∷ []) (refl, (refl, tt))
      (refl, (refl, tt)) (omega arith) (omega arith)

first_date : fat32_datetime_to_unix 0x21 0 ≡ some 315532800
unfolding fat32_datetime_to_unix
first_date = refl

-- A month of 14 is read behind the end of the table.
month_fourteen : fat32_datetime_to_unix (14 * 2 ^ 5 + 1) 0 ≡ none
unfolding fat32_datetime_to_unix
month_fourteen = refl

abbrev leap_day : Date
leap_day = record { year = 2024; month = 2; day = 29 }

fat32_datetime_to_unix-next_day_example :
    (s : ℕ) × (fat32_datetime_to_unix (date_word leap_day) 77 ≡ some s)
    × (fat32_datetime_to_unix (date_word (next_day leap_day)) 77 ≡ some ((s + 86400) % 2 ^ 32))
unfolding leap_year
fat32_datetime_to_unix-next_day_example =
    fat32_datetime_to_unix-next_day leap_day 77
      (record {
        since = omega arith;
        until = omega arith;
        from_first_month = omega arith;
        to_last_month = omega arith;
        from_first_day = omega arith;
        to_last_day = omega arith;
      })
      (omega arith)
