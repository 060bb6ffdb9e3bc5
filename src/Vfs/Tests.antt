-- ===== src/Vfs/Tests.antt =====
-- A root directory 1 with a directory 2 named "a", which has a file 3 named "b"; 9 is to be mounted.
use experiment.Base.{
  ℕ, ◌+◌, ◌≡◌, ◌≢◌, refl, true, false, ◌&&◌, Option, none, some, [], ◌∷◌, map, arith, ◌==◌,
  if◌then◌else◌, take,
}
use experiment.Base.Int.{pos}
use experiment.Str.{Chars, strrchr, strlen}
use experiment.Path.{skip_slashes}
use experiment.Path.Tokens.{parts}
use experiment.Vfs.{
  FileSystems, Vfs, on_inode, register_mount, finddir, resolve_path, split_path, vfs_mknod,
}
use experiment.Vfs.Lookup.{walk, resolve_path-walk}
use experiment.Vfs.Parent.{resolve_path-split_path}
use experiment.Vfs.Mounts.{Mountable, hand_out, finddir-register_mount}

-- The state counts the inodes handed out.
abbrev entry : ℕ → Chars → Option ℕ
entry n [] = none
entry n (c ∷ cs) = if n == 1 && c == 97 then some 2 else if n == 2 && c == 98 then some 3 else none

abbrev small_fs : FileSystems ℕ
small_fs = record {
  flags = λ n s. if n == 3 then 1 else 2;
  has_finddir = λ n s. true;
  finddir = λ n name s. (entry n name, s + 1);
  has_clone = λ n s. false;
  clone = λ n s. (none, s);
  copy_inode = λ n s. (some (n + 100), s + 1);
  has_mknod = λ n s. true;
  mknod = λ n name mode dev s. (pos 0, s + 1);
  has_link = λ n s. false;
  link = λ n name target s. (pos 0, s);
  has_unlink = λ n s. false;
  unlink = λ n name s. (pos 0, s);
  release = λ n s. s;
}

abbrev small_vfs : Vfs
small_vfs = record { root = 1; mounts = [] }

-- "/a/b", "/a" and "mnt"
abbrev long_path : Chars
long_path = 47 ∷ 97 ∷ 47 ∷ 98 ∷ []

abbrev mnt : Chars
mnt = 109 ∷ 110 ∷ 116 ∷ []

resolve_path_file : resolve_path small_fs small_vfs long_path 0 ≡ (some 3, 2)
unfolding resolve_path skip_slashes
resolve_path_file = refl

mknod_file : vfs_mknod small_fs small_vfs (47 ∷ 120 ∷ []) 1 0 0 ≡ (pos 0, 1)
unfolding vfs_mknod strrchr strlen skip_slashes
mknod_file = refl

resolve_path-walk_example :
    resolve_path small_fs small_vfs long_path 0
    ≡ walk small_fs small_vfs (map (take 127) (parts long_path)) 1 0
resolve_path-walk_example = resolve_path-walk small_fs small_vfs long_path 0

resolve_path-split_path_example :
    resolve_path small_fs small_vfs long_path 0
    ≡ on_inode
        (resolve_path small_fs small_vfs (47 ∷ 97 ∷ []) 0)
        (λ s. (none, s))
        (λ parent s. finddir small_fs small_vfs parent (98 ∷ []) s)
unfolding split_path strrchr strlen
resolve_path-split_path_example =
    resolve_path-split_path small_fs small_vfs long_path (47 ∷ 97 ∷ []) (98 ∷ []) 0 refl (λ e. cc)

mnt-Mountable : Mountable mnt small_vfs
mnt-Mountable = record { room = omega arith; short = omega arith; chars = omega arith; free = tt }

finddir-register_mount_example :
    let w = register_mount mnt 9 small_vfs in
    (true ≡ true
      → finddir small_fs w 1 mnt 0
        ≡ on_inode (hand_out small_fs 9 0) (λ s. (none, s + 1)) (λ mounted s. (some mounted, s)))
    × (mnt ≢ (97 ∷ [])
        → finddir small_fs w 2 (97 ∷ []) 0 ≡ finddir small_fs small_vfs 2 (97 ∷ []) 0)
    × (◌≢◌ {A = ℕ} 2 1 → finddir small_fs w 2 mnt 0 ≡ finddir small_fs small_vfs 2 mnt 0)
finddir-register_mount_example =
    finddir-register_mount small_fs mnt (97 ∷ []) 9 2 small_vfs 0 mnt-Mountable (omega arith)
