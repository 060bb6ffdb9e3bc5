-- ===== src/Vfs.antt =====
-- fs/vfs.c: the mount table, the lookup of a path, and the creation, linking and removal of names. A
-- pointer to an inode is a number, 0 for null; what its file system does behind the `iops` pointers,
-- and kmalloc and kfree, are operations on a state of theirs.

pub mod Lookup
pub mod Parent
pub mod Mounts
mod Tests
use experiment.Base.{
  ℕ, zero, suc, ◌+◌, ◌-◌, ◌/◌, ◌%◌, Bool, true, false, ◌&&◌, not, Option, none, some, List, [], ◌∷◌,
  ◌++◌, ltb, leb, ◌==◌, if◌then◌else◌, length, take, drop,
}
use experiment.Base.Int.{ℤ, negsuc, is_zero}
use experiment.Str.{Chars, strcmp, strlen, strrchr}
use experiment.Path.{slash, skip_slashes}

-- The file systems that are mounted. A test is whether the inode has the operation.
pub record FileSystems (S : Type 0) : Type 0 where
  pub flags : (node : ℕ) → S → ℕ
  pub has_finddir : (node : ℕ) → S → Bool
  pub finddir : (node : ℕ) → (name : Chars) → S → Option ℕ × S
  pub has_clone : (node : ℕ) → S → Bool
  pub clone : (node : ℕ) → S → Option ℕ × S
  -- kmalloc(sizeof(vfs_inode_t)) and memcpy
  pub copy_inode : (node : ℕ) → S → Option ℕ × S
  pub has_mknod : (node : ℕ) → S → Bool
  pub mknod : (node : ℕ) → (name : Chars) → (mode dev : ℕ) → S → ℤ × S
  pub has_link : (node : ℕ) → S → Bool
  pub link : (node : ℕ) → (name : Chars) → (target : ℕ) → S → ℤ × S
  pub has_unlink : (node : ℕ) → S → Bool
  pub unlink : (node : ℕ) → (name : Chars) → S → ℤ × S
  -- vfs_close and kfree
  pub release : (node : ℕ) → S → S

-- `vfs_root` and `mount_table`, whose entries in use come first.
pub record Vfs : Type 0 where
  pub root : ℕ
  pub mounts : List (Chars × ℕ)

abbrev pub vfs_directory : ℕ
vfs_directory = 2

abbrev pub error : ℤ
error = negsuc 0

-- strcmp(s, t) == 0
pub same_string : Chars → Chars → Bool
same_string s t = is_zero (strcmp s t)

pub register_mount : (name : Chars) → (root : ℕ) → Vfs → Vfs
register_mount name root v =
    if ltb (length v.mounts) 16
    then record v { mounts = v.mounts ++ ((take 63 name, root) ∷ []) }
    else v

-- The directory part and the last component; `none` is an early return of -1.
pub split_path : (path : Chars) → Option (Chars × Chars)
split_path path = elim (strrchr path slash) [
  | none ↦ if leb 128 (strlen path) then none else some (slash ∷ [], path)
  | some len ↦
      let filename = drop (suc len) path in
      let parent = if leb len 0 then slash ∷ [] else take len path in
      if leb 256 len
      then none
      else if leb 128 (strlen filename)
      then none
      else some (parent, filename)
]

-- What follows a null and what follows an inode.
abbrev pub on_inode {ℓ} :
    {S : Type 0} {R : Type ℓ} → Option ℕ × S → (S → R) → ((node : ℕ) → S → R) → R
on_inode r null found = elim r.0 [ none ↦ null r.1 | some n ↦ found n r.1 ]

module _ {S : Type 0} (fs : FileSystems S) where
  pub check_mount : (name : Chars) → List (Chars × ℕ) → S → Option ℕ × S
  unfolding same_string
  check_mount name [] s = (none, s)
  check_mount name ((n, root) ∷ ms) s =
      let rest = check_mount name ms s in
      if same_string n name
      then if fs.has_clone root s then fs.clone root s else fs.copy_inode root s
      else rest

  pub finddir : Vfs → (node : ℕ) → (name : Chars) → S → Option ℕ × S
  unfolding check_mount
  finddir v node name s =
      if fs.flags node s % 8 == vfs_directory && fs.has_finddir node s
      then if node == v.root
        then on_inode (check_mount name v.mounts s) (fs.finddir node name)
            (λ mounted s'. (some mounted, s'))
        else fs.finddir node name s
      else (none, s)

  -- The loop of vfs_resolve_path and what follows it: `name` is what has been read of a component.
  pub resolve_loop : Vfs → (path name : Chars) → (current : ℕ) → S → Option ℕ × S
  unfolding finddir
  resolve_loop v [] [] current s = (some current, s)
  resolve_loop v [] (a ∷ name) current s = finddir v current (a ∷ name) s
  resolve_loop v (c ∷ path) name current s = elim (c == slash) [
    | true ↦ elim name [
      | [] ↦ resolve_loop v path [] current s
      | a ∷ more ↦
          on_inode (finddir v current (a ∷ more) s) (λ s'. (none, s'))
            (λ next s'. resolve_loop v path [] next s')
    ]
    | false ↦
        resolve_loop v path (if ltb (length name) 127 then name ++ (c ∷ []) else name) current s
  ]

  pub resolve_path : Vfs → (path : Chars) → S → Option ℕ × S
  unfolding resolve_loop
  resolve_path v path s = if v.root == 0 then (none, s) else elim (skip_slashes path) [
    | [] ↦ (some v.root, s)
    | c ∷ p ↦ resolve_loop v (c ∷ p) [] v.root s
  ]

  -- The flags of a parent directory are tested for one bit.
  pub flagged_directory : (node : ℕ) → S → Bool
  flagged_directory node s = fs.flags node s / 2 % 2 == 1

  pub vfs_mknod : Vfs → (path : Chars) → (mode dev : ℕ) → S → ℤ × S
  unfolding split_path resolve_path flagged_directory
  vfs_mknod v path mode dev s = if v.root == 0 then (error, s) else elim (split_path path) [
    | none ↦ (error, s)
    | some (parent_path, filename) ↦
        on_inode (resolve_path v parent_path s) (λ s'. (error, s'))
          (λ parent s'.
            if flagged_directory parent s' && fs.has_mknod parent s'
            then fs.mknod parent filename mode dev s'
            else (error, s'))
  ]

  pub release_other : Vfs → (node : ℕ) → S → S
  release_other v node s = if node == v.root then s else fs.release node s

  pub vfs_unlink : Vfs → (path : Chars) → S → ℤ × S
  unfolding split_path resolve_path flagged_directory release_other
  vfs_unlink v path s = if v.root == 0 then (error, s) else elim (split_path path) [
    | none ↦ (error, s)
    | some (parent_path, filename) ↦
        on_inode (resolve_path v parent_path s) (λ s'. (error, s'))
          (λ parent s'.
            let done =
              if flagged_directory parent s' && fs.has_unlink parent s'
              then fs.unlink parent filename s'
              else (error, s') in
            (done.0, release_other v parent done.1))
  ]

  pub vfs_link : Vfs → (oldpath newpath : Chars) → S → ℤ × S
  unfolding split_path resolve_path flagged_directory release_other
  vfs_link v oldpath newpath s =
      if v.root == 0
      then (error, s)
      else on_inode (resolve_path v oldpath s) (λ s'. (error, s'))
          (λ target s'. elim (split_path newpath) [
            | none ↦ (error, release_other v target s')
            | some (parent_path, filename) ↦
                on_inode (resolve_path v parent_path s') (λ t. (error, release_other v target t))
                  (λ parent t.
                    let done =
                      if flagged_directory parent t && fs.has_link parent t
                      then fs.link parent filename target t
                      else (error, t) in
                    (done.0, release_other v target (release_other v parent done.1)))
          ])
