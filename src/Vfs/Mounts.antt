-- ===== src/Vfs/Mounts.antt =====
-- What a mount changes in the lookup of names.
use experiment.Base.{
  ℕ, ◌%◌, ◌≤◌, ◌<◌, ◌≡◌, ◌≢◌, refl, true, false, ◌&&◌, Option, some, List, [], ◌∷◌, ◌++◌, arith,
  All, Bool-cases, inl, inr, ◌==◌, if◌then◌else◌, ==_refl, lt→ltb, length, take_all,
}
use experiment.Base.Int.{is_zero}
use experiment.Str.{Chars, strcmp}
use experiment.Str.Compare.{IsCString, strcmp-zero}
use experiment.Vfs.{
  FileSystems, Vfs, vfs_directory, on_inode, same_string, register_mount, check_mount, finddir,
}

same_string_self : (s : Chars) → IsCString s → same_string s s ≡ true
unfolding same_string
same_string_self s h = (strcmp-zero s s h h).1 refl

same_string_other : (s t : Chars) → IsCString s → IsCString t → s ≢ t → same_string s t ≡ false
unfolding same_string
same_string_other s t hs ht ne = elim (Bool-cases (is_zero (strcmp s t))) [
  | inl e ↦ absurd (ne ((strcmp-zero s t hs ht).0 e))
  | inr e ↦ e
]

-- Nothing is mounted under the name.
abbrev pub IsFree : Chars → List (Chars × ℕ) → Type 0
IsFree name = All (λ m. same_string m.0 name ≡ false)

-- There is room in the table, the name fits an entry, and it is new.
pub record Mountable (name : Chars) (v : Vfs) : Type 0 where
  pub room : length v.mounts < 16
  pub short : length name ≤ 63
  pub chars : IsCString name
  pub free : IsFree name v.mounts

module _ {S : Type 0} (fs : FileSystems S) where
  -- The inode that a lookup of a mounted name hands out.
  pub hand_out : (root : ℕ) → S → Option ℕ × S
  hand_out root s = if fs.has_clone root s then fs.clone root s else fs.copy_inode root s

  check_mount-last :
      (name : Chars) (root : ℕ) (ms : List (Chars × ℕ)) (s : S)
      → IsCString name
      → IsFree name ms
      → check_mount fs name (ms ++ ((name, root) ∷ [])) s ≡ hand_out root s
  unfolding check_mount hand_out
  check_mount-last name root [] s h free = rw (same_string_self name h) refl
  check_mount-last name root (m ∷ ms) s h free =
      rw free.0 (check_mount-last name root ms s h free.1)

  check_mount-other :
      (name other : Chars) (root : ℕ) (ms : List (Chars × ℕ)) (s : S)
      → same_string name other ≡ false
      → check_mount fs other (ms ++ ((name, root) ∷ [])) s ≡ check_mount fs other ms s
  unfolding check_mount
  check_mount-other name other root [] s ne = rw ne refl
  check_mount-other name other root (m ∷ ms) s ne = elim (Bool-cases (same_string m.0 other)) [
    | inl e ↦ rw e refl
    | inr n ↦ rw n (check_mount-other name other root ms s ne)
  ]

  registered : (name : Chars) (root : ℕ) (v : Vfs) → Mountable name v → Vfs
  registered name root v m = record v { mounts = v.mounts ++ ((name, root) ∷ []) }

  register_mount-registered :
      (name : Chars) (root : ℕ) (v : Vfs) (m : Mountable name v)
      → register_mount name root v ≡ registered name root v m
  unfolding register_mount registered
  register_mount-registered name root v m =
      rw (lt→ltb (length v.mounts) 16 m.room, take_all 63 name m.short) refl

  -- If the mount table has room and the name is new and fits an entry, then after vfs_register_mount
  -- a lookup of this name in the root directory hands out the mounted root, cloned or copied, and
  -- the directory's own entry only if that gives null; and a lookup of any other name, or in any
  -- other directory, is what it was.
  pub finddir-register_mount :
      (name other : Chars) (root node : ℕ) (v : Vfs) (s : S)
      → Mountable name v
      → IsCString other
      → let w = register_mount name root v in
        ((fs.flags v.root s % 8 == vfs_directory && fs.has_finddir v.root s) ≡ true
          → finddir fs w v.root name s
            ≡ on_inode
                (hand_out root s)
                (fs.finddir v.root name)
                (λ mounted s'. (some mounted, s')))
        × (name ≢ other → finddir fs w node other s ≡ finddir fs v node other s)
        × (node ≢ v.root → finddir fs w node name s ≡ finddir fs v node name s)
  unfolding finddir registered
  finddir-register_mount name other root node v s m chars =
      rw (register_mount-registered name root v m) (
        λ dir. rw (dir, ==_refl v.root, check_mount-last name root v.mounts s m.chars m.free) refl,
        λ ne.
            rw
              (check_mount-other name other root v.mounts s
                (same_string_other name other m.chars chars ne))
              refl,
        λ ne. let off : (node == v.root) ≡ false = ground arith in rw off refl,
      )
