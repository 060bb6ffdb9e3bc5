-- ===== src/Vfs/Lookup.antt =====
-- vfs_resolve_path against a plain reading of a path: its parts between slashes, looked up one in the
-- other from the root.
use experiment.Base.{
  ℕ, zero, suc, ◌≡◌, refl, ap, sym, ◌∙◌, Option, none, some, List, [], ◌∷◌, ◌++◌, map, arith,
  Bool-cases, inl, inr, ltb, ◌==◌, if◌then◌else◌, length, take,
}
use experiment.Str.{Chars}
use experiment.Path.{slash, skip_slashes}
use experiment.Path.Tokens.{parts, parts_from, parts-skip_slashes}
use experiment.Vfs.{FileSystems, Vfs, on_inode, finddir, resolve_loop, resolve_path}

take-nil : (n : ℕ) → ◌≡◌ {A = Chars} (take n []) []
take-nil zero = refl
take-nil (suc n) = refl

-- A character read behind a component that is cut at `n` characters.
take-snoc :
    (n : ℕ) (xs : Chars) (c : ℕ)
    → (if ltb (length (take n xs)) n then take n xs ++ (c ∷ []) else take n xs)
      ≡ take n (xs ++ (c ∷ []))
take-snoc zero xs c = ground arith
take-snoc (suc n) [] c = ground (arith, take-nil n)
take-snoc (suc n) (x ∷ xs) c = ground (arith, take-snoc n xs c)

module _ {S R : Type 0} where
  pub on_inode_ext :
      (r : Option ℕ × S) (null : S → R) (f g : (node : ℕ) → S → R)
      → ((n : ℕ) (s : S) → f n s ≡ g n s)
      → on_inode r null f ≡ on_inode r null g
  on_inode_ext (none, s) null f g h = refl
  on_inode_ext (some n, s) null f g h = h n s

pub on_inode_same :
    {S : Type 0} (r : Option ℕ × S) → on_inode r (λ s. (none, s)) (λ n s. (some n, s)) ≡ r
on_inode_same (none, s) = refl
on_inode_same (some n, s) = refl

module _ {S : Type 0} (fs : FileSystems S) (v : Vfs) where
  -- One component in the other, from an inode on.
  unfoldable pub walk : List Chars → (current : ℕ) → S → Option ℕ × S
  walk [] current s = (some current, s)
  walk (n ∷ ns) current s =
      on_inode (finddir fs v current n s) (λ s'. (none, s')) (λ next s'. walk ns next s')

  resolve_loop-walk :
      (path part : Chars) (current : ℕ) (s : S)
      → resolve_loop fs v path (take 127 part) current s
        ≡ walk (map (take 127) (parts_from part path)) current s
  unfolding resolve_loop walk parts_from
  resolve_loop-walk [] [] current s = refl
  resolve_loop-walk [] (a ∷ part) current s =
      sym (on_inode_same (finddir fs v current (take 127 (a ∷ part)) s))
  resolve_loop-walk (c ∷ path) [] current s = elim (Bool-cases (c == slash)) [
    | inl cut ↦ rw (resolve_loop, cut) (resolve_loop-walk path [] current s)
    | inr keep ↦ rw (resolve_loop, keep) (resolve_loop-walk path (c ∷ []) current s)
  ]
  resolve_loop-walk (c ∷ path) (a ∷ part) current s = elim (Bool-cases (c == slash)) [
    | inl cut ↦
        rw (resolve_loop, cut)
          (on_inode_ext (finddir fs v current (take 127 (a ∷ part)) s) (λ s'. (none, s'))
            (λ next s'. resolve_loop fs v path [] next s')
            (λ next s'. walk (map (take 127) (parts_from [] path)) next s')
            (λ next s'. resolve_loop-walk path [] next s'))
    | inr keep ↦
        rw (resolve_loop, keep, take-snoc 127 (a ∷ part) c)
          (resolve_loop-walk path (a ∷ part ++ (c ∷ [])) current s)
  ]

  rest-walk :
      (q : Chars) (s : S)
      → elim q [ [] ↦ (some v.root, s) | c ∷ p ↦ resolve_loop fs v (c ∷ p) [] v.root s ]
        ≡ walk (map (take 127) (parts q)) v.root s
  unfolding parts walk
  rest-walk [] s = refl
  rest-walk (c ∷ p) s = resolve_loop-walk (c ∷ p) [] v.root s

  -- vfs_resolve_path looks up the parts of the path, each cut at 127 characters, one in the other from
  -- the root, and stops at the first that is not found; without a root it finds nothing.
  pub resolve_path-walk :
      (path : Chars) (s : S)
      → resolve_path fs v path s
        ≡ (if v.root == 0 then (none, s) else walk (map (take 127) (parts path)) v.root s)
  unfolding resolve_path
  resolve_path-walk path s = elim (Bool-cases (v.root == 0)) [
    | inl null ↦ rw (resolve_path, null) refl
    | inr here ↦
        rw (resolve_path, here)
          (rest-walk (skip_slashes path) s
            ∙ ap (λ ps. walk (map (take 127) ps) v.root s) (parts-skip_slashes path))
  ]
