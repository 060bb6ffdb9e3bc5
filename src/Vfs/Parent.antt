-- ===== src/Vfs/Parent.antt =====
-- The directory and the name that vfs_mknod, vfs_link and vfs_unlink take a path apart into.
use experiment.Base.{
  ℕ, suc, ◌<◌, ◌≡◌, ◌≢◌, refl, ap, sym, ◌∙◌, Bool, true, false, Option, none, some, List, [], ◌∷◌,
  ◌++◌, map, arith, Bool-cases, inl, inr, leb, ◌==◌, if◌then◌else◌, length, take, drop, take_all,
  append_assoc, append-nil,
}
use mathlib.Core.Option.{some-injective}
use mathlib.Core.List.{map-append}
use experiment.Str.{Chars, strlen}
use experiment.Str.Search.{has, CutsAt, strrchr-cases, strlen-length}
use experiment.Path.{slash}
use experiment.Path.Tokens.{parts, parts_from, add_part}
use experiment.Vfs.{FileSystems, Vfs, on_inode, finddir, resolve_path, split_path}
use experiment.Vfs.Lookup.{walk, resolve_path-walk, on_inode_ext, on_inode_same}

add_part-append :
    (part : Chars) (xs ys : List Chars) → add_part part (xs ++ ys) ≡ add_part part xs ++ ys
add_part-append [] xs ys = refl
add_part-append (c ∷ part) xs ys = refl

-- A slash ends a part.
parts_from-append :
    (part p q : Chars) → parts_from part (p ++ (slash ∷ q)) ≡ parts_from part p ++ parts q
unfolding parts_from parts
parts_from-append [] [] q = refl
parts_from-append (a ∷ part) [] q = refl
parts_from-append part (c ∷ p) q = elim (Bool-cases (c == slash)) [
  | inl cut ↦
      rw (parts_from, cut)
        (ap (add_part part) (parts_from-append [] p q)
          ∙ add_part-append part (parts_from [] p) (parts q))
  | inr keep ↦ rw (parts_from, keep) (parts_from-append (part ++ (c ∷ [])) p q)
]

parts-append : (p q : Chars) → parts (p ++ (slash ∷ q)) ≡ parts p ++ parts q
unfolding parts
parts-append p q = parts_from-append [] p q

-- A text with no slash is one part.
parts_from-plain :
    (part q : Chars) → has slash q ≡ false → parts_from part q ≡ add_part (part ++ q) []
unfolding parts_from
parts_from-plain part [] plain = ap (λ r. add_part r []) (sym (append-nil part))
parts_from-plain part (c ∷ q) plain =
    let keep : (c == slash) ≡ false = ground arith in
    rw (parts_from, keep)
      (parts_from-plain (part ++ (c ∷ [])) q (ground arith)
        ∙ ap (λ r. add_part r []) (append_assoc part (c ∷ []) q))

-- What split_path answers of a path, unless a part is too long.
pub record Splits (path dir name : Chars) : Type 0 where
  pub parts_of : parts path ≡ parts dir ++ add_part name []
  pub plain : has slash name ≡ false
  pub short : length name < 128

plain_parts : (q : Chars) → has slash q ≡ false → parts q ≡ add_part q []
unfolding parts
plain_parts q plain = parts_from-plain [] q plain

root_parts : parts (slash ∷ []) ≡ []
unfolding parts
root_parts = refl

no_parts : parts [] ≡ []
unfolding parts
no_parts = refl

guard_some :
    {A : Type 0} (b : Bool) (x : A) (o : Option A)
    → (if b then none else o) ≡ some x
    → (b ≡ false) × (o ≡ some x)
guard_some true x o h = cc
guard_some false x o h = (refl, h)

-- The directory part when the last slash stands at `k`.
cut_parts :
    (k : ℕ) (path : Chars)
    → CutsAt slash k path
    → parts path
      ≡ parts (if leb k 0 then slash ∷ [] else take k path) ++ add_part (drop (suc k) path) []
cut_parts k path cut =
    let name = drop (suc k) path in
    let whole : parts path ≡ parts (take k path) ++ add_part name [] =
      ap parts cut.parts
      ∙ parts-append (take k path) name
      ∙ ap (λ r. parts (take k path) ++ r) (plain_parts name cut.last) in
    elim (Bool-cases (leb k 0)) [
      | inr inside ↦ rw inside whole
      | inl front ↦
          let at_root : parts (take k path) ≡ parts (slash ∷ []) =
            ap (λ n. parts (take n path)) {x = k} {y = 0} (ground arith)
            ∙ no_parts
            ∙ sym root_parts in
          rw front (whole ∙ ap (λ ps. ps ++ add_part name []) at_root)
    ]

split_path-Splits :
    (path dir name : Chars) → split_path path ≡ some (dir, name) → Splits path dir name
unfolding split_path
split_path-Splits path dir name h =
    elim (strrchr-cases slash path (λ e. absurd (omega (arith, e)))) [
      | inl (out, none_found) ↦
          let g =
            guard_some (leb 128 (strlen path)) (dir, name) (some (slash ∷ [], path))
              (rw (split_path, none_found) at h) in
          let pair = some-injective _ _ g.1 in
          let same_dir : slash ∷ [] ≡ dir = ap (λ (r : Chars × Chars). r.0) pair in
          let same_name : path ≡ name = ap (λ (r : Chars × Chars). r.1) pair in
          rw (← same_dir, ← same_name)
            (record {
              parts_of = plain_parts path out ∙ ap (λ ps. ps ++ add_part path []) (sym root_parts);
              plain = out;
              short = ground (arith, g.0, strlen-length path);
            })
      | inr (k, found, cut) ↦
          let file = drop (suc k) path in
          let parent = if leb k 0 then slash ∷ [] else take k path in
          let g =
            guard_some (leb 256 k) (dir, name)
              (if leb 128 (strlen file) then none else some (parent, file))
              (rw (split_path, found) at h) in
          let g2 = guard_some (leb 128 (strlen file)) (dir, name) (some (parent, file)) g.1 in
          let pair = some-injective _ _ g2.1 in
          let same_dir : parent ≡ dir = ap (λ (r : Chars × Chars). r.0) pair in
          let same_name : file ≡ name = ap (λ (r : Chars × Chars). r.1) pair in
          rw (← same_dir, ← same_name)
            (record {
              parts_of = cut_parts k path cut;
              plain = cut.last;
              short = ground (arith, g2.0, strlen-length file);
            })
    ]

module _ {S : Type 0} (fs : FileSystems S) (v : Vfs) where
  walk-append :
      (xs ys : List Chars) (current : ℕ) (s : S)
      → walk fs v (xs ++ ys) current s
        ≡ on_inode (walk fs v xs current s) (λ s'. (none, s')) (λ n s'. walk fs v ys n s')
  unfolding walk
  walk-append [] ys current s = refl
  walk-append (x ∷ xs) ys current s =
      on_inode_ext (finddir fs v current x s) (λ s'. (none, s')) (λ n s'. walk fs v (xs ++ ys) n s')
        (λ n s'. on_inode (walk fs v xs n s') (λ t. (none, t)) (λ m t. walk fs v ys m t))
        (λ n s'. walk-append xs ys n s')
      ∙ on_inode_assoc (finddir fs v current x s) (λ n s'. walk fs v xs n s')
          (λ m t. walk fs v ys m t)
    where
      on_inode_assoc :
          (r : Option ℕ × S) (f g : (node : ℕ) → S → Option ℕ × S)
          → on_inode r (λ s'. (none, s')) (λ n s'. on_inode (f n s') (λ t. (none, t)) g)
            ≡ on_inode (on_inode r (λ s'. (none, s')) f) (λ t. (none, t)) g
      on_inode_assoc (none, t) f g = refl
      on_inode_assoc (some n, t) f g = refl

  walk_one : (name : Chars) (n : ℕ) (t : S) → walk fs v (name ∷ []) n t ≡ finddir fs v n name t
  unfolding walk
  walk_one name n t = on_inode_same (finddir fs v n name t)

  -- If a path is taken apart into a directory and a name that is not empty, then looking the path up
  -- is looking the directory up and then the name in it.
  pub resolve_path-split_path :
      (path dir name : Chars) (s : S)
      → split_path path ≡ some (dir, name)
      → name ≢ []
      → resolve_path fs v path s
        ≡ on_inode
            (resolve_path fs v dir s)
            (λ s'. (none, s'))
            (λ parent s'. finddir fs v parent name s')
  resolve_path-split_path path dir [] s h some_name = absurd (some_name refl)
  resolve_path-split_path path dir (a ∷ name) s h some_name =
      let splits = split_path-Splits path dir (a ∷ name) h in
      let cut : take 127 (a ∷ name) ≡ a ∷ name =
        take_all 127 (a ∷ name) (omega (arith, splits.short)) in
      let cut_parts_of =
        ap (map (take 127)) splits.parts_of
        ∙ map-append (take 127) (parts dir) ((a ∷ name) ∷ [])
        ∙ ap (λ x. map (take 127) (parts dir) ++ (x ∷ [])) cut in
      elim (Bool-cases (v.root == 0)) [
        | inl null ↦ rw (resolve_path-walk fs v path s, resolve_path-walk fs v dir s, null) refl
        | inr here ↦
            rw (resolve_path-walk fs v path s, resolve_path-walk fs v dir s, here)
              (ap (λ ps. walk fs v ps v.root s) cut_parts_of
                ∙ walk-append (map (take 127) (parts dir)) ((a ∷ name) ∷ []) v.root s
                ∙ on_inode_ext (walk fs v (map (take 127) (parts dir)) v.root s) (λ s'. (none, s'))
                    (λ n s'. walk fs v ((a ∷ name) ∷ []) n s')
                    (λ n s'. finddir fs v n (a ∷ name) s') (λ n s'. walk_one (a ∷ name) n s'))
      ]
