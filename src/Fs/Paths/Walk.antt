-- ===== src/Fs/Paths/Walk.antt =====
-- `namex` ends: each element is taken from the path, so that the path's length bounds the turns.
use my_oslab.Base.{
  ℕ, zero, suc, ◌≤◌, ◌<◌, ◌≡◌, inl, inr, refl, sym, ap, ◌∙◌, Bool, false, Option, none, some, [],
  ◌∷◌, length, ◌==◌, Bool-cases, fun_ext, arith,
}
use my_oslab.Kalloc.{Kmem}
use my_oslab.Strings.{Bytes}
use my_oslab.Fs.{Superblock}
use my_oslab.Fs.Inode.{FsState, ilock}
use my_oslab.Fs.Paths.{
  PathText, Found, skip_slashes, after_elem, elem_chars, store_name, skipelem, starts_slash,
  next_elem, look_in, namex_loop,
}
use my_oslab.Fs.Paths.Elements.{skip_starts}

length-skip_slashes : (path : PathText) → length (skip_slashes path) ≤ length path
length-skip_slashes [] = omega arith
length-skip_slashes (c ∷ path) = elim (Bool-cases (c == b'/')) [
  | inl e ↦ rw e (omega (arith, length-skip_slashes path))
  | inr e ↦ rw e (omega arith)
]

length-after_elem : (path : PathText) → length (after_elem path) ≤ length path
length-after_elem [] = omega arith
length-after_elem (c ∷ path) = elim (Bool-cases (c == b'/')) [
  | inl e ↦ rw e (omega arith)
  | inr e ↦ rw e (omega (arith, length-after_elem path))
]

-- What `skipelem` leaves is shorter than the path.
abbrev Shorter : PathText → Option (PathText × Bytes) → Type 0
Shorter path none = Unit
Shorter path (some (rest, name)) = length rest < length path

skipelem-Shorter : (path : PathText) (name : Bytes) → Shorter path (skipelem path name)
unfolding skipelem
skipelem-Shorter path name = at (skip_slashes path) refl
  where
    at :
        (q : PathText)
        → skip_slashes path ≡ q
        → Shorter path (elim q [
          | [] ↦ none
          | c ∷ rest ↦
              some (skip_slashes (after_elem (c ∷ rest)), store_name (elem_chars (c ∷ rest)) name)
        ])
    at [] e = tt
    at (c ∷ rest) e =
        let slash : (c == b'/') ≡ false = ap starts_slash (sym e) ∙ skip_starts path in
        rw slash (
          omega (
            arith,
            length-skip_slashes (after_elem rest),
            length-after_elem rest,
            length-skip_slashes path,
            ap length e,
          ))

module _ (sb : Superblock) (table : ℕ) (k : Kmem) (nameiparent : Bool) where
  turns_agree :
      (f g : ℕ → PathText → Bytes → FsState → Option Found) (i : ℕ) (path : PathText) (name : Bytes)
      (s : FsState) (o : Option (PathText × Bytes))
      → Shorter path o
      → ((rest : PathText)
          → length rest < length path
          → (j : ℕ) (name' : Bytes) (s' : FsState) → f j rest name' s' ≡ g j rest name' s')
      → next_elem sb table k nameiparent f i name s o
        ≡ next_elem sb table k nameiparent g i name s o
  turns_agree f g i path name s none short h = refl
  turns_agree f g i path name s (some (rest, name')) short h =
      ap
        (λ (go : ℕ → FsState → Option Found).
          look_in sb table k nameiparent go i rest name' (ilock sb i s))
        (fun_ext (λ j. fun_ext (λ s'. h rest short j name' s')))

  -- With as many turns as the path has characters, or more, the loop of `namex` comes to its end:
  -- more turns give the same.
  pub namex_loop_enough :
      (fuel more i : ℕ) (path : PathText) (name : Bytes) (s : FsState)
      → length path ≤ fuel
      → length path ≤ more
      → namex_loop sb table k nameiparent fuel i path name s
        ≡ namex_loop sb table k nameiparent more i path name s
  unfolding namex_loop skipelem
  namex_loop_enough zero zero i path name s le le' = refl
  namex_loop_enough zero (suc more) i [] name s le le' = refl
  namex_loop_enough zero (suc more) i (c ∷ path) name s le le' = absurd (omega (arith, le))
  namex_loop_enough (suc fuel) zero i [] name s le le' = refl
  namex_loop_enough (suc fuel) zero i (c ∷ path) name s le le' = absurd (omega (arith, le'))
  namex_loop_enough (suc fuel) (suc more) i path name s le le' =
      turns_agree (namex_loop sb table k nameiparent fuel) (namex_loop sb table k nameiparent more)
        i path name s (skipelem path name) (skipelem-Shorter path name)
        (λ rest lt j name' s'.
          namex_loop_enough fuel more j rest name' s' (omega (arith, lt, le))
            (omega (arith, lt, le')))
