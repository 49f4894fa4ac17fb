-- ===== src/Fs/Dirs/Lookup.antt =====
-- `dirlookup` in a directory whose blocks are allocated: the first entry with the name.
use my_oslab.Base.{
  ==→eq, ==→ne, ne→==, ℕ, ◌+◌, ◌*◌, ◌<◌, ◌≡◌, ◌≢◌, pos, negsuc, ℤ, inl, inr, refl, sym, ap, ◌∙◌,
  subst, Bool, true, false, Option, none, some, ◌==◌, Bool-cases, arith,
}
use my_oslab.Kalloc.{Kmem}
use my_oslab.Strings.{Bytes}
use my_oslab.Strings.Move.{within}
use my_oslab.Strings.{strncmp}
use my_oslab.Strings.Compare.{SameString, strncmp_iff}
use my_oslab.Fs.{Superblock, Device}
use my_oslab.Fs.Icache.{Inode, Icache, iget}
use my_oslab.Fs.Inode.{FsState}
use my_oslab.Fs.Contents.Mapped.{file_byte}
use my_oslab.Fs.Dirs.{
  t_dir, dirent_size, is_named, blank, scan, found, dirlookup, entry_inum, entry_name, namecmp,
  is_same,
}
use my_oslab.Fs.Dirs.Scan.{
  entry_at, first_entry-some, first_entry-none, IsDir, inum_at, entry_inum_lem, with_inode_at-found,
  Scanned, scan-Scanned,
}

module _ (sb : Superblock) (table : ℕ) (kmem : Kmem) (k : ℕ) where
  dirlookup_first :
      (i n : ℕ) (ip : Inode) (name : Bytes) (s : FsState)
      → ip.copy.type ≡ t_dir
      → IsDir k i ip s n 0
      → (r : Option (Bool × (ℕ × (FsState × Bytes)))) × Scanned sb table kmem k
          (is_named sb table kmem name)
          ip
          s
          n
          0
          r
        × (dirlookup sb table kmem i name s ≡ found sb table kmem ip.dev r)
  unfolding dirlookup
  dirlookup_first i n ip name s dir_type dir =
      let type : (ip.copy.type == t_dir) ≡ true = ground (arith, dir_type) in
      (
        scan sb table kmem named (ip.copy.size + 1) i 0 (blank sb table kmem) s,
        scan-Scanned sb table kmem k named (ip.copy.size + 1) i n 0 ip (blank sb table kmem) s
            (omega (arith, dir.size)) dir (λ a t. refl),
        with_inode_at-found sb table kmem k i s ip _ dir.there ∙ rw type refl,
      )
    where
      named : Bytes → Bool
      named = is_named sb table kmem name

  -- The entry is in use, and its name is the string, of which 14 characters count.
  abbrev pub HasName : Bytes → Inode → Device → ℕ → Type 0
  HasName name ip d off =
      (inum_at ip d off ≢ 0) × SameString name (λ a. file_byte ip d (off + 2 + a)) 0 0 14

  -- `iget` of the inode, with the offset of its entry.
  abbrev pub gets_inode : ℕ → FsState → Option (ℕ × Icache) → Option (Option (ℕ × ℕ) × FsState)
  gets_inode off s none = none
  gets_inode off s (some (j, c)) = some (some (j, off), record s { icache = c })

  pub data Looks (ip : Inode) (name : Bytes) (n : ℕ) (s : FsState)
      : Option (Option (ℕ × ℕ) × FsState) → Type 0 where
    absent :
        ((j : ℕ) → j < n → ¬ HasName name ip s.device (dirent_size * j))
        → Looks ip name n s (some (none, s))
    present :
        (m : ℕ)
        → m < n
        → HasName name ip s.device (dirent_size * m)
        → ((j : ℕ) → j < m → ¬ HasName name ip s.device (dirent_size * j))
        → Looks ip name n s (
            gets_inode
              (dirent_size * m)
              s
              (iget ip.dev (inum_at ip s.device (dirent_size * m)) s.icache))

  same_zero : (z : ℤ) → is_same z ≡ true → z ≡ pos 0
  same_zero (pos n) h = ap pos (==→eq n 0 h)
  same_zero (negsuc n) h = absurd (cc h)

  name_byte :
      (ip : Inode) (d : Device) (off i : ℕ)
      → i < 14
      → entry_name (entry_at ip d off) (0 + i) ≡ file_byte ip d (off + 2 + (0 + i))
  name_byte ip d off i lt =
      let inside : within 0 dirent_size (2 + (0 + i)) ≡ true = ground (arith, lt) in
      rw inside (ap (file_byte ip d) (omega arith))

  -- What the tests of the loop see of an entry.
  is_named-HasName :
      (name : Bytes) (ip : Inode) (d : Device) (off : ℕ)
      → is_named sb table kmem name (entry_at ip d off) ≡ true
      → HasName name ip d off
  unfolding namecmp
  is_named-HasName name ip d off h = elim (Bool-cases (entry_inum de == 0)) [
    | inl z ↦ absurd (cc (rw (is_named, z) at h))
    | inr z ↦
        let same =
          (strncmp_iff name (entry_name de) 0 0 14).0
            (same_zero (strncmp name 0 (entry_name de) 0 14) (rw (is_named, z) at h)) in
        (
          (λ e. ==→ne (entry_inum de) 0 z (entry_inum_lem ip d off ∙ e)),
          (λ i lt before. same i lt before ∙ name_byte ip d off i lt),
        )
  ]
    where
      de : Bytes
      de = entry_at ip d off

  HasName-is_named :
      (name : Bytes) (ip : Inode) (d : Device) (off : ℕ)
      → HasName name ip d off
      → is_named sb table kmem name (entry_at ip d off) ≡ true
  unfolding namecmp
  HasName-is_named name ip d off (used, same) =
      let de = entry_at ip d off in
      let not_zero : (entry_inum de == 0) ≡ false =
        ne→== (entry_inum de) 0 (λ e. used (sym (entry_inum_lem ip d off) ∙ e)) in
      let zero_diff =
        (strncmp_iff name (entry_name de) 0 0 14).1
          (λ i lt before. same i lt before ∙ sym (name_byte ip d off i lt)) in
      rw (is_named, not_zero) (ap is_same zero_diff)

  not_named :
      (name : Bytes) (ip : Inode) (d : Device) (off : ℕ)
      → is_named sb table kmem name (entry_at ip d off) ≡ false
      → ¬ HasName name ip d off
  not_named name ip d off h has = absurd (cc (sym h ∙ HasName-is_named name ip d off has))

  -- In a directory of `n` entries whose blocks are allocated, `dirlookup` finds the first entry in
  -- use whose name agrees with the given one in its first 14 characters, up to a NUL, and gets_inode the
  -- inode of that entry with the entry's offset. It finds none, and changes nothing, only if no
  -- entry in use has the name.
  pub dirlookup-Looks :
      (i n : ℕ) (ip : Inode) (name : Bytes) (s : FsState)
      → ip.copy.type ≡ t_dir
      → IsDir k i ip s n 0
      → Looks ip name n s (dirlookup sb table kmem i name s)
  dirlookup-Looks i n ip name s dir_type dir =
      let (r, scanned, e) = dirlookup_first i n ip name s dir_type dir in
      subst (Looks ip name n s) (sym e) (at r scanned)
    where
      named : Bytes → Bool
      named = is_named sb table kmem name

      zero_plus : (a : ℕ) → 0 + a ≡ a
      zero_plus a = omega arith

      misses :
          (j : ℕ)
          → named (entry_at ip s.device (0 + dirent_size * j)) ≡ false
          → ¬ HasName name ip s.device (dirent_size * j)
      misses j h = not_named name ip s.device (dirent_size * j) (
          subst (λ (x : ℕ). named (entry_at ip s.device x) ≡ false) (zero_plus (dirent_size * j)) h)

      got :
          (m : ℕ) (o : Option (ℕ × Icache))
          → (elim o [
            | none ↦ none
            | some (j, c) ↦ some (some (j, dirent_size * m), record s { icache = c })
          ])
            ≡ gets_inode (dirent_size * m) s o
      got m none = refl
      got m (some (j, c)) = refl

      at :
          (r : Option (Bool × (ℕ × (FsState × Bytes))))
          → Scanned sb table kmem k named ip s n 0 r
          → Looks ip name n s (found sb table kmem ip.dev r)
      at _ (Scanned.hit o e) =
          let (m, lt, where_o, t, before) = first_entry-some named ip s.device n 0 o e in
          let place : o ≡ dirent_size * m = omega (arith, where_o) in
          let here : HasName name ip s.device (dirent_size * m) =
            is_named-HasName name ip s.device (dirent_size * m)
              (subst (λ (x : ℕ). named (entry_at ip s.device x) ≡ true) place t) in
          subst (Looks ip name n s)
            (sym (
              ap
                (λ (x : ℕ).
                  found sb table kmem ip.dev (some (true, (x, (s, entry_at ip s.device x)))))
                place
              ∙ ap
                  (λ (x : ℕ). elim (iget ip.dev x s.icache) [
                    | none ↦ none
                    | some (j, c) ↦ some (some (j, dirent_size * m), record s { icache = c })
                  ])
                  (entry_inum_lem ip s.device (dirent_size * m))
              ∙ got m (iget ip.dev (inum_at ip s.device (dirent_size * m)) s.icache)))
            (Looks.present m lt here (λ j l. misses j (before j l)))
      at _ (Scanned.miss end_off de e e') =
          Looks.absent (λ j lt. misses j (first_entry-none named ip s.device n 0 e j lt))
