-- ===== src/Fs/Dirs.antt =====
-- Directories in kernel/fs.c. A directory is given by its entry of the inode cache, a name by a
-- buffer that it starts; `none` is a panic.
pub mod Scan
pub mod Lookup
pub mod Tests
use my_oslab.Base.{
  ℕ, zero, suc, ◌+◌, ◌*◌, ◌/◌, ◌%◌, ◌^◌, Bool, true, false, Option, none, some, get_elem?, set, ltb,
  ◌==◌, if◌then◌else◌, add32, ℤ, pos, negsuc,
}
use my_oslab.Kalloc.{Kmem}
use my_oslab.Strings.{Bytes, put, strncmp, strncpy}
use my_oslab.Fs.{Superblock, Device}
use my_oslab.Fs.Icache.{Inode, iget}
use my_oslab.Fs.Inode.{FsState, iput}
use my_oslab.Fs.Contents.{readi, writei, Read}

-- T_DIR, DIRSIZ and sizeof(struct dirent)
abbrev pub t_dir : ℕ
t_dir = 1

abbrev pub dirsiz : ℕ
dirsiz = 14

abbrev pub dirent_size : ℕ
dirent_size = 16

-- The fields of the `struct dirent` in a buffer.
abbrev pub entry_inum : Bytes → ℕ
entry_inum de = de 0 + 256 * de 1

abbrev pub entry_name : Bytes → Bytes
entry_name de i = de (2 + i)

-- The buffer with the two fields assigned.
abbrev pub make_entry : Bytes → ℕ → Bytes → Bytes
make_entry name inum de =
    let named = strncpy de 2 name 0 dirsiz in put (put named 0 (inum % 256)) 1 (inum / 256 % 256)

unfoldable pub namecmp : Bytes → Bytes → ℤ
unfolding strncmp
namecmp s t = strncmp s 0 t 0 dirsiz

abbrev pub is_same : ℤ → Bool
is_same (pos n) = n == 0
is_same (negsuc n) = false

-- The inode in entry `i` after a call with it.
abbrev pub put_back : ℕ → Inode → Device → FsState → FsState
put_back i ip d s = record s { device = d; icache = set s.icache i ip }

module _ (sb : Superblock) (table : ℕ) (k : Kmem) where
  -- `readi(dp, 0, &de, off, sizeof(de)) != sizeof(de)` is a panic.
  abbrev pub entry_read : ℕ → FsState → Option Read → Option (FsState × Bytes)
  entry_read i s none = none
  entry_read i s (some (tot, (ip, (d, de)))) =
      if tot == dirent_size then some (put_back i ip d s, de) else none

  unfoldable pub read_entry : ℕ → Inode → ℕ → Bytes → FsState → Option (FsState × Bytes)
  unfolding readi
  read_entry i dp off de s =
      entry_read i s (readi sb table k false 0 off dirent_size dp s.device de)

  abbrev pub with_entry :
      {R : Type 0} → (FsState → Bytes → Option R) → Option (FsState × Bytes) → Option R
  with_entry f none = none
  with_entry f (some (s, de)) = f s de

  abbrev pub with_inode_at : {R : Type 0} → ℕ → FsState → (Inode → Option R) → Option R
  with_inode_at i s f = elim (get_elem? s.icache i) [ none ↦ none | some ip ↦ f ip ]

  -- Whether the loop stopped at an entry, the offset, the state, and the entry read last.
  abbrev pub Scan : Type 0
  Scan = Bool × (ℕ × (FsState × Bytes))

  -- A turn of the loops, with the turns behind it as `go`.
  abbrev pub scan_entry :
      (ℕ → Bytes → FsState → Option Scan)
      → (Bytes → Bool)
      → ℕ
      → ℕ
      → Bytes
      → FsState
      → Inode
      → Option Scan
  scan_entry go p i off de s dp = elim (ltb off dp.copy.size) [
    | false ↦ some (false, (off, (s, de)))
    | true ↦
        with_entry
          (λ s' de'. elim (p de') [
            | true ↦ some (true, (off, (s', de')))
            | false ↦ go (add32 off dirent_size) de' s'
          ])
          (read_entry i dp off de s)
  ]

  -- The loops of `dirlookup` and `dirlink`: they look for the first entry that passes a test.
  unfoldable pub scan : (Bytes → Bool) → ℕ → ℕ → ℕ → Bytes → FsState → Option Scan
  unfolding read_entry
  scan p zero i off de s = some (false, (off, (s, de)))
  scan p (suc fuel) i off de s =
      with_inode_at i s (scan_entry (λ off' de' s'. scan p fuel i off' de' s') p i off de s)

  -- `de.inum != 0 && namecmp(name, de.name) == 0`
  abbrev pub is_named : Bytes → Bytes → Bool
  is_named name de =
      let same = is_same (namecmp name (entry_name de)) in
      if entry_inum de == 0 then false else same

  abbrev pub is_empty : Bytes → Bool
  is_empty de = entry_inum de == 0

  abbrev pub blank : Bytes
  blank i = 0

  -- What `dirlookup` does after its loop: the entry of the inode and the offset of the name.
  abbrev pub found : ℕ → Option (Bool × (ℕ × (FsState × Bytes))) → Option (Option (ℕ × ℕ) × FsState)
  found dev none = none
  found dev (some (false, (off, (s, de)))) = some (none, s)
  found dev (some (true, (off, (s, de)))) = elim (iget dev (entry_inum de) s.icache) [
    | none ↦ none
    | some (j, c) ↦ some (some (j, off), record s { icache = c })
  ]

  -- The directory's size does not change; a turn for each byte is enough.
  unfoldable pub dirlookup : ℕ → Bytes → FsState → Option (Option (ℕ × ℕ) × FsState)
  unfolding scan namecmp
  dirlookup i name s = with_inode_at i s (λ dp.
      if dp.copy.type == t_dir
      then found dp.dev (scan (is_named name) (dp.copy.size + 1) i 0 blank s)
      else none)

  -- `writei(dp, 0, &de, off, sizeof(de)) != sizeof(de)` is a panic.
  abbrev pub entry_written : ℕ → Option (ℤ × (Inode × FsState)) → Option (ℤ × FsState)
  entry_written i none = none
  entry_written i (some (negsuc r, (ip, s))) = none
  entry_written i (some (pos r, (ip, s))) =
      if r == dirent_size then some (pos 0, put_back i ip s.device s) else none

  abbrev pub write_entry :
      ℕ → Bytes → ℕ → Option (Bool × (ℕ × (FsState × Bytes))) → Option (ℤ × FsState)
  write_entry i name inum none = none
  write_entry i name inum (some (stopped, (off, (s, de)))) = with_inode_at i s (λ dp.
      entry_written i (writei sb table k false 0 off dirent_size (make_entry name inum de) dp s))

  -- The name is there already: the inode is put back.
  abbrev pub dirlink_next : ℕ → Bytes → ℕ → Option (Option (ℕ × ℕ) × FsState) → Option (ℤ × FsState)
  dirlink_next i name inum none = none
  dirlink_next i name inum (some (some (j, off), s)) = elim (iput sb j s) [
    | none ↦ none
    | some s' ↦ some (negsuc 0, s')
  ]
  dirlink_next i name inum (some (none, s)) =
      with_inode_at i s
        (λ dp. write_entry i name inum (scan is_empty (dp.copy.size + 1) i 0 blank s))

  unfoldable pub dirlink : ℕ → Bytes → ℕ → FsState → Option (ℤ × FsState)
  unfolding dirlookup scan writei iput strncpy
  dirlink i name inum s = dirlink_next i name inum (dirlookup i name s)
