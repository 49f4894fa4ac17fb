-- ===== src/Sysfile.antt =====
-- kernel/sysfile.c: system calls on files. An argument that the caller has fetched is given, a
-- path as the list of its characters; `none` is a panic. A call is one step: the log's transaction
-- and the locks of inodes make it so.
pub mod Inodes
pub mod Fd
use my_oslab.Base.{
  ℕ, zero, suc, ◌+◌, ◌-◌, ◌%◌, ◌^◌, Bool, true, false, not, ◌&&◌, Option, none, some, List, [], ◌∷◌,
  get_elem?, set, ltb, ◌==◌, if◌then◌else◌, ℤ, pos, negsuc,
}
use my_oslab.Kalloc.{Kmem}
use my_oslab.Strings.{Bytes}
use my_oslab.Fs.{Superblock}
use my_oslab.Fs.Icache.{Dinode, Inode}
use my_oslab.Fs.Inode.{FsState, ilock, iput, iupdate, ialloc, itrunc}
use my_oslab.Fs.Contents.{writei}
use my_oslab.Fs.Dirs.{
  t_dir, dirent_size, entry_inum, namecmp, is_same, blank, put_back, read_entry, with_entry,
  dirlookup, dirlink, entry_written,
}
use my_oslab.Fs.Paths.{PathText, Found, namei, find_parent}

-- A part of a call: it may panic, and has a result and a new state.
abbrev pub Run : Type 0 → Type 0
Run A = FsState → Option (A × FsState)

infixl 5 ◌>>=◌ ◌>>◌
abbrev pub ◌>>=◌ : {A B : Type 0} → Run A → (A → Run B) → Run B
◌>>=◌ m f s = elim (m s) [ none ↦ none | some (a, s') ↦ f a s' ]

abbrev pub ◌>>◌ : {A B : Type 0} → Run A → Run B → Run B
m >> k = m >>= λ _. k

abbrev pub return : {A : Type 0} → A → Run A
return a s = some (a, s)

abbrev pub panic : {A : Type 0} → Run A
panic s = none

-- `return -1;`
abbrev pub fail : Run ℤ
fail = return (negsuc 0)

-- T_FILE and T_DEVICE
abbrev pub t_file : ℕ
t_file = 2

abbrev pub t_device : ℕ
t_device = 3

-- A call of a function that has no result.
abbrev pub call : (FsState → Option FsState) → Run (Unit {0})
call f s = elim (f s) [ none ↦ none | some s' ↦ some (tt, s') ]

abbrev pub inode_of : FsState → Option Inode → Option (Inode × FsState)
inode_of s none = none
inode_of s (some ip) = some (ip, s)

-- The inode in entry `i`.
abbrev pub inode : ℕ → Run Inode
inode i s = inode_of s (get_elem? s.icache i)

-- `.` and `..`
abbrev pub dot : Bytes
dot i = if i == 0 then b'.' else 0

abbrev pub dot_dot : Bytes
dot_dot i = if ltb i 2 then b'.' else 0

abbrev pub found_entry : Option Found → Option (Option (ℕ × Bytes) × FsState)
found_entry none = none
found_entry (some (none, (name, s))) = some (none, s)
found_entry (some (some i, (name, s))) = some (some (i, name), s)

module _ (sb : Superblock) (table : ℕ) (k : Kmem) (cwd : ℕ) where
  abbrev pub lock_inode : ℕ → Run (Unit {0})
  lock_inode i = call (ilock sb i)

  -- `iput` and `iunlockput`
  abbrev pub put_inode : ℕ → Run (Unit {0})
  put_inode i = call (iput sb i)

  -- A change of the fields of an inode, and `iupdate`.
  abbrev pub update : (Dinode → Dinode) → ℕ → Run (Unit {0})
  update f i s = elim (get_elem? s.icache i) [
    | none ↦ none
    | some ip ↦
        let ip' = record ip { copy = f ip.copy } in
        some (tt, iupdate sb ip' (record s { icache = set s.icache i ip' }))
  ]

  -- `ip->nlink++` and `ip->nlink--` on a `short`.
  abbrev pub more_links : Dinode → Dinode
  more_links d = record d { nlink = (d.nlink + 1) % 2 ^ 16 }

  abbrev pub less_links : Dinode → Dinode
  less_links d = record d { nlink = (d.nlink + (2 ^ 16 - 1)) % 2 ^ 16 }

  abbrev pub find : PathText → Run (Option (ℕ × Bytes))
  find path s = found_entry (namei sb table k cwd path s)

  -- `nameiparent(path, name)`, whose name's buffer is not set before.
  abbrev pub parent_of : PathText → Run (Option (ℕ × Bytes))
  parent_of path s = found_entry (find_parent sb table k cwd path (λ i. 0) s)

  abbrev pub lookup : ℕ → Bytes → Run (Option (ℕ × ℕ))
  lookup i name = dirlookup sb table k i name

  -- The label `bad` of `sys_link`.
  abbrev pub link_bad : ℕ → Run ℤ
  link_bad i = do lock_inode i; update less_links i; put_inode i; fail

  -- `dp->dev != ip->dev || dirlink(dp, name, ip->inum) < 0`, and what follows.
  abbrev pub link_result : ℕ → ℕ → ℤ → Run ℤ
  link_result i dp (negsuc r) = put_inode dp >> link_bad i
  link_result i dp (pos r) = put_inode dp >> (put_inode i >> return (pos 0))

  abbrev pub link_in : ℕ → Option (ℕ × Bytes) → Run ℤ
  link_in i none = link_bad i
  link_in i (some (dp, name)) = do
    lock_inode dp
    d ← inode dp
    ip ← inode i
    if not (d.dev == ip.dev)
        then link_result i dp (negsuc 0)
        else (dirlink sb table k dp name ip.inum >>= link_result i dp)

  abbrev pub link_inode : PathText → Option (ℕ × Bytes) → Run ℤ
  link_inode new none = fail
  link_inode new (some (i, name)) = do
    lock_inode i
    ip ← inode i
    if ip.copy.type == t_dir
        then (put_inode i >> fail)
        else (update more_links i >> (parent_of new >>= link_in i))

  unfoldable pub sys_link : PathText → PathText → Run ℤ
  unfolding iput ilock iupdate namei find_parent dirlink
  sys_link old new = find old >>= link_inode new
