-- ===== src/Sysfile/Inodes.antt =====
-- The calls of kernel/sysfile.c that make and remove inodes: `sys_unlink`, `create` and its callers.
pub mod Empty
mod Tests
use my_oslab.Base.{
  ℕ, zero, suc, ◌+◌, ◌-◌, ◌/◌, ◌%◌, ◌^◌, Bool, true, false, not, ◌&&◌, ◌||◌, Option, none, some,
  List, [], ◌∷◌, set, ltb, ◌==◌, if◌then◌else◌, ℤ, pos, negsuc,
}
use my_oslab.Kalloc.{Kmem}
use my_oslab.Strings.{Bytes}
use my_oslab.Fs.{Superblock}
use my_oslab.Fs.Icache.{Dinode, Inode}
use my_oslab.Fs.Inode.{FsState, ilock, iput, iupdate, ialloc, itrunc}
use my_oslab.Fs.Contents.{writei}
use my_oslab.Fs.Dirs.{
  t_dir, dirent_size, entry_inum, namecmp, is_same, blank, scan, dirlookup, dirlink, entry_written,
}
use my_oslab.Fs.Paths.{PathText, namei, find_parent}
use my_oslab.Sysfile.{
  Run, ◌>>=◌, ◌>>◌, return, panic, fail, t_file, t_device, call, inode, dot, dot_dot, lock_inode,
  put_inode, update, more_links, less_links, find, parent_of, lookup,
}

module _ (sb : Superblock) (table : ℕ) (k : Kmem) (cwd : ℕ) where
  abbrev pub lock : ℕ → Run (Unit {0})
  lock = lock_inode sb table k cwd

  abbrev pub put_back_inode : ℕ → Run (Unit {0})
  put_back_inode = put_inode sb table k cwd

  abbrev pub in_use : Bytes → Bool
  in_use de = not (entry_inum de == 0)

  -- Whether the loop of `isdirempty` came to its end.
  abbrev pub not_stopped : Option (Bool × (ℕ × (FsState × Bytes))) → Option (Bool × FsState)
  not_stopped none = none
  not_stopped (some (stopped, (off, (s, de)))) = some (not stopped, s)

  -- The loop starts behind `.` and `..`.
  unfoldable pub isdirempty : ℕ → Run Bool
  unfolding scan
  isdirempty i = inode i >>= λ dp s.
      not_stopped (
        scan sb table k in_use (dp.copy.size + 1) i (dirent_size + dirent_size) (blank sb table k)
          s)

  -- The label `bad` of `sys_unlink`.
  abbrev pub unlink_bad : ℕ → Run ℤ
  unlink_bad dp = put_back_inode dp >> fail

  -- `writei` of an empty entry at `off`, which panics unless it writes all of it.
  abbrev pub clear_entry : ℕ → ℕ → Run ℤ
  clear_entry dp off = inode dp >>= λ d s.
      entry_written sb table k dp (writei sb table k false 0 off dirent_size (λ i. 0) d s)

  -- What `sys_unlink` does once it knows that the inode may go.
  abbrev pub unlink_entry : ℕ → ℕ → ℕ → Inode → Run ℤ
  unlink_entry dp i off ip = do
    clear_entry dp off
    if ip.copy.type == t_dir
        then update sb table k cwd (less_links sb table k cwd) dp
        else return tt
    put_back_inode dp
    update sb table k cwd (less_links sb table k cwd) i
    put_back_inode i
    return (pos 0)

  -- `ip->nlink < 1` of a `short`.
  abbrev pub no_links : Inode → Bool
  no_links ip = ip.copy.nlink == 0 || not (ltb ip.copy.nlink (2 ^ 15))

  abbrev pub unlink_dir : ℕ → ℕ → ℕ → Inode → Bool → Run ℤ
  unlink_dir dp i off ip true = unlink_entry dp i off ip
  unlink_dir dp i off ip false = put_back_inode i >> unlink_bad dp

  -- The tests of the inode: whether it has no links, and whether it is a directory.
  abbrev pub unlink_checked : ℕ → ℕ → ℕ → Inode → Bool → Bool → Run ℤ
  unlink_checked dp i off ip true dir = panic
  unlink_checked dp i off ip false true = isdirempty i >>= unlink_dir dp i off ip
  unlink_checked dp i off ip false false = unlink_entry dp i off ip

  abbrev pub unlink_inode : ℕ → ℕ → ℕ → Inode → Run ℤ
  unlink_inode dp i off ip = unlink_checked dp i off ip (no_links ip) (ip.copy.type == t_dir)

  abbrev pub unlink_found : ℕ → Option (ℕ × ℕ) → Run ℤ
  unlink_found dp none = unlink_bad dp
  unlink_found dp (some (i, off)) = lock i >> (inode i >>= unlink_inode dp i off)

  -- `namecmp(name, ".") == 0 || namecmp(name, "..") == 0`
  abbrev pub is_dots : Bytes → Bool
  is_dots name = is_same (namecmp name dot) || is_same (namecmp name dot_dot)

  abbrev pub unlink_named : ℕ → Bytes → Bool → Run ℤ
  unlink_named dp name true = unlink_bad dp
  unlink_named dp name false = lookup sb table k cwd dp name >>= unlink_found dp

  abbrev pub unlink_in : Option (ℕ × Bytes) → Run ℤ
  unlink_in none = fail
  unlink_in (some (dp, name)) = lock dp >> unlink_named dp name (is_dots name)

  unfoldable pub sys_unlink : PathText → Run ℤ
  unfolding ilock iput iupdate find_parent dirlookup writei isdirempty namecmp
  sys_unlink path = parent_of sb table k cwd path >>= unlink_in

  -- `dirlink(...) < 0` is a panic.
  abbrev pub link_or_panic : ℕ → Bytes → ℕ → Run (Unit {0})
  link_or_panic dp name inum =
      dirlink sb table k dp name inum >>= λ r. elim r [ pos n ↦ return tt | negsuc n ↦ panic ]

  abbrev pub new_inode : ℕ → ℕ → Dinode → Dinode
  new_inode major minor d = record d { major = major; minor = minor; nlink = 1 }

  -- `.` and `..` of a new directory.
  abbrev pub make_dots : ℕ → ℕ → Run (Unit {0})
  make_dots dp i = do
    update sb table k cwd (more_links sb table k cwd) dp
    ip ← inode i
    d ← inode dp
    link_or_panic i dot ip.inum
    link_or_panic i dot_dot d.inum

  -- `create` of an inode that is not there.
  abbrev pub create_new : ℕ → ℕ → ℕ → ℕ → Bytes → Run (Option ℕ)
  create_new type major minor dp name = do
    d ← inode dp
    i ← ialloc sb d.dev type
    lock i
    update sb table k cwd (new_inode major minor) i
    if type == t_dir then make_dots dp i else return tt
    ip ← inode i
    link_or_panic dp name ip.inum
    put_back_inode dp
    return (some i)

  -- `create` of one that is.
  abbrev pub create_found : ℕ → ℕ → ℕ → Run (Option ℕ)
  create_found type dp i = do
    put_back_inode dp
    lock i
    ip ← inode i
    if type == t_file && (ip.copy.type == t_file || ip.copy.type == t_device)
        then return (some i)
        else (put_back_inode i >> return none)

  abbrev pub create_at : ℕ → ℕ → ℕ → ℕ → Bytes → Option (ℕ × ℕ) → Run (Option ℕ)
  create_at type major minor dp name none = create_new type major minor dp name
  create_at type major minor dp name (some (i, off)) = create_found type dp i

  abbrev pub create_in : ℕ → ℕ → ℕ → Option (ℕ × Bytes) → Run (Option ℕ)
  create_in type major minor none = return none
  create_in type major minor (some (dp, name)) = do
    lock dp
    e ← lookup sb table k cwd dp name
    create_at type major minor dp name e

  -- The entry of the inode, locked, or `none` for 0.
  unfoldable pub create : PathText → ℕ → ℕ → ℕ → Run (Option ℕ)
  unfolding ilock iput iupdate find_parent dirlookup dirlink ialloc
  create path type major minor = parent_of sb table k cwd path >>= create_in type major minor

  -- `iunlockput(ip)` and `return 0`, for what `create` gave.
  abbrev pub put_created : Option ℕ → Run ℤ
  put_created none = fail
  put_created (some i) = put_back_inode i >> return (pos 0)

  unfoldable pub sys_mkdir : PathText → Run ℤ
  unfolding create
  sys_mkdir path = create path t_dir 0 0 >>= put_created

  -- `major` and `minor` are cut to a `short`.
  unfoldable pub sys_mknod : PathText → ℕ → ℕ → Run ℤ
  unfolding create
  sys_mknod path major minor =
      create path t_device (major % 2 ^ 16) (minor % 2 ^ 16) >>= put_created

  -- `sys_chdir`: the result and the current directory behind it.
  abbrev pub change_to : Option (ℕ × Bytes) → Run (ℤ × ℕ)
  change_to none = return (negsuc 0, cwd)
  change_to (some (i, name)) = do
    lock i
    ip ← inode i
    if ip.copy.type == t_dir
        then (put_back_inode cwd >> return (pos 0, i))
        else (put_back_inode i >> return (negsuc 0, cwd))

  unfoldable pub sys_chdir : PathText → Run (ℤ × ℕ)
  unfolding namei ilock iput
  sys_chdir path = find sb table k cwd path >>= change_to

  -- NDEV, and `ip->major < 0 || ip->major >= NDEV` of a `short`.
  abbrev pub bad_device : Inode → Bool
  bad_device ip = ip.copy.type == t_device && not (ltb ip.copy.major 10)

  abbrev pub check_device : Option ℕ → Run (Option ℕ)
  check_device none = return none
  check_device (some i) = do
    ip ← inode i
    if bad_device ip then (put_back_inode i >> return none) else return (some i)

  -- `omode & flag` for a flag that is one bit.
  abbrev pub has_flag : ℕ → ℕ → Bool
  has_flag flag omode = omode / flag % 2 == 1

  -- The inode of `namei` for `sys_open`.
  abbrev pub open_found : ℕ → Option (ℕ × Bytes) → Run (Option ℕ)
  open_found omode none = return none
  open_found omode (some (i, name)) = do
    lock i
    ip ← inode i
    if ip.copy.type == t_dir && not (omode == 0)
        then (put_back_inode i >> return none)
        else return (some i)

  -- `sys_open` up to `filealloc`: the inode, locked, or `none` for a return of -1.
  unfoldable pub open_inode : ℕ → PathText → Run (Option ℕ)
  unfolding create namei
  open_inode omode path =
      (if has_flag 0x200 omode
        then create path t_file 0 0
        else (find sb table k cwd path >>= open_found omode))
      >>= check_device

  abbrev pub put_truncated : ℕ → Option (Inode × FsState) → Option (Unit {0} × FsState)
  put_truncated i none = none
  put_truncated i (some (ip, s)) = some (tt, record s { icache = set s.icache i ip })

  -- `if ((omode & O_TRUNC) && ip->type == T_FILE) itrunc(ip);`
  unfoldable pub truncate : ℕ → ℕ → Run (Unit {0})
  unfolding itrunc
  truncate omode i = inode i >>= λ ip s.
      if has_flag 0x400 omode && ip.copy.type == t_file
      then put_truncated i (itrunc sb ip s)
      else some (tt, s)
