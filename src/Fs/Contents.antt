-- ===== src/Fs/Contents.antt =====
-- The contents of a file in kernel/fs.c: `readi`, `writei` and `stati`. The inode is locked, and
-- its entry of the cache is given and returned; `none` is a panic.
pub mod Mapped
pub mod Pieces
pub mod Reading
pub mod Writing
pub mod Round
pub mod Users
pub mod Bound
pub mod Tests
use my_oslab.Base.{
  ℕ, zero, suc, ◌+◌, ◌-◌, ◌*◌, ◌/◌, ◌%◌, ◌^◌, Bool, true, false, ◌||◌, Option, none, some, ltb,
  ◌==◌, if◌then◌else◌, add32, ℤ, pos, negsuc,
}
use my_oslab.Kalloc.{Kmem}
use my_oslab.Strings.{Bytes}
use my_oslab.Vm.Either.{either_copyout, either_copyin}
use my_oslab.Fs.{Superblock, Device, write_block}
use my_oslab.Fs.Icache.{Dinode, Inode}
use my_oslab.Fs.Inode.{FsState, ndirect, nindirect, bmap, iupdate}

-- BSIZE and MAXFILE
abbrev pub bsize : ℕ
bsize = 1024

abbrev pub maxfile : ℕ
maxfile = ndirect + nindirect

-- `struct stat`
pub record Stat : Type 0 where
  pub dev : ℕ
  pub ino : ℕ
  pub type : ℕ
  pub nlink : ℕ
  pub size : ℕ

unfoldable pub stati : Inode → Stat
stati ip = record {
  dev = ip.dev;
  ino = ip.inum;
  type = ip.copy.type;
  nlink = ip.copy.nlink;
  size = ip.copy.size;
}

-- `min(n - tot, BSIZE - off % BSIZE)`
abbrev pub piece : ℕ → ℕ → ℕ → ℕ
piece n tot off =
    let left = n - tot in let room = bsize - off % bsize in if ltb left room then left else room

-- What is done with the block that `bmap` gives, and with the result of a copy.
abbrev pub with_block :
    {R : Type 0} → (ℕ → Inode → Device → Option R) → Option (ℕ × (Inode × Device)) → Option R
with_block f none = none
with_block f (some (b, (ip, d))) = f b ip d

abbrev pub copied : {R : Type 0} → (Bytes → R) → (Bytes → R) → ℤ × Bytes → R
copied ok bad (pos r, m) = ok m
copied ok bad (negsuc r, m) = bad m

-- The bytes read, the inode, the device and the memory read into.
abbrev pub Read : Type 0
Read = ℕ × (Inode × (Device × Bytes))

-- The bytes written, the offset behind them, the inode and the device.
abbrev pub Written : Type 0
Written = ℕ × (ℕ × (Inode × Device))

module _ (sb : Superblock) (table : ℕ) (k : Kmem) (user : Bool) where
  -- The loop of `readi`, of which each turn reads a byte at least.
  unfoldable pub readi_loop : ℕ → ℕ → ℕ → ℕ → ℕ → Inode → Device → Bytes → Option Read
  unfolding bmap either_copyout
  readi_loop zero n tot off dst ip d m = some (tot, (ip, (d, m)))
  readi_loop (suc fuel) n tot off dst ip d m = elim (ltb tot n) [
    | false ↦ some (tot, (ip, (d, m)))
    | true ↦
        let len = piece n tot off in
        with_block
          (λ b ip' d'.
            copied (λ m'. readi_loop fuel n (add32 tot len) (add32 off len) (dst + len) ip' d' m')
              (λ m'. some (tot, (ip', (d', m'))))
              (either_copyout table k user dst (d'.blocks b) (off % bsize) len m))
          (bmap sb (off / bsize) ip d)
  ]

  unfoldable pub readi : ℕ → ℕ → ℕ → Inode → Device → Bytes → Option Read
  unfolding readi_loop
  readi dst off n ip d m =
      let end_off = add32 off n in
      let n' = if ltb ip.copy.size end_off then ip.copy.size - off else n in
      let r = readi_loop n' n' 0 off dst ip d m in
      if ltb ip.copy.size off || ltb end_off off then some (0, (ip, (d, m))) else r

  -- The loop of `writei`. A copy that fails may have changed the buffer, which is not logged then.
  unfoldable pub writei_loop : ℕ → ℕ → ℕ → ℕ → ℕ → Bytes → Inode → Device → Option Written
  unfolding bmap either_copyin
  writei_loop zero n tot off src memory ip d = some (tot, (off, (ip, d)))
  writei_loop (suc fuel) n tot off src memory ip d = elim (ltb tot n) [
    | false ↦ some (tot, (off, (ip, d)))
    | true ↦
        let len = piece n tot off in
        with_block
          (λ b ip' d'.
            copied
              (λ v.
                writei_loop fuel n (add32 tot len) (add32 off len) (src + len) memory ip'
                  (write_block b v d'))
              (λ v.
                some (
                  tot,
                  (off, (ip', record d' { blocks = λ a. if a == b then v else d'.blocks a })),
                ))
              (either_copyin table k memory (off % bsize) user src len (d'.blocks b)))
          (bmap sb (off / bsize) ip d)
  ]

  -- What `writei` does behind its loop: the size grows to the offset, and the inode is written.
  abbrev pub update_size : ℕ → FsState → Option Written → Option (ℤ × (Inode × FsState))
  update_size n s none = none
  update_size n s (some (tot, (off, (ip, d)))) =
      let s1 = record s { device = d } in
      let ip1 =
        if ltb ip.copy.size off then record ip { copy = record (ip.copy) { size = off } } else ip in
      if ltb 0 n then some (pos n, (ip1, iupdate sb ip1 s1)) else some (pos n, (ip, s1))

  unfoldable pub writei : ℕ → ℕ → ℕ → Bytes → Inode → FsState → Option (ℤ × (Inode × FsState))
  unfolding writei_loop iupdate
  writei src off n memory ip s =
      let end_off = add32 off n in
      let r = update_size n s (writei_loop n n 0 off src memory ip s.device) in
      if ltb ip.copy.size off || ltb end_off off
      then some (negsuc 0, (ip, s))
      else if ltb (maxfile * bsize) end_off
      then some (negsuc 0, (ip, s))
      else r
