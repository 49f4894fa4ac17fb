-- ===== src/File.antt =====
-- kernel/file.c: the table of open files, and reads and writes through them. What it calls of
-- pipes, devices, inodes and the log is the record `FileOps` over their state.
pub mod Refs
pub mod Write
pub mod Tests
use my_oslab.Base.{
  ℕ, zero, suc, ◌+◌, ◌-◌, ◌*◌, ◌/◌, ◌%◌, ◌^◌, Bool, true, false, not, ◌&&◌, ◌||◌, Option, none,
  some, List, [], ◌∷◌, get_elem?, set, add32, ◌==◌, ltb, if◌then◌else◌, ℤ, pos, negsuc,
}

-- The `type` of a file.
pub data FileType : Type 0 where
  fd_none : FileType
  fd_pipe : FileType
  fd_inode : FileType
  fd_device : FileType

-- `struct file`; `pipe` and `ip` are addresses, `major` is a `short`.
pub record File : Type 0 where
  pub type : FileType
  pub ref : ℕ
  pub readable : ℕ
  pub writable : ℕ
  pub pipe : ℕ
  pub ip : ℕ
  pub off : ℕ
  pub major : ℤ

-- `ftable.file`
abbrev pub Ftable : Type 0
Ftable = List File

-- NDEV
abbrev pub ndev : ℕ
ndev = 10

-- `filealloc` on the files from number `i` on: the number of the file, or `none` for 0.
unfoldable pub filealloc : ℕ → Ftable → Option ℕ × Ftable
filealloc i [] = (none, [])
filealloc i (f ∷ fs) =
    let (r, fs') = filealloc (i + 1) fs in
    if f.ref == 0 then (some i, record f { ref = 1 } ∷ fs) else (r, f ∷ fs')

-- `none` is the panic, here and below.
unfoldable pub filedup : ℕ → Ftable → Option Ftable
filedup i fs = elim (get_elem? fs i) [
  | none ↦ none
  | some f ↦ if ltb f.ref 1 then none else some (set fs i (record f { ref = f.ref + 1 }))
]

-- What `file.c` calls. The `int`s they return are signed; `addr` is a user address.
pub record FileOps : Type 1 where
  pub World : Type 0
  pub pipeclose : ℕ → ℕ → World → World
  pub piperead : ℕ → ℕ → ℕ → World → ℤ × World
  pub pipewrite : ℕ → ℕ → ℕ → World → ℤ × World
  pub begin_op : World → World
  pub end_op : World → World
  pub iput : ℕ → World → World
  pub ilock : ℕ → World → World
  pub iunlock : ℕ → World → World
  -- `readi(ip, 1, addr, off, n)` and `writei(ip, 1, addr, off, n)`, which may panic
  pub readi : ℕ → ℕ → ℕ → ℕ → World → Option (ℤ × World)
  pub writei : ℕ → ℕ → ℕ → ℕ → World → Option (ℤ × World)
  -- `stati` and then `copyout` of the `struct stat` to the address
  pub stati : ℕ → World → ℕ
  pub copy_stat : ℕ → ℕ → World → Bool × World
  -- `devsw[major].read` and `.write`, where they are not null
  pub dev_read : ℕ → Option (ℕ → ℕ → World → ℤ × World)
  pub dev_write : ℕ → Option (ℕ → ℕ → World → ℤ × World)

-- The function of a device, if the number is one of the table's.
abbrev pub device {ℓ} : {A : Type ℓ} → (ℕ → Option A) → ℤ → Option A
device table (negsuc k) = none
device table (pos k) = if ltb k ndev then table k else none

-- `f->off += r`, if `r > 0`
abbrev pub advance : ℤ → File → File
advance (pos r) f = record f { off = add32 f.off r }
advance (negsuc r) f = f

-- The bytes of a transaction: half of the blocks that are left of MAXOPBLOCKS, of BSIZE bytes.
abbrev pub max_write : ℕ
max_write = (10 - 1 - 1 - 2) / 2 * 1024

module _ (ops : FileOps) where
  open ops use {
    World, pipeclose, piperead, pipewrite, begin_op, end_op, iput, ilock, iunlock, readi, writei,
    stati, copy_stat, dev_read, dev_write,
  }

  -- The end of `fileclose`, for the copy `ff` of the file.
  unfoldable pub close_last : File → World → World
  close_last ff w = elim ff.type [
    | fd_none ↦ w
    | fd_pipe ↦ pipeclose ff.pipe ff.writable w
    | fd_inode ↦ end_op (iput ff.ip (begin_op w))
    | fd_device ↦ end_op (iput ff.ip (begin_op w))
  ]

  unfoldable pub fileclose : ℕ → Ftable → World → Option (Ftable × World)
  unfolding close_last
  fileclose i fs w = elim (get_elem? fs i) [
    | none ↦ none
    | some f ↦
        if ltb f.ref 1
        then none
        else if ltb 0 (f.ref - 1)
        then some (set fs i (record f { ref = f.ref - 1 }), w)
        else some (set fs i (record f { ref = 0; type = FileType.fd_none }), close_last f w)
  ]

  -- `filestat`
  unfoldable pub filestat : File → ℕ → World → ℤ × World
  filestat f addr w =
      let w1 = ilock f.ip w in
      let st = stati f.ip w1 in
      let (ok, w2) = copy_stat addr st (iunlock f.ip w1) in
      let answer : ℤ × World = (if ok then pos 0 else negsuc 0, w2) in
      elim f.type [
        | fd_none ↦ (negsuc 0, w)
        | fd_pipe ↦ (negsuc 0, w)
        | fd_inode ↦ answer
        | fd_device ↦ answer
      ]

  abbrev pub call_device :
      Option (ℕ → ℕ → World → ℤ × World) → ℕ → ℕ → File → World → Option (ℤ × (File × World))
  call_device none addr n f w = some (negsuc 0, (f, w))
  call_device (some g) addr n f w = let (r, w') = g addr n w in some (r, (f, w'))

  abbrev pub read_inode : File → Option (ℤ × World) → Option (ℤ × (File × World))
  read_inode f none = none
  read_inode f (some (r, w)) = some (r, (advance r f, iunlock f.ip w))

  unfoldable pub read_type : FileType → File → ℕ → ℕ → World → Option (ℤ × (File × World))
  read_type FileType.fd_none f addr n w = none
  read_type FileType.fd_pipe f addr n w =
      let (r, w') = piperead f.pipe addr n w in some (r, (f, w'))
  read_type FileType.fd_device f addr n w = call_device (device dev_read f.major) addr n f w
  read_type FileType.fd_inode f addr n w = read_inode f (readi f.ip addr f.off n (ilock f.ip w))

  unfoldable pub fileread : File → ℕ → ℕ → World → Option (ℤ × (File × World))
  unfolding read_type
  fileread f addr n w =
      let got = read_type f.type f addr n w in
      if f.readable == 0 then some (negsuc 0, (f, w)) else got

  -- One transaction of `filewrite`: `n1` bytes from byte `i` on.
  abbrev pub chunk_written : File → Option (ℤ × World) → Option (ℤ × (File × World))
  chunk_written f none = none
  chunk_written f (some (r, w)) = some (r, (advance r f, end_op (iunlock f.ip w)))

  unfoldable pub write_chunk : ℕ → ℕ → ℕ → File → World → Option (ℤ × (File × World))
  write_chunk addr i n1 f w =
      chunk_written f (writei f.ip (addr + i) f.off n1 (ilock f.ip (begin_op w)))

  -- What the loop does with a transaction; `next` is its next turn.
  abbrev pub write_next :
      (ℕ → File → World → Option (ℕ × (File × World)))
      → ℕ
      → ℕ
      → Option (ℤ × (File × World))
      → Option (ℕ × (File × World))
  write_next next n1 i none = none
  write_next next n1 i (some (negsuc k, (f, w))) = some (i, (f, w))
  write_next next n1 i (some (pos k, (f, w))) = elim (k == n1) [
    | true ↦ next (i + k) f w
    | false ↦ none
  ]

  -- The loop of `filewrite` from byte `i` on, on fuel.
  unfoldable pub write_chunks : ℕ → ℕ → ℕ → ℕ → File → World → Option (ℕ × (File × World))
  unfolding write_chunk
  write_chunks zero addr i n f w = some (i, (f, w))
  write_chunks (suc fuel) addr i n f w =
      let n1 = if ltb max_write (n - i) then max_write else n - i in
      elim (ltb i n) [
        | false ↦ some (i, (f, w))
        | true ↦
            write_next (λ j f' w'. write_chunks fuel addr j n f' w') n1 i
              (write_chunk addr i n1 f w)
      ]

  -- `ret = (i == n ? n : -1)`
  abbrev pub write_result : ℕ → Option (ℕ × (File × World)) → Option (ℤ × (File × World))
  write_result n none = none
  write_result n (some (i, fw)) = some (if i == n then pos n else negsuc 0, fw)

  -- The branches of `filewrite` by type. Each turn of the loop takes a byte at least, so that `n`
  -- turns are enough.
  unfoldable pub write_type : FileType → File → ℕ → ℕ → World → Option (ℤ × (File × World))
  unfolding write_chunks
  write_type FileType.fd_none f addr n w = none
  write_type FileType.fd_pipe f addr n w =
      let (r, w') = pipewrite f.pipe addr n w in some (r, (f, w'))
  write_type FileType.fd_device f addr n w = call_device (device dev_write f.major) addr n f w
  write_type FileType.fd_inode f addr n w = write_result n (write_chunks n addr 0 n f w)

  unfoldable pub filewrite : File → ℕ → ℕ → World → Option (ℤ × (File × World))
  unfolding write_type
  filewrite f addr n w =
      let written = write_type f.type f addr n w in
      if f.writable == 0 then some (negsuc 0, (f, w)) else written
