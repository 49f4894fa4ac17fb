-- ===== src/Sysfile/Fd.antt =====
-- The file descriptors of kernel/sysfile.c. An entry of `p->ofile` is the number of a file in the
-- file table, or `none` for 0. The end of `sys_open` is here too.
pub mod Dup
pub mod Pipes
mod Tests
use my_oslab.Base.{
  ℕ, zero, suc, ◌+◌, ◌/◌, ◌%◌, ◌^◌, Bool, true, false, not, ◌&&◌, ◌||◌, Option, none, some, List,
  [], ◌∷◌, get_elem?, set, ltb, ◌==◌, if◌then◌else◌, ℤ, pos, negsuc,
}
use my_oslab.File.{
  FileOps, File, FileType, Ftable, filealloc, filedup, fileclose, filestat, fileread, filewrite,
}
use my_oslab.Fs.Icache.{Inode}
use my_oslab.Sysfile.{t_device}

-- `p->ofile`, of NOFILE entries
abbrev pub Ofile : Type 0
Ofile = List (Option ℕ)

-- `argfd`: the descriptor and the file, or `none` for -1.
unfoldable pub argfd : Ofile → ℤ → Option (ℕ × ℕ)
argfd ofile (negsuc n) = none
argfd ofile (pos fd) = elim (get_elem? ofile fd) [
  | none ↦ none
  | some none ↦ none
  | some (some f) ↦ some (fd, f)
]

-- The entries before are kept.
abbrev pub keep_entry : Option ℕ → Option (ℕ × Ofile) → Option (ℕ × Ofile)
keep_entry e none = none
keep_entry e (some (fd, ofile)) = some (fd, e ∷ ofile)

-- `fdalloc` on the entries from number `fd` on; `none` is -1.
unfoldable pub fdalloc : ℕ → ℕ → Ofile → Option (ℕ × Ofile)
fdalloc f fd [] = none
fdalloc f fd (none ∷ ofile) = some (fd, some f ∷ ofile)
fdalloc f fd (some g ∷ ofile) = keep_entry (some g) (fdalloc f (fd + 1) ofile)

abbrev pub dup_result : ℕ → Ofile → Option Ftable → Option (ℤ × (Ofile × Ftable))
dup_result fd ofile none = none
dup_result fd ofile (some fs) = some (pos fd, (ofile, fs))

-- What `sys_dup` does with what `fdalloc` gave. `none` is a panic, here and below.
abbrev pub dup_file : ℕ → Ofile → Ftable → Option (ℕ × Ofile) → Option (ℤ × (Ofile × Ftable))
dup_file f ofile fs none = some (negsuc 0, (ofile, fs))
dup_file f ofile fs (some (fd, ofile')) = dup_result fd ofile' (filedup f fs)

unfoldable pub sys_dup : ℤ → Ofile → Ftable → Option (ℤ × (Ofile × Ftable))
unfolding argfd fdalloc filedup
sys_dup arg ofile fs = elim (argfd ofile arg) [
  | none ↦ some (negsuc 0, (ofile, fs))
  | some (fd, f) ↦ dup_file f ofile fs (fdalloc f 0 ofile)
]

module _ (ops : FileOps) where
  open ops use {World}

  abbrev pub close_file : Ofile → Option (Ftable × World) → Option (ℤ × (Ofile × (Ftable × World)))
  close_file ofile none = none
  close_file ofile (some (fs, w)) = some (pos 0, (ofile, (fs, w)))

  unfoldable pub sys_close : ℤ → Ofile → Ftable → World → Option (ℤ × (Ofile × (Ftable × World)))
  unfolding argfd fileclose
  sys_close arg ofile fs w = elim (argfd ofile arg) [
    | none ↦ some (negsuc 0, (ofile, (fs, w)))
    | some (fd, f) ↦ close_file (set ofile fd none) (fileclose ops f fs w)
  ]

  -- `sys_fstat` of the file and the address.
  unfoldable pub sys_fstat : ℤ → ℕ → Ofile → Ftable → World → Option (ℤ × World)
  unfolding argfd filestat
  sys_fstat arg st ofile fs w = elim (argfd ofile arg) [
    | none ↦ some (negsuc 0, w)
    | some (fd, f) ↦ elim (get_elem? fs f) [
      | none ↦ none
      | some file ↦ some (filestat ops file st w)
    ]
  ]

  -- The file, as a read or a write leaves it.
  abbrev pub put_file : ℕ → Ftable → Option (ℤ × (File × World)) → Option (ℤ × (Ftable × World))
  put_file f fs none = none
  put_file f fs (some (r, (file, w))) = some (r, (set fs f file, w))

  -- `sys_read` and `sys_write` of the file, the address and a number that is not negative.
  unfoldable pub sys_read : ℤ → ℕ → ℕ → Ofile → Ftable → World → Option (ℤ × (Ftable × World))
  unfolding argfd fileread
  sys_read arg p n ofile fs w = elim (argfd ofile arg) [
    | none ↦ some (negsuc 0, (fs, w))
    | some (fd, f) ↦ elim (get_elem? fs f) [
      | none ↦ none
      | some file ↦ put_file f fs (fileread ops file p n w)
    ]
  ]

  unfoldable pub sys_write : ℤ → ℕ → ℕ → Ofile → Ftable → World → Option (ℤ × (Ftable × World))
  unfolding argfd filewrite
  sys_write arg p n ofile fs w = elim (argfd ofile arg) [
    | none ↦ some (negsuc 0, (fs, w))
    | some (fd, f) ↦ elim (get_elem? fs f) [
      | none ↦ none
      | some file ↦ put_file f fs (filewrite ops file p n w)
    ]
  ]

  -- The fields that `sys_open` assigns, for the inode `ip` at the address `addr`.
  abbrev pub open_fields : ℕ → ℕ → Inode → File → File
  open_fields omode addr ip f =
      let opened : File = record f {
        ip = addr;
        readable = if omode % 2 == 1 then 0 else 1;
        writable = if omode % 2 == 1 || omode / 2 % 2 == 1 then 1 else 0;
      } in
      if ip.copy.type == t_device
      then record opened { type = FileType.fd_device; major = pos ip.copy.major }
      else record opened { type = FileType.fd_inode; off = 0 }

  -- `fileclose(f)` of a new file for which no descriptor was free: the result is -1.
  abbrev pub no_descriptor :
      Ofile → Option (Ftable × World) → Option (ℤ × (Ofile × (Ftable × World)))
  no_descriptor ofile none = none
  no_descriptor ofile (some (fs, w)) = some (negsuc 0, (ofile, (fs, w)))

  abbrev pub with_descriptor :
      ℕ
      → ℕ
      → Inode
      → ℕ
      → Ofile
      → Ftable
      → World
      → Option (ℕ × Ofile)
      → Option (ℤ × (Ofile × (Ftable × World)))
  with_descriptor omode addr ip f ofile fs w none = no_descriptor ofile (fileclose ops f fs w)
  with_descriptor omode addr ip f ofile fs w (some (fd, ofile')) = elim (get_elem? fs f) [
    | none ↦ none
    | some file ↦ some (pos fd, (ofile', (set fs f (open_fields omode addr ip file), w)))
  ]

  abbrev pub with_file :
      ℕ → ℕ → Inode → Ofile → World → Option ℕ × Ftable → Option (ℤ × (Ofile × (Ftable × World)))
  with_file omode addr ip ofile w (none, fs) = some (negsuc 0, (ofile, (fs, w)))
  with_file omode addr ip ofile w (some f, fs) =
      with_descriptor omode addr ip f ofile fs w (fdalloc f 0 ofile)

  -- `sys_open` from `filealloc` on, but for the inode: where the result is -1, that is put back,
  -- and otherwise truncated if the mode says so.
  unfoldable pub open_file :
      ℕ → ℕ → Inode → Ofile → Ftable → World → Option (ℤ × (Ofile × (Ftable × World)))
  unfolding filealloc fdalloc fileclose
  open_file omode addr ip ofile fs w = with_file omode addr ip ofile w (filealloc 0 fs)
