-- ===== src/Sysfile/Fd/Pipes.antt =====
-- `sys_pipe` of kernel/sysfile.c, for the address that was fetched. The tables of the process at
-- `table` are in the memory of the page allocator, and its pages are a memory of bytes. `none` is
-- a panic.
pub mod Ends
pub mod Undone
mod Tests
use my_oslab.Base.{
  Bool, true, false, not, ◌==◌, if◌then◌else◌, get_elem?, ℕ, zero, suc, ◌+◌, ◌/◌, ◌%◌, ◌^◌, Option,
  none, some, List, [], ◌∷◌, set, ℤ, pos, negsuc,
}
use my_oslab.Strings.{Bytes}
use my_oslab.Kalloc.{kfree}
use my_oslab.File.{File, FileOps, fileclose, fd_none, fd_pipe, fd_inode, fd_device}
use my_oslab.Pipe.{Pipe, PipeState, pipeclose}
use my_oslab.Vm.Copy.{copyout}
use my_oslab.Pipe.Alloc.{AllocState, Result, close_in, pipealloc}
use my_oslab.Sysfile.Fd.{Ofile, fdalloc}

-- The 4 bytes of an `int`.
abbrev pub int_bytes : ℕ → Bytes
int_bytes n i = n / 256 ^ i % 256

abbrev pub put_at : (ℕ → Pipe) → ℕ → Pipe → ℕ → Pipe
put_at f i v j = if j == i then v else f j

-- `end` is the first address after the kernel.
module _ (ops : FileOps) (end table fdarray : ℕ) where
  abbrev pub Called : Type 0
  Called = Option (ℤ × (Ofile × (AllocState ops × Bytes)))

  -- What `pipeclose` does to the pipe at `pi` and to its page; `ops.pipeclose` is its wakeup.
  abbrev pub page_closed : ℕ → AllocState ops → PipeState × Bool → Option (AllocState ops)
  page_closed pi s (t, false) = some (record s { pipes = put_at s.pipes pi t.pipe })
  page_closed pi s (t, true) = elim (kfree end pi s.kmem) [
    | none ↦ none
    | some k ↦ some (record s { pipes = put_at s.pipes pi t.pipe; kmem = k })
  ]

  abbrev pub pipe_closed : File → AllocState ops → Option (AllocState ops)
  pipe_closed f s =
      page_closed f.pipe s
        (pipeclose f.pipe (not (f.writable == 0)) (record { pipe = s.pipes f.pipe; procs = [] }))

  -- The last close of a file that is an end of a pipe is one of the pipe.
  abbrev pub last_closed : File → AllocState ops → Option (AllocState ops)
  last_closed f s = elim f.type [
    | fd_none ↦ some s
    | fd_pipe ↦ elim (f.ref == 1) [ true ↦ pipe_closed f s | false ↦ some s ]
    | fd_inode ↦ some s
    | fd_device ↦ some s
  ]

  abbrev pub then_last : Option File → Option (AllocState ops) → Option (AllocState ops)
  then_last none s = none
  then_last (some f) none = none
  then_last (some f) (some s) = last_closed f s

  -- `fileclose(f)`
  abbrev pub close_end : ℕ → AllocState ops → Option (AllocState ops)
  close_end i s = then_last (get_elem? s.files i) (close_in ops i s)

  -- `fileclose(rf); fileclose(wf);`
  abbrev pub close_next : ℕ → Option (AllocState ops) → Option (AllocState ops)
  close_next f none = none
  close_next f (some s) = close_end f s

  abbrev pub close_ends : ℕ → ℕ → AllocState ops → Option (AllocState ops)
  close_ends rf wf s = close_next wf (close_end rf s)

  -- `return -1;`
  abbrev pub failed : Ofile → Bytes → Option (AllocState ops) → Called
  failed ofile m none = none
  failed ofile m (some s) = some (negsuc 0, (ofile, (s, m)))

  abbrev pub clear_both : ℕ → ℕ → Ofile → Ofile
  clear_both fd0 fd1 ofile = set (set ofile fd0 none) fd1 none

  -- The two calls of `copyout`.
  abbrev pub told : ℕ → ℕ → ℕ → ℕ → Ofile → AllocState ops → ℤ × Bytes → Called
  told rf wf fd0 fd1 ofile s (pos r, m) = some (pos 0, (ofile, (s, m)))
  told rf wf fd0 fd1 ofile s (negsuc r, m) =
      failed (clear_both fd0 fd1 ofile) m (close_ends rf wf s)

  abbrev pub tell_second : ℕ → ℕ → ℕ → ℕ → Ofile → AllocState ops → ℤ × Bytes → Called
  tell_second rf wf fd0 fd1 ofile s (pos r, m) =
      told rf wf fd0 fd1 ofile s
        (copyout table s.kmem ((fdarray + 4) % 2 ^ 64) (int_bytes fd1) 0 4 m)
  tell_second rf wf fd0 fd1 ofile s (negsuc r, m) =
      failed (clear_both fd0 fd1 ofile) m (close_ends rf wf s)

  -- The descriptor of the write end, and then of the read end.
  abbrev pub second_fd : ℕ → ℕ → ℕ → Ofile → AllocState ops → Bytes → Option (ℕ × Ofile) → Called
  second_fd rf wf fd0 ofile s m none = failed (set ofile fd0 none) m (close_ends rf wf s)
  second_fd rf wf fd0 ofile s m (some (fd1, ofile')) =
      tell_second rf wf fd0 fd1 ofile' s (copyout table s.kmem fdarray (int_bytes fd0) 0 4 m)

  abbrev pub first_fd : ℕ → ℕ → Ofile → AllocState ops → Bytes → Option (ℕ × Ofile) → Called
  first_fd rf wf ofile s m none = failed ofile m (close_ends rf wf s)
  first_fd rf wf ofile s m (some (fd0, ofile')) =
      second_fd rf wf fd0 ofile' s m (fdalloc wf 0 ofile')

  abbrev pub with_pipe : Ofile → Bytes → Result ops → Called
  with_pipe ofile m none = none
  with_pipe ofile m (some (none, s)) = some (negsuc 0, (ofile, (s, m)))
  with_pipe ofile m (some (some (rf, (wf, pi)), s)) = first_fd rf wf ofile s m (fdalloc rf 0 ofile)

  unfoldable pub sys_pipe : Ofile → AllocState ops → Bytes → Called
  unfolding pipealloc fdalloc copyout fileclose pipeclose kfree
  sys_pipe ofile s m = with_pipe ofile m (pipealloc ops s)
