-- ===== src/Pipe/Alloc.antt =====
-- `pipealloc` of kernel/pipe.c, with the file table and the page allocator. Of a page that is a
-- pipe, `pipes` has what it holds at its address.
pub mod Made
pub mod Tests
use my_oslab.Base.{
  ℕ, zero, suc, ◌+◌, ◌≡◌, ◌≢◌, refl, sym, ap, ap₂, subst, ◌∙◌, Bool, true, false, Option, none,
  some, List, [], ◌∷◌, get_elem?, get_elem?-set_self, get_elem?-set_ne, set, set-set, set_same,
  lt-of_get_elem?, modify, ◌==◌, if◌then◌else◌, inl, inr, Bool-cases, arith,
}
use my_oslab.Kalloc.{Kmem, kalloc}
use my_oslab.File.{File, FileType, Ftable, FileOps, filealloc, fileclose, close_last}
use my_oslab.File.Refs.{Allocated, filealloc-Allocated, fileclose_last}
use my_oslab.Pipe.{Pipe}

-- What is assigned to the pipe and to its two files.
abbrev pub opened : Pipe → Pipe
opened p = record p { readopen = 1; writeopen = 1; nwrite = 0; nread = 0 }

abbrev pub read_end : ℕ → File → File
read_end pi f = record f { type = FileType.fd_pipe; readable = 1; writable = 0; pipe = pi }

abbrev pub write_end : ℕ → File → File
write_end pi f = record f { type = FileType.fd_pipe; readable = 0; writable = 1; pipe = pi }

abbrev pub put_pipe : (ℕ → Pipe) → ℕ → ℕ → Pipe
put_pipe pipes pi a = if a == pi then opened (pipes pi) else pipes a

module _ (ops : FileOps) where
  pub record AllocState : Type 0 where
    pub files : Ftable
    pub kmem : Kmem
    pub pipes : ℕ → Pipe
    pub world : ops.World

  -- The numbers of the two files and the address of the pipe, or `none` for -1; and the state. A
  -- panic is `none`.
  abbrev pub Result : Type 0
  Result = Option (Option (ℕ × (ℕ × ℕ)) × AllocState)

  -- `fileclose(*f)`
  abbrev pub closed : AllocState → Option (Ftable × ops.World) → Option AllocState
  closed s none = none
  closed s (some (fs, w)) = some (record s { files = fs; world = w })

  abbrev pub close_in : ℕ → AllocState → Option AllocState
  close_in f s = closed s (fileclose ops f s.files s.world)

  abbrev pub then_bad : (AllocState → Result) → Option AllocState → Result
  then_bad go none = none
  then_bad go (some s) = go s

  -- Behind `bad`, for the files that are not null. The pipe is null at each `goto`.
  abbrev pub bad : List ℕ → AllocState → Result
  bad [] s = some (none, s)
  bad (f ∷ fs) s = then_bad (bad fs) (close_in f s)

  -- The pipe and the files, for the page that `kalloc` gave.
  abbrev pub connect : ℕ → ℕ → ℕ × Kmem → AllocState → Result
  connect f0 f1 (pi, k) s =
      if pi == 0
      then bad (f0 ∷ (f1 ∷ [])) (record s { kmem = k })
      else some (
        some (f0, (f1, pi)),
        record s {
          files = modify (write_end pi) f1 (modify (read_end pi) f0 s.files);
          kmem = k;
          pipes = put_pipe s.pipes pi;
        },
      )

  abbrev pub second_file : ℕ → Option ℕ × Ftable → AllocState → Result
  second_file f0 (none, fs) s = bad (f0 ∷ []) (record s { files = fs })
  second_file f0 (some f1, fs) s = connect f0 f1 (kalloc s.kmem) (record s { files = fs })

  abbrev pub first_file : Option ℕ × Ftable → AllocState → Result
  first_file (none, fs) s = bad [] (record s { files = fs })
  first_file (some f0, fs) s = second_file f0 (filealloc 0 fs) (record s { files = fs })

  unfoldable pub pipealloc : AllocState → Result
  unfolding filealloc fileclose kalloc
  pipealloc s = first_file (filealloc 0 s.files) s
