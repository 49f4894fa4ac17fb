-- ===== src/Proc/Life/Family.antt =====
-- `fork`, `exit` and `wait` of kernel/proc.c.
use my_oslab.Base.{
  ℕ, ◌+◌, Bool, true, false, not, ◌||◌, Option, none, some, List, [], ◌∷◌, get_elem?, modify, ◌==◌,
  if◌then◌else◌,
}
use my_oslab.Strings.{safestrcpy}
use my_oslab.Proc.{
  runnable, zombie, of_proc, Proc, Table, is_zombie, is_child, wakeup1, reparent, sleep,
}
use my_oslab.Proc.Life.{Services, Kernel, allocproc, freeproc}

-- What the scan of `wait` comes to: the first child that is a zombie, or whether it saw a child.
pub data Scan : Type 0 where
  exited : ℕ → Scan
  no_zombie : Bool → Scan

unfoldable pub scan_children : ℕ → Table → ℕ → Bool → Scan
scan_children me [] i havekids = no_zombie havekids
scan_children me (np ∷ ps) i havekids = elim (is_child me np) [
  | true ↦ elim (is_zombie np.state) [ true ↦ exited i | false ↦ scan_children me ps (i + 1) true ]
  | false ↦ scan_children me ps (i + 1) havekids
]

module _ (sv : Services) where
  open sv use {
    World, uvmcopy, copy_trapframe, copyout, filedup, fileclose, idup, iput, begin_op, end_op,
  }

  -- The loop of `fork` over the open files: the child's files, and the references taken.
  unfoldable pub dup_files : List ℕ → List ℕ → World → List ℕ × World
  dup_files [] gs w = (gs, w)
  dup_files (f ∷ fs) [] w = ([], w)
  dup_files (f ∷ fs) (g ∷ gs) w =
      let (hs, w') = dup_files fs gs (if f == 0 then w else filedup f w) in
      ((if f == 0 then g else f) ∷ hs, w')

  -- `fork` once the child `np` at index `i` has its copy of the memory; `p` is the parent.
  unfoldable pub fork_child : ℕ → Proc → ℕ → Proc → Kernel sv → Kernel sv
  unfolding dup_files safestrcpy
  fork_child me p i np k =
      let w1 = copy_trapframe p.trapframe np.trapframe k.world in
      let (files, w2) = dup_files p.ofile np.ofile w1 in
      let child = record np {
        sz = p.sz;
        parent = some me;
        ofile = files;
        cwd = p.cwd;
        name = safestrcpy np.name 0 p.name 0 16;
        state = runnable;
      } in
      record k { procs = modify (λ _. child) i k.procs; world = idup p.cwd w2 }

  -- `fork` from `uvmcopy` on, for the parent `p` and the child's slot `np` at index `i`.
  unfoldable pub fork_copy : ℕ → Proc → ℕ → Proc → Kernel sv → Option ℕ × Kernel sv
  unfolding fork_child freeproc
  fork_copy me p i np k =
      let (copied, w) = uvmcopy p.pagetable np.pagetable p.sz k.world in
      let k' : Kernel sv = record k { world = w } in
      if copied then (some np.pid, fork_child me p i np k') else (none, freeproc sv i k')

  unfoldable pub fork_into : ℕ → Option ℕ × Kernel sv → Option ℕ × Kernel sv
  unfolding fork_copy
  fork_into me (none, k) = (none, k)
  fork_into me (some i, k) = elim (get_elem? k.procs me) [
    | none ↦ (none, k)
    | some p ↦ elim (get_elem? k.procs i) [ none ↦ (none, k) | some np ↦ fork_copy me p i np k ]
  ]

  -- `fork()` by the process at index `me`: the child's pid, or `none` for -1.
  unfoldable pub fork : ℕ → Kernel sv → Option ℕ × Kernel sv
  unfolding allocproc fork_into
  fork me k = fork_into me (allocproc sv k)

  -- The loop of `exit` over the open files.
  unfoldable pub close_files : List ℕ → World → List ℕ × World
  close_files [] w = ([], w)
  close_files (f ∷ fs) w =
      let (gs, w') = close_files fs (if f == 0 then w else fileclose f w) in (0 ∷ gs, w')

  -- `exit` up to `p->cwd = 0`, of the process at index `me`; `none` is the panic of `init`.
  unfoldable pub exit_files : ℕ → Kernel sv → Option (Kernel sv)
  unfolding close_files
  exit_files me k = if me == k.init then none else elim (get_elem? k.procs me) [
    | none ↦ none
    | some p ↦
        let (files, w) = close_files p.ofile k.world in
        some (record k {
          procs = modify (λ (q : Proc). record q { ofile = files; cwd = 0 }) me k.procs;
          world = end_op (iput p.cwd (begin_op w));
        })
  ]

  -- `exit` from there to its call of `sched`, in one step: the source reads a parent before it
  -- locks it, and no re-parenting comes between the two here. `none` is the fault of a process with no parent.
  unfoldable pub exit_table : ℕ → ℕ → Kernel sv → Option (Kernel sv)
  unfolding wakeup1 reparent
  exit_table status me k =
      let ps1 = wakeup1 k.init k.procs in
      elim (get_elem? ps1 me) [
        | none ↦ none
        | some p ↦ elim p.parent [
          | none ↦ none
          | some up ↦
              let ps2 = wakeup1 up (reparent k.init me ps1) in
              some (record k {
                procs = modify (λ (q : Proc). record q { xstate = status; state = zombie }) me ps2;
              })
        ]
      ]

  -- One round of the loop of `wait`: it returns (`none` for -1), or sleeps and starts anew.
  pub data Waited : Type 0 where
    returned : Option ℕ → Kernel sv → Waited
    asleep : Kernel sv → Waited

  -- The branch of `wait` for a zombie at index `i`; `np` is the child.
  unfoldable pub reap : Proc → ℕ → ℕ → Proc → Kernel sv → Waited
  unfolding freeproc
  reap p addr i np k =
      let (copied, w) = copyout p.pagetable addr np.xstate k.world in
      if addr == 0
      then returned (some np.pid) (freeproc sv i k)
      else if copied
      then returned (some np.pid) (freeproc sv i (record k { world = w }))
      else returned none (record k { world = w })

  unfoldable pub wait : ℕ → ℕ → ℕ → Kernel sv → Waited
  unfolding scan_children reap sleep
  wait me addr flags k = elim (get_elem? k.procs me) [
    | none ↦ returned none k
    | some p ↦ elim (scan_children me k.procs 0 false) [
      | exited i ↦ elim (get_elem? k.procs i) [
        | none ↦ returned none k
        | some np ↦ reap p addr i np k
      ]
      | no_zombie havekids ↦
          if not havekids || not (p.killed == 0)
          then returned none k
          else if not (flags == 0)
          then returned none k
          else asleep (record k { procs = sleep (of_proc me) me k.procs })
    ]
  ]
