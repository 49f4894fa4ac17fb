-- ===== src/Proc/Life.antt =====
-- The life of a process in kernel/proc.c: the kernel's state, `allocproc` and `freeproc`.
-- `fork`, `exit` and `wait` are in `Family`.
-- Memory, files and the log are other components: `Services` is what these functions call of them.
pub mod Family
pub mod Alloc
pub mod Wait
pub mod Pids
use my_oslab.Base.{
  ℕ, zero, suc, ◌+◌, Bool, true, false, not, ◌&&◌, ◌||◌, Option, none, some, List, [], ◌∷◌,
  replicate, get_elem?, modify, add32, ◌==◌, if◌then◌else◌,
}
use my_oslab.Strings.{Bytes, put, safestrcpy}
use my_oslab.Proc.{
  ProcState, unused, sleeping, runnable, running, zombie, Chan, null, of_proc, of_addr, Context,
  Proc, Table, is_unused, is_zombie, is_child, wakeup1, reparent, sleep,
}

-- The calls into kernel/kalloc.c, vm.c, file.c, fs.c and log.c, over their state. An allocation
-- returns 0 when it fails, `uvmcopy` and `copyout` return false.
pub record Services : Type 1 where
  pub World : Type 0
  pub kalloc : World → ℕ × World
  pub kfree : ℕ → World → World
  pub proc_pagetable : ℕ → World → ℕ × World
  pub proc_freepagetable : ℕ → ℕ → World → World
  pub uvmcopy : ℕ → ℕ → ℕ → World → Bool × World
  -- `*(np->trapframe) = *(p->trapframe); np->trapframe->a0 = 0;`
  pub copy_trapframe : ℕ → ℕ → World → World
  -- The bytes of an `int` to a user address.
  pub copyout : ℕ → ℕ → ℕ → World → Bool × World
  pub filedup : ℕ → World → World
  pub fileclose : ℕ → World → World
  pub idup : ℕ → World → World
  pub iput : ℕ → World → World
  pub begin_op : World → World
  pub end_op : World → World
  -- The address of `forkret`.
  pub forkret : ℕ

-- The fields that `freeproc` resets.
abbrev pub cleared : Proc → Proc
cleared p = record p {
  trapframe = 0;
  pagetable = 0;
  sz = 0;
  pid = 0;
  parent = none;
  name = put p.name 0 0;
  chan = null;
  killed = 0;
  xstate = 0;
  state = unused;
}

-- The search of `allocproc` for an UNUSED slot.
unfoldable pub find_unused : Table → Option ℕ
find_unused [] = none
find_unused (p ∷ ps) =
    if is_unused p.state
    then some 0
    else elim (find_unused ps) [ none ↦ none | some i ↦ some (suc i) ]

module _ (sv : Services) where
  open sv use {
    World, kalloc, kfree, proc_pagetable, proc_freepagetable, uvmcopy, copy_trapframe, copyout,
    filedup, fileclose, idup, iput, begin_op, end_op, forkret,
  }

  -- The globals of proc.c, and the state of the services.
  pub record Kernel : Type 0 where
    pub procs : Table
    pub nextpid : ℕ
    pub init : ℕ
    pub world : World

  -- `nextpid` is an `int`, here as its 32 bits: behind 2 ^ 31 - 1 it is negative.
  unfoldable pub allocpid : Kernel → ℕ × Kernel
  allocpid k = (k.nextpid, record k { nextpid = add32 k.nextpid 1 })

  -- The pages that `freeproc` gives back.
  abbrev pub free_pages : Proc → World → World
  free_pages p w =
      let w' = if p.trapframe == 0 then w else kfree p.trapframe w in
      if p.pagetable == 0 then w' else proc_freepagetable p.pagetable p.sz w'

  unfoldable pub freeproc : ℕ → Kernel → Kernel
  freeproc i k = elim (get_elem? k.procs i) [
    | none ↦ k
    | some p ↦ record k { procs = modify cleared i k.procs; world = free_pages p k.world }
  ]

  abbrev pub fresh_context : ℕ → Context
  fresh_context kstack = record { ra = forkret; sp = kstack + 4096; saved = replicate 12 0 }

  -- `allocproc` from the label `found` on, for the slot at index `i`.
  unfoldable pub setup_proc : ℕ → Kernel → Option ℕ × Kernel
  unfolding allocpid freeproc
  setup_proc i k =
      let (new, k1) = allocpid k in
      let (tf, w1) = kalloc k1.world in
      let ps1 = modify (λ (p : Proc). record p { pid = new; trapframe = tf }) i k1.procs in
      if tf == 0
      then (none, record k1 { procs = ps1; world = w1 })
      else (let (pt, w2) = proc_pagetable tf w1 in
          let ps2 = modify (λ (p : Proc). record p { pagetable = pt }) i ps1 in
          if pt == 0 then (none, freeproc i (record k1 { procs = ps2; world = w2 })) else (
            some i,
            record k1 {
              procs = modify (λ (p : Proc). record p { context = fresh_context p.kstack }) i ps2;
              world = w2;
            },
          ))

  unfoldable pub allocproc : Kernel → Option ℕ × Kernel
  unfolding find_unused setup_proc
  allocproc k = elim (find_unused k.procs) [ none ↦ (none, k) | some i ↦ setup_proc i k ]
