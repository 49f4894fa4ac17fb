-- ===== src/Proc/Tests.antt =====
-- A table of init, a shell and a child, and the theorems at it.
use my_oslab.Base.{ℕ, ◌≡◌, refl, true, Option, none, some, [], ◌∷◌, replicate, arith}
use my_oslab.Proc.{ProcState, unused, sleeping, running, zombie, null, Context, Proc, Table}
use my_oslab.Proc.Life.{Services, Kernel, freeproc}
use my_oslab.Proc.Life.Family.{fork, returned, wait}
use my_oslab.Proc.Life.Wait.{wait_zombie}
use my_oslab.Proc.Life.Pids.{KernelOk}
use my_oslab.Proc.System.{forks, here, next, Reach-KernelOk}

abbrev context : Context
context = record { ra = 0; sp = 0; saved = replicate 12 0 }

abbrev process : ProcState → Option ℕ → ℕ → Proc
process s p n = record {
  state = s;
  parent = p;
  chan = null;
  killed = 0;
  xstate = 0;
  pid = n;
  kstack = 0;
  sz = 4096;
  pagetable = 0;
  trapframe = 0;
  context = context;
  ofile = replicate 16 0;
  cwd = 0;
  name = λ a. 0;
}

abbrev table : Table
table =
    process sleeping none 1
    ∷ process running (some 0) 2
    ∷ process zombie (some 1) 3
    ∷ process unused none 0
    ∷ []

abbrev drop_first : Table
drop_first = process running (some 0) 2 ∷ process zombie (some 1) 3 ∷ process unused none 0 ∷ []

abbrev no_children : Table
no_children = process sleeping none 1 ∷ process running (some 0) 2 ∷ []

-- Services over no state: memory is always there.
abbrev services : Services
services = record {
  World = Unit {0};
  kalloc = λ w. (4096, w);
  kfree = λ p w. w;
  proc_pagetable = λ t w. (8192, w);
  proc_freepagetable = λ p s w. w;
  uvmcopy = λ p q s w. (true, w);
  copy_trapframe = λ p q w. w;
  copyout = λ p a v w. (true, w);
  filedup = λ f w. w;
  fileclose = λ f w. w;
  idup = λ i w. w;
  iput = λ i w. w;
  begin_op = λ w. w;
  end_op = λ w. w;
  forkret = 0;
}

abbrev kernel : Table → Kernel services
kernel ps = record { procs = ps; nextpid = 4; init = 0; world = tt }

wait_zombie_example :
    wait services 1 0 0 (kernel table) ≡ returned (some 3) (freeproc services 2 (kernel table))
wait_zombie_example =
    wait_zombie services 1 0 0 (kernel table) (process running (some 0) 2)
      (process sleeping none 1 ∷ process running (some 0) 2 ∷ []) (process zombie (some 1) 3)
      (process unused none 0 ∷ []) refl refl (ground arith) refl refl

kernel-KernelOk : KernelOk services 4 (kernel table)
kernel-KernelOk = ground arith

Reach-KernelOk_example : KernelOk services 5 (fork services 1 (kernel table)).1
Reach-KernelOk_example =
    Reach-KernelOk services 4 {k = kernel table} (next here (forks 1 (ground arith))) (omega arith)
      kernel-KernelOk
