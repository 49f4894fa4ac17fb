-- ===== src/Proc.antt =====
-- The process table of kernel/proc.c and the functions that walk it: `wakeup`, `wakeup1`, `kill`,
-- `reparent`, `sleep`, `yield`, the scheduler's choice. A pointer into `proc[]` is an index. Each
-- function is one step: the source holds the lock of a process while it reads and writes it.
pub mod Wakeup
pub mod Kill
pub mod Life
pub mod Pids
pub mod System
mod Tests
use my_oslab.Base.{
  ℕ, zero, suc, ◌+◌, Bool, true, false, ◌&&◌, Option, none, some, List, [], ◌∷◌, get_elem?, modify,
  ◌==◌, if◌then◌else◌,
}
use my_oslab.Strings.{Bytes}

-- `enum procstate`
pub data ProcState : Type 0 where
  unused sleeping runnable running zombie : ProcState

-- What a process sleeps on: `null`, a `struct proc *`, or another kernel address.
pub data Chan : Type 0 where
  null : Chan
  of_proc : ℕ → Chan
  of_addr : ℕ → Chan

-- `struct context`: the saved registers `s0` to `s11` are one list.
pub record Context : Type 0 where
  pub ra : ℕ
  pub sp : ℕ
  pub saved : List ℕ

-- `struct proc` without its lock. `trapframe`, `pagetable`, the open files and `cwd` are
-- addresses, 0 for none; `killed` and `xstate` are C's `int`s as bit patterns.
pub record Proc : Type 0 where
  pub state : ProcState
  pub parent : Option ℕ
  pub chan : Chan
  pub killed : ℕ
  pub xstate : ℕ
  pub pid : ℕ
  pub kstack : ℕ
  pub sz : ℕ
  pub pagetable : ℕ
  pub trapframe : ℕ
  pub context : Context
  pub ofile : List ℕ
  pub cwd : ℕ
  pub name : Bytes

abbrev pub Table : Type 0
Table = List Proc

abbrev pub is_unused : ProcState → Bool
is_unused unused = true
is_unused _ = false

abbrev pub is_sleeping : ProcState → Bool
is_sleeping sleeping = true
is_sleeping _ = false

abbrev pub is_runnable : ProcState → Bool
is_runnable runnable = true
is_runnable _ = false

abbrev pub is_running : ProcState → Bool
is_running running = true
is_running _ = false

abbrev pub is_zombie : ProcState → Bool
is_zombie zombie = true
is_zombie _ = false

abbrev pub chan_eq : Chan → Chan → Bool
chan_eq null null = true
chan_eq (of_proc i) (of_proc j) = i == j
chan_eq (of_addr a) (of_addr b) = a == b
chan_eq _ _ = false

-- `p->parent == q`
abbrev pub is_child : ℕ → Proc → Bool
is_child me p = elim p.parent [ none ↦ false | some q ↦ q == me ]

-- The body of the loop of `wakeup`.
abbrev pub wake : Chan → Proc → Proc
wake c p = if is_sleeping p.state && chan_eq p.chan c then record p { state = runnable } else p

unfoldable pub wakeup : Chan → Table → Table
wakeup c [] = []
wakeup c (p ∷ ps) = wake c p ∷ wakeup c ps

-- `wakeup1(p)`, where `p` is the process at index `i`.
unfoldable pub wakeup1 : ℕ → Table → Table
wakeup1 i = modify (wake (of_proc i)) i

abbrev pub kill_one : Proc → Proc
kill_one p =
    if is_sleeping p.state
    then record p { killed = 1; state = runnable }
    else record p { killed = 1 }

-- `kill(pid)`; the flag is `true` for the return value 0 and `false` for -1.
unfoldable pub kill : ℕ → Table → Bool × Table
kill pid [] = (false, [])
kill pid (p ∷ ps) =
    let (found, ps') = kill pid ps in
    if p.pid == pid then (true, kill_one p ∷ ps) else (found, p ∷ ps')

-- `reparent(p)`: `me` is the index of `p`, `init` that of `initproc`.
unfoldable pub reparent : ℕ → ℕ → Table → Table
reparent init me [] = []
reparent init me (p ∷ ps) =
    (if is_child me p then record p { parent = some init } else p) ∷ reparent init me ps

-- `sleep(chan, lk)` up to its call of `sched`, and from the return of `sched` on. With the
-- process's lock held from before `lk` is released, no step comes between.
unfoldable pub sleep : Chan → ℕ → Table → Table
sleep c = modify (λ p. record p { chan = c; state = sleeping })

unfoldable pub sleep_return : ℕ → Table → Table
sleep_return = modify (λ p. record p { chan = null })

-- `yield()` up to its call of `sched`.
unfoldable pub yield : ℕ → Table → Table
yield = modify (λ p. record p { state = runnable })

-- One pass of the scheduler's loop at the process that its pointer has reached: whether it
-- switches to the process, which `swtch` then runs.
unfoldable pub schedule : ℕ → Table → Bool × Table
schedule i ps = elim (get_elem? ps i) [
  | none ↦ (false, ps)
  | some p ↦
      if is_runnable p.state
      then (true, modify (λ q. record q { state = running }) i ps)
      else (false, ps)
]
