-- ===== src/Locks.antt =====
-- kernel/spinlock.c and sleeplock.c. A CPU is a number, and `lk->cpu` is that number plus one, 0
-- for a null pointer. Where CPUs may meet, a function is cut into its steps.
pub mod Nesting
pub mod Sleep
pub mod Mutex
pub mod Tests
use my_oslab.Base.{
  ℕ, zero, suc, ◌+◌, ◌-◌, Bool, true, false, not, ◌&&◌, ◌||◌, Option, none, some, get_elem?, ltb,
  ◌==◌, if◌then◌else◌,
}
use my_oslab.Proc.{Proc, Table, of_addr, wakeup, sleep}

-- The fields of `struct cpu` that the locks use, and whether the CPU takes interrupts.
pub record Cpu : Type 0 where
  pub noff : ℕ
  pub intena : Bool
  pub intr : Bool

pub record Spinlock : Type 0 where
  pub locked : ℕ
  pub cpu : ℕ

abbrev pub initlock : Spinlock
initlock = record { locked = 0; cpu = 0 }

unfoldable pub push_off : Cpu → Cpu
push_off c = record {
  noff = c.noff + 1;
  intena = if c.noff == 0 then c.intr else c.intena;
  intr = false;
}

-- `none` is a panic, here and below.
unfoldable pub pop_off : Cpu → Option Cpu
pop_off c =
    if c.intr || ltb c.noff 1
    then none
    else some (record c {
      noff = c.noff - 1;
      intr = if c.noff - 1 == 0 && c.intena then true else c.intr;
    })

abbrev pub holding : ℕ → Spinlock → Bool
holding me lk = not (lk.locked == 0) && lk.cpu == suc me

-- `acquire` up to its loop; a turn of the loop, which says whether it was the last; and the rest.
unfoldable pub acquire_start : ℕ → Spinlock → Cpu → Option Cpu
unfolding push_off
acquire_start me lk c = if holding me lk then none else some (push_off c)

unfoldable pub test_and_set : Spinlock → Bool × Spinlock
test_and_set lk = (lk.locked == 0, record lk { locked = 1 })

unfoldable pub acquire_end : ℕ → Spinlock → Spinlock
acquire_end me lk = record lk { cpu = suc me }

-- `release` up to the store that frees the lock, and that store and the rest.
unfoldable pub release_start : ℕ → Spinlock → Option Spinlock
release_start me lk = if holding me lk then some (record lk { cpu = 0 }) else none

unfoldable pub release_end : Spinlock → Cpu → Spinlock × Option Cpu
unfolding pop_off
release_end lk c = (record lk { locked = 0 }, pop_off c)

-- The whole of each, for a CPU that finds the lock free.
unfoldable pub acquire : ℕ → Spinlock → Cpu → Option (Spinlock × Cpu)
unfolding acquire_start test_and_set acquire_end
acquire me lk c = elim (acquire_start me lk c) [
  | none ↦ none
  | some c1 ↦ some (acquire_end me (test_and_set lk).1, c1)
]

unfoldable pub release : ℕ → Spinlock → Cpu → Option (Spinlock × Cpu)
unfolding release_start release_end
release me lk c = elim (release_start me lk) [
  | none ↦ none
  | some lk1 ↦ let (lk2, r) = release_end lk1 c in elim r [ none ↦ none | some c1 ↦ some (lk2, c1) ]
]

-- `struct sleeplock`; its spinlock makes each function, up to a sleep, one step.
pub record Sleeplock : Type 0 where
  pub locked : ℕ
  pub pid : ℕ

abbrev pub initsleeplock : Sleeplock
initsleeplock = record { locked = 0; pid = 0 }

-- `myproc()->pid`
abbrev pub pid_of : ℕ → Table → ℕ
pid_of me ps = elim (get_elem? ps me) [ none ↦ 0 | some p ↦ p.pid ]

-- A turn of `acquiresleep` of the lock at address `lk`: the caller has the lock, or sleeps and
-- makes another turn when it wakes up.
unfoldable pub acquiresleep : ℕ → ℕ → Sleeplock → Table → Bool × (Sleeplock × Table)
acquiresleep lk me l ps =
    if not (l.locked == 0)
    then (false, (l, sleep (of_addr lk) me ps))
    else (true, (record { locked = 1; pid = pid_of me ps }, ps))

unfoldable pub releasesleep : ℕ → Sleeplock → Table → Sleeplock × Table
releasesleep lk l ps = (record { locked = 0; pid = 0 }, wakeup (of_addr lk) ps)

abbrev pub holdingsleep : ℕ → Sleeplock → Table → Bool
holdingsleep me l ps = not (l.locked == 0) && l.pid == pid_of me ps
