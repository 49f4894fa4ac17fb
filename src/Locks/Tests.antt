-- ===== src/Locks/Tests.antt =====
-- A CPU that takes interrupts, and two processes at a sleep lock.
use my_oslab.Base.{ℕ, ◌≡◌, refl, true, false, none, some, [], ◌∷◌, Option, List, arith}
use my_oslab.Proc.{Proc, Table, running, null}
use my_oslab.Locks.{Cpu, Spinlock, initlock, acquire, release}
use my_oslab.Locks.Mutex.{Phase, System, outside, inside, run, IsExclusive, Goes}
use my_oslab.Locks.Mutex.Turns.{run-Goes}

abbrev cpu : Cpu
cpu = record { noff = 0; intena = false; intr = true }

abbrev pub process : ℕ → Proc
process n = record {
  state = running;
  parent = none;
  chan = null;
  killed = 0;
  xstate = 0;
  pid = n;
  kstack = 0;
  sz = 4096;
  pagetable = 0;
  trapframe = 0;
  context = record { ra = 0; sp = 0; saved = [] };
  ofile = [];
  cwd = 0;
  name = λ a. 0;
}

abbrev pub table : Table
table = process 1 ∷ process 2 ∷ []

-- A lock acquired and released leaves the lock free and the interrupts on.
abbrev both : Option (Spinlock × Cpu)
both = elim (acquire 3 initlock cpu) [ none ↦ none | some (lk, c) ↦ release 3 lk c ]

released : both ≡ some (initlock, record cpu { intena = true })
unfolding acquire release
released = refl

-- Every CPU is outside of a free lock.
abbrev at_rest : System
at_rest = record { lock = initlock; phase = λ j. outside; cpus = λ j. cpu }

at_rest-IsExclusive : IsExclusive at_rest
at_rest-IsExclusive = record {
  one = λ i j h h'. absurd (ground (arith, h));
  taken = λ i h z. ground (arith, h);
  owner = λ i h. absurd (omega arith);
  mine = λ i h. absurd (ground (arith, h));
  armed = λ i h. absurd (ground (arith, h));
}

-- CPU 1 spins while CPU 0 is inside, and gets the lock after it.
run-Goes_example : Goes (run (0 ∷ 1 ∷ 0 ∷ 0 ∷ 1 ∷ 0 ∷ 0 ∷ 1 ∷ 1 ∷ []) at_rest)
run-Goes_example = run-Goes (0 ∷ 1 ∷ 0 ∷ 0 ∷ 1 ∷ 0 ∷ 0 ∷ 1 ∷ 1 ∷ []) at_rest at_rest-IsExclusive

abbrev phase_after : List ℕ → ℕ → Option Phase
phase_after is i = elim (run is at_rest) [ none ↦ none | some s ↦ some (s.phase i) ]

second_inside : phase_after (0 ∷ 1 ∷ 0 ∷ 0 ∷ 1 ∷ 0 ∷ 0 ∷ 1 ∷ 1 ∷ []) 1 ≡ some inside
unfolding acquire release
second_inside = refl
