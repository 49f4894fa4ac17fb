-- ===== src/Pipe.antt =====
-- kernel/pipe.c. The buffer's lock makes each stretch between two sleeps one step: `pipewrite` and
-- `piperead` run until they return or fall asleep, and a sleeper starts again where it left off.
pub mod Ring
pub mod Write
pub mod Read
pub mod Fifo
pub mod Alloc
mod Tests
use my_oslab.Base.{
  ℕ, zero, suc, ◌+◌, ◌-◌, ◌%◌, ◌^◌, Bool, true, false, not, ◌&&◌, ◌||◌, Option, none, some, List,
  [], ◌∷◌, get_elem?, get_or, set, add32, ◌==◌, if◌then◌else◌,
}
use my_oslab.Proc.{Proc, Table, Chan, of_addr, wakeup, sleep}

-- PIPESIZE
abbrev pub pipe_size : ℕ
pipe_size = 512

-- `struct pipe`; `nread` and `nwrite` are `uint`s that wrap.
pub record Pipe : Type 0 where
  pub buf : List ℕ
  pub nread : ℕ
  pub nwrite : ℕ
  pub readopen : ℕ
  pub writeopen : ℕ

-- A pipe and the process table, whose sleepers it wakes.
pub record PipeState : Type 0 where
  pub pipe : Pipe
  pub procs : Table

-- The user memory of the calling process: a byte of `copyin` and of `copyout`, or their failure.
pub record UserSpace : Type 1 where
  pub Memory : Type 0
  pub load : Memory → ℕ → Option ℕ
  pub store : Memory → ℕ → ℕ → Option Memory

-- `&pi->nread` and `&pi->nwrite`, for the pipe at address `pi`.
abbrev pub nread_chan : ℕ → Chan
nread_chan pi = of_addr (pi + 536)

abbrev pub nwrite_chan : ℕ → Chan
nwrite_chan pi = of_addr (pi + 540)

-- `myproc()->killed`
abbrev pub is_killed : ℕ → Table → Bool
is_killed me ps = elim (get_elem? ps me) [ none ↦ false | some p ↦ not (p.killed == 0) ]

-- `pi->data[pi->nwrite++ % PIPESIZE] = ch`
unfoldable pub push : ℕ → Pipe → Pipe
push ch p = record p { buf = set p.buf (p.nwrite % pipe_size) ch; nwrite = add32 p.nwrite 1 }

-- `ch = pi->data[pi->nread++ % PIPESIZE]`
unfoldable pub pop : Pipe → ℕ × Pipe
pop p = (get_or p.buf (p.nread % pipe_size) 0, record p { nread = add32 p.nread 1 })

abbrev pub is_full : Pipe → Bool
is_full p = p.nwrite == add32 p.nread pipe_size

abbrev pub is_empty : Pipe → Bool
is_empty p = p.nread == p.nwrite

-- A stretch of `pipewrite`: it returns (`none` for -1), or sleeps with `i` bytes written.
pub data Wrote : Type 0 where
  returned : Option ℕ → PipeState → Wrote
  asleep : ℕ → PipeState → Wrote

-- `piperead` sleeps only before its loop.
pub data Got (M : Type 0) : Type 0 where
  returned : Option ℕ → M → PipeState → Got M
  asleep : PipeState → Got M

module _ (us : UserSpace) (pi me addr : ℕ) where
  open us use {Memory, load, store}

  abbrev pub write_done : ℕ → PipeState → Wrote
  write_done i s = Wrote.returned (some i) (record s { procs = wakeup (nread_chan pi) s.procs })

  -- The branch of a full pipe.
  unfoldable pub write_full : ℕ → PipeState → Wrote
  write_full i s =
      if s.pipe.readopen == 0 || is_killed me s.procs
      then Wrote.returned none s
      else Wrote.asleep i
          (record s { procs = sleep (nwrite_chan pi) me (wakeup (nread_chan pi) s.procs) })

  -- The loop of `pipewrite` with `rest` bytes to go from byte `i` on.
  unfoldable pub write_loop : Memory → ℕ → ℕ → PipeState → Wrote
  unfolding write_full push
  write_loop m zero i s = write_done i s
  write_loop m (suc rest) i s = elim (is_full s.pipe) [
    | true ↦ write_full i s
    | false ↦ elim (load m ((addr + i) % 2 ^ 64)) [
      | none ↦ write_done i s
      | some ch ↦ write_loop m rest (i + 1) (record s { pipe = push ch s.pipe })
    ]
  ]

  -- `pipewrite(pi, addr, n)` from byte `i` on: 0 at the call, and where it slept afterwards.
  unfoldable pub pipewrite : Memory → ℕ → ℕ → PipeState → Wrote
  unfolding write_loop
  pipewrite m n i s = write_loop m (n - i) i s

  abbrev pub read_done : ℕ → Memory → PipeState → Got Memory
  read_done i m s = Got.returned (some i) m (record s { procs = wakeup (nwrite_chan pi) s.procs })

  -- The copy loop of `piperead`. A byte whose copy fails has left the pipe.
  unfoldable pub read_loop : ℕ → ℕ → Memory → PipeState → Got Memory
  unfolding pop
  read_loop zero i m s = read_done i m s
  read_loop (suc rest) i m s = elim (is_empty s.pipe) [
    | true ↦ read_done i m s
    | false ↦
        let (ch, p) = pop s.pipe in
        elim (store m ((addr + i) % 2 ^ 64) ch) [
          | none ↦ read_done i m (record s { pipe = p })
          | some m' ↦ read_loop rest (i + 1) m' (record s { pipe = p })
        ]
  ]

  unfoldable pub piperead : ℕ → Memory → PipeState → Got Memory
  unfolding read_loop
  piperead n m s =
      let copy = read_loop n 0 m s in
      if is_empty s.pipe && not (s.pipe.writeopen == 0)
      then (if is_killed me s.procs
          then Got.returned none m s
          else Got.asleep (record s { procs = sleep (nread_chan pi) me s.procs }))
      else copy

-- `pipeclose(pi, writable)`; the flag says that the page of the pipe is freed.
unfoldable pub pipeclose : ℕ → Bool → PipeState → PipeState × Bool
pipeclose pi writable s =
    let s' : PipeState =
      if writable
      then record s {
        pipe = record (s.pipe) { writeopen = 0 };
        procs = wakeup (nread_chan pi) s.procs;
      }
      else record s {
        pipe = record (s.pipe) { readopen = 0 };
        procs = wakeup (nwrite_chan pi) s.procs;
      } in
    (s', s'.pipe.readopen == 0 && s'.pipe.writeopen == 0)
