-- ===== src/Proc/System.antt =====
-- The processes of the machine as a whole: any running process may make any of the calls, any CPU
-- may schedule, and any code may wake a channel, in any order.
use my_oslab.Base.{ℕ, ◌+◌, ◌^◌, ◌<◌, subst, ◌≡◌, true, some, get_elem?, arith}
use my_oslab.Proc.{
  Chan, Proc, Table, is_running, wakeup, kill, sleep, sleep_return, yield, schedule,
}
use my_oslab.Proc.Pids.{
  IsUsedAt, Keeps, wakeup-Keeps, kill-Keeps, sleep-Keeps, sleep_return-Keeps, yield-Keeps,
  schedule-Keeps,
}
use my_oslab.Proc.Life.{Services, Kernel}
use my_oslab.Proc.Life.Family.{fork, exit_files, exit_table, wait}
use my_oslab.Proc.Life.Pids.{
  KernelOk, KernelOk-Keeps, fork-KernelOk, exit_files-KernelOk, exit_table-KernelOk, after_wait,
  wait-KernelOk,
}

-- Every process at the index is RUNNING: it can make a call.
abbrev pub IsRunningAt : ℕ → Table → Type 0
IsRunningAt i ps = (p : Proc) → get_elem? ps i ≡ some p → is_running p.state ≡ true

pub IsRunningAt-used : (i : ℕ) (ps : Table) → IsRunningAt i ps → IsUsedAt i ps
IsRunningAt-used i ps r p at = ground (arith, r p at)

module _ (sv : Services) where
  -- One step of one process or one CPU. `sleep` is a step of its own, so that a call that waits
  -- (in `wait`, in the pipes, in the log) goes on in a later step.
  pub data Step (k : Kernel sv) : Kernel sv → Type 0 where
    forks : (me : ℕ) → IsRunningAt me k.procs → Step k (fork sv me k).1
    closes :
        (me : ℕ) {k' : Kernel sv}
        → IsRunningAt me k.procs
        → exit_files sv me k ≡ some k'
        → Step k k'
    exits :
        (status me : ℕ) {k' : Kernel sv}
        → IsRunningAt me k.procs
        → exit_table sv status me k ≡ some k'
        → Step k k'
    waits :
        (me addr flags : ℕ)
        → IsRunningAt me k.procs
        → Step k (after_wait sv (wait sv me addr flags k))
    kills : (pid : ℕ) → Step k (record k { procs = (kill pid k.procs).1 })
    sleeps :
        (c : Chan) (me : ℕ)
        → IsRunningAt me k.procs
        → Step k (record k { procs = sleep c me k.procs })
    returns :
        (me : ℕ) → IsRunningAt me k.procs → Step k (record k { procs = sleep_return me k.procs })
    yields : (me : ℕ) → IsRunningAt me k.procs → Step k (record k { procs = yield me k.procs })
    schedules : (i : ℕ) → Step k (record k { procs = (schedule i k.procs).1 })
    wakes : (c : Chan) → Step k (record k { procs = wakeup c k.procs })
    -- Memory and files change under the processes.
    works : (w : sv.World) → Step k (record k { world = w })

  pub data Reach (k : Kernel sv) : Kernel sv → Type 0 where
    here : Reach k k
    next : {k1 k2 : Kernel sv} → Reach k k1 → Step k1 k2 → Reach k k2

  -- How many pids a step may take.
  abbrev pub pids_taken : {k k' : Kernel sv} → Step k k' → ℕ
  pids_taken (forks me r) = 1
  pids_taken (closes me r e) = 0
  pids_taken (exits status me r e) = 0
  pids_taken (waits me addr flags r) = 0
  pids_taken (kills pid) = 0
  pids_taken (sleeps c me r) = 0
  pids_taken (returns me r) = 0
  pids_taken (yields me r) = 0
  pids_taken (schedules i) = 0
  pids_taken (wakes c) = 0
  pids_taken (works w) = 0

  -- The forks of a run.
  abbrev pub fork_count : {k k' : Kernel sv} → Reach k k' → ℕ
  fork_count here = 0
  fork_count (next r s) = fork_count r + pids_taken s

  procs-KernelOk :
      (n : ℕ) (k : Kernel sv) (ps : Table)
      → Keeps k.procs ps
      → KernelOk sv n k
      → KernelOk sv (n + 0) (record k { procs = ps })
  procs-KernelOk n k ps keep ok =
      KernelOk-Keeps sv n (n + 0) k (record k { procs = ps }) keep (omega arith) (omega arith) ok

  same-KernelOk : (n : ℕ) (k : Kernel sv) → KernelOk sv n k → KernelOk sv (n + 0) k
  same-KernelOk n k ((pos, le), ok) = ((pos, omega arith), ok)

  Step-KernelOk :
      (n : ℕ) {k k' : Kernel sv} (s : Step k k')
      → n + pids_taken s < 2 ^ 31
      → KernelOk sv n k
      → KernelOk sv (n + pids_taken s) k'
  Step-KernelOk n {k} (forks me r) lt ok = fork-KernelOk sv n me k lt ok
  Step-KernelOk n {k} (closes me {k'} r e) lt ok =
      same-KernelOk n k' (exit_files-KernelOk sv n me k k' e ok)
  Step-KernelOk n {k} (exits status me {k'} r e) lt ok =
      same-KernelOk n k'
        (exit_table-KernelOk sv n status me k k' (IsRunningAt-used me k.procs r) e ok)
  Step-KernelOk n {k} (waits me addr flags r) lt ok =
      same-KernelOk n (after_wait sv (wait sv me addr flags k))
        (wait-KernelOk sv n me addr flags k (IsRunningAt-used me k.procs r) ok)
  Step-KernelOk n {k} (kills pid) lt ok = procs-KernelOk n k _ (kill-Keeps pid k.procs) ok
  Step-KernelOk n {k} (sleeps c me r) lt ok =
      procs-KernelOk n k _ (sleep-Keeps c me k.procs (IsRunningAt-used me k.procs r)) ok
  Step-KernelOk n {k} (returns me r) lt ok = procs-KernelOk n k _ (sleep_return-Keeps me k.procs) ok
  Step-KernelOk n {k} (yields me r) lt ok =
      procs-KernelOk n k _ (yield-Keeps me k.procs (IsRunningAt-used me k.procs r)) ok
  Step-KernelOk n {k} (schedules i) lt ok = procs-KernelOk n k _ (schedule-Keeps i k.procs) ok
  Step-KernelOk n {k} (wakes c) lt ok = procs-KernelOk n k _ (wakeup-Keeps c k.procs) ok
  Step-KernelOk n {k} (works w) lt ok = same-KernelOk n (record k { world = w }) ok

  -- From a state with positive pids below `nextpid`, all different, and `nextpid` at most `n`, any
  -- sequence of steps with so few forks that `n` and their number are below 2 ^ 31 leads to a state
  -- in which the processes in use have positive pids below `nextpid`, no two of them share one, and
  -- `nextpid` is at most `n` and that number, so that it has not become negative.
  pub Reach-KernelOk :
      (n : ℕ) {k k' : Kernel sv} (r : Reach k k')
      → n + fork_count r < 2 ^ 31
      → KernelOk sv n k
      → KernelOk sv (n + fork_count r) k'
  Reach-KernelOk n {k} here lt ok = same-KernelOk n k ok
  Reach-KernelOk n {k} {k'} (next r s) lt ok =
      let before = Reach-KernelOk n r (omega arith) ok in
      let same : n + fork_count r + pids_taken s ≡ n + (fork_count r + pids_taken s) =
        omega arith in
      subst (λ (m : ℕ). KernelOk sv m k') same
        (Step-KernelOk (n + fork_count r) s (omega arith) before)
