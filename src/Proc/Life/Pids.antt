-- ===== src/Proc/Life/Pids.antt =====
-- `fork`, `exit` and `wait` keep the pids in use apart.
use my_oslab.Base.{
  ℕ, ◌+◌, ◌^◌, ◌≤◌, ◌<◌, ◌≡◌, refl, subst, false, not, ◌||◌, Option, none, some, get_elem?, ◌==◌,
  Bool-cases, inl, inr, arith,
}
use my_oslab.Proc.{Proc, Table, of_proc, wakeup1, reparent}
use my_oslab.Proc.Pids.{
  PidsOk, Keeps, Keeps-trans, Keeps-modify, PidsOk-Keeps, PidsOk-modify, Keeps-modify_used,
  IsUsedAt, wakeup1-IsUsedAt, sleep-Keeps, reparent-IsUsedAt, wakeup1-Keeps, reparent-Keeps,
}
use my_oslab.Proc.Life.{Services, Kernel, freeproc, allocproc, find_unused}
use my_oslab.Proc.Life.Alloc.{
  SetUp, failed, ready, setup_proc-SetUp, find_unused-IsIdle, freeproc-Keeps, nextpid-freeproc,
}
use my_oslab.Proc.Life.Family.{
  fork_child, fork_copy, fork_into, fork, exit_files, exit_table, Waited, returned, asleep, reap,
  wait, scan_children, exited, no_zombie, Scan,
}

module _ (sv : Services) where
  -- The pids in use are positive, below `nextpid` and all different, and that is `n` at most.
  abbrev pub KernelOk : ℕ → Kernel sv → Type 0
  KernelOk n k = ((0 < k.nextpid) × (k.nextpid ≤ n)) × PidsOk k.nextpid k.procs

  pub KernelOk-Keeps :
      (n m : ℕ) (k k' : Kernel sv)
      → Keeps k.procs k'.procs
      → k.nextpid ≤ k'.nextpid
      → k'.nextpid ≤ m
      → KernelOk n k
      → KernelOk m k'
  KernelOk-Keeps n m k k' keep le small (pos, ok) =
      ((omega arith, small), PidsOk-Keeps k.nextpid k'.nextpid k.procs k'.procs le keep ok)

  fork_copy-KernelOk :
      (n me : ℕ) (p : Proc) (i : ℕ) (np : Proc) (k : Kernel sv)
      → 0 < n
      → PidsOk n k.procs
      → k.nextpid ≡ n + 1
      → np.pid ≡ n
      → KernelOk (n + 1) (fork_copy sv me p i np k).1
  unfolding fork_copy fork_child
  fork_copy-KernelOk n me p i np k pos ok next e =
      let (copied, w) = sv.uvmcopy p.pagetable np.pagetable p.sz k.world in
      let k' : Kernel sv = record k { world = w } in
      elim (Bool-cases copied) [
        | inl c ↦
            rw c
              ((omega arith, omega arith), rw next (PidsOk-modify _ n i k.procs (λ q at. e) pos ok))
        | inr c ↦ rw c (
          rw nextpid-freeproc (omega arith, omega arith),
          rw nextpid-freeproc (
              PidsOk-Keeps n k.nextpid k.procs (freeproc sv i k').procs (omega arith)
                (freeproc-Keeps sv i k') ok),
        )
      ]

  fork_into-KernelOk :
      (n me i : ℕ) (k : Kernel sv) (r : Option ℕ × Kernel sv)
      → n + 1 < 2 ^ 31
      → KernelOk n k
      → SetUp sv k i r
      → KernelOk (n + 1) (fork_into sv me r).1
  unfolding fork_into
  fork_into-KernelOk n me i k r small ok (failed {k'} keep next) =
      KernelOk-Keeps n (n + 1) k k' keep (omega arith) (omega arith) ok
  fork_into-KernelOk n me i k r small ok (ready {k'} keep next idle pid) =
      copy (get_elem? k'.procs me) refl (get_elem? k'.procs i) refl
    where
      later : k'.nextpid ≡ k.nextpid + 1
      later = omega (arith, next)

      kept : KernelOk (n + 1) k'
      kept = KernelOk-Keeps n (n + 1) k k' keep (omega arith) (omega arith) ok

      raise : (k2 : Kernel sv) → KernelOk (k.nextpid + 1) k2 → KernelOk (n + 1) k2
      raise k2 ((pos, le), oks) = ((pos, omega arith), oks)

      copy :
          (o : Option Proc)
          → get_elem? k'.procs me ≡ o
          → (o' : Option Proc) → get_elem? k'.procs i ≡ o'
          → KernelOk (n + 1) (fork_into sv me (some i, k')).1
      copy none e o' e' = rw (e, fork_into) kept
      copy (some p) e none e' = rw (e, e', fork_into) kept
      copy (some p) e (some np) e' =
          rw (e, e', fork_into)
            (raise (fork_copy sv me p i np k').1 (
              fork_copy-KernelOk k.nextpid me p i np k' ok.0.0
                (PidsOk-Keeps k.nextpid k.nextpid k.procs k'.procs (omega arith) keep ok.1) later
                (pid np e')))

  pub fork-KernelOk :
      (n me : ℕ) (k : Kernel sv) → n + 1 < 2 ^ 31 → KernelOk n k → KernelOk (n + 1) (fork sv me k).1
  unfolding fork allocproc
  fork-KernelOk n me k small ok = found (find_unused k.procs) refl
    where
      found : (o : Option ℕ) → find_unused k.procs ≡ o → KernelOk (n + 1) (fork sv me k).1
      found none e = rw (e, fork, allocproc) ((ok.0.0, omega arith), ok.1)
      found (some i) e =
          rw (e, fork, allocproc)
            (fork_into-KernelOk n me i k _ small ok
              (setup_proc-SetUp sv i k (find_unused-IsIdle k.procs i e)))

  abbrev AllOk : ℕ → Option (Kernel sv) → Type 0
  AllOk n none = Unit
  AllOk n (some k) = KernelOk n k

  KernelOk-of_AllOk :
      (n : ℕ) (o : Option (Kernel sv)) (k' : Kernel sv) → AllOk n o → o ≡ some k' → KernelOk n k'
  KernelOk-of_AllOk n none k' h e = cc
  KernelOk-of_AllOk n (some k) k' h e = subst (AllOk n) e h

  pub exit_files-KernelOk :
      (n me : ℕ) (k k' : Kernel sv) → exit_files sv me k ≡ some k' → KernelOk n k → KernelOk n k'
  unfolding exit_files
  exit_files-KernelOk n me k k' e (pos, ok) =
      KernelOk-of_AllOk n (exit_files sv me k) k' (at (get_elem? k.procs me) refl) e
    where
      at : (o : Option Proc) → get_elem? k.procs me ≡ o → AllOk n (exit_files sv me k)
      at none e = elim (Bool-cases (me == k.init)) [
        | inl c ↦ rw (c, exit_files) tt
        | inr c ↦ rw (c, e, exit_files) tt
      ]
      at (some p) e = elim (Bool-cases (me == k.init)) [
        | inl c ↦ rw (c, exit_files) tt
        | inr c ↦
            rw (c, e, exit_files)
              (
                pos,
                PidsOk-Keeps k.nextpid k.nextpid k.procs _ (omega arith)
                    (Keeps-modify _ me k.procs (λ q at u. (u, refl))) ok,
              )
      ]

  pub exit_table-KernelOk :
      (n status me : ℕ) (k k' : Kernel sv)
      → IsUsedAt me k.procs
      → exit_table sv status me k ≡ some k'
      → KernelOk n k
      → KernelOk n k'
  unfolding exit_table
  exit_table-KernelOk n status me k k' used e (pos, ok) =
      KernelOk-of_AllOk n (exit_table sv status me k) k' (at (get_elem? ps1 me) refl) e
    where
      ps1 : Table
      ps1 = wakeup1 k.init k.procs

      parent :
          (p : Proc) (o : Option ℕ)
          → get_elem? ps1 me ≡ some p
          → p.parent ≡ o
          → AllOk n (exit_table sv status me k)
      parent p none e e' = rw (e, e', exit_table) tt
      parent p (some up) e e' =
          rw (e, e', exit_table)
            (
              pos,
              PidsOk-Keeps k.nextpid k.nextpid k.procs _ (omega arith)
                  (Keeps-trans k.procs ps1 _ (wakeup1-Keeps k.init k.procs) (
                    Keeps-trans ps1 ps2 _ (reparent-Keeps k.init me ps1) (
                      Keeps-trans ps2 ps3 _ (wakeup1-Keeps up ps2) (
                        Keeps-modify_used _ me ps3 (λ q. refl)
                          (wakeup1-IsUsedAt up me ps2 (
                            reparent-IsUsedAt k.init me me ps1
                              (wakeup1-IsUsedAt k.init me k.procs used)))))))
                  ok,
            )
        where
          ps2 : Table
          ps2 = reparent k.init me ps1

          ps3 : Table
          ps3 = wakeup1 up ps2

      at : (o : Option Proc) → get_elem? ps1 me ≡ o → AllOk n (exit_table sv status me k)
      at none e = rw (e, exit_table) tt
      at (some p) e = parent p p.parent e refl

  -- The kernel that a round of `wait` ends with.
  abbrev pub after_wait : Waited sv → Kernel sv
  after_wait (returned r k) = k
  after_wait (asleep k) = k

  reap-KernelOk :
      (n : ℕ) (p : Proc) (addr i : ℕ) (np : Proc) (k : Kernel sv)
      → KernelOk n k
      → KernelOk n (after_wait (reap sv p addr i np k))
  unfolding reap
  reap-KernelOk n p addr i np k ok =
      let (copied, w) = sv.copyout p.pagetable addr np.xstate k.world in
      let k' : Kernel sv = record k { world = w } in
      elim (Bool-cases (addr == 0)) [
        | inl a ↦ rw a (
            KernelOk-Keeps n n k (freeproc sv i k) (freeproc-Keeps sv i k)
              (omega (arith, nextpid-freeproc sv i k)) (omega (arith, nextpid-freeproc sv i k)) ok)
        | inr a ↦ elim (Bool-cases copied) [
          | inl c ↦
              rw (a, c)
                (KernelOk-Keeps n n k' (freeproc sv i k') (freeproc-Keeps sv i k')
                  (omega (arith, nextpid-freeproc sv i k'))
                  (omega (arith, nextpid-freeproc sv i k')) ok)
          | inr c ↦ rw (a, c) ok
        ]
      ]

  pub wait-KernelOk :
      (n me addr flags : ℕ) (k : Kernel sv)
      → IsUsedAt me k.procs
      → KernelOk n k
      → KernelOk n (after_wait (wait sv me addr flags k))
  unfolding wait
  wait-KernelOk n me addr flags k used ok = at (get_elem? k.procs me) refl
    where
      child :
          (p : Proc) (i : ℕ) (o : Option Proc)
          → get_elem? k.procs me ≡ some p
          → scan_children me k.procs 0 false ≡ exited i
          → get_elem? k.procs i ≡ o
          → KernelOk n (after_wait (wait sv me addr flags k))
      child p i none e s e' = rw (e, s, e', wait) ok
      child p i (some np) e s e' = rw (e, s, e', wait) (reap-KernelOk n p addr i np k ok)

      scanned :
          (p : Proc) (r : Scan)
          → get_elem? k.procs me ≡ some p
          → scan_children me k.procs 0 false ≡ r
          → KernelOk n (after_wait (wait sv me addr flags k))
      scanned p (exited i) e s = child p i (get_elem? k.procs i) e s refl
      scanned p (no_zombie h) e s = elim (Bool-cases (not h || not (p.killed == 0))) [
        | inl c ↦ rw (e, s, c, wait) ok
        | inr c ↦ elim (Bool-cases (not (flags == 0))) [
          | inl f ↦ rw (e, s, c, f, wait) ok
          | inr f ↦
              rw (e, s, c, f, wait)
                (
                  ok.0,
                  PidsOk-Keeps k.nextpid k.nextpid k.procs _ (omega arith)
                      (sleep-Keeps (of_proc me) me k.procs used) ok.1,
                )
        ]
      ]

      at :
          (o : Option Proc)
          → get_elem? k.procs me ≡ o
          → KernelOk n (after_wait (wait sv me addr flags k))
      at none e = rw (e, wait) ok
      at (some p) e = scanned p (scan_children me k.procs 0 false) e refl
