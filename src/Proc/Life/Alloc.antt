-- ===== src/Proc/Life/Alloc.antt =====
-- `allocproc`, `fork` and `freeproc` and the pids in use.
use my_oslab.Base.{
  add32, ℕ, zero, suc, ◌≡◌, refl, sym, ap, ◌∙◌, true, Option, none, some, [], ◌∷◌, get_elem?,
  modify, get_elem?-modify_self, ◌==◌, Bool-cases, inl, inr, arith,
}
use mathlib.Core.Option
use my_oslab.Proc.{Proc, Table, is_unused}
use my_oslab.Proc.Pids.{Keeps, Keeps-refl, Keeps-trans, Keeps-modify}
use my_oslab.Proc.Life.{Services, Kernel, cleared, freeproc, find_unused, setup_proc, fresh_context}

-- The slot is UNUSED, or there is none.
abbrev pub IsIdle : ℕ → Table → Type 0
IsIdle i ps = (p : Proc) → get_elem? ps i ≡ some p → is_unused p.state ≡ true

-- `find_unused` finds an UNUSED slot.
pub find_unused-IsIdle : (ps : Table) (i : ℕ) → find_unused ps ≡ some i → IsIdle i ps
unfolding find_unused
find_unused-IsIdle [] i e p at = cc
find_unused-IsIdle (q ∷ ps) zero e p at = ground arith
find_unused-IsIdle (q ∷ ps) (suc i) e p at =
    ground (arith, λ (h : find_unused ps ≡ some i). find_unused-IsIdle ps i h p at)

modify-IsIdle :
    (f : Proc → Proc) (i : ℕ) (ps : Table)
    → ((p : Proc) → (f p).state ≡ p.state)
    → IsIdle i ps
    → IsIdle i (modify f i ps)
modify-IsIdle f i [] same idle p at = cc
modify-IsIdle f zero (q ∷ ps) same idle p at = ground (arith, same q, idle q)
modify-IsIdle f (suc i) (q ∷ ps) same idle p at = modify-IsIdle f i ps same idle p at

Keeps-modify_idle :
    (f : Proc → Proc) (i : ℕ) (ps : Table)
    → ((p : Proc) → (f p).state ≡ p.state)
    → IsIdle i ps
    → Keeps ps (modify f i ps)
Keeps-modify_idle f i ps same idle =
    Keeps-modify f i ps (λ p at u. absurd (ground (arith, idle p at, same p)))

module _ (sv : Services) where
  open sv use {World, kalloc, proc_pagetable}

  pub freeproc-Keeps : (i : ℕ) (k : Kernel sv) → Keeps k.procs (freeproc sv i k).procs
  unfolding freeproc
  freeproc-Keeps i k = at (get_elem? k.procs i) refl
    where
      at : (o : Option Proc) → get_elem? k.procs i ≡ o → Keeps k.procs (freeproc sv i k).procs
      at none e = rw (e, freeproc) (Keeps-refl k.procs)
      at (some p) e = rw (e, freeproc) (Keeps-modify cleared i k.procs (λ q at u. cc))

  pub nextpid-freeproc : (i : ℕ) (k : Kernel sv) → (freeproc sv i k).nextpid ≡ k.nextpid
  unfolding freeproc
  nextpid-freeproc i k = ground arith

  -- What `setup_proc` leaves: the pids in use are those from before, one pid has been taken, and
  -- where the slot is returned it has that pid and is still UNUSED.
  pub data SetUp (k : Kernel sv) (i : ℕ) : Option ℕ × Kernel sv → Type 0 where
    failed :
        {k' : Kernel sv}
        → Keeps k.procs k'.procs
        → k'.nextpid ≡ add32 k.nextpid 1
        → SetUp k i (none, k')
    ready :
        {k' : Kernel sv}
        → Keeps k.procs k'.procs
        → k'.nextpid ≡ add32 k.nextpid 1
        → IsIdle i k'.procs
        → ((p : Proc) → get_elem? k'.procs i ≡ some p → p.pid ≡ k.nextpid)
        → SetUp k i (some i, k')

  pub setup_proc-SetUp : (i : ℕ) (k : Kernel sv) → IsIdle i k.procs → SetUp k i (setup_proc sv i k)
  unfolding setup_proc
  setup_proc-SetUp i k idle =
      let (tf, w1) = kalloc k.world in
      let (pt, w2) = proc_pagetable tf w1 in
      let f1 = λ (p : Proc). record p { pid = k.nextpid; trapframe = tf } in
      let f2 = λ (p : Proc). record p { pagetable = pt } in
      let f3 = λ (p : Proc). record p { context = fresh_context sv p.kstack } in
      let ps1 = modify f1 i k.procs in
      let ps2 = modify f2 i ps1 in
      let idle1 : IsIdle i ps1 = modify-IsIdle f1 i k.procs (λ p. refl) idle in
      let idle2 : IsIdle i ps2 = modify-IsIdle f2 i ps1 (λ p. refl) idle1 in
      let keep1 : Keeps k.procs ps1 = Keeps-modify_idle f1 i k.procs (λ p. refl) idle in
      let keep2 : Keeps k.procs ps2 =
        Keeps-trans k.procs ps1 ps2 keep1 (Keeps-modify_idle f2 i ps1 (λ p. refl) idle1) in
      elim (Bool-cases (tf == 0)) [
        | inl e ↦ rw e (failed keep1 refl)
        | inr e ↦ elim (Bool-cases (pt == 0)) [
          | inl e' ↦
              rw (e, e')
                (let k2 : Kernel sv = record k {
                  procs = ps2;
                  nextpid = add32 k.nextpid 1;
                  world = w2;
                } in
                  failed (Keeps-trans k.procs ps2 _ keep2 (freeproc-Keeps i k2))
                    (nextpid-freeproc i k2))
          | inr e' ↦
              rw (e, e')
                (ready
                  (Keeps-trans k.procs ps2 _ keep2 (Keeps-modify_idle f3 i ps2 (λ p. refl) idle2))
                  refl (modify-IsIdle f3 i ps2 (λ p. refl) idle2)
                  (λ p at. pid_of (get_elem? k.procs i) p (
                    sym (
                      get_elem?-modify_self f3 ps2 i
                      ∙ ap (Option.map f3) (
                          get_elem?-modify_self f2 ps1 i
                          ∙ ap (Option.map f2) (get_elem?-modify_self f1 k.procs i)))
                    ∙ at)))
        ]
      ]
    where
      pid_of :
          (o : Option Proc) (p : Proc)
          → Option.map
              (λ (q : Proc). record q { context = fresh_context sv q.kstack })
              (Option.map
                (λ (q : Proc). record q {
                  pagetable = (proc_pagetable (kalloc k.world).0 (kalloc k.world).1).0;
                })
                (Option.map
                  (λ (q : Proc). record q { pid = k.nextpid; trapframe = (kalloc k.world).0 })
                  o))
            ≡ some p
          → p.pid ≡ k.nextpid
      pid_of none p e = cc
      pid_of (some q) p e = ground arith
