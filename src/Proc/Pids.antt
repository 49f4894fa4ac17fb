-- ===== src/Proc/Pids.antt =====
-- The pids of the processes in use: positive, below `nextpid`, all different. The functions of
-- the table that start no process keep this.
use my_oslab.Base.{
  ℕ, zero, suc, ◌+◌, ◌≤◌, ◌<◌, ◌≡◌, ◌≢◌, refl, sym, false, Option, none, some, [], ◌∷◌, get_elem?,
  modify, ◌==◌, Bool-cases, inl, inr, arith,
}
use my_oslab.Proc.{
  Chan, Proc, Table, is_unused, is_runnable, wake, wakeup, wakeup1, kill, reparent, sleep,
  sleep_return, yield, schedule,
}

abbrev pub IsUsed : Proc → Type 0
IsUsed p = is_unused p.state ≡ false

-- No process in use has the pid.
abbrev pub NoUsed : ℕ → Table → Type 0
NoUsed pid [] = Unit
NoUsed pid (p ∷ ps) = (IsUsed p → p.pid ≢ pid) × NoUsed pid ps

abbrev pub PidsOk : ℕ → Table → Type 0
PidsOk n [] = Unit
PidsOk n (p ∷ ps) = (IsUsed p → (0 < p.pid) × (p.pid < n) × NoUsed p.pid ps) × PidsOk n ps

-- Slot by slot, a process in use after was in use before, with the same pid.
abbrev pub Keeps : Table → Table → Type 0
Keeps [] [] = Unit
Keeps [] (q ∷ qs) = ⊥
Keeps (p ∷ ps) [] = ⊥
Keeps (p ∷ ps) (q ∷ qs) = (IsUsed q → IsUsed p × (p.pid ≡ q.pid)) × Keeps ps qs

pub Keeps-refl : (ps : Table) → Keeps ps ps
Keeps-refl [] = tt
Keeps-refl (p ∷ ps) = ((λ u. (u, refl)), Keeps-refl ps)

pub Keeps-trans : (ps qs rs : Table) → Keeps ps qs → Keeps qs rs → Keeps ps rs
Keeps-trans [] [] [] h k = tt
Keeps-trans [] [] (r ∷ rs) h k = k
Keeps-trans [] (q ∷ qs) rs h k = absurd h
Keeps-trans (p ∷ ps) [] rs h k = absurd h
Keeps-trans (p ∷ ps) (q ∷ qs) [] h k = k
Keeps-trans (p ∷ ps) (q ∷ qs) (r ∷ rs) h k =
    ((λ u. let (uq, e) = k.0 u in let (up, e') = h.0 uq in (up, cc)), Keeps-trans ps qs rs h.1 k.1)

NoUsed-Keeps : (pid : ℕ) (ps qs : Table) → Keeps ps qs → NoUsed pid ps → NoUsed pid qs
NoUsed-Keeps pid [] [] k h = tt
NoUsed-Keeps pid [] (q ∷ qs) k h = absurd k
NoUsed-Keeps pid (p ∷ ps) [] k h = absurd k
NoUsed-Keeps pid (p ∷ ps) (q ∷ qs) k h =
    ((λ u e. let (up, e') = k.0 u in h.0 up (omega arith)), NoUsed-Keeps pid ps qs k.1 h.1)

pub PidsOk-Keeps : (n m : ℕ) (ps qs : Table) → n ≤ m → Keeps ps qs → PidsOk n ps → PidsOk m qs
PidsOk-Keeps n m [] [] le k h = tt
PidsOk-Keeps n m [] (q ∷ qs) le k h = absurd k
PidsOk-Keeps n m (p ∷ ps) [] le k h = absurd k
PidsOk-Keeps n m (p ∷ ps) (q ∷ qs) le k h = (
  (λ u.
      let (up, e) = k.0 u in
      let (pos, lt, out) = h.0 up in
      (omega arith, omega arith, rw (← e) (NoUsed-Keeps p.pid ps qs k.1 out))),
  PidsOk-Keeps n m ps qs le k.1 h.1,
)

NoUsed-of_PidsOk : (n : ℕ) (ps : Table) → PidsOk n ps → NoUsed n ps
NoUsed-of_PidsOk n [] h = tt
NoUsed-of_PidsOk n (p ∷ ps) h =
    ((λ u e. let (pos, lt, out) = h.0 u in omega arith), NoUsed-of_PidsOk n ps h.1)

NoUsed-modify :
    (f : Proc → Proc) (pid n i : ℕ) (ps : Table)
    → ((p : Proc) → get_elem? ps i ≡ some p → (f p).pid ≡ n)
    → pid ≢ n
    → NoUsed pid ps
    → NoUsed pid (modify f i ps)
NoUsed-modify f pid n i [] new ne h = tt
NoUsed-modify f pid n zero (p ∷ ps) new ne h = ((λ u e. ne (omega (arith, new p refl))), h.1)
NoUsed-modify f pid n (suc i) (p ∷ ps) new ne h = (h.0, NoUsed-modify f pid n i ps new ne h.1)

-- A slot may be filled with a process that has the pid `n`.
pub PidsOk-modify :
    (f : Proc → Proc) (n i : ℕ) (ps : Table)
    → ((p : Proc) → get_elem? ps i ≡ some p → (f p).pid ≡ n)
    → 0 < n
    → PidsOk n ps
    → PidsOk (n + 1) (modify f i ps)
PidsOk-modify f n i [] new pos h = tt
PidsOk-modify f n zero (p ∷ ps) new pos h = (
  (λ u. (
    omega (arith, new p refl),
    omega (arith, new p refl),
    rw (new p refl) (NoUsed-of_PidsOk n ps h.1),
  )),
  PidsOk-Keeps n (n + 1) ps ps (omega arith) (Keeps-refl ps) h.1,
)
PidsOk-modify f n (suc i) (p ∷ ps) new pos h = (
  (λ u.
      let (p_pos, lt, out) = h.0 u in
      (p_pos, omega arith, NoUsed-modify f p.pid n i ps new (omega arith) out)),
  PidsOk-modify f n i ps new pos h.1,
)

pub Keeps-modify :
    (f : Proc → Proc) (i : ℕ) (ps : Table)
    → ((p : Proc) → get_elem? ps i ≡ some p → IsUsed (f p) → IsUsed p × (p.pid ≡ (f p).pid))
    → Keeps ps (modify f i ps)
Keeps-modify f i [] keep = tt
Keeps-modify f zero (p ∷ ps) keep = (keep p refl, Keeps-refl ps)
Keeps-modify f (suc i) (p ∷ ps) keep = ((λ u. (u, refl)), Keeps-modify f i ps keep)

wake-Keeps : (c : Chan) (p : Proc) → IsUsed (wake c p) → IsUsed p × (p.pid ≡ (wake c p).pid)
wake-Keeps c p u = ground arith

pub wakeup-Keeps : (c : Chan) (ps : Table) → Keeps ps (wakeup c ps)
unfolding wakeup
wakeup-Keeps c [] = tt
wakeup-Keeps c (p ∷ ps) = (wake-Keeps c p, wakeup-Keeps c ps)

pub wakeup1-Keeps : (i : ℕ) (ps : Table) → Keeps ps (wakeup1 i ps)
unfolding wakeup1
wakeup1-Keeps i ps = Keeps-modify _ i ps (λ p at. wake-Keeps _ p)

pub reparent-Keeps : (init me : ℕ) (ps : Table) → Keeps ps (reparent init me ps)
unfolding reparent
reparent-Keeps init me [] = tt
reparent-Keeps init me (p ∷ ps) = ((λ u. ground arith), reparent-Keeps init me ps)

pub kill-Keeps : (pid : ℕ) (ps : Table) → Keeps ps (kill pid ps).1
unfolding kill
kill-Keeps pid [] = tt
kill-Keeps pid (p ∷ ps) = elim (Bool-cases (p.pid == pid)) [
  | inl e ↦ rw e ((λ u. ground arith), Keeps-refl ps)
  | inr e ↦ rw e ((λ u. (u, refl)), kill-Keeps pid ps)
]

-- A state-changing function called for a process in use keeps the pids.
pub Keeps-modify_used :
    (f : Proc → Proc) (i : ℕ) (ps : Table)
    → ((p : Proc) → (f p).pid ≡ p.pid)
    → ((p : Proc) → get_elem? ps i ≡ some p → IsUsed p)
    → Keeps ps (modify f i ps)
Keeps-modify_used f i ps same used = Keeps-modify f i ps (λ p at u. (used p at, sym (same p)))

schedule-Keeps_at :
    (i : ℕ) (ps : Table) (o : Option Proc) → get_elem? ps i ≡ o → Keeps ps (schedule i ps).1
unfolding schedule
schedule-Keeps_at i ps none e = rw (e, schedule) (Keeps-refl ps)
schedule-Keeps_at i ps (some p) e = elim (Bool-cases (is_runnable p.state)) [
  | inl r ↦ rw (e, r, schedule) (Keeps-modify_used _ i ps (λ q. refl) (λ q at. ground arith))
  | inr r ↦ rw (e, r, schedule) (Keeps-refl ps)
]

pub schedule-Keeps : (i : ℕ) (ps : Table) → Keeps ps (schedule i ps).1
schedule-Keeps i ps = schedule-Keeps_at i ps (get_elem? ps i) refl

-- The process at the index, if there is one, is in use.
abbrev pub IsUsedAt : ℕ → Table → Type 0
IsUsedAt i ps = (p : Proc) → get_elem? ps i ≡ some p → IsUsed p

modify-IsUsedAt :
    (f : Proc → Proc) (i j : ℕ) (ps : Table)
    → ((p : Proc) → IsUsed p → IsUsed (f p))
    → IsUsedAt j ps
    → IsUsedAt j (modify f i ps)
modify-IsUsedAt f i j [] keep used p at = cc
modify-IsUsedAt f zero zero (q ∷ ps) keep used p at = ground (arith, keep q (used q refl))
modify-IsUsedAt f zero (suc j) (q ∷ ps) keep used p at = used p at
modify-IsUsedAt f (suc i) zero (q ∷ ps) keep used p at = used p at
modify-IsUsedAt f (suc i) (suc j) (q ∷ ps) keep used p at = modify-IsUsedAt f i j ps keep used p at

pub wakeup1-IsUsedAt : (i j : ℕ) (ps : Table) → IsUsedAt j ps → IsUsedAt j (wakeup1 i ps)
unfolding wakeup1
wakeup1-IsUsedAt i j ps used = modify-IsUsedAt _ i j ps (λ p u. ground arith) used

pub reparent-IsUsedAt :
    (init me j : ℕ) (ps : Table) → IsUsedAt j ps → IsUsedAt j (reparent init me ps)
unfolding reparent
reparent-IsUsedAt init me j [] used p at = cc
reparent-IsUsedAt init me zero (q ∷ ps) used p at = ground (arith, used q refl)
reparent-IsUsedAt init me (suc j) (q ∷ ps) used p at = reparent-IsUsedAt init me j ps used p at

pub sleep-Keeps : (c : Chan) (i : ℕ) (ps : Table) → IsUsedAt i ps → Keeps ps (sleep c i ps)
unfolding sleep
sleep-Keeps c i ps used = Keeps-modify_used _ i ps (λ q. refl) used

pub sleep_return-Keeps : (i : ℕ) (ps : Table) → Keeps ps (sleep_return i ps)
unfolding sleep_return
sleep_return-Keeps i ps = Keeps-modify _ i ps (λ q at u. (u, refl))

pub yield-Keeps : (i : ℕ) (ps : Table) → IsUsedAt i ps → Keeps ps (yield i ps)
unfolding yield
yield-Keeps i ps used = Keeps-modify_used _ i ps (λ q. refl) used
