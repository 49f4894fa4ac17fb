-- ===== src/Proc/Kill.antt =====
-- What `kill` does, to whom.
use my_oslab.Base.{ℕ, ◌≡◌, ◌≢◌, refl, true, false, [], ◌∷◌, ◌++◌, arith}
use my_oslab.Proc.{Proc, Table, kill_one, kill}

-- No process of the table has the pid.
abbrev pub NoPid : ℕ → Table → Type 0
NoPid pid [] = Unit
NoPid pid (p ∷ ps) = (p.pid ≢ pid) × NoPid pid ps

-- `kill` of a pid that no slot has returns -1 and changes nothing.
pub kill-missing : (pid : ℕ) (ps : Table) → NoPid pid ps → kill pid ps ≡ (false, ps)
unfolding kill
kill-missing pid [] h = refl
kill-missing pid (p ∷ ps) h = ground (arith, kill-missing pid ps h.1)

-- `kill` of a pid that a slot has returns 0, marks the first such slot as killed and makes it
-- runnable if it was asleep; all slots before and behind it stay as they were.
pub kill-found :
    (pid : ℕ) (before : Table) (p : Proc) (behind : Table)
    → NoPid pid before
    → p.pid ≡ pid
    → kill pid (before ++ (p ∷ behind)) ≡ (true, before ++ (kill_one p ∷ behind))
unfolding kill
kill-found pid [] p behind h e = ground arith
kill-found pid (q ∷ before) p behind h e = ground (arith, kill-found pid before p behind h.1 e)
