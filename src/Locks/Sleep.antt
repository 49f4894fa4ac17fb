-- ===== src/Locks/Sleep.antt =====
-- Two processes at a sleep lock.
use my_oslab.Base.{ℕ, ◌≡◌, ◌≢◌, refl, sym, true, false, ne→==, ==_self}
use my_oslab.Proc.{Table, sleep, of_addr}
use my_oslab.Locks.{Sleeplock, acquiresleep, releasesleep, holdingsleep, pid_of}

-- The process that has got a sleep lock holds it, no process of another pid does, and one that
-- tries to get it goes to sleep with the lock as it was; after the release the next try gets it.
pub acquiresleep_lem :
    (lk me other : ℕ) (l : Sleeplock) (ps : Table)
    → l.locked ≡ 0
    → pid_of other ps ≢ pid_of me ps
    → let l1 = (acquiresleep lk me l ps).1.0 in
      let l2 = (releasesleep lk l1 ps).0 in
      ((acquiresleep lk me l ps).0 ≡ true)
      × ((holdingsleep me l1 ps ≡ true)
          × ((holdingsleep other l1 ps ≡ false)
              × ((acquiresleep lk other l1 ps ≡ (false, (l1, sleep (of_addr lk) other ps)))
                  × ((acquiresleep lk other l2 ps).0 ≡ true))))
unfolding acquiresleep releasesleep
acquiresleep_lem lk me other l ps free ne = rw free (
  refl,
  (
    ==_self (pid_of me ps),
    (ne→== (pid_of me ps) (pid_of other ps) (λ e. ne (sym e)), (refl, refl)),
  ),
)
