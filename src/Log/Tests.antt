-- ===== src/Log/Tests.antt =====
-- The log at a transaction of blocks 40 and 50, with its header in block 2.
use my_oslab.Base.{
  ◌+◌, ◌-◌, ◌^◌, ◌≤◌, ◌<◌, ◌≡◌, refl, fun_ext, true, false, none, [], ◌∷◌, replicate, ◌==◌, ◌||◌,
  if◌then◌else◌, arith,
}
use my_oslab.Log.{Disk, Dev, Log, get_words, recover_from_log, commit, log_write, begin_op}
use my_oslab.Log.Writes.{crash}
use my_oslab.Log.Header.{IsHeader, IsHeader-nil}
use my_oslab.Log.Crash.{boot, recovered}
use my_oslab.Log.Atomic.{commit_atomic}
use my_oslab.Log.Recover.{recover_again}
use my_oslab.Log.Reserve.{IsReserved, begins, Step-IsReserved}
use my_oslab.Log.Pins.{recovered_pins}

abbrev old : Disk
old = λ b w. 0

abbrev cache : Dev
cache = record { mem = λ b w. if (b == 40) || (b == 50) then b + w else 0; refcnt = λ b. 0 }

-- The crash after the two log blocks and the header.
commit_atomic_example :
    (3 ≤ 2 → recovered 2 (crash 3 (commit 2 (40 ∷ 50 ∷ []) cache).0 old) 50 ≡ old 50)
    × (2 < 3 → recovered 2 (crash 3 (commit 2 (40 ∷ 50 ∷ []) cache).0 old) 50 ≡ cache.mem 50)
commit_atomic_example =
    commit_atomic 2 cache old (40 ∷ 50 ∷ []) 3 50 (omega arith) (omega arith)
      (IsHeader-nil (old 2) refl) (λ c out h. fun_ext λ w. ground arith) (omega arith)

-- A disk with that transaction committed, and a recovery that crashes after its first write.
abbrev disk : Disk
disk = λ b w.
    if b == 2
    then (if w == 0 then 2 else if w == 1 then 40 else 50)
    else if b == 3
    then 40 + w
    else if b == 4
    then 50 + w
    else 0

abbrev contents : Disk
contents = λ b w. b + w

disk-IsHeader : IsHeader (40 ∷ 50 ∷ []) (disk 2)
unfolding get_words
disk-IsHeader = refl

recover_again_example :
    recovered 2 (crash 1 (recover_from_log 2 (boot disk)).0 disk) 50 ≡ recovered 2 disk 50
recover_again_example =
    recover_again 2 contents disk (40 ∷ 50 ∷ []) (omega arith) (omega arith) disk-IsHeader
      (refl, (refl, tt)) 50 (omega arith) 1

recovered_pins_example : (recover_from_log 2 (boot disk)).1.refcnt 40 ≡ 2 ^ 32 - 1
recovered_pins_example =
    recovered_pins 2 (40 ∷ 50 ∷ []) disk 40 (omega arith) (omega arith) (refl, (refl, tt))
      disk-IsHeader refl

abbrev log : Log
log = record { start = 2; size = 30; outstanding = 0; committing = false; lh = [] }

abbrev log1 : Log
log1 = record { start = 2; size = 30; outstanding = 1; committing = false; lh = [] }

log-IsReserved : IsReserved log []
log-IsReserved = ground arith

log1-begins : begin_op 9 0 log [] ≡ (true, log1, [])
unfolding begin_op
log1-begins = refl

Step-IsReserved_example : IsReserved log1 (10 ∷ [])
Step-IsReserved_example = Step-IsReserved {log = 9} (begins 0 [] [] log1-begins) log-IsReserved

abbrev big_log : Log
big_log = record { start = 2; size = 31; outstanding = 1; committing = false; lh = 40 ∷ [] }

big_log-IsReserved : IsReserved big_log (1 ∷ [])
big_log-IsReserved = ground arith

-- With the log's size as mkfs makes it, the 30th block of a reserved transaction is a panic.
abbrev full_log : Log
full_log = record {
  start = 2;
  size = 30;
  outstanding = 1;
  committing = false;
  lh = replicate 29 40;
}

log_write_at_full : IsReserved full_log (1 ∷ []) × (log_write 50 full_log cache ≡ none)
unfolding log_write
log_write_at_full = (ground arith, refl)
