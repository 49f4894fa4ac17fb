-- ===== src/Log/Reserve.antt =====
-- `begin_op` reserves log space, so that the system calls' writes fit.
use my_oslab.Base.{
  ℕ, suc, ◌+◌, ◌-◌, ◌*◌, ◌≤◌, ◌<◌, ◌≡◌, ◌≢◌, subst, true, Bool, none, some, List, [], ◌∷◌, ◌++◌,
  length, length-append, arith,
}
use my_oslab.Proc.{Table}
use my_oslab.Log.{
  Dev, Log, log_size, max_op_blocks, begin_op, end_op, end_commit, absorb, log_write,
}

length-absorb :
    (b : ℕ) (bs : List ℕ)
    → (length bs ≤ length (absorb b bs).0) × (length (absorb b bs).0 ≤ length bs + 1)
unfolding absorb
length-absorb b [] = omega arith
length-absorb b (c ∷ bs) = ground (arith, length-absorb b bs)

-- The log space still reserved: each system call in progress may write as many blocks more as its
-- entry says.
abbrev pub budget : List ℕ → ℕ
budget [] = 0
budget (q ∷ qs) = q + budget qs

abbrev pub Capped : List ℕ → Type 0
Capped [] = Unit
Capped (q ∷ qs) = (q ≤ max_op_blocks) × Capped qs

budget-le : (qs : List ℕ) → Capped qs → budget qs ≤ length qs * max_op_blocks
budget-le [] h = omega arith
budget-le (q ∷ qs) h = omega (arith, budget-le qs h.1)

Capped-less :
    (before : List ℕ) (q : ℕ) (behind : List ℕ)
    → Capped (before ++ (suc q ∷ behind))
    → Capped (before ++ (q ∷ behind))
Capped-less [] q behind h = (omega arith, h.1)
Capped-less (r ∷ before) q behind h = (h.0, Capped-less before q behind h.1)

Capped-drop :
    (before : List ℕ) (q : ℕ) (behind : List ℕ)
    → Capped (before ++ (q ∷ behind))
    → Capped (before ++ behind)
Capped-drop [] q behind h = h.1
Capped-drop (r ∷ before) q behind h = (h.0, Capped-drop before q behind h.1)

-- The calls in progress, with the writes that each still has of its MAXOPBLOCKS.
pub record IsReserved (l : Log) (qs : List ℕ) : Type 0 where
  pub room : length l.lh + budget qs ≤ log_size
  pub calls : l.outstanding ≡ length qs
  pub capped : Capped qs
  pub few : length qs ≤ 3
  pub busy : l.committing ≡ true → length qs ≡ 0

budget-append : (xs ys : List ℕ) → budget (xs ++ ys) ≡ budget xs + budget ys
budget-append [] ys = omega arith
budget-append (x ∷ xs) ys = omega (arith, budget-append xs ys)

-- The steps of the calls in progress, with the budgets before and after. A call writes at most
-- MAXOPBLOCKS times; the last one to end commits before another begins.
pub data Step (log : ℕ) (l : Log) (qs : List ℕ) : Log → List ℕ → Type 0 where
  begins :
      (me : ℕ) (ps ps' : Table) {l' : Log}
      → begin_op log me l ps ≡ (true, l', ps')
      → Step log l qs l' (max_op_blocks ∷ qs)
  writes :
      (b : ℕ) (d d' : Dev) (before : List ℕ) (q : ℕ) (behind : List ℕ) {l' : Log}
      → qs ≡ before ++ (suc q ∷ behind)
      → log_write b l d ≡ some (l', d')
      → Step log l qs l' (before ++ (q ∷ behind))
  ends :
      (ps ps' : Table) (last : Bool) (before : List ℕ) (q : ℕ) (behind : List ℕ) {l' : Log}
      → qs ≡ before ++ (q ∷ behind)
      → end_op log l ps ≡ some (last, l', ps')
      → Step log l qs l' (before ++ behind)
  commits : (ps : Table) → l.committing ≡ true → Step log l qs (end_commit log l ps).0 qs

begins-IsReserved :
    (log me : ℕ) (l l' : Log) (qs : List ℕ) (ps ps' : Table)
    → IsReserved l qs
    → begin_op log me l ps ≡ (true, l', ps')
    → IsReserved l' (max_op_blocks ∷ qs)
unfolding begin_op
begins-IsReserved log me l l' qs ps ps' r e = let le = budget-le qs r.capped in ground arith

writes-IsReserved :
    (b : ℕ) (l l' : Log) (d d' : Dev) (before : List ℕ) (q : ℕ) (behind : List ℕ)
    → IsReserved l (before ++ (suc q ∷ behind))
    → log_write b l d ≡ some (l', d')
    → IsReserved l' (before ++ (q ∷ behind))
unfolding log_write
writes-IsReserved b l l' d d' before q behind r e = ground (
  arith,
  length-absorb b l.lh,
  budget-append before (suc q ∷ behind),
  budget-append before (q ∷ behind),
  length-append before (suc q ∷ behind),
  length-append before (q ∷ behind),
  Capped-less before q behind r.capped,
)

ends-IsReserved :
    (log : ℕ) (l l' : Log) (ps ps' : Table) (last : Bool) (before : List ℕ) (q : ℕ)
    (behind : List ℕ)
    → IsReserved l (before ++ (q ∷ behind))
    → end_op log l ps ≡ some (last, l', ps')
    → IsReserved l' (before ++ behind)
unfolding end_op
ends-IsReserved log l l' ps ps' last before q behind r e = ground (
  arith,
  budget-append before (q ∷ behind),
  budget-append before behind,
  length-append before (q ∷ behind),
  length-append before behind,
  Capped-drop before q behind r.capped,
)

commits-IsReserved :
    (log : ℕ) (l : Log) (qs : List ℕ) (ps : Table)
    → IsReserved l qs
    → l.committing ≡ true
    → IsReserved (end_commit log l ps).0 qs
unfolding end_commit
commits-IsReserved log l [] ps r e = ground arith
commits-IsReserved log l (q ∷ qs) ps r e = absurd (omega (arith, r.busy e))

-- Every step of the calls keeps the reservation: the blocks in the header and those that the calls
-- in progress may still add are at most LOGSIZE, `outstanding` counts the calls, and no call is in
-- progress during a commit.
pub Step-IsReserved :
    {log : ℕ} {l l' : Log} {qs qs' : List ℕ}
    → Step log l qs l' qs'
    → IsReserved l qs
    → IsReserved l' qs'
Step-IsReserved {log} {l} {qs} (begins me ps ps' {l'} e) r =
    begins-IsReserved log me l l' qs ps ps' r e
Step-IsReserved {l} (writes b d d' before q behind {l'} split e) r =
    writes-IsReserved b l l' d d' before q behind (subst (IsReserved l) split r) e
Step-IsReserved {log} {l} (ends ps ps' last before q behind {l'} split e) r =
    ends-IsReserved log l l' ps ps' last before q behind (subst (IsReserved l) split r) e
Step-IsReserved {log} {l} {qs} (commits ps e) r = commits-IsReserved log l qs ps r e

-- With room for LOGSIZE blocks behind the header (`size` above LOGSIZE), `log_write` does not panic
-- for a call in progress that has made fewer than MAXOPBLOCKS writes.
pub log_write_fits :
    (b : ℕ) (l : Log) (d : Dev) (before : List ℕ) (q : ℕ) (behind : List ℕ)
    → IsReserved l (before ++ (suc q ∷ behind))
    → log_size < l.size
    → log_write b l d ≢ none
unfolding log_write
log_write_fits b l d before q behind r big =
    ground (arith, budget-append before (suc q ∷ behind), length-append before (suc q ∷ behind))

-- With the size that mkfs gives the log, which is LOGSIZE, `log_write` does panic in some reserved
-- states: for every call in progress with writes left, as soon as the header has LOGSIZE - 1 blocks.
pub log_write_too_big :
    (b : ℕ) (l : Log) (d : Dev) (qs : List ℕ)
    → IsReserved l qs
    → l.size ≡ log_size
    → length l.lh ≡ log_size - 1
    → log_write b l d ≡ none
unfolding log_write
log_write_too_big b l d qs r size full = ground arith
