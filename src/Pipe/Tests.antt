-- ===== src/Pipe/Tests.antt =====
-- A pipe whose counters are about to wrap round 2 ^ 32.
use my_oslab.Base.{
  ℕ, ◌+◌, ◌-◌, ◌^◌, ◌≡◌, refl, true, false, none, some, List, [], ◌∷◌, ◌++◌, replicate, ltb,
  if◌then◌else◌, arith,
}
use my_oslab.Pipe.{Pipe, PipeState, UserSpace, Got, pipewrite, piperead, is_killed, nread_chan}
use my_oslab.Proc.{sleep}
use my_oslab.Pipe.Ring.{IsValid, contents}
use my_oslab.Pipe.Write.{after_write, Outcome, pipewrite_lem}
use my_oslab.Pipe.Read.{copy_out, must_wait, Copied, piperead_lem}
use my_oslab.Pipe.Fifo.{start, next, writes, reads, Run-fifo, removed, after_read}

-- User memory is what has been stored, the last byte first; loads give the address's last digits.
abbrev user : UserSpace
user = record {
  Memory = List ℕ;
  load = λ m a. if ltb a 100 then some (a + 1) else none;
  store = λ m a c. some (c ∷ m);
}

abbrev at_wrap : Pipe
at_wrap = record {
  buf = replicate 512 7;
  nread = 2 ^ 32 - 2;
  nwrite = 2 ^ 32 - 1;
  readopen = 1;
  writeopen = 1;
}

abbrev state : PipeState
state = record { pipe = at_wrap; procs = [] }

at_wrap-IsValid : IsValid at_wrap
at_wrap-IsValid = record {
  room = refl;
  nread_small = omega arith;
  nwrite_small = omega arith;
  fits = omega arith;
}

pipewrite_lem_example :
    let r = pipewrite user 0 0 10 [] 3 0 state in
    IsValid (after_write r).pipe
    × (contents (after_write r).pipe ≡ 7 ∷ 11 ∷ 12 ∷ 13 ∷ [])
    × Outcome user 0 0 10 0 3 (11 ∷ 12 ∷ 13 ∷ []) (11 ∷ 12 ∷ 13 ∷ []) [] r
pipewrite_lem_example = pipewrite_lem user 0 0 10 [] 3 0 state at_wrap-IsValid

piperead_lem_example :
    (must_wait at_wrap ≡ true
      → piperead user 0 0 10 1 [] state ≡ (
          if is_killed 0 []
          then Got.returned none [] state
          else Got.asleep (record state { procs = sleep (nread_chan 0) 0 [] })))
    × (must_wait at_wrap ≡ false
        → Copied user 0 0 10
            (copy_out user 0 0 10 1 0 [] (7 ∷ []))
            []
            (piperead user 0 0 10 1 [] state))
piperead_lem_example = piperead_lem user 0 0 10 1 [] state at_wrap-IsValid

-- One byte is written behind the 7, then two are read.
abbrev written : PipeState
written = after_write (pipewrite user 0 0 10 [] 1 0 state)

abbrev read : PipeState
read = after_read (piperead user 0 1 10 2 [] written)

Run-fifo_example :
    IsValid read.pipe
    × (contents at_wrap ++ (11 ∷ [])
        ≡ ([] ++ removed user 0 1 10 2 [] written) ++ contents read.pipe)
Run-fifo_example =
    Run-fifo user 0 at_wrap-IsValid (next (next start (writes 0 10 1 0 [])) (reads 1 10 2 []))

round_the_end :
    contents (after_write (pipewrite user 0 0 10 [] 3 0 state)).pipe ≡ 7 ∷ 11 ∷ 12 ∷ 13 ∷ []
unfolding pipewrite
round_the_end = refl
