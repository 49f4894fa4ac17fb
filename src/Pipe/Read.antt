-- ===== src/Pipe/Read.antt =====
-- `piperead` against a read from a queue of bytes.
use my_oslab.Base.{
  ℕ, zero, suc, ◌+◌, ◌%◌, ◌^◌, ◌≡◌, refl, ap, Bool, true, false, not, ◌&&◌, Option, none, some,
  List, [], ◌∷◌, ◌++◌, ◌==◌, if◌then◌else◌, Bool-cases, inl, inr,
}
use my_oslab.Proc.{Table, wakeup, sleep}
use my_oslab.Pipe.{
  Pipe, PipeState, UserSpace, Got, nread_chan, nwrite_chan, is_killed, pop, is_empty, read_loop,
  piperead,
}
use my_oslab.Pipe.Ring.{IsValid, count, contents, window, is_empty_iff, pop-IsValid, contents-pop}

contents-empty : (p : Pipe) → count p ≡ 0 → contents p ≡ []
contents-empty p e = ap (window p.buf p.nread) e

-- The test for falling asleep or being turned away: nothing to read, and a writer is left.
abbrev pub must_wait : Pipe → Bool
must_wait p = is_empty p && not (p.writeopen == 0)

module _ (us : UserSpace) (pi me addr : ℕ) where
  open us use {Memory, store}

  -- What a read of `n` bytes does to a queue and to the caller's memory, from byte `i` on: the
  -- count that it returns, the memory, and the rest of the queue. A byte that cannot be copied is
  -- taken from the queue and not counted.
  pub copy_out : ℕ → ℕ → Memory → List ℕ → ℕ × Memory × List ℕ
  copy_out zero i m q = (i, m, q)
  copy_out (suc n) i m [] = (i, m, [])
  copy_out (suc n) i m (ch ∷ q) = elim (store m ((addr + i) % 2 ^ 64) ch) [
    | none ↦ (i, m, q)
    | some m' ↦ copy_out n (i + 1) m' q
  ]

  -- The bytes that such a read takes from the queue.
  pub taken : ℕ → ℕ → Memory → List ℕ → List ℕ
  taken zero i m q = []
  taken (suc n) i m [] = []
  taken (suc n) i m (ch ∷ q) = elim (store m ((addr + i) % 2 ^ 64) ch) [
    | none ↦ ch ∷ []
    | some m' ↦ ch ∷ taken n (i + 1) m' q
  ]

  pub taken-append : (n i : ℕ) (m : Memory) (q : List ℕ) → taken n i m q ++ (copy_out n i m q).2 ≡ q
  unfolding copy_out taken
  taken-append zero i m q = refl
  taken-append (suc n) i m [] = refl
  taken-append (suc n) i m (ch ∷ q) =
      stored (λ m'. taken-append n (i + 1) m' q) (store m ((addr + i) % 2 ^ 64) ch) refl
    where
      stored :
          ((m' : Memory) → taken n (i + 1) m' q ++ (copy_out n (i + 1) m' q).2 ≡ q)
          → (o : Option Memory) → store m ((addr + i) % 2 ^ 64) ch ≡ o
          → taken (suc n) i m (ch ∷ q) ++ (copy_out (suc n) i m (ch ∷ q)).2 ≡ ch ∷ q
      stored rec none e = rw (e, taken, copy_out) refl
      stored rec (some m') e = rw (e, taken, copy_out) (ap (λ r. ch ∷ r) (rec m'))

  -- The result of a read that has reached its loop.
  abbrev pub Copied : ℕ × Memory × List ℕ → Table → Got Memory → Type 0
  Copied (i, m, q) procs r =
      (p : Pipe) × IsValid p
      × (contents p ≡ q)
      × (r ≡ Got.returned (some i) m (record { pipe = p; procs = wakeup (nwrite_chan pi) procs }))

  read_loop-Copied :
      (n i : ℕ) (m : Memory) (s : PipeState)
      → IsValid s.pipe
      → Copied (copy_out n i m (contents s.pipe)) s.procs (read_loop us pi me addr n i m s)
  unfolding copy_out read_loop
  read_loop-Copied zero i m s v = (s.pipe, v, refl, refl)
  read_loop-Copied (suc n) i m s v = elim (Bool-cases (is_empty s.pipe)) [
    | inl f ↦
        rw (f, contents-empty s.pipe ((is_empty_iff s.pipe v).0 f), read_loop, copy_out)
          (s.pipe, v, contents-empty s.pipe ((is_empty_iff s.pipe v).0 f), refl)
    | inr f ↦
        stored f (λ m' s' v'. read_loop-Copied n (i + 1) m' s' v')
          (store m ((addr + i) % 2 ^ 64) (pop s.pipe).0) refl
  ]
    where
      stored :
          is_empty s.pipe ≡ false
          → ((m' : Memory) (s' : PipeState)
              → IsValid s'.pipe
              → Copied
                  (copy_out n (i + 1) m' (contents s'.pipe))
                  s'.procs
                  (read_loop us pi me addr n (i + 1) m' s'))
          → (o : Option Memory) → store m ((addr + i) % 2 ^ 64) (pop s.pipe).0 ≡ o
          → Copied
              (copy_out (suc n) i m (contents s.pipe))
              s.procs
              (read_loop us pi me addr (suc n) i m s)
      stored f rec none e =
          let some_byte = (is_empty_iff s.pipe v).1 f in
          rw (contents-pop s.pipe v some_byte, f, e, read_loop, copy_out)
            ((pop s.pipe).1, pop-IsValid s.pipe v some_byte, refl, refl)
      stored f rec (some m') e =
          let some_byte = (is_empty_iff s.pipe v).1 f in
          rw (contents-pop s.pipe v some_byte, f, e, read_loop, copy_out)
            (rec m' (record s { pipe = (pop s.pipe).1 }) (pop-IsValid s.pipe v some_byte))

  -- On a valid pipe that is empty and has a writer, `piperead` returns -1 to a caller that has been
  -- killed, with nothing changed, and puts any other caller to sleep on `nread`. On any other
  -- valid pipe it returns the count and the caller's memory that a read from the queue of the
  -- pipe's contents gives, leaves the rest of the queue, and wakes the writers.
  pub piperead_lem :
      (n : ℕ) (m : Memory) (s : PipeState)
      → IsValid s.pipe
      → (must_wait s.pipe ≡ true
          → piperead us pi me addr n m s ≡ (
              if is_killed me s.procs
              then Got.returned none m s
              else Got.asleep (record s { procs = sleep (nread_chan pi) me s.procs })))
        × (must_wait s.pipe ≡ false
            → Copied (copy_out n 0 m (contents s.pipe)) s.procs (piperead us pi me addr n m s))
  unfolding piperead
  piperead_lem n m s v =
      ((λ h. rw (h, piperead) refl), (λ h. rw (h, piperead) (read_loop-Copied n 0 m s v)))
