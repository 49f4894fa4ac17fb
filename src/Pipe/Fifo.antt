-- ===== src/Pipe/Fifo.antt =====
-- Writers, readers and closers of one pipe in any order.
use my_oslab.Base.{
  ℕ, ◌-◌, ◌≡◌, refl, sym, ap, ◌∙◌, Bool, true, false, List, [], ◌++◌, append-nil, append_assoc,
  take, if◌then◌else◌, Bool-cases, inl, inr, arith,
}
use my_oslab.Pipe.{PipeState, UserSpace, Got, pipe_size, pipewrite, piperead, pipeclose, is_killed}
use my_oslab.Pipe.Ring.{IsValid, count, contents}
use my_oslab.Pipe.Write.{user_bytes, after_write, pipewrite_lem}
use my_oslab.Pipe.Read.{taken, taken-append, must_wait, piperead_lem}

-- The state that a stretch of `piperead` ends with.
abbrev pub after_read : {M : Type 0} → Got M → PipeState
after_read (Got.returned r m s) = s
after_read (Got.asleep s) = s

module _ (us : UserSpace) (pi : ℕ) where
  open us use {Memory}

  -- The bytes that a read takes from the pipe.
  abbrev pub removed : ℕ → ℕ → ℕ → Memory → PipeState → List ℕ
  removed me addr n m s =
      if must_wait s.pipe then [] else taken us pi me addr n 0 m (contents s.pipe)

  -- A stretch of some process, with the bytes that it puts in and those that it takes out.
  pub data Step (s : PipeState) : List ℕ → List ℕ → PipeState → Type 0 where
    writes :
        (me addr n i : ℕ) (m : Memory)
        → Step s
            (take (pipe_size - count s.pipe) (user_bytes us pi me addr m (n - i) i))
            []
            (after_write (pipewrite us pi me addr m n i s))
    reads :
        (me addr n : ℕ) (m : Memory)
        → Step s [] (removed me addr n m s) (after_read (piperead us pi me addr n m s))
    closes : (writable : Bool) → Step s [] [] (pipeclose pi writable s).0

  pub data Run (s : PipeState) : List ℕ → List ℕ → PipeState → Type 0 where
    start : Run s [] [] s
    next :
        {ins outs : List ℕ} {t : PipeState} {i o : List ℕ} {u : PipeState}
        → Run s ins outs t
        → Step t i o u
        → Run s (ins ++ i) (outs ++ o) u

  reads-contents :
      (me addr n : ℕ) (m : Memory) (s : PipeState)
      → IsValid s.pipe
      → IsValid (after_read (piperead us pi me addr n m s)).pipe
        × (contents s.pipe
            ≡ removed me addr n m s ++ contents (after_read (piperead us pi me addr n m s)).pipe)
  reads-contents me addr n m s v = elim (Bool-cases (must_wait s.pipe)) [
    | inl w ↦
        rw (w, (piperead_lem us pi me addr n m s v).0 w)
          (elim (Bool-cases (is_killed me s.procs)) [
            | inl c ↦ rw c (v, refl)
            | inr c ↦ rw c (v, refl)
          ])
    | inr w ↦
        let (p, valid, left, e) = (piperead_lem us pi me addr n m s v).1 w in
        rw (w, e) (valid, rw left (sym (taken-append us pi me addr n 0 m (contents s.pipe))))
  ]

  closes-contents :
      (writable : Bool) (s : PipeState)
      → IsValid s.pipe
      → IsValid (pipeclose pi writable s).0.pipe
        × (contents (pipeclose pi writable s).0.pipe ≡ contents s.pipe)
  unfolding pipeclose
  closes-contents true s v = (omega arith, refl)
  closes-contents false s v = (omega arith, refl)

  Step-fifo :
      {s t : PipeState} {i o : List ℕ}
      → Step s i o t
      → IsValid s.pipe
      → IsValid t.pipe × (contents s.pipe ++ i ≡ o ++ contents t.pipe)
  Step-fifo {s} (writes me addr n i m) v =
      let (valid, e, _) = pipewrite_lem us pi me addr m n i s v in (valid, sym e)
  Step-fifo {s} (reads me addr n m) v =
      let (valid, e) = reads-contents me addr n m s v in (valid, append-nil (contents s.pipe) ∙ e)
  Step-fifo {s} (closes writable) v =
      let (valid, e) = closes-contents writable s v in (valid, append-nil (contents s.pipe) ∙ sym e)

  -- First in, first out: whatever order readers, writers and closers come in, and wherever they
  -- sleep, the bytes taken from a valid pipe and those left in it are together the bytes that it
  -- held and those put in, in the same order, and the pipe stays valid.
  pub Run-fifo :
      {s t : PipeState} {ins outs : List ℕ}
      → IsValid s.pipe
      → Run s ins outs t
      → IsValid t.pipe × (contents s.pipe ++ ins ≡ outs ++ contents t.pipe)
  Run-fifo {s} v start = (v, append-nil (contents s.pipe))
  Run-fifo {s} v (next {ins} {outs} {t} {i} {o} {u} run step) =
      let (vt, e) = Run-fifo v run in
      let (vu, e') = Step-fifo step vt in
      (
        vu,
        sym (append_assoc (contents s.pipe) ins i)
            ∙ ap (λ x. x ++ i) e
            ∙ append_assoc outs (contents t.pipe) i
            ∙ ap (λ x. outs ++ x) e'
            ∙ sym (append_assoc outs o (contents u.pipe)),
      )
