-- ===== src/Pipe/Write.antt =====
-- `pipewrite` against an unbounded view of the caller's bytes.
use my_oslab.Base.{
  ℕ, zero, suc, ◌+◌, ◌-◌, ◌%◌, ◌^◌, ◌<◌, ◌≡◌, refl, sym, ap, ◌∙◌, true, false, ◌||◌, Option, none,
  some, List, [], ◌∷◌, ◌++◌, append-nil, append_assoc, length, take, ◌==◌, Bool-cases, inl, inr,
  arith,
}
use my_oslab.Pipe.{
  PipeState, UserSpace, Wrote, pipe_size, is_killed, push, is_full, write_full, write_loop,
  write_done, pipewrite, nread_chan, nwrite_chan,
}
use my_oslab.Proc.{Table, wakeup, sleep}
use my_oslab.Pipe.Ring.{
  IsValid, count, contents, is_full_iff, push-IsValid, contents-push, count-push,
}

-- The state that a stretch of `pipewrite` ends with.
abbrev pub after_write : Wrote → PipeState
after_write (Wrote.returned r s) = s
after_write (Wrote.asleep i s) = s

take_zero {ℓ} : {A : Type ℓ} (n : ℕ) (xs : List A) → n ≡ 0 → take n xs ≡ []
take_zero zero xs e = refl
take_zero (suc n) xs e = absurd (omega arith)

take_nil : (n : ℕ) → take {A = ℕ} n [] ≡ []
take_nil zero = refl
take_nil (suc n) = refl

take-suc {ℓ} :
    {A : Type ℓ} (n m : ℕ) (x : A) (xs : List A) → n ≡ suc m → take n (x ∷ xs) ≡ x ∷ take m xs
take-suc zero m x xs e = absurd (omega arith)
take-suc (suc n) m x xs e = ap (λ k. x ∷ take k xs) (omega arith)

module _ (us : UserSpace) (pi me addr : ℕ) where
  open us use {Memory, load}

  -- The bytes at `addr + i` and on, `rest` of them at most, up to the first that cannot be read.
  abbrev pub user_bytes : Memory → ℕ → ℕ → List ℕ
  user_bytes m zero i = []
  user_bytes m (suc rest) i = elim (load m ((addr + i) % 2 ^ 64)) [
    | none ↦ []
    | some ch ↦ ch ∷ user_bytes m rest (i + 1)
  ]

  -- What a stretch from byte `i` of `rest` comes to, of which `bytes` are the readable ones and
  -- `done` those that it wrote. It returns a count only when it has written all of `bytes`. It
  -- gives up or sleeps only at a full pipe with a byte left to write, and which of the two is
  -- decided by whether a reader is left and the caller lives. The readers are woken before it
  -- returns a count and before it sleeps.
  abbrev pub Outcome : ℕ → ℕ → List ℕ → List ℕ → Table → Wrote → Type 0
  Outcome i rest bytes done ps (Wrote.returned (some j) s) =
      (j ≡ i + length done) × (done ≡ bytes) × (s.procs ≡ wakeup (nread_chan pi) ps)
  Outcome i rest bytes done ps (Wrote.returned none s) =
      (count s.pipe ≡ pipe_size)
      × (length done < rest)
      × ((s.pipe.readopen == 0 || is_killed me s.procs) ≡ true)
      × (s.procs ≡ ps)
  Outcome i rest bytes done ps (Wrote.asleep j s) =
      (j ≡ i + length done)
      × (count s.pipe ≡ pipe_size)
      × (length done < rest)
      × ((s.pipe.readopen == 0 || is_killed me ps) ≡ false)
      × (s.procs ≡ sleep (nwrite_chan pi) me (wakeup (nread_chan pi) ps))

  record Stretch (m : Memory) (i rest : ℕ) (s : PipeState) (r : Wrote) : Type 0 where
    valid : IsValid (after_write r).pipe
    bytes :
        contents (after_write r).pipe
        ≡ contents s.pipe ++ take (pipe_size - count s.pipe) (user_bytes m rest i)
    outcome :
        Outcome i rest
          (user_bytes m rest i)
          (take (pipe_size - count s.pipe) (user_bytes m rest i))
          s.procs
          r

  write_full-Stretch :
      (m : Memory) (i rest : ℕ) (s : PipeState)
      → IsValid s.pipe
      → count s.pipe ≡ pipe_size
      → Stretch m i (suc rest) s (write_full us pi me addr i s)
  unfolding write_full
  write_full-Stretch m i rest s v full =
      let none_fits =
        take_zero (pipe_size - count s.pipe) (user_bytes m (suc rest) i) (omega arith) in
      elim (Bool-cases (s.pipe.readopen == 0 || is_killed me s.procs)) [
        | inl c ↦ rw c (record {
          valid = v;
          bytes = rw none_fits (sym (append-nil (contents s.pipe)));
          outcome = rw none_fits (full, omega arith, c, refl);
        })
        | inr c ↦ rw c (record {
          valid = v;
          bytes = rw none_fits (sym (append-nil (contents s.pipe)));
          outcome = rw none_fits (omega arith, full, omega arith, c, refl);
        })
      ]

  Outcome-cons :
      (i rest ch : ℕ) (bytes done : List ℕ) (ps : Table) (r : Wrote)
      → Outcome (i + 1) rest bytes done ps r
      → Outcome i (suc rest) (ch ∷ bytes) (ch ∷ done) ps r
  Outcome-cons i rest ch bytes done ps (Wrote.returned (some j) s) (count, all, woken) =
      (omega arith, ap (λ (l : List ℕ). ch ∷ l) all, woken)
  Outcome-cons i rest ch bytes done ps (Wrote.returned none s) (full, left, c, same) =
      (full, omega arith, c, same)
  Outcome-cons i rest ch bytes done ps (Wrote.asleep j s) (count, full, left, c, slept) =
      (omega arith, full, omega arith, c, slept)

  -- A stretch that stops at once, at the end of the bytes or at one that cannot be read.
  write_done-Stretch :
      (m : Memory) (i rest : ℕ) (s : PipeState)
      → IsValid s.pipe
      → user_bytes m rest i ≡ []
      → Stretch m i rest s (write_done us pi me addr i s)
  write_done-Stretch m i rest s v e = record {
    valid = v;
    bytes = rw (e, take_nil) (sym (append-nil (contents s.pipe)));
    outcome = rw (e, take_nil) (omega arith, refl, refl);
  }

  -- The rest of a stretch after one byte.
  push-Stretch :
      (m : Memory) (i rest ch : ℕ) (s : PipeState) (r : Wrote)
      → IsValid s.pipe
      → count s.pipe < pipe_size
      → user_bytes m (suc rest) i ≡ ch ∷ user_bytes m rest (i + 1)
      → Stretch m (i + 1) rest (record s { pipe = push ch s.pipe }) r
      → Stretch m i (suc rest) s r
  push-Stretch m i rest ch s r v room e st =
      let more : pipe_size - count s.pipe ≡ suc (pipe_size - count (push ch s.pipe)) =
        omega (arith, count-push ch s.pipe v room) in
      let taken = e' more in
      record {
        valid = st.valid;
        bytes = rw taken (
            st.bytes
            ∙ ap (λ c. c ++ take (pipe_size - count (push ch s.pipe)) (user_bytes m rest (i + 1)))
                (contents-push ch s.pipe v room)
            ∙ append_assoc (contents s.pipe) (ch ∷ []) _);
        outcome = rw (taken, e) (Outcome-cons i rest ch _ _ s.procs r st.outcome);
      }
    where
      e' :
          pipe_size - count s.pipe ≡ suc (pipe_size - count (push ch s.pipe))
          → take (pipe_size - count s.pipe) (user_bytes m (suc rest) i)
            ≡ ch ∷ take (pipe_size - count (push ch s.pipe)) (user_bytes m rest (i + 1))
      e' more = ap (take (pipe_size - count s.pipe)) e ∙ take-suc _ _ ch _ more

  write_loop-Stretch :
      (m : Memory) (rest i : ℕ) (s : PipeState)
      → IsValid s.pipe
      → Stretch m i rest s (write_loop us pi me addr m rest i s)
  unfolding write_loop
  write_loop-Stretch m zero i s v = write_done-Stretch m i 0 s v refl
  write_loop-Stretch m (suc rest) i s v = elim (Bool-cases (is_full s.pipe)) [
    | inl f ↦ rw (f, write_loop) (write_full-Stretch m i rest s v ((is_full_iff s.pipe v).0 f))
    | inr f ↦
        loaded f (λ s' v'. write_loop-Stretch m rest (i + 1) s' v') (load m ((addr + i) % 2 ^ 64))
          refl
  ]
    where
      loaded :
          is_full s.pipe ≡ false
          → ((s' : PipeState)
              → IsValid s'.pipe
              → Stretch m (i + 1) rest s' (write_loop us pi me addr m rest (i + 1) s'))
          → (o : Option ℕ) → load m ((addr + i) % 2 ^ 64) ≡ o
          → Stretch m i (suc rest) s (write_loop us pi me addr m (suc rest) i s)
      loaded f rec none e =
          rw (f, e, write_loop) (write_done-Stretch m i (suc rest) s v (rw (e, user_bytes)))
      loaded f rec (some ch) e =
          let room = (is_full_iff s.pipe v).1 f in
          rw (f, e, write_loop)
            (push-Stretch m i rest ch s _ v room (rw (e, user_bytes))
              (rec (record s { pipe = push ch s.pipe }) (push-IsValid ch s.pipe v room)))

  -- Called with a valid pipe and resumed at byte `i`, `pipewrite` appends to the pipe's contents as
  -- many of the caller's remaining readable bytes as there is room for, in order, and keeps the
  -- pipe valid. It returns the number of bytes written so far only when all of those are, so that
  -- the bytes have ended or one cannot be read, and wakes the readers. Otherwise the pipe is full
  -- with bytes left: it returns -1 and touches no process if no reader is left or the caller has
  -- been killed, and else it wakes the readers and sleeps, with the number of bytes written so far.
  pub pipewrite_lem :
      (m : Memory) (n i : ℕ) (s : PipeState)
      → IsValid s.pipe
      → let r = pipewrite us pi me addr m n i s in
        let accepted = take (pipe_size - count s.pipe) (user_bytes m (n - i) i) in
        IsValid (after_write r).pipe
        × (contents (after_write r).pipe ≡ contents s.pipe ++ accepted)
        × Outcome i (n - i) (user_bytes m (n - i) i) accepted s.procs r
  unfolding pipewrite
  pipewrite_lem m n i s v =
      let st = write_loop-Stretch m (n - i) i s v in (st.valid, st.bytes, st.outcome)
