-- ===== src/Proc/Life/Wait.antt =====
-- What `wait` returns, whom it frees, and when it sleeps.
use my_oslab.Base.{
  ℕ, ◌+◌, ◌≡◌, refl, ap, ◌∙◌, Bool, true, false, not, ◌||◌, none, some, [], ◌∷◌, ◌++◌, get_elem?,
  length, ◌==◌, if◌then◌else◌, Bool-cases, inl, inr, arith,
}
use my_oslab.Proc.{Proc, Table, is_zombie, is_child, sleep, of_proc}
use my_oslab.Proc.Life.{Services, Kernel, freeproc}
use my_oslab.Proc.Life.Family.{exited, no_zombie, scan_children, returned, asleep, reap, wait}

-- No child of `me` in the table is a zombie.
abbrev pub NoZombieChild : ℕ → Table → Type 0
NoZombieChild me [] = Unit
NoZombieChild me (p ∷ ps) = (is_child me p ≡ true → is_zombie p.state ≡ false) × NoZombieChild me ps

abbrev pub has_child : ℕ → Table → Bool
has_child me [] = false
has_child me (p ∷ ps) = is_child me p || has_child me ps

get_elem?-append_length :
    (before : Table) (np : Proc) (behind : Table)
    → get_elem? (before ++ (np ∷ behind)) (length before) ≡ some np
get_elem?-append_length [] np behind = refl
get_elem?-append_length (p ∷ before) np behind = get_elem?-append_length before np behind

scan_children-exited :
    (me : ℕ) (before : Table) (np : Proc) (behind : Table) (i : ℕ) (h : Bool)
    → NoZombieChild me before
    → is_child me np ≡ true
    → is_zombie np.state ≡ true
    → scan_children me (before ++ (np ∷ behind)) i h ≡ exited (i + length before)
unfolding scan_children
scan_children-exited me [] np behind i h out c z =
    rw (c, z, scan_children) (ap exited (omega arith))
scan_children-exited me (p ∷ before) np behind i h out c z = elim (Bool-cases (is_child me p)) [
  | inl e ↦
      rw (e, out.0 e, scan_children)
        (scan_children-exited me before np behind (i + 1) true out.1 c z ∙ ap exited (omega arith))
  | inr e ↦
      rw (e, scan_children)
        (scan_children-exited me before np behind (i + 1) h out.1 c z ∙ ap exited (omega arith))
]

scan_children-no_zombie :
    (me : ℕ) (ps : Table) (i : ℕ) (h : Bool)
    → NoZombieChild me ps
    → scan_children me ps i h ≡ no_zombie (h || has_child me ps)
unfolding scan_children
scan_children-no_zombie me [] i h out = ground arith
scan_children-no_zombie me (p ∷ ps) i h out = elim (Bool-cases (is_child me p)) [
  | inl e ↦
      rw (e, out.0 e, scan_children)
        (scan_children-no_zombie me ps (i + 1) true out.1 ∙ ground arith)
  | inr e ↦ rw (e, scan_children) (scan_children-no_zombie me ps (i + 1) h out.1)
]

module _ (sv : Services) where
  -- If `me` has an exited child, `wait` takes the first one in the table: with a null address, or
  -- one that the exit status could be copied to, it frees that child's slot and returns its pid;
  -- if the copy fails it returns -1 and frees nothing. The flags and `killed` play no part.
  pub wait_zombie :
      (me addr flags : ℕ) (k : Kernel sv) (p : Proc) (before : Table) (np : Proc) (behind : Table)
      → get_elem? k.procs me ≡ some p
      → k.procs ≡ before ++ (np ∷ behind)
      → NoZombieChild me before
      → is_child me np ≡ true
      → is_zombie np.state ≡ true
      → let (copied, w) = sv.copyout p.pagetable addr np.xstate k.world in
        wait sv me addr flags k ≡ (
          if addr == 0
          then returned (some np.pid) (freeproc sv (length before) k)
          else if copied
          then returned (some np.pid) (freeproc sv (length before) (record k { world = w }))
          else returned none (record k { world = w }))
  unfolding wait reap
  wait_zombie me addr flags k p before np behind at split out c z =
      rw (at, scan, slot, wait, reap) refl
    where
      scan : scan_children me k.procs 0 false ≡ exited (length before)
      scan =
          rw split
            (scan_children-exited me before np behind 0 false out c z ∙ ap exited (omega arith))

      slot : get_elem? k.procs (length before) ≡ some np
      slot = rw split (get_elem?-append_length before np behind)

  -- If no child of `me` has exited, `wait` returns -1 and changes nothing where `me` has no child,
  -- has been killed, or passed a flag; otherwise it puts `me` to sleep on its own channel.
  pub wait_no_zombie :
      (me addr flags : ℕ) (k : Kernel sv) (p : Proc)
      → get_elem? k.procs me ≡ some p
      → NoZombieChild me k.procs
      → wait sv me addr flags k ≡ (
          if not (has_child me k.procs) || not (p.killed == 0) || not (flags == 0)
          then returned none k
          else asleep (record k { procs = sleep (of_proc me) me k.procs }))
  unfolding wait
  wait_no_zombie me addr flags k p at out =
      rw (at, scan_children-no_zombie me k.procs 0 false out, wait) (ground arith)
