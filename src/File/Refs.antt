-- ===== src/File/Refs.antt =====
-- The reference counts of open files.
use my_oslab.Base.{
  ℕ, zero, suc, ◌+◌, ◌-◌, ◌<◌, ◌≡◌, ◌≢◌, inl, inr, refl, ap, subst, ◌∙◌, true, false, Option, none,
  some, [], ◌∷◌, get_elem?, get_elem?-set_self, set, set-set, set_same, lt-of_get_elem?, ◌==◌, ltb,
  Bool-cases, arith,
}
use my_oslab.File.{File, FileType, Ftable, FileOps, filealloc, filedup, fileclose, close_last}

module _ (ops : FileOps) where
  -- `fileclose` undoes `filedup`: it finds a reference left, calls nothing and puts the table back.
  pub fileclose-filedup :
      (i : ℕ) (fs fs' : Ftable) (w : ops.World)
      → filedup i fs ≡ some fs'
      → fileclose ops i fs' w ≡ some (fs, w)
  unfolding filedup fileclose
  fileclose-filedup i fs fs' w h = at (get_elem? fs i) refl
    where
      closed :
          (f : File)
          → get_elem? fs i ≡ some f
          → ltb f.ref 1 ≡ false
          → fileclose ops i (set fs i (record f { ref = f.ref + 1 })) w ≡ some (fs, w)
      closed f e t =
          let g : File = record f { ref = f.ref + 1 } in
          let found : get_elem? (set fs i g) i ≡ some g =
            get_elem?-set_self fs i g (lt-of_get_elem? fs i f e) in
          let held : ltb (f.ref + 1) 1 ≡ false = ground arith in
          let left : ltb 0 (f.ref + 1 - 1) ≡ true = ground arith in
          let less : f.ref + 1 - 1 ≡ f.ref = omega arith in
          rw (fileclose, found, held, left)
            (ap (λ x. some (x, w))
              (set-set fs i g (record g { ref = f.ref + 1 - 1 })
                ∙ ap (λ r. set fs i (record f { ref = r })) less
                ∙ set_same fs i f e))

      at : (o : Option File) → get_elem? fs i ≡ o → fileclose ops i fs' w ≡ some (fs, w)
      at none e = absurd (let h' = rw (e, filedup) at h in ground (arith, h'))
      at (some f) e = elim (Bool-cases (ltb f.ref 1)) [
        | inl t ↦ absurd (let h' = rw (e, filedup, t) at h in ground (arith, h'))
        | inr t ↦
            let h' = rw (e, filedup, t) at h in
            subst (λ x. fileclose ops i x w ≡ some (fs, w)) (cc h') (closed f e t)
      ]

  -- `fileclose` again and again.
  abbrev pub closes : ℕ → ℕ → Ftable → ops.World → Option (Ftable × ops.World)
  closes zero i fs w = some (fs, w)
  closes (suc n) i fs w = elim (fileclose ops i fs w) [
    | none ↦ none
    | some (fs', w') ↦ closes n i fs' w'
  ]

  pub fileclose_last :
      (i : ℕ) (fs : Ftable) (f : File) (w : ops.World)
      → get_elem? fs i ≡ some f
      → f.ref ≡ 1
      → fileclose ops i fs w
        ≡ some (set fs i (record f { ref = 0; type = FileType.fd_none }), close_last ops f w)
  unfolding fileclose
  fileclose_last i fs f w e h =
      let held : ltb f.ref 1 ≡ false = ground arith in
      let last : ltb 0 (f.ref - 1) ≡ false = ground arith in rw (fileclose, e, held, last) refl

  fileclose_more :
      (i : ℕ) (fs : Ftable) (f : File) (w : ops.World)
      → get_elem? fs i ≡ some f
      → 1 < f.ref
      → fileclose ops i fs w ≡ some (set fs i (record f { ref = f.ref - 1 }), w)
  unfolding fileclose
  fileclose_more i fs f w e h =
      let held : ltb f.ref 1 ≡ false = ground arith in
      let more : ltb 0 (f.ref - 1) ≡ true = ground arith in rw (fileclose, e, held, more) refl

  -- A file that has `k + 1` references is released by the last of `k + 1` closes, which lets go of
  -- its pipe or inode once; then its slot is free.
  pub closes_lem :
      (k i : ℕ) (fs : Ftable) (f : File) (w : ops.World)
      → get_elem? fs i ≡ some f
      → f.ref ≡ suc k
      → closes (suc k) i fs w
        ≡ some (set fs i (record f { ref = 0; type = FileType.fd_none }), close_last ops f w)
  unfolding close_last
  closes_lem zero i fs f w e h = rw (closes, fileclose_last i fs f w e h) refl
  closes_lem (suc k) i fs f w e h =
      let g : File = record f { ref = f.ref - 1 } in
      let rest =
        closes_lem k i (set fs i g) g w (get_elem?-set_self fs i g (lt-of_get_elem? fs i f e))
          (omega arith) in
      rw (closes, fileclose_more i fs f w e (omega arith))
        (rest
          ∙ ap (λ x. some (x, close_last ops f w))
              (set-set fs i g (record g { ref = 0; type = FileType.fd_none })))

-- `filealloc` from file number `k` on takes the first file that has no reference, and none only if
-- all have one.
pub data Allocated (k : ℕ) (fs : Ftable) : Option ℕ × Ftable → Type 0 where
  found :
      (i : ℕ) (f : File)
      → get_elem? fs i ≡ some f
      → f.ref ≡ 0
      → ((j : ℕ) (g : File) → j < i → get_elem? fs j ≡ some g → g.ref ≢ 0)
      → Allocated k fs (some (k + i), set fs i (record f { ref = 1 }))
  full : ((j : ℕ) (g : File) → get_elem? fs j ≡ some g → g.ref ≢ 0) → Allocated k fs (none, fs)

Allocated-cons :
    (k : ℕ) (f : File) (fs : Ftable) (r : Option ℕ × Ftable)
    → f.ref ≢ 0
    → Allocated (k + 1) fs r
    → Allocated k (f ∷ fs) (r.0, f ∷ r.1)
Allocated-cons k f fs _ h (found i g e z before) =
    let next : k + suc i ≡ k + 1 + i = omega arith in
    subst (λ x. Allocated k (f ∷ fs) (some x, f ∷ set fs i (record g { ref = 1 }))) next
      (Allocated.found (suc i) g e z each)
  where
    each : (j : ℕ) (g' : File) → j < suc i → get_elem? (f ∷ fs) j ≡ some g' → g'.ref ≢ 0
    each zero g' l d = let same : f ≡ g' = cc d in subst (λ (x : File). x.ref ≢ 0) same h
    each (suc j) g' l d = before j g' (omega arith) d
Allocated-cons k f fs _ h (full all) = Allocated.full each
  where
    each : (j : ℕ) (g' : File) → get_elem? (f ∷ fs) j ≡ some g' → g'.ref ≢ 0
    each zero g' d = let same : f ≡ g' = cc d in subst (λ (x : File). x.ref ≢ 0) same h
    each (suc j) g' d = all j g' d

-- `filealloc` takes the first file of the table without a reference, gives it one, and changes
-- nothing else; it takes none only if every file has a reference.
pub filealloc-Allocated : (k : ℕ) (fs : Ftable) → Allocated k fs (filealloc k fs)
unfolding filealloc
filealloc-Allocated k [] = Allocated.full (λ j g e. absurd (ground (arith, e)))
filealloc-Allocated k (f ∷ fs) = elim (Bool-cases (f.ref == 0)) [
  | inl e ↦
      rw (filealloc, e)
        (let here : k + 0 ≡ k = omega arith in
          subst (λ x. Allocated k (f ∷ fs) (some x, record f { ref = 1 } ∷ fs)) here
            (Allocated.found 0 f refl (ground arith) (λ j g l d. absurd (omega arith))))
  | inr e ↦
      rw (filealloc, e) (Allocated-cons k f fs _ (ground arith) (filealloc-Allocated (k + 1) fs))
]
