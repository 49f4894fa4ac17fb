-- ===== src/Sysfile/Fd/Dup.antt =====
-- `fdalloc` takes the first free descriptor, and `sys_close` undoes `sys_dup`.
use my_oslab.Base.{
  ℕ, zero, suc, ◌+◌, ◌<◌, ◌≡◌, ◌≢◌, refl, ap, ap₂, ◌∙◌, subst, Option, none, some, [], ◌∷◌,
  get_elem?, get_elem?-set_self, lt-of_get_elem?, set, set-set, set_same, arith, ℤ, pos,
}
use my_oslab.File.{FileOps, Ftable, filedup}
use my_oslab.File.Refs.{fileclose-filedup}
use my_oslab.Sysfile.Fd.{
  Ofile, argfd, keep_entry, fdalloc, dup_result, dup_file, sys_dup, close_file, sys_close,
}

-- Which descriptor `fdalloc` takes.
pub data FirstFree (f fd : ℕ) (ofile : Ofile) : Option (ℕ × Ofile) → Type 0 where
  takes :
      (n : ℕ)
      → get_elem? ofile n ≡ some none
      → ((j : ℕ) → j < n → get_elem? ofile j ≢ some none)
      → FirstFree f fd ofile (some (fd + n, set ofile n (some f)))
  full : ((j : ℕ) → get_elem? ofile j ≢ some none) → FirstFree f fd ofile none

pub fdalloc-FirstFree : (f fd : ℕ) (ofile : Ofile) → FirstFree f fd ofile (fdalloc f fd ofile)
unfolding fdalloc
fdalloc-FirstFree f fd [] = FirstFree.full (λ j e. absurd (cc e))
fdalloc-FirstFree f fd (none ∷ ofile) =
    let same : fd + 0 ≡ fd = omega arith in
    subst (λ (n : ℕ). FirstFree f fd (none ∷ ofile) (some (n, some f ∷ ofile))) same
      (FirstFree.takes 0 refl (λ j lt. absurd (omega (arith, lt))))
fdalloc-FirstFree f fd (some g ∷ ofile) =
    kept (fdalloc f (fd + 1) ofile) (fdalloc-FirstFree f (fd + 1) ofile)
  where
    kept :
        (r : Option (ℕ × Ofile))
        → FirstFree f (fd + 1) ofile r
        → FirstFree f fd (some g ∷ ofile) (keep_entry (some g) r)
    kept _ (FirstFree.takes n here before) =
        let same : fd + suc n ≡ fd + 1 + n = omega arith in
        subst (λ (k : ℕ). FirstFree f fd (some g ∷ ofile) (some (k, some g ∷ set ofile n (some f))))
          same (FirstFree.takes (suc n) here earlier)
      where
        earlier : (j : ℕ) → j < suc n → get_elem? (some g ∷ ofile) j ≢ some none
        earlier zero lt e = absurd (cc e)
        earlier (suc j) lt e = before j (omega (arith, lt)) e
    kept _ (FirstFree.full all) = FirstFree.full earlier
      where
        earlier : (j : ℕ) → get_elem? (some g ∷ ofile) j ≢ some none
        earlier zero e = absurd (cc e)
        earlier (suc j) e = all j e

module _ (ops : FileOps) where
  -- A `sys_dup` that returns a descriptor returns the first that was free, and a `sys_close` of it
  -- then returns 0 and leaves the descriptors, the file table and what files stand for as they
  -- were before the `sys_dup`.
  pub sys_close-sys_dup :
      (arg : ℤ) (fd : ℕ) (ofile ofile' : Ofile) (fs fs' : Ftable) (w : ops.World)
      → sys_dup arg ofile fs ≡ some (pos fd, (ofile', fs'))
      → (get_elem? ofile fd ≡ some none)
        × ((j : ℕ) → j < fd → get_elem? ofile j ≢ some none)
        × (sys_close ops (pos fd) ofile' fs' w ≡ some (pos 0, (ofile, (fs, w))))
  unfolding sys_dup sys_close argfd
  sys_close-sys_dup arg fd ofile ofile' fs fs' w h = by_arg (argfd ofile arg) refl
    where
      Goal : Type 0
      Goal =
          (get_elem? ofile fd ≡ some none)
          × ((j : ℕ) → j < fd → get_elem? ofile j ≢ some none)
          × (sys_close ops (pos fd) ofile' fs' w ≡ some (pos 0, (ofile, (fs, w))))

      closed :
          (f n : ℕ)
          → get_elem? ofile n ≡ some none
          → filedup f fs ≡ some fs'
          → sys_close ops (pos n) (set ofile n (some f)) fs' w ≡ some (pos 0, (ofile, (fs, w)))
      closed f n free dup =
          let found : get_elem? (set ofile n (some f)) n ≡ some (some f) =
            get_elem?-set_self ofile n (some f) (lt-of_get_elem? ofile n none free) in
          let back : set (set ofile n (some f)) n none ≡ ofile =
            set-set ofile n (some f) none ∙ set_same ofile n none free in
          rw (sys_close, argfd, found)
            (ap₂ (λ (o : Ofile) (r : Option (Ftable × ops.World)). close_file ops o r) back
              (fileclose-filedup ops f fs fs' w dup))

      by_filedup :
          (f n : ℕ)
          → get_elem? ofile n ≡ some none
          → ((j : ℕ) → j < n → get_elem? ofile j ≢ some none)
          → (o : Option Ftable) → filedup f fs ≡ o
          → dup_result n (set ofile n (some f)) o ≡ some (pos fd, (ofile', fs'))
          → Goal
      by_filedup f n free before none e h' = absurd (cc h')
      by_filedup f n free before (some x) e h' =
          let same : n ≡ fd = cc h' in
          let entries : set ofile n (some f) ≡ ofile' = cc h' in
          let files : x ≡ fs' = cc h' in
          (
            subst (λ (i : ℕ). get_elem? ofile i ≡ some none) same free,
            subst (λ (i : ℕ). (j : ℕ) → j < i → get_elem? ofile j ≢ some none) same before,
            subst (λ (i : ℕ). sys_close ops (pos i) ofile' fs' w ≡ some (pos 0, (ofile, (fs, w))))
                same
                (subst
                  (λ (l : Ofile). sys_close ops (pos n) l fs' w ≡ some (pos 0, (ofile, (fs, w))))
                  entries (closed f n free (e ∙ ap some files))),
          )

      by_fdalloc :
          (f : ℕ) (r : Option (ℕ × Ofile))
          → FirstFree f 0 ofile r
          → dup_file f ofile fs r ≡ some (pos fd, (ofile', fs'))
          → Goal
      by_fdalloc f _ (FirstFree.takes n free before) h' =
          let same : 0 + n ≡ n = omega arith in
          by_filedup f n free before (filedup f fs) refl (rw same at h')
      by_fdalloc f _ (FirstFree.full all) h' = absurd (cc h')

      by_arg : (o : Option (ℕ × ℕ)) → argfd ofile arg ≡ o → Goal
      by_arg none e = absurd (cc (rw (sys_dup, e) at h))
      by_arg (some (g, f)) e =
          by_fdalloc f (fdalloc f 0 ofile) (fdalloc-FirstFree f 0 ofile) (rw (sys_dup, e) at h)
