-- ===== src/Pipe/Alloc/Made.antt =====
-- `pipealloc` makes both ends of a new pipe, or changes nothing.
use mathlib.Core.Option
use my_oslab.Base.{
  ℕ, ◌+◌, ◌≡◌, ◌≢◌, refl, sym, ap, ap₂, subst, ◌∙◌, true, false, Option, none, some, [], ◌∷◌,
  get_elem?, get_elem?-set_self, get_elem?-set_ne, get_elem?-modify_self, get_elem?-modify_ne, set,
  set-set, set_same, set_comm, lt-of_get_elem?, modify, ◌==◌, ==→eq, ne→==, ==_self, inl, inr,
  Bool-cases, arith,
}
use my_oslab.Kalloc.{Kmem, kalloc}
use my_oslab.File.{File, FileType, Ftable, FileOps, filealloc, close_last}
use my_oslab.File.Refs.{Allocated, filealloc-Allocated, fileclose_last}
use my_oslab.Pipe.Alloc.{
  opened, read_end, write_end, put_pipe, AllocState, Result, closed, close_in, bad, then_bad,
  connect, second_file, first_file, pipealloc,
}

-- The files that are free stand for nothing, as `fileclose` leaves them.
unfoldable pub IsClean : Ftable → Type 0
IsClean fs = (i : ℕ) (f : File) → get_elem? fs i ≡ some f → f.ref ≡ 0 → f.type ≡ FileType.fd_none

kalloc-zero : (k : Kmem) → (kalloc k).0 ≡ 0 → (kalloc k).1 ≡ k
unfolding kalloc
kalloc-zero k h = elim (Bool-cases (k.freelist == 0)) [
  | inl e ↦ rw (kalloc, e) refl
  | inr e ↦ absurd (let h' = rw (kalloc, e) at h in ground (arith, h', e))
]

refree :
    (f : File)
    → f.ref ≡ 0
    → f.type ≡ FileType.fd_none
    → record f { ref = 0; type = FileType.fd_none } ≡ f
refree f e t = ap₂ (λ (r : ℕ) (y : FileType). record f { ref = r; type = y }) (sym e) (sym t)

-- The file that `filealloc` takes.
data Fresh (fs : Ftable) : Option ℕ × Ftable → Type 0 where
  fresh :
      (i : ℕ) (f : File)
      → get_elem? fs i ≡ some f
      → f.ref ≡ 0
      → Fresh fs (some i, set fs i (record f { ref = 1 }))
  full : Fresh fs (none, fs)

filealloc-Fresh : (fs : Ftable) → Fresh fs (filealloc 0 fs)
filealloc-Fresh fs = at (filealloc 0 fs) (filealloc-Allocated 0 fs)
  where
    at : (r : Option ℕ × Ftable) → Allocated 0 fs r → Fresh fs r
    at _ (Allocated.found i f e z before) =
        let same : i ≡ 0 + i = omega arith in
        subst (λ (n : ℕ). Fresh fs (some n, set fs i (record f { ref = 1 }))) same
          (Fresh.fresh i f e z)
    at _ (Allocated.full all) = Fresh.full

module _ (ops : FileOps) where
  -- The file `i` is `f` with a first reference, and becomes an end of the pipe.
  pub data Makes (s : AllocState ops) : Result ops → Type 0 where
    makes :
        (i j pi : ℕ) (f g : File) (s' : AllocState ops)
        → get_elem? s.files i ≡ some f
        → f.ref ≡ 0
        → get_elem? s.files j ≡ some g
        → g.ref ≡ 0
        → i ≢ j
        → pi ≢ 0
        → kalloc s.kmem ≡ (pi, s'.kmem)
        → get_elem? s'.files i ≡ some (read_end pi (record f { ref = 1 }))
        → get_elem? s'.files j ≡ some (write_end pi (record g { ref = 1 }))
        → ((n : ℕ) → n ≢ i → n ≢ j → get_elem? s'.files n ≡ get_elem? s.files n)
        → s'.pipes pi ≡ opened (s.pipes pi)
        → ((a : ℕ) → a ≢ pi → s'.pipes a ≡ s.pipes a)
        → s'.world ≡ s.world
        → Makes s (some (some (i, (j, pi)), s'))
    fails : Makes s (some (none, s))

  close_none : (f : File) (w : ops.World) → f.type ≡ FileType.fd_none → close_last ops f w ≡ w
  unfolding close_last
  close_none f w t = rw (close_last, t) refl

  -- A file that was just allocated is closed again.
  close_new :
      (i : ℕ) (fs : Ftable) (f : File) (s : AllocState ops)
      → get_elem? fs i ≡ some f
      → f.ref ≡ 0
      → f.type ≡ FileType.fd_none
      → s.files ≡ set fs i (record f { ref = 1 })
      → close_in ops i s ≡ some (record s { files = fs })
  unfolding close_last
  close_new i fs f s e r t h =
      let f1 : File = record f { ref = 1 } in
      let found : get_elem? s.files i ≡ some f1 =
        ap (λ (x : Ftable). get_elem? x i) h
        ∙ get_elem?-set_self fs i f1 (lt-of_get_elem? fs i f e) in
      let back : set s.files i (record f1 { ref = 0; type = FileType.fd_none }) ≡ fs =
        ap (λ (x : Ftable). set x i (record f { ref = 0; type = FileType.fd_none })) h
        ∙ set-set fs i f1 (record f { ref = 0; type = FileType.fd_none })
        ∙ ap (set fs i) (refree f r t)
        ∙ set_same fs i f e in
      ap (closed ops s) (fileclose_last ops i s.files f1 s.world found refl)
      ∙ ap₂ (λ (x : Ftable) (w : ops.World). some (record s { files = x; world = w })) back
          (close_none f1 s.world t)

  -- Both files are closed again.
  close_both :
      (i j : ℕ) (f g : File) (s : AllocState ops)
      → get_elem? s.files i ≡ some f
      → f.ref ≡ 0
      → f.type ≡ FileType.fd_none
      → get_elem? s.files j ≡ some g
      → g.ref ≡ 0
      → g.type ≡ FileType.fd_none
      → i ≢ j
      → bad ops
          (i ∷ (j ∷ []))
          (record s { files = set (set s.files i (record f { ref = 1 })) j (record g { ref = 1 }) })
        ≡ some (none, s)
  close_both i j f g s e z t e' z' t' ne =
      let f1 : File = record f { ref = 1 } in
      let g1 : File = record g { ref = 1 } in
      let s1 = record s { files = set s.files j g1 } in
      ap (then_bad ops (bad ops (j ∷ []))) (
        close_new i (set s.files j g1) f (record s { files = set (set s.files i f1) j g1 })
          (get_elem?-set_ne s.files j i g1 (λ q. ne (sym q)) ∙ e) z t
          (set_comm s.files i j f1 g1 ne))
      ∙ ap (then_bad ops (bad ops [])) (close_new j s.files g s1 e' z' t' refl)

  differ :
      (i j : ℕ) (f g : File) (fs : Ftable)
      → get_elem? fs i ≡ some f
      → get_elem? (set fs i (record f { ref = 1 })) j ≡ some g
      → g.ref ≡ 0
      → i ≢ j
  differ i j f g fs e e' z same =
      let f1 : File = record f { ref = 1 } in
      let at_i : get_elem? (set fs i f1) i ≡ some g =
        subst (λ (n : ℕ). get_elem? (set fs i f1) n ≡ some g) (sym same) e' in
      let is_f : some f1 ≡ some g =
        sym (get_elem?-set_self fs i f1 (lt-of_get_elem? fs i f e)) ∙ at_i in
      let one : 1 ≡ 0 = ap (λ (o : Option File). elim o [ none ↦ 1 | some x ↦ x.ref ]) is_f ∙ z in
      absurd (omega (arith, one))

  connects :
      (i j : ℕ) (f g : File) (s : AllocState ops)
      → IsClean s.files
      → get_elem? s.files i ≡ some f
      → f.ref ≡ 0
      → get_elem? s.files j ≡ some g
      → g.ref ≡ 0
      → i ≢ j
      → Makes s (
          connect ops i j (kalloc s.kmem) (record s {
            files = set (set s.files i (record f { ref = 1 })) j (record g { ref = 1 });
          }))
  unfolding IsClean
  connects i j f g s clean e z e' z' ne = elim (Bool-cases (pi == 0)) [
    | inl none_left ↦ subst (Makes s) (sym (undone none_left)) Makes.fails
    | inr page ↦
        let fresh_page : pi ≢ 0 = λ q. absurd (ground (arith, page, q)) in
        subst (Makes s) (sym (done page)) (
          Makes.makes i j pi f g s' e z e' z' ne fresh_page refl at_i at_j others
            (rw (==_self pi) refl) (λ a h. rw (ne→== a pi h) refl) refl)
  ]
    where
      pi : ℕ
      pi = (kalloc s.kmem).0

      f1 : File
      f1 = record f { ref = 1 }

      g1 : File
      g1 = record g { ref = 1 }

      fs2 : Ftable
      fs2 = set (set s.files i f1) j g1

      s' : AllocState ops
      s' = record s {
        files = modify (write_end pi) j (modify (read_end pi) i fs2);
        kmem = (kalloc s.kmem).1;
        pipes = put_pipe s.pipes pi;
      }

      undone :
          (pi == 0) ≡ true
          → connect ops i j (kalloc s.kmem) (record s { files = fs2 }) ≡ some (none, s)
      undone none_left = rw none_left (
          ap (λ (k : Kmem). bad ops (i ∷ (j ∷ [])) (record s { files = fs2; kmem = k }))
            (kalloc-zero s.kmem (==→eq pi 0 none_left))
          ∙ close_both i j f g s e z (clean i f e z) e' z' (clean j g e' z') ne)

      done :
          (pi == 0) ≡ false
          → connect ops i j (kalloc s.kmem) (record s { files = fs2 })
            ≡ some (some (i, (j, pi)), s')
      done page = rw page refl

      ne' : j ≢ i
      ne' q = ne (sym q)

      at_i : get_elem? s'.files i ≡ some (read_end pi f1)
      at_i =
          get_elem?-modify_ne (write_end pi) (modify (read_end pi) i fs2) j i ne'
          ∙ get_elem?-modify_self (read_end pi) fs2 i
          ∙ ap (Option.map (read_end pi)) (
              get_elem?-set_ne (set s.files i f1) j i g1 ne'
              ∙ get_elem?-set_self s.files i f1 (lt-of_get_elem? s.files i f e))

      at_j : get_elem? s'.files j ≡ some (write_end pi g1)
      at_j =
          get_elem?-modify_self (write_end pi) (modify (read_end pi) i fs2) j
          ∙ ap (Option.map (write_end pi)) (
              get_elem?-modify_ne (read_end pi) fs2 i j ne
              ∙ get_elem?-set_self (set s.files i f1) j g1 (
                  lt-of_get_elem? (set s.files i f1) j g (get_elem?-set_ne s.files i j f1 ne ∙ e')))

      others : (n : ℕ) → n ≢ i → n ≢ j → get_elem? s'.files n ≡ get_elem? s.files n
      others n hi hj =
          get_elem?-modify_ne (write_end pi) (modify (read_end pi) i fs2) j n (λ q. hj (sym q))
          ∙ get_elem?-modify_ne (read_end pi) fs2 i n (λ q. hi (sym q))
          ∙ get_elem?-set_ne (set s.files i f1) j n g1 (λ q. hj (sym q))
          ∙ get_elem?-set_ne s.files i n f1 (λ q. hi (sym q))

  -- Provided that the free files stand for nothing, `pipealloc` does not panic. If it returns 0, two
  -- different files that were free have one reference each and are the read end and the write end of
  -- one pipe, in a page that `kalloc` gave, which is open at both ends and empty; all other files and
  -- pipes are as before. If it returns -1, the files, the pages and the pipes are as before.
  pub pipealloc-Makes : (s : AllocState ops) → IsClean s.files → Makes s (pipealloc ops s)
  unfolding pipealloc IsClean
  pipealloc-Makes s clean = first (filealloc 0 s.files) (filealloc-Fresh s.files)
    where
      second :
          (i : ℕ) (f : File) (r : Option ℕ × Ftable)
          → get_elem? s.files i ≡ some f
          → f.ref ≡ 0
          → Fresh (set s.files i (record f { ref = 1 })) r
          → Makes s
              (second_file ops i r (record s { files = set s.files i (record f { ref = 1 }) }))
      second i f _ e z Fresh.full =
          subst (Makes s)
            (sym (
              ap (then_bad ops (bad ops [])) (
                close_new i s.files f (record s { files = set s.files i (record f { ref = 1 }) }) e
                  z (clean i f e z) refl)))
            Makes.fails
      second i f _ e z (Fresh.fresh j g e' z') =
          let ne = differ i j f g s.files e e' z' in
          connects i j f g s clean e z
            (sym (get_elem?-set_ne s.files i j (record f { ref = 1 }) ne) ∙ e') z' ne

      first : (r : Option ℕ × Ftable) → Fresh s.files r → Makes s (first_file ops r s)
      first _ Fresh.full = Makes.fails
      first _ (Fresh.fresh i f e z) =
          let fs1 = set s.files i (record f { ref = 1 }) in
          second i f (filealloc 0 fs1) e z (filealloc-Fresh fs1)
