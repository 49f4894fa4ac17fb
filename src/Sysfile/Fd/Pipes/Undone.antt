-- ===== src/Sysfile/Fd/Pipes/Undone.antt =====
-- A `sys_pipe` that fails leaves no descriptor and no reference behind.
use mathlib.Core.Option
use my_oslab.Base.{
  List, [], ◌∷◌, ◌<◌, ℕ, ◌+◌, ◌%◌, ◌^◌, ◌≡◌, ◌≢◌, refl, sym, ap, ap₂, subst, ◌∙◌, Option, none,
  some, get_elem?, get_elem?-set_ne, set, ℤ, pos, negsuc,
}
use my_oslab.Strings.{Bytes}
use my_oslab.Kalloc.{Kmem, kalloc, kfree}
use my_oslab.Kalloc.Chain.{IsFree}
use my_oslab.Kalloc.Pages.{kfree-cons, kalloc-cons, kalloc-nil}
use my_oslab.File.{File, FileOps}
use my_oslab.Vm.Copy.{copyout}
use my_oslab.Pipe.Alloc.{AllocState, Result, pipealloc}
use my_oslab.Pipe.Alloc.Made.{IsClean, Makes, pipealloc-Makes}
use my_oslab.Sysfile.Fd.{Ofile, fdalloc}
use my_oslab.Sysfile.Fd.Pipes.{
  int_bytes, Called, close_ends, failed, clear_both, told, tell_second, second_fd, first_fd,
  with_pipe, sys_pipe,
}
use my_oslab.Sysfile.Fd.Pipes.Ends.{
  refs, First, fdalloc-First, cleared, other_fd, both_cleared, Ends, Ends-close_ends,
}

-- The page that `kalloc` gave can be given back, and then the same pages are free as before.
page_back :
    (end pi : ℕ) (k k1 : Kmem) (qs : List ℕ)
    → 0 < end
    → IsFree end k qs
    → pi ≢ 0
    → kalloc k ≡ (pi, k1)
    → (k2 : Kmem) × (kfree end pi k1 ≡ some k2) × IsFree end k2 qs
page_back end pi k k1 [] small free ne e =
    absurd (ne (sym (ap (λ (r : ℕ × Kmem). r.0) (sym (kalloc-nil end k free) ∙ e))))
page_back end pi k k1 (q ∷ qs) small (head, page, out, rest) ne e =
    let (same, left, _, _) = kalloc-cons end q k qs small (head, page, out, rest) in
    let at_q : q ≡ pi = sym same ∙ ap (λ (r : ℕ × Kmem). r.0) e in
    let free1 : IsFree end k1 qs =
      subst (λ (x : Kmem). IsFree end x qs) (ap (λ (r : ℕ × Kmem). r.1) e) left in
    let (k2, given, back) = kfree-cons end q k1 qs page out free1 in
    subst (λ (x : ℕ). (k2 : Kmem) × (kfree end x k1 ≡ some k2) × IsFree end k2 (q ∷ qs)) at_q
      (k2, given, back)

module _ (ops : FileOps) (end table fdarray : ℕ) where
  -- What `sys_pipe` does: it fails, or two descriptors that were free stand for the ends of the
  -- pipe that `pipealloc` made.
  pub data Pipes (ofile : Ofile) (s : AllocState ops) (qs : List ℕ)
      : Called ops end table fdarray → Type 0 where
    fails :
        (s' : AllocState ops) (m : Bytes)
        → ((n : ℕ) → refs s'.files n ≡ refs s.files n)
        → IsFree end s'.kmem qs
        → Pipes ofile s qs (some (negsuc 0, (ofile, (s', m))))
    pipes :
        (fd0 fd1 rf wf pi : ℕ) (s' : AllocState ops) (m : Bytes)
        → Makes ops s (some (some (rf, (wf, pi)), s'))
        → get_elem? ofile fd0 ≡ some none
        → get_elem? ofile fd1 ≡ some none
        → fd0 ≢ fd1
        → Pipes ofile s qs (some (pos 0, (set (set ofile fd0 (some rf)) fd1 (some wf), (s', m))))

  -- An end of the call behind `pipealloc` that fails.
  failed-Pipes :
      (ofile ofile' : Ofile) (s s' : AllocState ops) (rf wf pi : ℕ) (free : Kmem) (qs : List ℕ)
      (m : Bytes)
      → Ends ops end table fdarray s s' rf wf pi free
      → IsFree end free qs
      → ofile' ≡ ofile
      → Pipes ofile s qs
          (failed ops end table fdarray ofile' m (close_ends ops end table fdarray rf wf s'))
  failed-Pipes ofile ofile' s s' rf wf pi free qs m k pages same =
      let (t, closing, counts, given) =
        Ends-close_ends ops end table fdarray s s' rf wf pi free k in
      subst (Pipes ofile s qs)
        (sym (
          ap₂ (λ (o : Ofile) (r : Option (AllocState ops)). failed ops end table fdarray o m r) same
            closing))
        (Pipes.fails t m counts (subst (λ (x : Kmem). IsFree end x qs) (sym given) pages))

  module _ (ofile : Ofile) (s s' : AllocState ops) (rf wf pi : ℕ)
      (made : Makes ops s (some (some (rf, (wf, pi)), s'))) (free : Kmem) (qs : List ℕ)
      (k : Ends ops end table fdarray s s' rf wf pi free) (pages : IsFree end free qs) where
    told-Pipes :
        (fd0 fd1 : ℕ) (r : ℤ × Bytes)
        → get_elem? ofile fd0 ≡ some none
        → get_elem? (set ofile fd0 (some rf)) fd1 ≡ some none
        → Pipes ofile s qs (
            told ops end table fdarray rf wf fd0 fd1
              (set (set ofile fd0 (some rf)) fd1 (some wf))
              s'
              r)
    told-Pipes fd0 fd1 (pos r, m) e e' =
        let ne = other_fd ofile fd0 fd1 rf e e' in
        Pipes.pipes fd0 fd1 rf wf pi s' m made e
          (sym (get_elem?-set_ne ofile fd0 fd1 (some rf) ne) ∙ e') ne
    told-Pipes fd0 fd1 (negsuc r, m) e e' =
        failed-Pipes ofile
          (clear_both ops end table fdarray fd0 fd1 (set (set ofile fd0 (some rf)) fd1 (some wf))) s
          s' rf wf pi free qs m k pages (both_cleared ofile fd0 fd1 rf wf e e')

    tell-Pipes :
        (fd0 fd1 : ℕ) (r : ℤ × Bytes)
        → get_elem? ofile fd0 ≡ some none
        → get_elem? (set ofile fd0 (some rf)) fd1 ≡ some none
        → Pipes ofile s qs (
            tell_second ops end table fdarray rf wf fd0 fd1
              (set (set ofile fd0 (some rf)) fd1 (some wf))
              s'
              r)
    tell-Pipes fd0 fd1 (pos r, m) e e' =
        told-Pipes fd0 fd1 (copyout table s'.kmem ((fdarray + 4) % 2 ^ 64) (int_bytes fd1) 0 4 m) e
          e'
    tell-Pipes fd0 fd1 (negsuc r, m) e e' =
        failed-Pipes ofile
          (clear_both ops end table fdarray fd0 fd1 (set (set ofile fd0 (some rf)) fd1 (some wf))) s
          s' rf wf pi free qs m k pages (both_cleared ofile fd0 fd1 rf wf e e')

    second_fd-Pipes :
        (fd0 : ℕ) (m : Bytes) (r : Option (ℕ × Ofile))
        → get_elem? ofile fd0 ≡ some none
        → First wf (set ofile fd0 (some rf)) r
        → Pipes ofile s qs
            (second_fd ops end table fdarray rf wf fd0 (set ofile fd0 (some rf)) s' m r)
    second_fd-Pipes fd0 m _ e First.full =
        failed-Pipes ofile (set (set ofile fd0 (some rf)) fd0 none) s s' rf wf pi free qs m k pages
          (cleared ofile fd0 rf e)
    second_fd-Pipes fd0 m _ e (First.first fd1 e') =
        tell-Pipes fd0 fd1 (copyout table s'.kmem fdarray (int_bytes fd0) 0 4 m) e e'

    first_fd-Pipes :
        (m : Bytes) (r : Option (ℕ × Ofile))
        → First rf ofile r
        → Pipes ofile s qs (first_fd ops end table fdarray rf wf ofile s' m r)
    first_fd-Pipes m _ First.full = failed-Pipes ofile ofile s s' rf wf pi free qs m k pages refl
    first_fd-Pipes m _ (First.first fd0 e) =
        second_fd-Pipes fd0 m (fdalloc wf 0 (set ofile fd0 (some rf))) e
          (fdalloc-First wf (set ofile fd0 (some rf)))

  -- Provided that the free files stand for nothing and the allocator's list has the pages `qs`,
  -- `sys_pipe` does not panic. If it returns -1, the descriptors are as before, every file has as
  -- many references as before, and the list has the same pages. If it returns 0, two different
  -- descriptors that were free stand for the two files that `pipealloc` made the ends of a new
  -- pipe.
  pub sys_pipe-Pipes :
      (ofile : Ofile) (s : AllocState ops) (qs : List ℕ) (m : Bytes)
      → 0 < end
      → IsClean s.files
      → IsFree end s.kmem qs
      → Pipes ofile s qs (sys_pipe ops end table fdarray ofile s m)
  unfolding sys_pipe
  sys_pipe-Pipes ofile s qs m small clean pages = at (pipealloc ops s) (pipealloc-Makes ops s clean)
    where
      at :
          (r : Result ops)
          → Makes ops s r
          → Pipes ofile s qs (with_pipe ops end table fdarray ofile m r)
      at _ Makes.fails = Pipes.fails s m (λ n. refl) pages
      at _ (Makes.makes i j pi f g s' e z e' z' ne page alloc at_i at_j others new old same) =
          let (free, given, back) = page_back end pi s.kmem s'.kmem qs small pages page alloc in
          first_fd-Pipes ofile s s' i j pi
            (Makes.makes i j pi f g s' e z e' z' ne page alloc at_i at_j others new old same) free
            qs
            record {
              f = f;
              g = g;
              old = s.pipes pi;
              free_r = ap (Option.map File.ref) e ∙ ap some z;
              free_w = ap (Option.map File.ref) e' ∙ ap some z';
              at_r = at_i;
              at_w = at_j;
              differ = ne;
              others = others;
              new_pipe = new;
              given = given;
            }
            back m (fdalloc i 0 ofile) (fdalloc-First i ofile)
