-- ===== src/Sysfile/Fd/Pipes/Ends.antt =====
-- What `sys_pipe` undoes when it fails: descriptors that it took, and new files.
use mathlib.Core.Option
use my_oslab.Base.{
  ap₂, ==_self, true, false, refl, [], ℕ, ◌+◌, ◌≡◌, ◌≢◌, sym, ap, subst, ◌∙◌, Option, none, some,
  get_elem?, get_elem?-set_self, get_elem?-set_ne, set, set-set, set_same, set_comm,
  lt-of_get_elem?, ◌==◌, ==→eq, ==→ne, inl, inr, Bool-cases, arith,
}
use my_oslab.File.{File, FileType, Ftable, FileOps, close_last}
use my_oslab.File.Refs.{fileclose_last}
use my_oslab.Pipe.Alloc.{AllocState, closed, read_end, write_end, opened}
use my_oslab.Pipe.{Pipe, pipeclose}
use my_oslab.Kalloc.{Kmem, kfree}
use my_oslab.Sysfile.Fd.{Ofile, fdalloc}
use my_oslab.Sysfile.Fd.Dup.{FirstFree, fdalloc-FirstFree}
use my_oslab.Sysfile.Fd.Pipes.{put_at, page_closed, then_last, close_end, close_next, close_ends}

-- The reference count of a file.
abbrev pub refs : Ftable → ℕ → Option ℕ
refs fs n = Option.map File.ref (get_elem? fs n)

-- The descriptor that `fdalloc` takes.
pub data First (f : ℕ) (ofile : Ofile) : Option (ℕ × Ofile) → Type 0 where
  first : (n : ℕ) → get_elem? ofile n ≡ some none → First f ofile (some (n, set ofile n (some f)))
  full : First f ofile none

pub fdalloc-First : (f : ℕ) (ofile : Ofile) → First f ofile (fdalloc f 0 ofile)
fdalloc-First f ofile = at (fdalloc f 0 ofile) (fdalloc-FirstFree f 0 ofile)
  where
    at : (r : Option (ℕ × Ofile)) → FirstFree f 0 ofile r → First f ofile r
    at _ (FirstFree.takes n e before) =
        let same : n ≡ 0 + n = omega arith in
        subst (λ (k : ℕ). First f ofile (some (k, set ofile n (some f)))) same (First.first n e)
    at _ (FirstFree.full all) = First.full

-- A free descriptor that was taken is free again.
pub cleared :
    (ofile : Ofile) (n f : ℕ)
    → get_elem? ofile n ≡ some none
    → set (set ofile n (some f)) n none ≡ ofile
cleared ofile n f e = set-set ofile n (some f) none ∙ set_same ofile n none e

pub other_fd :
    (ofile : Ofile) (n k f : ℕ)
    → get_elem? ofile n ≡ some none
    → get_elem? (set ofile n (some f)) k ≡ some none
    → n ≢ k
other_fd ofile n k f e e' same =
    let at_n : get_elem? (set ofile n (some f)) n ≡ some none =
      subst (λ (x : ℕ). get_elem? (set ofile n (some f)) x ≡ some none) (sym same) e' in
    absurd (cc (sym (get_elem?-set_self ofile n (some f) (lt-of_get_elem? ofile n none e)) ∙ at_n))

pub both_cleared :
    (ofile : Ofile) (n k f g : ℕ)
    → get_elem? ofile n ≡ some none
    → get_elem? (set ofile n (some f)) k ≡ some none
    → set (set (set (set ofile n (some f)) k (some g)) n none) k none ≡ ofile
both_cleared ofile n k f g e e' =
    let ne = other_fd ofile n k f e e' in
    ap (λ (l : Ofile). set l k none)
      (set_comm (set ofile n (some f)) k n (some g) none (λ q. ne (sym q))
        ∙ ap (λ (l : Ofile). set l k (some g)) (cleared ofile n f e))
    ∙ cleared ofile k g (sym (get_elem?-set_ne ofile n k (some f) ne) ∙ e')

module _ (ops : FileOps) (end table fdarray : ℕ) where
  -- The two ends of a new pipe in a page that can be given back, in files that were free.
  pub record Ends (s s' : AllocState ops) (rf wf pi : ℕ) (free : Kmem) : Type 0 where
    pub f : File
    pub g : File
    pub old : Pipe
    pub free_r : refs s.files rf ≡ some 0
    pub free_w : refs s.files wf ≡ some 0
    pub at_r : get_elem? s'.files rf ≡ some (read_end pi (record f { ref = 1 }))
    pub at_w : get_elem? s'.files wf ≡ some (write_end pi (record g { ref = 1 }))
    pub differ : rf ≢ wf
    pub others : (n : ℕ) → n ≢ rf → n ≢ wf → get_elem? s'.files n ≡ get_elem? s.files n
    pub new_pipe : s'.pipes pi ≡ opened old
    pub given : kfree end pi s'.kmem ≡ some free

  put_at_self : (h : ℕ → Pipe) (i : ℕ) (v : Pipe) → put_at h i v i ≡ v
  put_at_self h i v = rw (==_self i) refl

  -- Both are closed: they are free again, and the page of the pipe is.
  pub Ends-close_ends :
      (s s' : AllocState ops) (rf wf pi : ℕ) (free : Kmem)
      → Ends s s' rf wf pi free
      → (t : AllocState ops) × (close_ends ops end table fdarray rf wf s' ≡ some t)
        × ((n : ℕ) → refs t.files n ≡ refs s.files n)
        × (t.kmem ≡ free)
  unfolding pipeclose
  Ends-close_ends s s' rf wf pi free k =
      (t4, ap (close_next ops end table fdarray wf) first ∙ last, same, refl)
    where
      r : File
      r = read_end pi (record (k.f) { ref = 1 })

      w : File
      w = write_end pi (record (k.g) { ref = 1 })

      shut : File → File
      shut x = record x { ref = 0; type = FileType.fd_none }

      t1 : AllocState ops
      t1 = record s' { files = set s'.files rf (shut r); world = close_last ops r s'.world }

      half : Pipe
      half = record (k.old) { readopen = 0; writeopen = 1; nwrite = 0; nread = 0 }

      t2 : AllocState ops
      t2 = record t1 { pipes = put_at t1.pipes pi half }

      first : close_end ops end table fdarray rf s' ≡ some t2
      first =
          ap₂
            (λ (o : Option File) (x : Option (AllocState ops)). then_last ops end table fdarray o x)
            k.at_r (ap (closed ops s') (fileclose_last ops rf s'.files r s'.world k.at_r refl))
          ∙ ap
              (λ (p : Pipe).
                page_closed ops end table fdarray pi t1
                  (pipeclose pi false (record { pipe = p; procs = [] })))
              k.new_pipe

      there : get_elem? t2.files wf ≡ some w
      there = get_elem?-set_ne s'.files rf wf (shut r) k.differ ∙ k.at_w

      t3 : AllocState ops
      t3 = record t2 { files = set t2.files wf (shut w); world = close_last ops w t2.world }

      t4 : AllocState ops
      t4 = record t3 { pipes = put_at t3.pipes pi (record half { writeopen = 0 }); kmem = free }

      last : close_end ops end table fdarray wf t2 ≡ some t4
      last =
          ap₂
            (λ (o : Option File) (x : Option (AllocState ops)). then_last ops end table fdarray o x)
            there (ap (closed ops t2) (fileclose_last ops wf t2.files w t2.world there refl))
          ∙ ap
              (λ (p : Pipe).
                page_closed ops end table fdarray pi t3
                  (pipeclose pi true (record { pipe = p; procs = [] })))
              (put_at_self t1.pipes pi half)
          ∙ ap
              (λ (o : Option Kmem). elim o [
                | none ↦ none
                | some m ↦ some record t3 {
                  pipes = put_at t3.pipes pi (record half { writeopen = 0 });
                  kmem = m;
                }
              ])
              k.given

      at_rf : refs t4.files rf ≡ refs s.files rf
      at_rf =
          ap (Option.map File.ref) (
            get_elem?-set_ne t2.files wf rf (shut w) (λ q. k.differ (sym q))
            ∙ get_elem?-set_self s'.files rf (shut r) (lt-of_get_elem? s'.files rf r k.at_r))
          ∙ sym k.free_r

      at_wf : refs t4.files wf ≡ refs s.files wf
      at_wf =
          ap (Option.map File.ref)
            (get_elem?-set_self t2.files wf (shut w) (lt-of_get_elem? t2.files wf w there))
          ∙ sym k.free_w

      elsewhere : (n : ℕ) → n ≢ rf → n ≢ wf → refs t4.files n ≡ refs s.files n
      elsewhere n hr hw = ap (Option.map File.ref) (
          get_elem?-set_ne t2.files wf n (shut w) (λ q. hw (sym q))
          ∙ get_elem?-set_ne s'.files rf n (shut r) (λ q. hr (sym q))
          ∙ k.others n hr hw)

      same : (n : ℕ) → refs t4.files n ≡ refs s.files n
      same n = elim (Bool-cases (n == rf)) [
        | inl e ↦ subst (λ (i : ℕ). refs t4.files i ≡ refs s.files i) (sym (==→eq n rf e)) at_rf
        | inr e ↦ elim (Bool-cases (n == wf)) [
          | inl e' ↦ subst (λ (i : ℕ). refs t4.files i ≡ refs s.files i) (sym (==→eq n wf e')) at_wf
          | inr e' ↦ elsewhere n (==→ne n rf e) (==→ne n wf e')
        ]
      ]
