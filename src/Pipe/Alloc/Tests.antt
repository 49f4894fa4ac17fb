-- ===== src/Pipe/Alloc/Tests.antt =====
-- Two free files and a page: a pipe is made of them.
use my_oslab.Base.{ℕ, zero, suc, ◌≡◌, refl, sym, ap, ◌∙◌, none, some, [], ◌∷◌, arith}
use my_oslab.File.{File, Ftable, close_last}
use my_oslab.File.Tests.{ops, inode, free}
use my_oslab.Pipe.{Pipe}
use my_oslab.Pipe.Alloc.{AllocState, pipealloc}
use my_oslab.Pipe.Alloc.Made.{IsClean, Makes, pipealloc-Makes}

abbrev stale : Pipe
stale = record { buf = []; nread = 7; nwrite = 9; readopen = 0; writeopen = 0 }

abbrev pub state : ℕ → Ftable → AllocState ops
state page files = record {
  files = files;
  kmem = record { freelist = page; memory = λ a. 0 };
  pipes = λ a. stale;
  world = [];
}

abbrev pub files : Ftable
files = free ∷ (inode ∷ (free ∷ []))

pub files-IsClean : IsClean files
unfolding IsClean
files-IsClean zero f e r = let same : free ≡ f = cc e in ap (λ (x : File). x.type) (sym same)
files-IsClean (suc zero) f e r =
    let same : inode ≡ f = cc e in
    let two : 2 ≡ 0 = ap (λ (x : File). x.ref) same ∙ r in absurd (omega (arith, two))
files-IsClean (suc (suc zero)) f e r =
    let same : free ≡ f = cc e in ap (λ (x : File). x.type) (sym same)
files-IsClean (suc (suc (suc i))) f e r = absurd (cc e)

pipealloc-Makes_example :
    Makes ops (state 0x8000_5000 files) (pipealloc ops (state 0x8000_5000 files))
pipealloc-Makes_example = pipealloc-Makes ops (state 0x8000_5000 files) files-IsClean

-- Without a page the two files are free again.
no_page : pipealloc ops (state 0 files) ≡ some (none, state 0 files)
unfolding pipealloc close_last
no_page = refl
