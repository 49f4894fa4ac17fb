-- ===== src/Kalloc/Chain.antt =====
-- The free list that the words of memory spell out.
use my_oslab.Base.{ℕ, ◌%◌, ◌≤◌, ◌<◌, ◌≡◌, ◌≢◌, List, [], ◌∷◌, arith}
use my_oslab.Kalloc.{page_size, phys_stop, Memory, fill_page, store, Kmem}

pub record IsPage (end q : ℕ) : Type 0 where
  pub aligned : q % page_size ≡ 0
  pub above : end ≤ q
  pub below : q < phys_stop

abbrev pub NotIn : ℕ → List ℕ → Type 0
NotIn q [] = Unit
NotIn q (x ∷ xs) = (q ≢ x) × NotIn q xs

-- From `p` the words lead through exactly the pages of the list, all different, to 0.
abbrev pub Chain : ℕ → Memory → ℕ → List ℕ → Type 0
Chain end m p [] = p ≡ 0
Chain end m p (q ∷ qs) = (p ≡ q) × IsPage end q × NotIn q qs × Chain end m (m q) qs

abbrev pub IsFree : ℕ → Kmem → List ℕ → Type 0
IsFree end k qs = Chain end k.memory k.freelist qs

-- A list survives any change of memory that spares its own pages.
pub Chain-frame :
    (end pa : ℕ) (m m' : Memory) (qs : List ℕ) (p : ℕ)
    → ((q : ℕ) → IsPage end q → pa ≢ q → m' q ≡ m q)
    → NotIn pa qs
    → Chain end m p qs
    → Chain end m' p qs
Chain-frame end pa m m' [] p same out h = h
Chain-frame end pa m m' (q ∷ qs) p same out (e, page, fresh, rest) =
    (e, page, fresh, rw (same q page out.0) (Chain-frame end pa m m' qs (m q) same out.1 rest))

pub fill_page-other :
    (end pa : ℕ) (m : Memory) (c : ℕ)
    → IsPage end pa
    → (q : ℕ) → IsPage end q
    → pa ≢ q
    → fill_page m pa c q ≡ m q
unfolding fill_page
fill_page-other end pa m c p q i ne = ground arith

pub kfree-other :
    (end pa : ℕ) (m : Memory) (v : ℕ)
    → IsPage end pa
    → (q : ℕ) → IsPage end q
    → pa ≢ q
    → store (fill_page m pa 1) pa v q ≡ m q
unfolding store
kfree-other end pa m v p q i ne = ground (arith, fill_page-other end pa m 1 p q i ne)
