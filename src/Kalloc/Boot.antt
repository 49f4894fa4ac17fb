-- ===== src/Kalloc/Boot.antt =====
-- `kinit` puts every page between `end` and PHYSTOP on the free list.
use my_oslab.Base.{ℕ, zero, suc, ◌+◌, ◌-◌, ◌*◌, ◌/◌, ◌%◌, ◌≤◌, ◌<◌, ◌≡◌, List, [], ◌∷◌, some, arith}
use native.Mathlib.Decide.{ℕ_discrete}
use my_oslab.Kalloc.{page_size, page_round_up, phys_stop, Kmem, freerange_loop, kinit}
use my_oslab.Kalloc.Chain.{IsPage, NotIn, IsFree}
use my_oslab.Kalloc.Pages.{kfree-cons}

-- The `n` pages from `p` up, the last one first, in front of `qs`.
abbrev pub pages_onto : ℕ → ℕ → List ℕ → List ℕ
pages_onto zero p qs = qs
pages_onto (suc n) p qs = pages_onto n (p + page_size) (p ∷ qs)

abbrev Below : ℕ → List ℕ → Type 0
Below p [] = Unit
Below p (x ∷ xs) = (x < p) × Below p xs

NotIn-of-Below : (p r : ℕ) (qs : List ℕ) → Below p qs → p ≤ r → NotIn r qs
NotIn-of-Below p r [] b le = tt
NotIn-of-Below p r (x ∷ xs) b le = (omega arith, NotIn-of-Below p r xs b.1 le)

Below-mono : (p r : ℕ) (qs : List ℕ) → p ≤ r → Below p qs → Below r qs
Below-mono p r [] le b = tt
Below-mono p r (x ∷ xs) le b = (omega arith, Below-mono p r xs le b.1)

-- The loop frees the `n` pages that fit, given more than `n` rounds.
freerange_loop-IsFree :
    (fuel n end p : ℕ) (k : Kmem) (qs : List ℕ)
    → n < fuel
    → p % page_size ≡ 0
    → end ≤ p
    → p + n * page_size ≤ phys_stop
    → phys_stop < p + n * page_size + page_size
    → Below p qs
    → IsFree end k qs
    → (k' : Kmem) × (freerange_loop fuel end p phys_stop k ≡ some k')
      × IsFree end k' (pages_onto n p qs)
unfolding freerange_loop
freerange_loop-IsFree zero n end p k qs enough al ab fits last b free = absurd (omega arith)
freerange_loop-IsFree (suc fuel) zero end p k qs enough al ab fits last b free =
    (k, ground arith, free)
freerange_loop-IsFree (suc fuel) (suc n) end p k qs enough al ab fits last b free =
    let (k1, done, free1) =
      kfree-cons end p k qs (record { aligned = al; above = ab; below = omega arith })
        (NotIn-of-Below p p qs b (omega arith)) free in
    let (k2, rest, free2) =
      freerange_loop-IsFree fuel n end (p + page_size) k1 (p ∷ qs) (omega arith) (omega arith)
        (omega arith) (omega arith) (omega arith)
        (omega arith, Below-mono p (p + page_size) qs (omega arith) b) free1 in
    (k2, ground (arith, done, rest), free2)

NotIn-pages_onto : (n p q : ℕ) (qs : List ℕ) → NotIn q (pages_onto n p qs) → NotIn q qs
NotIn-pages_onto zero p q qs out = out
NotIn-pages_onto (suc n) p q qs out = (NotIn-pages_onto n (p + page_size) q (p ∷ qs) out).1

pages_onto_complete :
    (n p q : ℕ) (qs : List ℕ)
    → p % page_size ≡ 0
    → q % page_size ≡ 0
    → p ≤ q
    → q < p + n * page_size
    → ¬ NotIn q (pages_onto n p qs)
pages_onto_complete zero p q qs al al' lo hi out = omega arith
pages_onto_complete (suc n) p q qs al al' lo hi out = elim (ℕ_discrete q p) [
  | yes e ↦ (NotIn-pages_onto n (p + page_size) q (p ∷ qs) out).0 e
  | no ne ↦
      pages_onto_complete n (p + page_size) q (p ∷ qs) (omega arith) al' (omega arith) (omega arith)
        out
]

-- From an empty list, `kinit` does not panic and ends with a free list that holds each page
-- between `end` and PHYSTOP exactly once, for every `end` that leaves room for a page.
pub kinit-IsFree :
    (end : ℕ) (k : Kmem)
    → end + page_size ≤ phys_stop
    → k.freelist ≡ 0
    → (k' : Kmem) × (qs : List ℕ) × (kinit end k ≡ some k')
      × IsFree end k' qs
      × ((q : ℕ) → IsPage end q → ¬ NotIn q qs)
unfolding kinit
kinit-IsFree end k room empty =
    let start = page_round_up end in
    let n = (phys_stop - start) / page_size in
    let (k', done, free) =
      freerange_loop-IsFree (phys_stop / page_size + 1) n end start k [] (omega arith) (omega arith)
        (omega arith) (omega arith) (omega arith) tt empty in
    (
      k',
      pages_onto n start [],
      done,
      free,
      λ q i. pages_onto_complete n start q [] (omega arith) i.aligned (omega arith) (omega arith),
    )
