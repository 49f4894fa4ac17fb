-- ===== src/Kalloc/Tests.antt =====
-- The allocator at concrete addresses.
use my_oslab.Base.{ℕ, ◌+◌, ◌*◌, ◌≤◌, ◌<◌, ◌≡◌, ◌⊎◌, refl, List, [], ◌∷◌, some, arith}
use my_oslab.Kalloc.{page_size, Kmem, store, kfree, kalloc, kinit}
use my_oslab.Kalloc.Chain.{IsPage, NotIn, IsFree}
use my_oslab.Kalloc.Pages.{kfree-cons, kalloc-cons}
use my_oslab.Kalloc.Boot.{kinit-IsFree}

abbrev bottom : ℕ
bottom = 0x8002_1000

abbrev empty : Kmem
empty = record { freelist = 0; memory = λ a. 0 }

abbrev one_page : Kmem
one_page = record { freelist = 0x8003_0000; memory = λ a. 0 }

one_page-IsFree : IsFree bottom one_page (0x8003_0000 ∷ [])
one_page-IsFree = omega arith

kfree-cons_example :
    (k' : Kmem) × (kfree bottom 0x8002_2000 one_page ≡ some k')
    × IsFree bottom k' (0x8002_2000 ∷ 0x8003_0000 ∷ [])
kfree-cons_example =
    kfree-cons bottom 0x8002_2000 one_page (0x8003_0000 ∷ []) (omega arith) (omega arith)
      one_page-IsFree

kalloc-cons_example :
    let (p, k') = kalloc one_page in
    (p ≡ 0x8003_0000)
    × IsFree bottom k' []
    × ((a : ℕ)
        → 0x8003_0000 ≤ a
        → a < 0x8003_0000 + page_size
        → k'.memory a ≡ 5 * 0x0101_0101_0101_0101)
    × ((a : ℕ) → ((a < 0x8003_0000) ⊎ (0x8003_0000 + page_size ≤ a)) → k'.memory a ≡ 0)
kalloc-cons_example = kalloc-cons bottom 0x8003_0000 one_page [] (omega arith) one_page-IsFree

kinit-IsFree_example :
    (k' : Kmem) × (qs : List ℕ) × (kinit bottom empty ≡ some k')
    × IsFree bottom k' qs
    × ((q : ℕ) → IsPage bottom q → ¬ NotIn q qs)
kinit-IsFree_example = kinit-IsFree bottom empty (omega arith) refl

-- Two pages at the top of memory: the boot frees both, and the last is handed out first.
kalloc_after_kinit : (k : Kmem) × (kinit 0x87ff_e000 empty ≡ some k) × ((kalloc k).0 ≡ 0x87ff_f000)
unfolding kinit kfree store kalloc
kalloc_after_kinit = (_, refl, refl)
