-- ===== src/Kalloc/Pages.antt =====
-- `kfree` and `kalloc` as the push and the pop of the list of free pages.
use my_oslab.Base.{ℕ, ◌+◌, ◌*◌, ◌≤◌, ◌<◌, ◌≡◌, ◌⊎◌, refl, false, List, [], ◌∷◌, some, ◌==◌, arith}
use my_oslab.Kalloc.{page_size, fill_page, store, Kmem, kfree, kalloc}
use my_oslab.Kalloc.Chain.{IsPage, NotIn, IsFree, Chain-frame, fill_page-other, kfree-other}

-- Freeing an aligned page between `end` and PHYSTOP that is not on the free list puts it in front
-- of the list, and does not panic.
pub kfree-cons :
    (end pa : ℕ) (k : Kmem) (qs : List ℕ)
    → IsPage end pa
    → NotIn pa qs
    → IsFree end k qs
    → (k' : Kmem) × (kfree end pa k ≡ some k') × IsFree end k' (pa ∷ qs)
unfolding kfree
kfree-cons end pa k qs page out free = (
  record { freelist = pa; memory = store (fill_page k.memory pa 1) pa k.freelist },
  ground arith,
  (
    refl,
    page,
    out,
    rw head (
        Chain-frame end pa k.memory _ qs k.freelist (kfree-other end pa k.memory k.freelist page)
          out free),
  ),
)
  where
    head : store (fill_page k.memory pa 1) pa k.freelist pa ≡ k.freelist
    head = unfold store in ground arith

-- With pages left, `kalloc` returns the first one, takes it off the list, fills it with 5s and
-- writes nowhere else.
pub kalloc-cons :
    (end q : ℕ) (k : Kmem) (qs : List ℕ)
    → 0 < end
    → IsFree end k (q ∷ qs)
    → let (p, k') = kalloc k in
      (p ≡ q)
      × IsFree end k' qs
      × ((a : ℕ) → q ≤ a → a < q + page_size → k'.memory a ≡ 5 * 0x0101_0101_0101_0101)
      × ((a : ℕ) → ((a < q) ⊎ (q + page_size ≤ a)) → k'.memory a ≡ k.memory a)
unfolding kalloc
kalloc-cons end q k qs pos (e, page, out, rest) =
    let ne : (k.freelist == 0) ≡ false = ground arith in
    rw (ne, e)
      (
        refl,
        Chain-frame end q k.memory _ qs (k.memory q) (fill_page-other end q k.memory 5 page) out
            rest,
        (λ a lo hi. unfold fill_page in ground arith),
        (λ a away. unfold fill_page in ground arith),
      )

-- With no page left, `kalloc` returns 0 and changes nothing.
pub kalloc-nil : (end : ℕ) (k : Kmem) → IsFree end k [] → kalloc k ≡ (0, k)
unfolding kalloc
kalloc-nil end k e = rw e refl
