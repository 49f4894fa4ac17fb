-- ===== src/Bio/Get.antt =====
-- `bget` of kernel/bio.c against its two searches as lists, and no block in two buffers.
use my_oslab.Base.{
  ℕ, zero, suc, ◌+◌, ◌≤◌, ◌<◌, ◌≡◌, ◌≢◌, refl, sym, ap, ap₂, ◌∙◌, Bool, true, false, Option, none,
  some, List, [], ◌∷◌, ◌++◌, length, get_elem?, get_elem?-modify_self, get_elem?-modify_ne, ◌==◌,
  ==→eq, ◌⊎◌, inl, inr, subst, Bool-cases, arith,
}
use mathlib.Core.Option
use native.Mathlib.Decide.{ℕ_discrete}
use my_oslab.Bio.{
  Bcache, Buf, head, nbuf, change, add_ref, recycled, test_buf, is_block, is_unused, walk, choose,
  bget,
}
use my_oslab.Bio.Links.{has, Links, rev, has-rev}
use my_oslab.Bio.Order.{IsRing, test_buf-found}

-- The first of the list that passes the test.
unfoldable pub find : (ℕ → Bool) → List ℕ → Option ℕ
find p [] = none
find p (x ∷ xs) = elim (p x) [ true ↦ some x | false ↦ find p xs ]

walk_lem :
    (p : Buf → Bool) (along : ℕ → ℕ) (c : Bcache) (fuel a : ℕ) (xs : List ℕ)
    → length xs < fuel
    → has head xs ≡ false
    → Links along a xs head
    → walk p along c fuel (along a) ≡ find (test_buf p c) xs
unfolding walk find
walk_lem p along c zero a xs enough o h = absurd (omega (arith, enough))
walk_lem p along c (suc fuel) a [] enough o h = rw h refl
walk_lem p along c (suc fuel) a (x ∷ xs) enough o (e, h) =
    let rest = walk_lem p along c fuel x xs (omega (arith, enough)) (ground arith) h in
    rw e (ground (arith, rest))

length-append_one : (xs : List ℕ) (b : ℕ) → length (xs ++ (b ∷ [])) ≡ suc (length xs)
length-append_one [] b = refl
length-append_one (x ∷ xs) b = ap suc (length-append_one xs b)

length-rev : (xs : List ℕ) → length (rev xs) ≡ length xs
length-rev [] = refl
length-rev (x ∷ xs) = length-append_one (rev xs) x ∙ ap suc (length-rev xs)

-- `bget` by its two searches along the list.
pub bget-choose :
    (dev blockno : ℕ) (c : Bcache) (xs : List ℕ)
    → IsRing c xs
    → length xs ≤ nbuf
    → bget dev blockno c
      ≡ choose dev blockno c
          (find (test_buf (is_block dev blockno) c) xs)
          (find (test_buf is_unused c) (rev xs))
unfolding bget
bget-choose dev blockno c xs r few =
    let first =
      walk_lem (is_block dev blockno) c.next c (nbuf + 1) head xs (omega (arith, few)) r.apart
        r.forth in
    let other =
      walk_lem is_unused c.prev c (nbuf + 1) head (rev xs) (omega (arith, few, length-rev xs))
        (has-rev head xs ∙ r.apart) r.back in
    ap₂ (choose dev blockno c) first other

-- No block is in two buffers.
unfoldable pub Unique : Bcache → Type 0
Unique c =
    (i j : ℕ) (x y : Buf)
    → get_elem? c.buf i ≡ some x
    → get_elem? c.buf j ≡ some y
    → x.dev ≢ 0
    → x.dev ≡ y.dev
    → x.blockno ≡ y.blockno
    → i ≡ j

-- The list has every buffer.
unfoldable pub IsFull : Bcache → List ℕ → Type 0
IsFull c xs = (i : ℕ) (x : Buf) → get_elem? c.buf i ≡ some x → has i xs ≡ true

-- What the search does not find no buffer of the list is.
find-none : (p : ℕ → Bool) (xs : List ℕ) (i : ℕ) → find p xs ≡ none → has i xs ≡ true → p i ≡ false
unfolding find
find-none p [] i e h = absurd (ground (arith, h))
find-none p (x ∷ xs) i e h = elim (Bool-cases (p x)) [
  | inl t ↦ absurd (ground (arith, e, t))
  | inr t ↦ elim (Bool-cases (i == x)) [
    | inl same ↦ rw (==→eq i x same) t
    | inr other ↦ find-none p xs i (ground (arith, e, t)) (ground (arith, h, other))
  ]
]

map-some :
    (f : Buf → Buf) (o : Option Buf) (y : Buf)
    → Option.map f o ≡ some y
    → (x : Buf) × (o ≡ some x) × (y ≡ f x)
map-some f none y h = absurd (cc h)
map-some f (some x) y h = (x, refl, cc h)

-- A buffer after a change is the changed one or one from before.
changed :
    (f : Buf → Buf) (b : ℕ) (c : Bcache) (i : ℕ) (y : Buf)
    → get_elem? (change f b c).buf i ≡ some y
    → ((b ≡ i) × ((x : Buf) × (get_elem? c.buf i ≡ some x) × (y ≡ f x)))
      ⊎ ((b ≢ i) × (get_elem? c.buf i ≡ some y))
changed f b c i y h = elim (ℕ_discrete b i) [
  | yes e ↦ inl (
    e,
    map-some f (get_elem? c.buf i) y (
        sym (get_elem?-modify_self f c.buf i)
        ∙ subst (λ (k : ℕ). get_elem? (change f k c).buf i ≡ some y) e h),
  )
  | no e ↦ inr (e, sym (get_elem?-modify_ne f c.buf b i e) ∙ h)
]

-- A block of a buffer after a reference is taken was in that place before.
add_ref-found :
    (b : ℕ) (c : Bcache) (i : ℕ) (y : Buf)
    → get_elem? (change add_ref b c).buf i ≡ some y
    → (x : Buf) × (get_elem? c.buf i ≡ some x) × (y.dev ≡ x.dev) × (y.blockno ≡ x.blockno)
add_ref-found b c i y h = elim (changed add_ref b c i y h) [
  | inl (_, (x, was, e)) ↦ (x, was, ap (λ (t : Buf). t.dev) e, ap (λ (t : Buf). t.blockno) e)
  | inr (_, was) ↦ (y, was, refl, refl)
]

Unique-add_ref : (b : ℕ) (c : Bcache) → Unique c → Unique (change add_ref b c)
unfolding Unique
Unique-add_ref b c u i j x y hi hj some_dev dev block =
    let (x0, wi, di, bi) = add_ref-found b c i x hi in
    let (y0, wj, dj, bj) = add_ref-found b c j y hj in
    u i j x0 y0 wi wj (λ (e : x0.dev ≡ 0). some_dev (di ∙ e)) (sym di ∙ dev ∙ dj)
      (sym bi ∙ block ∙ bj)

Unique-recycled :
    (dev blockno b : ℕ) (c : Bcache)
    → ((j : ℕ) (y : Buf) → get_elem? c.buf j ≡ some y → is_block dev blockno y ≡ false)
    → Unique c
    → Unique (change (recycled dev blockno) b c)
unfolding Unique
Unique-recycled dev blockno b c absent u i j x y hi hj some_dev same_dev same_block =
    let set = recycled dev blockno in
    elim (changed set b c i x hi) [
      | inl (bi, (x0, wi, ei)) ↦ elim (changed set b c j y hj) [
        | inl (bj, _) ↦ sym bi ∙ bj
        | inr (_, wj) ↦ absurd (ground (arith, absent j y wj, ei, same_dev, same_block))
      ]
      | inr (_, wi) ↦ elim (changed set b c j y hj) [
        | inl (bj, (y0, wj, ej)) ↦ absurd (ground (arith, absent i x wi, ej, same_dev, same_block))
        | inr (_, wj) ↦ u i j x y wi wj some_dev same_dev same_block
      ]
    ]

-- A cache whose buffers have no block twice has none twice after a `bget`, whichever buffer that
-- takes, if the list has every buffer.
pub bget-Unique :
    (dev blockno b : ℕ) (c c' : Bcache) (xs : List ℕ)
    → IsRing c xs
    → length xs ≤ nbuf
    → IsFull c xs
    → Unique c
    → bget dev blockno c ≡ some (b, c')
    → Unique c'
unfolding IsFull
bget-Unique dev blockno b c c' xs r few full u h =
    by_found (find (test_buf (is_block dev blockno) c) xs) (find (test_buf is_unused c) (rev xs))
      refl (sym (bget-choose dev blockno c xs r few) ∙ h)
  where
    by_found :
        (o unused : Option ℕ)
        → find (test_buf (is_block dev blockno) c) xs ≡ o
        → choose dev blockno c o unused ≡ some (b, c')
        → Unique c'
    by_found (some k) unused e h = subst Unique (cc h) (Unique-add_ref k c u)
    by_found none (some k) e h = subst Unique (cc h) (
        Unique-recycled dev blockno k c
          (λ j y was.
            sym (test_buf-found (is_block dev blockno) c j y was)
            ∙ find-none (test_buf (is_block dev blockno) c) xs j e (full j y was))
          u)
    by_found none none e h = absurd (cc h)
