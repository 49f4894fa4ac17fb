-- ===== src/Bio/Gets.antt =====
-- What `bget` of kernel/bio.c does in a cache whose list is a ring.
use my_oslab.Base.{
  ℕ, ◌+◌, ◌%◌, ◌^◌, ◌≤◌, ◌≡◌, ◌≢◌, refl, sym, ap, ◌∙◌, Bool, true, false, Option, none, some, List,
  [], ◌∷◌, length, get_elem?, get_elem?-modify_self, get_elem?-modify_ne, ==→eq, inl, inr, subst,
  Bool-cases, arith,
}
use mathlib.Core.Option
use my_oslab.Bio.{
  Bcache, Buf, nbuf, change, add_ref, recycled, test_buf, is_block, is_unused, choose, bget,
}
use my_oslab.Bio.Links.{rev}
use my_oslab.Bio.Order.{IsRing, test_buf-found}
use my_oslab.Bio.Get.{find, bget-choose}

-- A buffer of the cache has the block, or has no reference.
abbrev pub HasBlock : ℕ → ℕ → Bcache → ℕ → Type 0
HasBlock dev blockno c b =
    (x : Buf) × (get_elem? c.buf b ≡ some x) × ((x.dev ≡ dev) × (x.blockno ≡ blockno))

abbrev pub IsIdle : Bcache → ℕ → Type 0
IsIdle c b = (x : Buf) × (get_elem? c.buf b ≡ some x) × (x.refcnt ≡ 0)

-- The first of a list with a property, and a list that has none.
pub data First (P : ℕ → Type 0) : List ℕ → ℕ → Type 0 where
  here : (b : ℕ) (xs : List ℕ) → P b → First P (b ∷ xs) b
  later : (x b : ℕ) (xs : List ℕ) → ¬ P x → First P xs b → First P (x ∷ xs) b

abbrev pub NoneOf : (ℕ → Type 0) → List ℕ → Type 0
NoneOf P [] = Unit
NoneOf P (x ∷ xs) = (¬ P x) × NoneOf P xs

-- Buffer `b` becomes `y`; the other buffers and the list are as before.
pub record Becomes (c : Bcache) (b : ℕ) (y : Buf) (c' : Bcache) : Type 0 where
  pub now : get_elem? c'.buf b ≡ some y
  pub others : (j : ℕ) → b ≢ j → get_elem? c'.buf j ≡ get_elem? c.buf j
  pub next : c'.next ≡ c.next
  pub prev : c'.prev ≡ c.prev

-- What `bget` does in a cache whose list is `xs`.
pub data Gets (dev blockno : ℕ) (c : Bcache) (xs : List ℕ) : Option (ℕ × Bcache) → Type 0 where
  cached :
      (b : ℕ) (x : Buf) (c' : Bcache)
      → First (HasBlock dev blockno c) xs b
      → get_elem? c.buf b ≡ some x
      → Becomes c b (record x { refcnt = (x.refcnt + 1) % 2 ^ 32 }) c'
      → Gets dev blockno c xs (some (b, c'))
  recycles :
      (b : ℕ) (x : Buf) (c' : Bcache)
      → NoneOf (HasBlock dev blockno c) xs
      → First (IsIdle c) (rev xs) b
      → get_elem? c.buf b ≡ some x
      → Becomes c b (record x { dev = dev; blockno = blockno; valid = 0; refcnt = 1 }) c'
      → Gets dev blockno c xs (some (b, c'))
  panics :
      NoneOf (HasBlock dev blockno c) xs → NoneOf (IsIdle c) (rev xs) → Gets dev blockno c xs none

-- A test of the buffers against what it means.
record Decides (p : ℕ → Bool) (P : ℕ → Type 0) : Type 0 where
  sound : (b : ℕ) → p b ≡ true → P b
  refutes : (b : ℕ) → p b ≡ false → ¬ P b

find-First :
    (p : ℕ → Bool) (P : ℕ → Type 0) (xs : List ℕ) (b : ℕ)
    → Decides p P
    → find p xs ≡ some b
    → First P xs b
unfolding find
find-First p P [] b d h = absurd (cc h)
find-First p P (x ∷ xs) b d h = elim (Bool-cases (p x)) [
  | inl t ↦
      let same : x ≡ b = cc (rw (find, t) at h) in
      subst (First P (x ∷ xs)) same (First.here x xs (d.sound x t))
  | inr t ↦ First.later x b xs (d.refutes x t) (find-First p P xs b d (rw (find, t) at h))
]

find-NoneOf :
    (p : ℕ → Bool) (P : ℕ → Type 0) (xs : List ℕ) → Decides p P → find p xs ≡ none → NoneOf P xs
unfolding find
find-NoneOf p P [] d h = tt
find-NoneOf p P (x ∷ xs) d h = elim (Bool-cases (p x)) [
  | inl t ↦ absurd (cc (rw (find, t) at h))
  | inr t ↦ (d.refutes x t, find-NoneOf p P xs d (rw (find, t) at h))
]

test_buf-Decides :
    (q : Buf → Bool) (Q : Buf → Type 0) (c : Bcache)
    → ((x : Buf) → q x ≡ true → Q x)
    → ((x : Buf) → q x ≡ false → ¬ Q x)
    → Decides (test_buf q c) (λ b. (x : Buf) × (get_elem? c.buf b ≡ some x) × Q x)
test_buf-Decides q Q c yes_q no_q = record { sound = sound; refutes = refutes }
  where
    sound : (b : ℕ) → test_buf q c b ≡ true → (x : Buf) × (get_elem? c.buf b ≡ some x) × Q x
    sound b h = at (get_elem? c.buf b) refl h
      where
        at :
            (o : Option Buf)
            → get_elem? c.buf b ≡ o
            → (elim o [ none ↦ false | some x ↦ q x ]) ≡ true
            → (x : Buf) × (get_elem? c.buf b ≡ some x) × Q x
        at none e t = absurd (cc t)
        at (some x) e t = (x, e, yes_q x t)

    refutes : (b : ℕ) → test_buf q c b ≡ false → ¬ ((x : Buf) × (get_elem? c.buf b ≡ some x) × Q x)
    refutes b h (x, e, has_q) = no_q x (sym (test_buf-found q c b x e) ∙ h) has_q

is_block-Decides :
    (dev blockno : ℕ) (c : Bcache)
    → Decides (test_buf (is_block dev blockno) c) (HasBlock dev blockno c)
is_block-Decides dev blockno c =
    test_buf-Decides (is_block dev blockno) (λ x. (x.dev ≡ dev) × (x.blockno ≡ blockno)) c
      (λ x h. (ground (arith, h), ground (arith, h)))
      (λ x h (d, n). absurd (ground (arith, h, d, n)))

is_unused-Decides : (c : Bcache) → Decides (test_buf is_unused c) (IsIdle c)
is_unused-Decides c =
    test_buf-Decides is_unused (λ x. x.refcnt ≡ 0) c (λ x h. ==→eq x.refcnt 0 h)
      (λ x h e. absurd (ground (arith, h, e)))

change-Becomes :
    (f : Buf → Buf) (b : ℕ) (c : Bcache) (x : Buf)
    → get_elem? c.buf b ≡ some x
    → Becomes c b (f x) (change f b c)
change-Becomes f b c x e = record {
  now = get_elem?-modify_self f c.buf b ∙ ap (Option.map f) e;
  others = λ j ne. get_elem?-modify_ne f c.buf b j ne;
  next = refl;
  prev = refl;
}

First-holds : {P : ℕ → Type 0} {xs : List ℕ} {b : ℕ} → First P xs b → P b
First-holds (First.here b xs h) = h
First-holds (First.later x b xs fails h) = First-holds h

-- In a cache whose list is a ring, `bget` takes the first buffer of the list that has the block,
-- and counts one more reference to it. Only if none has it, the buffer without references that is
-- last in the list, so released longest ago, becomes that of the block, with one reference and no
-- contents; and only if there is no such buffer either it panics. All else stays as it was.
pub bget-Gets :
    (dev blockno : ℕ) (c : Bcache) (xs : List ℕ)
    → IsRing c xs
    → length xs ≤ nbuf
    → Gets dev blockno c xs (bget dev blockno c)
bget-Gets dev blockno c xs r few =
    subst (Gets dev blockno c xs) (sym (bget-choose dev blockno c xs r few)) (
      at (find (test_buf (is_block dev blockno) c) xs) (find (test_buf is_unused c) (rev xs)) refl
        refl)
  where
    block : Decides (test_buf (is_block dev blockno) c) (HasBlock dev blockno c)
    block = is_block-Decides dev blockno c

    at :
        (o unused : Option ℕ)
        → find (test_buf (is_block dev blockno) c) xs ≡ o
        → find (test_buf is_unused c) (rev xs) ≡ unused
        → Gets dev blockno c xs (choose dev blockno c o unused)
    at (some b) unused e e' =
        let first =
          find-First (test_buf (is_block dev blockno) c) (HasBlock dev blockno c) xs b block e in
        let (x, there, (d, n)) = First-holds first in
        Gets.cached b x (change add_ref b c) first there (change-Becomes add_ref b c x there)
    at none (some b) e e' =
        let first =
          find-First (test_buf is_unused c) (IsIdle c) (rev xs) b (is_unused-Decides c) e' in
        let (x, there, z) = First-holds first in
        Gets.recycles b x (change (recycled dev blockno) b c)
          (find-NoneOf (test_buf (is_block dev blockno) c) (HasBlock dev blockno c) xs block e)
          first there (change-Becomes (recycled dev blockno) b c x there)
    at none none e e' =
        Gets.panics
          (find-NoneOf (test_buf (is_block dev blockno) c) (HasBlock dev blockno c) xs block e)
          (find-NoneOf (test_buf is_unused c) (IsIdle c) (rev xs) (is_unused-Decides c) e')
