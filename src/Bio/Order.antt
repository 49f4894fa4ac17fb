-- ===== src/Bio/Order.antt =====
-- The list of kernel/bio.c stays a ring, in the order that `binit` and `brelse` give it.
use my_oslab.Base.{
  ℕ, zero, suc, ◌+◌, ◌≤◌, ◌<◌, ◌≡◌, refl, sym, ap, subst, ◌∙◌, Bool, true, false, get_elem?,
  get_elem?-modify_self, sub32, Option, none, some, ◌^◌, inl, inr, Bool-cases, List, [], ◌∷◌, ◌++◌,
  append_assoc, ◌==◌, if◌then◌else◌, arith,
}
use mathlib.Core.Option
use native.Mathlib.Decide.{ℕ_discrete}
use native.Mathlib.Numerals.{unary_clauses}
use my_oslab.Proc.{Table}
use my_oslab.Locks.{holdingsleep, releasesleep}
use my_oslab.Bio.{
  Bcache, Buf, change, drop_ref, test_buf, is_unused, brelse, drop_buf, unlocked, head, nbuf,
  assign, insert_front, unlink, empty_ring, move_front, binit_loop, binit,
}
use my_oslab.Bio.Links.{
  has, Links, last, rev, Distinct, has-append, has-rev, Links-unlink, Links-insert, Links-snoc,
  Links-middle, Links-first, rev-append, rev-rev, Distinct-drop, Distinct-middle, Distinct-rev,
}

-- The buffers of the list, from the one used last.
pub record IsRing (c : Bcache) (xs : List ℕ) : Type 0 where
  pub forth : Links c.next head xs head
  pub back : Links c.prev head (rev xs) head
  pub apart : has head xs ≡ false
  pub once : Distinct xs

pub insert_front-IsRing :
    (b : ℕ) (c : Bcache) (xs : List ℕ)
    → has b (head ∷ xs) ≡ false
    → IsRing c xs
    → IsRing (insert_front b c) (b ∷ xs)
unfolding insert_front
insert_front-IsRing b c xs out r = record {
  forth = Links-insert c.next head b xs head out r.apart r.forth;
  back =
      subst (λ (k : ℕ). Links (assign (assign c.prev b head) k b) head (rev xs ++ (b ∷ [])) head)
        (sym (ground (arith, Links-first c.next head xs head r.forth)))
        (Links-snoc c.prev head (rev xs) b head (ground (arith, has-rev b xs))
          (has-rev head xs ∙ r.apart, Distinct-rev xs r.once) r.back);
  apart = ground arith;
  once = (ground arith, r.once);
}

unlink-IsRing :
    (b : ℕ) (c : Bcache) (ys zs : List ℕ)
    → IsRing c (ys ++ (b ∷ zs))
    → IsRing (unlink b c) (ys ++ zs)
unfolding unlink
unlink-IsRing b c ys zs r =
    let turned : rev (ys ++ (b ∷ zs)) ≡ rev zs ++ (b ∷ rev ys) =
      rev-append ys (b ∷ zs) ∙ append_assoc (rev zs) (b ∷ []) (rev ys) in
    let back : Links c.prev head (rev zs ++ (b ∷ rev ys)) head =
      subst (λ (l : List ℕ). Links c.prev head l head) turned r.back in
    let after : c.next b ≡ last head (rev zs) =
      Links-first c.next b zs head (Links-middle c.next head ys b zs head r.forth) in
    let before : c.prev b ≡ last head ys =
      Links-first c.prev b (rev ys) head (Links-middle c.prev head (rev zs) b (rev ys) head back)
      ∙ ap (last head) (rev-rev ys) in
    let apart : Distinct (head ∷ (rev zs ++ (b ∷ rev ys))) =
      subst (λ (l : List ℕ). Distinct (head ∷ l)) turned
        (has-rev head (ys ++ (b ∷ zs)) ∙ r.apart, Distinct-rev (ys ++ (b ∷ zs)) r.once) in
    record {
      forth =
          subst (λ (k : ℕ). Links (assign c.next k (c.next b)) head (ys ++ zs) head)
            (ground (arith, before))
            (Links-unlink c.next head ys b zs head (r.apart, r.once) r.forth);
      back =
          subst (λ (l : List ℕ). Links (assign c.prev (c.next b) (c.prev b)) head l head)
            (sym (rev-append ys zs))
            (subst (λ (k : ℕ). Links (assign c.prev k (c.prev b)) head (rev zs ++ rev ys) head)
              (sym after) (Links-unlink c.prev head (rev zs) b (rev ys) head apart back));
      apart = ground (arith, r.apart, has-append head ys (b ∷ zs), has-append head ys zs);
      once = Distinct-drop ys b zs r.once;
    }

pub move_front-IsRing :
    (b : ℕ) (c : Bcache) (ys zs : List ℕ)
    → IsRing c (ys ++ (b ∷ zs))
    → IsRing (move_front b c) (b ∷ (ys ++ zs))
unfolding move_front
move_front-IsRing b c ys zs r =
    insert_front-IsRing b (unlink b c) (ys ++ zs)
      (ground (arith, r.apart, has-append head ys (b ∷ zs), Distinct-middle ys b zs r.once))
      (unlink-IsRing b c ys zs r)

-- A change of a buffer leaves the list.
pub change-IsRing :
    (f : Buf → Buf) (b : ℕ) (c : Bcache) (xs : List ℕ) → IsRing c xs → IsRing (change f b c) xs
change-IsRing f b c xs r = record { forth = r.forth; back = r.back; apart = r.apart; once = r.once }

pub test_buf-found :
    (p : Buf → Bool) (c : Bcache) (b : ℕ) (x : Buf)
    → get_elem? c.buf b ≡ some x
    → test_buf p c b ≡ p x
test_buf-found p c b x got = ap (λ (o : Option Buf). elim o [ none ↦ false | some y ↦ p y ]) got

zeroed : (n : ℕ) → n < 2 ^ 32 → (sub32 n 1 == 0) ≡ (n == 1)
zeroed n small = ground arith

drop_buf-IsRing :
    (b : ℕ) (x : Buf) (c : Bcache) (ys zs : List ℕ)
    → IsRing c (ys ++ (b ∷ zs))
    → get_elem? c.buf b ≡ some x
    → x.refcnt < 2 ^ 32
    → IsRing (drop_buf b c) (if x.refcnt == 1 then b ∷ (ys ++ zs) else ys ++ (b ∷ zs))
unfolding drop_buf
drop_buf-IsRing b x c ys zs r got small =
    let c1 = change drop_ref b c in
    let r1 : IsRing c1 (ys ++ (b ∷ zs)) = change-IsRing drop_ref b c (ys ++ (b ∷ zs)) r in
    let same : test_buf is_unused c1 b ≡ (x.refcnt == 1) =
      test_buf-found is_unused c1 b (drop_ref x)
        (get_elem?-modify_self drop_ref c.buf b ∙ ap (Option.map drop_ref) got)
      ∙ zeroed x.refcnt small in
    elim (Bool-cases (x.refcnt == 1)) [
      | inl e ↦ rw (same, e) (move_front-IsRing b c1 ys zs r1)
      | inr e ↦ rw (same, e) r1
    ]

-- A process that holds the lock of a buffer in the list can `brelse` it without a panic. When it
-- gives back the last reference, the buffer goes to the front of the list, and the others keep
-- their order; when references are left, the list is as before. The list stays a doubly linked
-- ring, with each buffer once.
pub brelse-IsRing :
    (me lk b : ℕ) (x : Buf) (ps : Table) (c : Bcache) (ys zs : List ℕ)
    → IsRing c (ys ++ (b ∷ zs))
    → get_elem? c.buf b ≡ some x
    → x.refcnt < 2 ^ 32
    → holdingsleep me x.lock ps ≡ true
    → (c' : Bcache) × (ps' : Table) × (brelse me lk b ps c ≡ some (c', ps'))
      × IsRing c' (if x.refcnt == 1 then b ∷ (ys ++ zs) else ys ++ (b ∷ zs))
unfolding brelse
brelse-IsRing me lk b x ps c ys zs r got small held =
    let (l, ps') = releasesleep lk x.lock ps in
    let open_buf = change (unlocked l) b c in
    (
      drop_buf b open_buf,
      ps',
      rw (brelse, got, held) refl,
      drop_buf-IsRing b (record x { lock = l }) open_buf ys zs
          (change-IsRing (unlocked l) b c (ys ++ (b ∷ zs)) r)
          (get_elem?-modify_self (unlocked l) c.buf b ∙ ap (Option.map (unlocked l)) got) small,
    )

-- The buffers from the last below `n` down to the first.
abbrev pub down : ℕ → List ℕ
down zero = []
down (suc n) = n ∷ down n

has-down : (n b : ℕ) → n ≤ b → has b (down n) ≡ false
has-down zero b le = refl
has-down (suc n) b le = ground (arith, has-down n b (omega arith))

binit_loop-IsRing :
    (n b k : ℕ) (c : Bcache)
    → k ≡ n + b
    → k ≤ nbuf
    → IsRing c (down b)
    → IsRing (binit_loop n b c) (down k)
unfolding binit_loop
binit_loop-IsRing zero b k c e le r = subst (λ (t : ℕ). IsRing c (down t)) (omega (arith, e)) r
binit_loop-IsRing (suc n) b k c e le r = simp unary_clauses (
    binit_loop-IsRing n (suc b) k (insert_front b c) (omega (arith, e)) le
      (insert_front-IsRing b c (down b) (ground (arith, has-down b b (omega arith))) r))

-- The list of `binit` has each buffer once, the last of the array first, and is a ring both ways.
pub binit-IsRing : IsRing binit (down nbuf)
unfolding binit
binit-IsRing =
    binit_loop-IsRing nbuf 0 nbuf empty_ring refl (omega arith)
      record { forth = refl; back = refl; apart = refl; once = tt }

pub down-has : (n b : ℕ) → b < n → has b (down n) ≡ true
down-has zero b lt = absurd (omega (arith, lt))
down-has (suc n) b lt = elim (ℕ_discrete b n) [
  | yes e ↦ rw e (ground arith)
  | no ne ↦ ground (arith, down-has n b (omega (arith, lt, ne)))
]
