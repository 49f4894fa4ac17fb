-- ===== src/Bio/Tests.antt =====
-- Runs of kernel/bio.c on the cache after boot.
use my_oslab.Base.{
  ℕ, zero, suc, ◌≡◌, refl, ap, subst, some, List, [], ◌∷◌, modify, replicate, get_elem?,
  lt-of_get_elem?, arith,
}
use my_oslab.Locks.{Sleeplock, initsleeplock}
use my_oslab.Locks.Tests.{process}
use my_oslab.Proc.{Table}
use my_oslab.Bio.{Bcache, Buf, nbuf, change, add_ref, binit, bget, brelse, recycled}
use my_oslab.Bio.Order.{IsRing, change-IsRing, brelse-IsRing, binit-IsRing, down, down-has}
use my_oslab.Bio.Get.{Unique, IsFull, bget-Unique}
use my_oslab.Bio.Gets.{Gets, bget-Gets}

abbrev zeroed : Buf
zeroed = record {
  valid = 0;
  dev = 0;
  blockno = 0;
  lock = initsleeplock;
  refcnt = 0;
  bytes = λ i. 0;
}

binit-buf : binit.buf ≡ replicate nbuf zeroed
unfolding binit
binit-buf = refl

get-replicate : (n i : ℕ) (z x : Buf) → get_elem? (replicate n z) i ≡ some x → x ≡ z
get-replicate zero i z x h = absurd (cc h)
get-replicate (suc n) zero z x h = cc h
get-replicate (suc n) (suc i) z x h = get-replicate n i z x h

binit-Unique : Unique binit
unfolding Unique
binit-Unique i j x y hi hj some_dev same_dev same_block = absurd (
    some_dev (
      ap (λ (t : Buf). t.dev)
        (get-replicate nbuf i zeroed x
          (subst (λ (l : List Buf). get_elem? l i ≡ some x) binit-buf hi))))

binit-IsFull : IsFull binit (down nbuf)
unfolding IsFull
binit-IsFull i x h = down-has nbuf i (
    lt-of_get_elem? (replicate nbuf zeroed) i x
      (subst (λ (l : List Buf). get_elem? l i ≡ some x) binit-buf h))

-- The first block that is asked for takes buffer 0, the last of the list.
first_bget : bget 1 33 binit ≡ some (0, change (recycled 1 33) 0 binit)
unfolding bget binit
first_bget = refl

bget-Unique_example : Unique (change (recycled 1 33) 0 binit)
bget-Unique_example =
    bget-Unique 1 33 0 binit (change (recycled 1 33) 0 binit) (down nbuf) binit-IsRing (omega arith)
      binit-IsFull binit-Unique first_bget

abbrev owners : Table
owners = process 5 ∷ []

-- The process with pid 5 holds the lock of buffer 28.
abbrev lock : Sleeplock
lock = record { locked = 1; pid = 5 }

abbrev taken : Buf → Buf
taken x = record (add_ref x) { lock = lock }

brelse-IsRing_example :
    (c' : Bcache) × (ps' : Table) × (brelse 0 700 28 owners (change taken 28 binit)
      ≡ some (c', ps'))
    × IsRing c' (28 ∷ (29 ∷ down 28))
brelse-IsRing_example =
    brelse-IsRing 0 700 28 (taken zeroed) owners (change taken 28 binit) (29 ∷ []) (down 28)
      (change-IsRing taken 28 binit (down nbuf) binit-IsRing) held (omega arith) refl
  where
    held : get_elem? (change taken 28 binit).buf 28 ≡ some (taken zeroed)
    held = ap (λ (l : List Buf). get_elem? (modify taken 28 l) 28) binit-buf

-- A block that the cache has is found in its buffer, whatever else is in the list.
bget-Gets_example :
    Gets 1 33
      (change (recycled 1 33) 7 binit)
      (down nbuf)
      (bget 1 33 (change (recycled 1 33) 7 binit))
bget-Gets_example =
    bget-Gets 1 33 (change (recycled 1 33) 7 binit) (down nbuf)
      (change-IsRing (recycled 1 33) 7 binit (down nbuf) binit-IsRing) (omega arith)
