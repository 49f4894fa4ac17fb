-- ===== src/Bio.antt =====
-- kernel/bio.c: the buffers of the cache, in a doubly linked list by how recently they were used.
-- A buffer is its number; `bcache.head` is the number `nbuf`. Each function's critical section is
-- a step, and a sleep lock that a caller waits for is taken in a later step. A panic is `none`.
pub mod Links
pub mod Order
pub mod Get
pub mod Gets
mod Tests
use my_oslab.Base.{
  ℕ, zero, suc, ◌+◌, ◌-◌, Bool, true, false, not, ◌&&◌, Option, none, some, List, [], ◌∷◌,
  replicate, get_elem?, modify, add32, sub32, ◌==◌, if◌then◌else◌,
}
use my_oslab.Strings.{Bytes}
use my_oslab.Locks.{Sleeplock, initsleeplock, holdingsleep, releasesleep}
use my_oslab.Proc.{Table}

-- NBUF, and the head of the list.
abbrev pub nbuf : ℕ
nbuf = 30

abbrev pub head : ℕ
head = nbuf

-- `struct buf`, but for its place in the list.
pub record Buf : Type 0 where
  pub valid : ℕ
  pub dev : ℕ
  pub blockno : ℕ
  pub lock : Sleeplock
  pub refcnt : ℕ
  pub bytes : Bytes

-- `bcache`
pub record Bcache : Type 0 where
  pub buf : List Buf
  pub prev : ℕ → ℕ
  pub next : ℕ → ℕ

-- `b->next = v` and `b->prev = v`
abbrev pub assign : (ℕ → ℕ) → ℕ → ℕ → ℕ → ℕ
assign f b v a = if a == b then v else f a

abbrev pub set_next : ℕ → ℕ → Bcache → Bcache
set_next b v c = record c { next = assign c.next b v }

abbrev pub set_prev : ℕ → ℕ → Bcache → Bcache
set_prev b v c = record c { prev = assign c.prev b v }

-- The four assignments that put a buffer behind the head of the list.
unfoldable pub insert_front : ℕ → Bcache → Bcache
insert_front b c =
    let c1 = set_next b (c.next head) c in
    let c2 = set_prev b head c1 in let c3 = set_prev (c2.next head) b c2 in set_next head b c3

-- The loop of `binit` with `n` buffers to go from `b` on.
unfoldable pub binit_loop : ℕ → ℕ → Bcache → Bcache
unfolding insert_front
binit_loop zero b c = c
binit_loop (suc n) b c = binit_loop n (b + 1) (insert_front b c)

-- Zeroed memory, and the list with the head alone.
abbrev pub empty_ring : Bcache
empty_ring =
    let zeroed : Buf = record {
      valid = 0;
      dev = 0;
      blockno = 0;
      lock = initsleeplock;
      refcnt = 0;
      bytes = λ i. 0;
    } in
    let c : Bcache = record { buf = replicate nbuf zeroed; prev = λ a. 0; next = λ a. 0 } in
    set_next head head (set_prev head head c)

unfoldable pub binit : Bcache
unfolding binit_loop
binit = binit_loop nbuf 0 empty_ring

-- A test of buffer `b`.
abbrev pub test_buf : (Buf → Bool) → Bcache → ℕ → Bool
test_buf p c b = elim (get_elem? c.buf b) [ none ↦ false | some x ↦ p x ]

-- `b->dev == dev && b->blockno == blockno`, and `b->refcnt == 0`
abbrev pub is_block : ℕ → ℕ → Buf → Bool
is_block dev blockno b = b.dev == dev && b.blockno == blockno

abbrev pub is_unused : Buf → Bool
is_unused b = b.refcnt == 0

-- The loops of `bget`, along `next` or `prev` from `b` to the head: the first buffer that passes
-- the test. The fuel is one more than the buffers.
unfoldable pub walk : (Buf → Bool) → (ℕ → ℕ) → Bcache → ℕ → ℕ → Option ℕ
walk p along c zero b = none
walk p along c (suc fuel) b = elim (b == head) [
  | true ↦ none
  | false ↦ elim (test_buf p c b) [ true ↦ some b | false ↦ walk p along c fuel (along b) ]
]

abbrev pub change : (Buf → Buf) → ℕ → Bcache → Bcache
change f b c = record c { buf = modify f b c.buf }

-- `b->refcnt++`
abbrev pub add_ref : Buf → Buf
add_ref b = record b { refcnt = add32 b.refcnt 1 }

abbrev pub drop_ref : Buf → Buf
drop_ref b = record b { refcnt = sub32 b.refcnt 1 }

abbrev pub recycled : ℕ → ℕ → Buf → Buf
recycled dev blockno b = record b { dev = dev; blockno = blockno; valid = 0; refcnt = 1 }

-- What `bget` does with what its two loops found.
abbrev pub choose : ℕ → ℕ → Bcache → Option ℕ → Option ℕ → Option (ℕ × Bcache)
choose dev blockno c (some b) unused = some (b, change add_ref b c)
choose dev blockno c none (some b) = some (b, change (recycled dev blockno) b c)
choose dev blockno c none none = none

-- `bget` up to the wait for the buffer's sleep lock.
unfoldable pub bget : ℕ → ℕ → Bcache → Option (ℕ × Bcache)
unfolding walk
bget dev blockno c =
    choose dev blockno c (walk (is_block dev blockno) c.next c (nbuf + 1) (c.next head))
      (walk is_unused c.prev c (nbuf + 1) (c.prev head))

-- `bread` once the buffer `b` of `bget` is locked; `disk` is what the device has of each block.
unfoldable pub bread : (ℕ → Bytes) → ℕ → Bcache → Bcache
bread disk b c =
    change (λ (x : Buf). if x.valid == 0 then record x { bytes = disk x.blockno; valid = 1 } else x)
      b c

-- `bwrite`: the block that the device gets.
unfoldable pub bwrite : ℕ → ℕ → Table → Bcache → Option (ℕ × Bytes)
bwrite me b ps c = elim (get_elem? c.buf b) [
  | none ↦ none
  | some x ↦ if holdingsleep me x.lock ps then some (x.blockno, x.bytes) else none
]

-- The two assignments that take a buffer out of the list.
unfoldable pub unlink : ℕ → Bcache → Bcache
unlink b c = let c1 = set_prev (c.next b) (c.prev b) c in set_next (c1.prev b) (c1.next b) c1

-- The last block of `brelse`: the buffer goes to the front.
unfoldable pub move_front : ℕ → Bcache → Bcache
unfolding unlink insert_front
move_front b c = insert_front b (unlink b c)

-- The critical section of `brelse`.
unfoldable pub drop_buf : ℕ → Bcache → Bcache
unfolding move_front
drop_buf b c =
    let c1 = change drop_ref b c in if test_buf is_unused c1 b then move_front b c1 else c1

abbrev pub unlocked : Sleeplock → Buf → Buf
unlocked l x = record x { lock = l }

-- `brelse` by process `me`; `lk` is the address of the buffer's lock.
unfoldable pub brelse : ℕ → ℕ → ℕ → Table → Bcache → Option (Bcache × Table)
unfolding drop_buf releasesleep
brelse me lk b ps c = elim (get_elem? c.buf b) [
  | none ↦ none
  | some x ↦
      let (l, ps') = releasesleep lk x.lock ps in
      if holdingsleep me x.lock ps then some (drop_buf b (change (unlocked l) b c), ps') else none
]

unfoldable pub bpin : ℕ → Bcache → Bcache
bpin b c = change add_ref b c

unfoldable pub bunpin : ℕ → Bcache → Bcache
bunpin b c = change drop_ref b c
