-- ===== src/Log.antt =====
-- kernel/log.c: the write-ahead log. A block is its 32-bit words. `bread` returns the cached copy
-- of a block, which is the disk's until a system call changes it; `bwrite` writes it out. Each
-- function returns the disk writes that it makes, in order, so that a crash is a prefix of them.
pub mod Writes
pub mod Commit
pub mod Header
pub mod Crash
pub mod Atomic
pub mod Recover
pub mod Reserve
pub mod Pins
mod Tests
use my_oslab.Base.{
  ℕ, zero, suc, ◌+◌, ◌-◌, ◌*◌, ◌%◌, ◌^◌, Bool, true, false, not, ◌&&◌, ◌||◌, Option, none, some,
  List, [], ◌∷◌, ◌++◌, length, ltb, leb, add32, sub32, ◌==◌, if◌then◌else◌,
}
use my_oslab.Proc.{Table, of_addr, Chan, wakeup, sleep}

-- LOGSIZE and MAXOPBLOCKS
abbrev pub max_op_blocks : ℕ
max_op_blocks = 10

abbrev pub log_size : ℕ
log_size = max_op_blocks * 3

abbrev pub Block : Type 0
Block = ℕ → ℕ

-- The contents of every block of the device, by number.
abbrev pub Disk : Type 0
Disk = ℕ → Block

abbrev pub Write : Type 0
Write = ℕ × Block

abbrev pub update : Disk → ℕ → Block → Disk
update d b v a = if a == b then v else d a

-- The buffer cache as the log uses it: what `bread` returns, and the `refcnt` of the buffer that
-- holds each block, a `uint`.
pub record Dev : Type 0 where
  pub mem : Disk
  pub refcnt : ℕ → ℕ

abbrev pub update_count : (ℕ → ℕ) → ℕ → ℕ → ℕ → ℕ
update_count f b v a = if a == b then v else f a

-- `b->refcnt++` (in `bread` and `bpin`) and `b->refcnt--` (in `brelse` and `bunpin`).
unfoldable pub hold : ℕ → Dev → Dev
hold b d = record d { refcnt = update_count d.refcnt b (add32 (d.refcnt b) 1) }

unfoldable pub drop_ref : ℕ → Dev → Dev
drop_ref b d = record d { refcnt = update_count d.refcnt b (sub32 (d.refcnt b) 1) }

-- `memmove(to->data, from->data, BSIZE)`
abbrev pub copy_block : ℕ → ℕ → Dev → Dev
copy_block to from d = record d { mem = update d.mem to (d.mem from) }

-- The body of the loop of `install_trans`, whose disk write is of block `b`. It unpins the buffer
-- also where `recover_from_log` calls it.
unfoldable pub install_one : ℕ → ℕ → ℕ → Dev → Dev
unfolding hold drop_ref
install_one start tail b d =
    let lbuf = start + tail + 1 in
    drop_ref b (drop_ref lbuf (drop_ref b (copy_block b lbuf (hold b (hold lbuf d)))))

-- `install_trans` from the index `tail` on, for the block numbers left in the header.
unfoldable pub install_trans : ℕ → ℕ → List ℕ → Dev → List Write × Dev
install_trans start tail [] d = ([], d)
install_trans start tail (b ∷ bs) d =
    let d1 = install_one start tail b d in
    let (ws, d2) = install_trans start (tail + 1) bs d1 in ((b, d1.mem b) ∷ ws, d2)

unfoldable pub write_log_one : ℕ → ℕ → ℕ → Dev → Dev
unfolding hold drop_ref
write_log_one start tail b d =
    let to = start + tail + 1 in drop_ref to (drop_ref b (copy_block to b (hold b (hold to d))))

-- `write_log` from the index `tail` on.
unfoldable pub write_log : ℕ → ℕ → List ℕ → Dev → List Write × Dev
write_log start tail [] d = ([], d)
write_log start tail (b ∷ bs) d =
    let d1 = write_log_one start tail b d in
    let (ws, d2) = write_log start (tail + 1) bs d1 in
    ((start + tail + 1, d1.mem (start + tail + 1)) ∷ ws, d2)

-- The header's array in a block: word 0 is `n`, word i + 1 is `block[i]`.
unfoldable pub put_words : ℕ → List ℕ → Block → Block
put_words i [] w = w
put_words i (b ∷ bs) w = put_words (i + 1) bs (λ a. if a == i then b else w a)

unfoldable pub get_words : ℕ → ℕ → Block → List ℕ
get_words i zero w = []
get_words i (suc n) w = w i ∷ get_words (i + 1) n w

unfoldable pub write_head : ℕ → List ℕ → Dev → List Write × Dev
unfolding put_words
write_head start bs d =
    let hb = put_words 1 bs (λ a. if a == 0 then length bs else d.mem start a) in
    ((start, hb) ∷ [], record d { mem = update d.mem start hb })

unfoldable pub read_head : ℕ → Dev → List ℕ
unfolding get_words
read_head start d = get_words 1 (d.mem start 0) (d.mem start)

unfoldable pub recover_from_log : ℕ → Dev → List Write × Dev
recover_from_log start d =
    let (ws1, d1) = install_trans start 0 (read_head start d) d in
    let (ws2, d2) = write_head start [] d1 in (ws1 ++ ws2, d2)

-- `commit()`, with the block numbers of the header in memory.
unfoldable pub commit : ℕ → List ℕ → Dev → List Write × Dev
commit start [] d = ([], d)
commit start (b ∷ bs) d =
    let (ws1, d1) = write_log start 0 (b ∷ bs) d in
    let (ws2, d2) = write_head start (b ∷ bs) d1 in
    let (ws3, d3) = install_trans start 0 (b ∷ bs) d2 in
    let (ws4, d4) = write_head start [] d3 in (ws1 ++ (ws2 ++ (ws3 ++ ws4)), d4)

-- `struct log`; `lh` is `lh.block[0]` to `lh.block[lh.n - 1]`.
pub record Log : Type 0 where
  pub start : ℕ
  pub size : ℕ
  pub outstanding : ℕ
  pub committing : Bool
  pub lh : List ℕ

-- A turn of the loop of `begin_op` by process `me`: `false` where it sleeps on the log, at address
-- `log`, and tries again.
unfoldable pub begin_op : ℕ → ℕ → Log → Table → Bool × Log × Table
begin_op log me l ps =
    if l.committing
    then (false, l, sleep (of_addr log) me ps)
    else if ltb log_size (length l.lh + (l.outstanding + 1) * max_op_blocks)
    then (false, l, sleep (of_addr log) me ps)
    else (true, record l { outstanding = l.outstanding + 1 }, ps)

-- What `end_op` does under the lock: whether the caller commits; `none` is the panic.
unfoldable pub end_op : ℕ → Log → Table → Option (Bool × Log × Table)
end_op log l ps =
    if l.committing
    then none
    else if l.outstanding == 1
    then some (true, record l { outstanding = 0; committing = true }, ps)
    else some (false, record l { outstanding = sub32 l.outstanding 1 }, wakeup (of_addr log) ps)

-- What `end_op` does after `commit`, which has set `lh.n` to 0.
unfoldable pub end_commit : ℕ → Log → Table → Log × Table
end_commit log l ps = (record l { lh = []; committing = false }, wakeup (of_addr log) ps)

-- `initlog` with the superblock's `logstart` and `nlog`, behind its test that a `struct logheader`,
-- of 124 bytes, fits a block.
unfoldable pub initlog : ℕ → ℕ → Dev → List Write × Dev × Log
initlog logstart nlog d =
    let (ws, d') = recover_from_log logstart d in
    (ws, d', record { start = logstart; size = nlog; outstanding = 0; committing = false; lh = [] })

-- The search of `log_write` for the block, with the entry written: the new header, and whether the
-- block is new to it.
unfoldable pub absorb : ℕ → List ℕ → List ℕ × Bool
absorb b [] = (b ∷ [], true)
absorb b (c ∷ bs) =
    let (rest, new) = absorb b bs in if c == b then (b ∷ bs, false) else (c ∷ rest, new)

-- `log_write(b)`, for the buffer of block `b`; `none` is a panic.
unfoldable pub log_write : ℕ → Log → Dev → Option (Log × Dev)
unfolding absorb hold
log_write b l d =
    if leb log_size (length l.lh) || leb (l.size - 1) (length l.lh)
    then none
    else if ltb l.outstanding 1
    then none
    else (let (bs, new) = absorb b l.lh in some (record l { lh = bs }, if new then hold b d else d))
