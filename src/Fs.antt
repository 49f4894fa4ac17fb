-- ===== src/Fs.antt =====
-- The lower part of kernel/fs.c. The device's blocks are what `bread` returns of them during a
-- transaction, byte by byte, and a list keeps the blocks given to `log_write`, the last one first.
pub mod Bits
pub mod Balloc
pub mod Icache
pub mod Inode
pub mod Contents
pub mod Dirs
pub mod Paths
mod Tests
use my_oslab.Base.{
  ℕ, zero, suc, ◌+◌, ◌-◌, ◌*◌, ◌/◌, ◌%◌, Bool, true, false, not, Option, none, some, List, [], ◌∷◌,
  ltb, ◌==◌, if◌then◌else◌,
}
use my_oslab.Strings.{Bytes, put, memset}

-- BPB: the bits of a block of BSIZE bytes.
abbrev pub bpb : ℕ
bpb = 1024 * 8

-- The fields of `struct superblock` that are read here.
pub record Superblock : Type 0 where
  pub size : ℕ
  pub bmapstart : ℕ
  pub inodestart : ℕ
  pub ninodes : ℕ

pub record Device : Type 0 where
  pub blocks : ℕ → Bytes
  pub logged : List ℕ

-- `x & (1 << k)` is not 0, `x | (1 << k)` and `x & ~(1 << k)`.
unfoldable pub test_bit : ℕ → ℕ → Bool
test_bit zero x = x % 2 == 1
test_bit (suc k) x = test_bit k (x / 2)

unfoldable pub set_bit : ℕ → ℕ → ℕ
set_bit zero x = x / 2 * 2 + 1
set_bit (suc k) x = x % 2 + 2 * set_bit k (x / 2)

unfoldable pub clear_bit : ℕ → ℕ → ℕ
clear_bit zero x = x / 2 * 2
clear_bit (suc k) x = x % 2 + 2 * clear_bit k (x / 2)

-- BBLOCK
abbrev pub bblock : Superblock → ℕ → ℕ
bblock sb b = b / bpb + sb.bmapstart

-- A buffer's new contents, and `log_write` of it.
abbrev pub write_block : ℕ → Bytes → Device → Device
write_block b v d = record { blocks = λ a. if a == b then v else d.blocks a; logged = b ∷ d.logged }

unfoldable pub bzero : ℕ → Device → Device
bzero bno d = write_block bno (memset 0 0 1024 (d.blocks bno)) d

-- The bit of bitmap block `bp` at `bi`, and a changed byte there.
abbrev pub bit_at : Bytes → ℕ → Bool
bit_at bp bi = test_bit (bi % 8) (bp (bi / 8))

abbrev pub change_byte : (ℕ → ℕ → ℕ) → Bytes → ℕ → Bytes
change_byte f bp bi = put bp (bi / 8) (f (bi % 8) (bp (bi / 8)))

-- The inner loop of `balloc` with `n` bits to look at from `bi` on.
unfoldable pub find_bit : ℕ → ℕ → Bytes → Option ℕ
find_bit zero bi bp = none
find_bit (suc n) bi bp = let rest = find_bit n (bi + 1) bp in if bit_at bp bi then rest else some bi

-- The outer loop with `n` bitmap blocks to go, from block number `b` on.
unfoldable pub balloc_loop : ℕ → ℕ → Superblock → Device → Option (ℕ × Device)
unfolding find_bit bzero set_bit
balloc_loop zero b sb d = none
balloc_loop (suc n) b sb d =
    let bp = d.blocks (bblock sb b) in
    let bits = if ltb (sb.size - b) bpb then sb.size - b else bpb in
    elim (find_bit bits 0 bp) [
      | some bi ↦
          some (b + bi, bzero (b + bi) (write_block (bblock sb b) (change_byte set_bit bp bi) d))
      | none ↦ balloc_loop n (b + bpb) sb d
    ]

-- `balloc`; `none` is the panic, here and below.
unfoldable pub balloc : Superblock → Device → Option (ℕ × Device)
unfolding balloc_loop
balloc sb d = balloc_loop ((sb.size + (bpb - 1)) / bpb) 0 sb d

unfoldable pub bfree : Superblock → ℕ → Device → Option Device
unfolding clear_bit test_bit
bfree sb b d =
    let bp = d.blocks (bblock sb b) in
    if not (bit_at bp (b % bpb))
    then none
    else some (write_block (bblock sb b) (change_byte clear_bit bp (b % bpb)) d)
