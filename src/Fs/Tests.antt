-- ===== src/Fs/Tests.antt =====
-- A device of 600 blocks whose first three are in use, its bitmap in block 2, and a cache of two
-- entries.
use my_oslab.Base.{
  ℕ, ◌<◌, ◌≡◌, refl, sym, subst, ◌∙◌, zero, suc, true, false, none, some, [], ◌∷◌, get_elem?,
  replicate, Option, ◌==◌, if◌then◌else◌, arith,
}
use my_oslab.Strings.{memset}
use my_oslab.Fs.{Superblock, Device, test_bit, balloc}
use my_oslab.Fs.Balloc.{is_used, taken, Allotted, balloc-Allotted}
use my_oslab.Fs.Icache.{Dinode, Inode, Icache, iget}
use my_oslab.Fs.Icache.Unique.{IsUnique, Got, iget-Got}
use my_oslab.Fs.Inode.{bmap}
use my_oslab.Fs.Inode.Bmap.{bmap_again}

abbrev sb : Superblock
sb = record { size = 600; bmapstart = 2; inodestart = 1; ninodes = 16 }

abbrev device : Device
device = record { blocks = λ b i. if b == 2 then (if i == 0 then 7 else 0) else 9; logged = [] }

balloc-Allotted_example : Allotted 0 sb device (balloc sb device)
balloc-Allotted_example = balloc-Allotted sb device

third_free : is_used sb device 3 ≡ false
unfolding test_bit
third_free = refl

abbrev on_disk : Dinode
on_disk = record { type = 2; major = 0; minor = 0; nlink = 1; size = 0; addrs = [] }

abbrev root : Inode
root = record { dev = 1; inum = 1; ref = 4; valid = 1; copy = on_disk }

abbrev unused : Inode
unused = record { dev = 1; inum = 1; ref = 0; valid = 0; copy = on_disk }

abbrev cache : Icache
cache = root ∷ unused ∷ []

in_use : (j : ℕ) (y : Inode) → get_elem? cache j ≡ some y → 0 < y.ref → j ≡ 0
in_use zero y g l = refl
in_use (suc zero) y g l =
    let e : unused ≡ y = cc g in
    let free = subst (λ (z : Inode). z.ref ≡ 0) e refl in absurd (omega arith)
in_use (suc (suc j)) y g l = absurd (ground (arith, g))

cache-IsUnique : IsUnique cache
cache-IsUnique i j x y gx gy used same = in_use i x gx (ground arith) ∙ sym (in_use j y gy used)

found_seven : iget 1 7 cache ≡ some (1, root ∷ record unused { inum = 7; ref = 1 } ∷ [])
unfolding iget
found_seven = refl

iget-Got_example : Got 1 7 1 (root ∷ record unused { inum = 7; ref = 1 } ∷ [])
iget-Got_example =
    iget-Got 1 7 cache cache-IsUnique 1 (root ∷ record unused { inum = 7; ref = 1 } ∷ [])
      found_seven

abbrev file : Inode
file = record root { copy = record on_disk { addrs = replicate 13 0 } }

abbrev grown : Inode
grown = record root { copy = record on_disk { addrs = 3 ∷ replicate 12 0 } }

first_used : is_used sb device 0 ≡ true
unfolding test_bit
first_used = refl

first_block : bmap sb 0 file device ≡ some (3, (grown, taken sb 3 device))
unfolding bmap balloc test_bit
first_block = refl

bmap_again_example : bmap sb 0 grown (taken sb 3 device) ≡ some (3, (grown, taken sb 3 device))
bmap_again_example =
    bmap_again sb 0 file grown device (taken sb 3 device) 3 refl first_used (λ e. omega arith)
      (omega arith) first_block

abbrev block_of : Option (ℕ × (Inode × Device)) → ℕ
block_of none = 0
block_of (some (b, r)) = b

-- The thirteenth block comes with an indirect block: blocks 3 and 4 are taken.
indirect_block : block_of (bmap sb 12 file device) ≡ 4
unfolding bmap balloc test_bit memset
indirect_block = refl
