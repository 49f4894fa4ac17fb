-- ===== src/Fs/Contents/Mapped.antt =====
-- A file whose first blocks are allocated: `bmap` finds them and changes nothing, and a write to
-- one of them leaves them where they are.
use my_oslab.Base.{
  ℕ, ◌-◌, ◌/◌, ◌%◌, ◌≤◌, ◌<◌, ◌≡◌, ◌≢◌, inl, inr, refl, sym, ap, ◌∙◌, true, false, some, get_or,
  ltb, if◌then◌else◌, ne→==, Bool-cases, arith,
}
use my_oslab.Strings.{Bytes}
use my_oslab.Fs.{Superblock, Device, write_block}
use my_oslab.Fs.Icache.{Inode}
use my_oslab.Fs.Inode.{ndirect, nindirect, word_at, find_indirect, with_inode, bmap}
use my_oslab.Fs.Inode.Bmap.{own_addr_found, indirect_addr_found}
use my_oslab.Fs.Contents.{bsize, maxfile}

-- The address of the indirect block, and the address that is stored for block `bn`.
abbrev pub indirect : Inode → ℕ
indirect ip = get_or ip.copy.addrs ndirect 0

abbrev pub block_at : Inode → Device → ℕ → ℕ
block_at ip d bn =
    if ltb bn ndirect
    then get_or ip.copy.addrs bn 0
    else word_at (d.blocks (indirect ip)) (bn - ndirect)

-- The byte at an offset of the file.
abbrev pub file_byte : Inode → Device → ℕ → ℕ
file_byte ip d o = d.blocks (block_at ip d (o / bsize)) (o % bsize)

-- The first `k` blocks are allocated, each its own block of the device and none the indirect one.
pub record IsMapped (ip : Inode) (d : Device) (k : ℕ) : Type 0 where
  pub fits : k ≤ maxfile
  pub has_indirect : (bn : ℕ) → bn < k → ltb bn ndirect ≡ false → indirect ip ≢ 0
  pub allocated : (bn : ℕ) → bn < k → block_at ip d bn ≢ 0
  pub apart : (bn : ℕ) → bn < k → block_at ip d bn ≢ indirect ip
  pub once : (i j : ℕ) → i < k → j < k → block_at ip d i ≡ block_at ip d j → i ≡ j

pub bmap-IsMapped :
    (sb : Superblock) (ip : Inode) (d : Device) (k bn : ℕ)
    → IsMapped ip d k
    → bn < k
    → bmap sb bn ip d ≡ some (block_at ip d bn, (ip, d))
unfolding bmap
bmap-IsMapped sb ip d k bn mp lt = elim (Bool-cases (ltb bn ndirect)) [
  | inl t ↦
      rw (bmap, t)
        (own_addr_found sb bn ip d (get_or ip.copy.addrs bn 0) refl (rw t at (mp.allocated bn lt)))
  | inr t ↦
      let few : ltb (bn - ndirect) nindirect ≡ true = ground (arith, mp.fits) in
      let first = own_addr_found sb ndirect ip d (indirect ip) refl (mp.has_indirect bn lt t) in
      let second =
        indirect_addr_found sb (indirect ip) (bn - ndirect) d
          (word_at (d.blocks (indirect ip)) (bn - ndirect)) refl (rw t at (mp.allocated bn lt)) in
      rw (bmap, t, few) (ap (find_indirect sb (bn - ndirect)) first ∙ ap (with_inode sb ip) second)
]

-- A write to a block that is not the indirect one moves no block of the file.
pub block_at-write_block :
    (ip : Inode) (d : Device) (b bn : ℕ) (v : Bytes)
    → b ≢ indirect ip
    → block_at ip (write_block b v d) bn ≡ block_at ip d bn
block_at-write_block ip d b bn v ne = rw (ne→== (indirect ip) b (λ e. ne (sym e))) refl

pub IsMapped-write_block :
    (ip : Inode) (d : Device) (k b : ℕ) (v : Bytes)
    → b ≢ indirect ip
    → IsMapped ip d k
    → IsMapped ip (write_block b v d) k
IsMapped-write_block ip d k b v ne mp =
    let same = λ (bn : ℕ). block_at-write_block ip d b bn v ne in
    record {
      fits = mp.fits;
      has_indirect = mp.has_indirect;
      allocated = λ bn lt e. mp.allocated bn lt (sym (same bn) ∙ e);
      apart = λ bn lt e. mp.apart bn lt (sym (same bn) ∙ e);
      once = λ i j li lj e. mp.once i j li lj (sym (same i) ∙ e ∙ same j);
    }
