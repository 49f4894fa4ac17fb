-- ===== src/Fs/Inode.antt =====
-- Inodes on the disk and in the cache, in kernel/fs.c. An inode's sleep lock is not part of the
-- state: `ilock` is what follows once the lock is held. `none` is a panic.
pub mod Bmap
use my_oslab.Base.{
  ℕ, zero, suc, ◌+◌, ◌-◌, ◌*◌, ◌/◌, ◌%◌, ◌^◌, Bool, true, false, not, ◌&&◌, Option, none, some,
  List, [], ◌∷◌, replicate, take, get_elem?, get_or, set, ltb, ◌==◌, if◌then◌else◌,
}
use my_oslab.Strings.{Bytes, put}
use my_oslab.Fs.{Superblock, Device, write_block, balloc, bfree}
use my_oslab.Fs.Icache.{Dinode, Inode, Icache, iget}

-- The blocks, the inodes of the inode blocks by number, and the cache.
pub record FsState : Type 0 where
  pub device : Device
  pub dinodes : ℕ → Dinode
  pub icache : Icache

-- NDIRECT and NINDIRECT
abbrev pub ndirect : ℕ
ndirect = 12

abbrev pub nindirect : ℕ
nindirect = 1024 / 4

-- IBLOCK, with IPB inodes of 64 bytes in a block.
abbrev pub iblock : Superblock → ℕ → ℕ
iblock sb i = i / (1024 / 64) + sb.inodestart

-- `a[j]` and `a[j] = v` for the `uint`s of an indirect block.
abbrev pub word_at : Bytes → ℕ → ℕ
word_at bp j =
    bp (4 * j) + 2 ^ 8 * bp (4 * j + 1) + 2 ^ 16 * bp (4 * j + 2) + 2 ^ 24 * bp (4 * j + 3)

abbrev pub put_word : Bytes → ℕ → ℕ → Bytes
put_word bp j v =
    put
      (put (put (put bp (4 * j) (v % 256)) (4 * j + 1) (v / 2 ^ 8 % 256)) (4 * j + 2)
        (v / 2 ^ 16 % 256))
      (4 * j + 3) (v / 2 ^ 24 % 256)

module _ (sb : Superblock) where
  -- An inode of the disk is changed, and its block logged.
  abbrev pub write_dinode : ℕ → Dinode → FsState → FsState
  write_dinode inum dip s = record s {
    dinodes = λ a. if a == inum then dip else s.dinodes a;
    device = record (s.device) { logged = iblock sb inum ∷ s.device.logged };
  }

  -- The loop of `ialloc` with `n` inodes to look at from `inum` on.
  unfoldable pub ialloc_loop : ℕ → ℕ → ℕ → ℕ → FsState → Option (ℕ × FsState)
  ialloc_loop zero inum dev type s = none
  ialloc_loop (suc n) inum dev type s = elim ((s.dinodes inum).type == 0) [
    | false ↦ ialloc_loop n (inum + 1) dev type s
    | true ↦
        let dip : Dinode = record {
          type = type;
          major = 0;
          minor = 0;
          nlink = 0;
          size = 0;
          addrs = replicate (ndirect + 1) 0;
        } in
        let s1 = write_dinode inum dip s in
        elim (iget dev inum s1.icache) [
          | none ↦ none
          | some (i, c) ↦ some (i, record s1 { icache = c })
        ]
  ]

  unfoldable pub ialloc : ℕ → ℕ → FsState → Option (ℕ × FsState)
  unfolding ialloc_loop
  ialloc dev type s = ialloc_loop (sb.ninodes - 1) 1 dev type s

  unfoldable pub iupdate : Inode → FsState → FsState
  iupdate ip s = write_dinode ip.inum ip.copy s

  unfoldable pub ilock : ℕ → FsState → Option FsState
  ilock i s = elim (get_elem? s.icache i) [
    | none ↦ none
    | some ip ↦
        let dip = s.dinodes ip.inum in
        if ltb ip.ref 1
        then none
        else if not (ip.valid == 0)
        then some s
        else if dip.type == 0
        then none
        else some (record s { icache = set s.icache i (record ip { copy = dip; valid = 1 }) })
  ]

  -- `if (a) bfree(dev, a)` for each address.
  unfoldable pub free_addrs : List ℕ → Device → Option Device
  free_addrs [] d = some d
  free_addrs (a ∷ rest) d = elim (a == 0) [
    | true ↦ free_addrs rest d
    | false ↦ elim (bfree sb a d) [ none ↦ none | some d' ↦ free_addrs rest d' ]
  ]

  -- The `n` addresses of an indirect block from number `j` on.
  abbrev pub words : ℕ → ℕ → Bytes → List ℕ
  words zero j bp = []
  words (suc n) j bp = word_at bp j ∷ words n (j + 1) bp

  -- The indirect block of `itrunc`; its address is the last of the inode.
  unfoldable pub free_indirect : ℕ → Device → Option Device
  unfolding free_addrs
  free_indirect a d = elim (a == 0) [
    | true ↦ some d
    | false ↦ elim (free_addrs (words nindirect 0 (d.blocks a)) d) [
      | none ↦ none
      | some d1 ↦ bfree sb a d1
    ]
  ]

  -- `itrunc`: the inode without contents, and the disk.
  unfoldable pub itrunc : Inode → FsState → Option (Inode × FsState)
  unfolding free_addrs free_indirect iupdate
  itrunc ip s = elim (free_addrs (take ndirect ip.copy.addrs) s.device) [
    | none ↦ none
    | some d1 ↦ elim (free_indirect (get_or ip.copy.addrs ndirect 0) d1) [
      | none ↦ none
      | some d2 ↦
          let ip' : Inode = record ip {
            copy = record (ip.copy) { addrs = replicate (ndirect + 1) 0; size = 0 };
          } in
          some (ip', iupdate ip' (record s { device = d2 }))
    ]
  ]

  -- `iput` of entry `i`.
  unfoldable pub iput : ℕ → FsState → Option FsState
  unfolding itrunc iupdate
  iput i s = elim (get_elem? s.icache i) [
    | none ↦ none
    | some ip ↦ elim (ip.ref == 1 && not (ip.valid == 0) && ip.copy.nlink == 0) [
      | false ↦ some (record s { icache = set s.icache i (record ip { ref = ip.ref - 1 }) })
      | true ↦ elim (itrunc ip s) [
        | none ↦ none
        | some (ip1, s1) ↦
            let ip2 : Inode = record ip1 { copy = record (ip1.copy) { type = 0 } } in
            let s2 = iupdate ip2 s1 in
            some
              (record s2 { icache = set s2.icache i (record ip2 { valid = 0; ref = ip2.ref - 1 }) })
      ]
    ]
  ]

  -- `ip->addrs[k] = addr` for the block that `balloc` gave.
  abbrev pub set_addr : ℕ → Inode → Option (ℕ × Device) → Option (ℕ × (Inode × Device))
  set_addr k ip none = none
  set_addr k ip (some (b, d)) =
      some (b, (record ip { copy = record (ip.copy) { addrs = set ip.copy.addrs k b } }, d))

  -- The address of block `k` of the direct ones, or of the indirect block, allocated if it is 0.
  unfoldable pub own_addr : ℕ → Inode → Device → Option (ℕ × (Inode × Device))
  own_addr k ip d =
      let a = get_or ip.copy.addrs k 0 in
      elim (a == 0) [ false ↦ some (a, (ip, d)) | true ↦ set_addr k ip (balloc sb d) ]

  -- `a[bn] = addr; log_write(bp);`
  abbrev pub set_word : ℕ → ℕ → Option (ℕ × Device) → Option (ℕ × Device)
  set_word a bn none = none
  set_word a bn (some (b, d)) = some (b, write_block a (put_word (d.blocks a) bn b) d)

  -- The entry `bn` of the indirect block at `a`, allocated if it is 0.
  unfoldable pub indirect_addr : ℕ → ℕ → Device → Option (ℕ × Device)
  indirect_addr a bn d =
      let w = word_at (d.blocks a) bn in
      elim (w == 0) [ false ↦ some (w, d) | true ↦ set_word a bn (balloc sb d) ]

  abbrev pub with_inode : Inode → Option (ℕ × Device) → Option (ℕ × (Inode × Device))
  with_inode ip none = none
  with_inode ip (some (b, d)) = some (b, (ip, d))

  -- The entry `bn`, once the indirect block's address is there.
  abbrev pub find_indirect : ℕ → Option (ℕ × (Inode × Device)) → Option (ℕ × (Inode × Device))
  find_indirect bn none = none
  find_indirect bn (some (a, (ip, d))) = with_inode ip (indirect_addr a bn d)

  unfoldable pub bmap : ℕ → Inode → Device → Option (ℕ × (Inode × Device))
  unfolding own_addr indirect_addr
  bmap bn ip d =
      let direct = own_addr bn ip d in
      let indirect = find_indirect (bn - ndirect) (own_addr ndirect ip d) in
      if ltb bn ndirect then direct else if ltb (bn - ndirect) nindirect then indirect else none
