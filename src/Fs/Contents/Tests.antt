-- ===== src/Fs/Contents/Tests.antt =====
-- A file of 1500 bytes in blocks 5 and 6, and a write of 8 bytes across the two.
use my_oslab.Base.{
  ℕ, zero, suc, ◌+◌, ◌*◌, ◌/◌, ◌%◌, ◌≤◌, ◌<◌, ◌≡◌, ◌≢◌, refl, sym, ◌∙◌, inl, inr, true, false, some,
  [], ◌∷◌, replicate, if◌then◌else◌, Bool-cases, ltb, ◌==◌, arith, pos,
}
use my_oslab.Kalloc.{Kmem}
use my_oslab.Strings.{Bytes}
use my_oslab.Vm.{leaf, walkaddr, page_round_down}
use my_oslab.Vm.Through.{phys, IsUser, IsApart, SameBut}
use my_oslab.Fs.{Superblock, Device}
use my_oslab.Fs.Icache.{Dinode, Inode}
use my_oslab.Fs.Inode.{FsState}
use my_oslab.Fs.Contents.{bsize, maxfile, readi, writei}
use my_oslab.Fs.Contents.Mapped.{IsMapped, block_at}
use my_oslab.Fs.Contents.Round.{grown, writei_lem}
use my_oslab.Fs.Contents.Users.{readi-writei_user}
use my_oslab.Fs.Contents.Bound.{writei-IsBounded}

abbrev pub sb : Superblock
sb = record { size = 600; bmapstart = 2; inodestart = 1; ninodes = 16 }

abbrev pub on_disk : Dinode
on_disk = record {
  type = 2;
  major = 0;
  minor = 0;
  nlink = 1;
  size = 1500;
  addrs = 5 ∷ (6 ∷ replicate 11 0);
}

abbrev pub file : Inode
file = record { dev = 1; inum = 2; ref = 1; valid = 1; copy = on_disk }

abbrev pub device : Device
device = record { blocks = λ b i. 9; logged = [] }

abbrev pub state : FsState
state = record { device = device; dinodes = λ i. on_disk; icache = file ∷ [] }

abbrev pub kmem : Kmem
kmem = record { memory = λ a. 0; freelist = 0 }

abbrev memory : Bytes
memory a = a

pub file-IsMapped : IsMapped file device 2
file-IsMapped = record {
  fits = omega arith;
  has_indirect = λ bn lt e. absurd (ground (arith, lt, e));
  allocated = allocated;
  apart = allocated;
  once = once;
}
  where
    allocated : (bn : ℕ) → bn < 2 → block_at file device bn ≢ 0
    allocated zero lt e = absurd (omega (arith, e))
    allocated (suc zero) lt e = absurd (omega (arith, e))
    allocated (suc (suc bn)) lt e = absurd (omega (arith, lt))

    once : (i j : ℕ) → i < 2 → j < 2 → block_at file device i ≡ block_at file device j → i ≡ j
    once zero zero li lj e = refl
    once zero (suc zero) li lj e = absurd (omega (arith, e))
    once (suc zero) zero li lj e = absurd (omega (arith, e))
    once (suc zero) (suc zero) li lj e = refl
    once (suc (suc i)) j li lj e = absurd (omega (arith, li))
    once zero (suc (suc j)) li lj e = absurd (omega (arith, lj))
    once (suc zero) (suc (suc j)) li lj e = absurd (omega (arith, lj))

-- The tables stand in the pages 0x1000, 0x2000 and 0x3000, and map the user's first two pages.
abbrev user_kmem : Kmem
user_kmem = record {
  freelist = 0;
  memory = λ a.
      if a == 0x1000
      then leaf 0x2000 0
      else if a == 0x2000
      then leaf 0x3000 0
      else if a == 0x3000
      then leaf 0xa000 22
      else if a == 0x3008
      then leaf 0x5000 22
      else 0;
}

first_page : walkaddr 0x1000 0 user_kmem ≡ 0xa000
unfolding walkaddr
first_page = refl

second_page : walkaddr 0x1000 4096 user_kmem ≡ 0x5000
unfolding walkaddr
second_page = refl

two_pages : (a n : ℕ) → a + n ≤ 8192 → IsUser 0x1000 user_kmem a n
two_pages a n le = record { ends = omega (arith, le); mapped = mapped }
  where
    mapped : (i : ℕ) → a ≤ i → i < a + n → walkaddr 0x1000 (page_round_down i) user_kmem ≢ 0
    mapped i l l' e = elim (Bool-cases (ltb i 4096)) [
      | inl t ↦
          let page : i / 4096 * 4096 ≡ 0 = ground arith in
          absurd (omega (arith, sym first_page ∙ (rw page at e)))
      | inr t ↦
          let page : i / 4096 * 4096 ≡ 4096 = ground (arith, le, l') in
          absurd (omega (arith, sym second_page ∙ (rw page at e)))
    ]

low_IsApart : IsApart 0x1000 user_kmem 100 8
low_IsApart i j l l' m m' e =
    let at_i : i / 4096 * 4096 ≡ 0 = omega (arith, l') in
    let at_j : j / 4096 * 4096 ≡ 0 = omega (arith, m') in
    let e' : walkaddr 0x1000 0 user_kmem + i % 4096 ≡ walkaddr 0x1000 0 user_kmem + j % 4096 =
      rw (at_i, at_j) at e in
    omega (arith, e', l', m')

-- The bytes come from both pages of the user, and go to both blocks and back to the first page.
readi-writei_user_example :
    (s' : FsState) × (m' : Bytes) × (writei sb 0x1000 user_kmem true 4092 1020 8 memory file state
      ≡ some (pos 8, (grown 1028 file, s')))
    × (readi sb 0x1000 user_kmem true 100 1020 8 (grown 1028 file) s'.device (λ a. 0)
        ≡ some (8, (grown 1028 file, (s'.device, m'))))
    × ((i : ℕ) → i < 8 → m' (phys 0x1000 user_kmem (100 + i)) ≡ phys 0x1000 user_kmem (4092 + i))
    × SameBut 0x1000 user_kmem 100 8 (λ a. 0) m'
readi-writei_user_example =
    readi-writei_user sb 0x1000 user_kmem 2 4092 100 1020 8 memory file state (λ a. 0) (omega arith)
      (omega arith) (omega arith) (omega arith) file-IsMapped (two_pages 4092 8 (omega arith))
      (two_pages 100 8 (omega arith)) low_IsApart

-- A write of 500 bytes behind the end grows the file to 2000 bytes.
writei-IsBounded_example : (grown 2000 file).copy.size ≤ maxfile * bsize
writei-IsBounded_example =
    writei-IsBounded sb 0 kmem false 100 1500 500 memory file (grown 2000 file) state appended.0
      (pos 500) (omega arith) (omega arith) (omega arith) appended.1
  where
    appended :
        (s' : FsState) × (writei sb 0 kmem false 100 1500 500 memory file state
          ≡ some (pos 500, (grown 2000 file, s')))
    appended =
        let w =
          writei_lem sb 0 kmem 2 100 1500 500 memory file state (omega arith) (omega arith)
            (omega arith) file-IsMapped in
        (w.0, w.1)
