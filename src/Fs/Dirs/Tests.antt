-- ===== src/Fs/Dirs/Tests.antt =====
-- A directory of two entries in block 5, of which the second is in use and has the name `a`.
use my_oslab.Base.{ℕ, zero, suc, ◌<◌, ◌≢◌, refl, [], ◌∷◌, ◌==◌, if◌then◌else◌, arith, replicate}
use my_oslab.Strings.{Bytes}
use my_oslab.Fs.{Device}
use my_oslab.Fs.Icache.{Dinode, Inode}
use my_oslab.Fs.Inode.{FsState}
use my_oslab.Fs.Contents.Mapped.{block_at}
use my_oslab.Fs.Contents.Tests.{sb, kmem}
use my_oslab.Fs.Dirs.{dirlookup}
use my_oslab.Fs.Dirs.Scan.{IsDir}
use my_oslab.Fs.Dirs.Lookup.{Looks, dirlookup-Looks}

abbrev on_disk : Dinode
on_disk = record {
  type = 1;
  major = 0;
  minor = 0;
  nlink = 1;
  size = 32;
  addrs = 5 ∷ replicate 12 0;
}

abbrev pub dir : Inode
dir = record { dev = 1; inum = 1; ref = 2; valid = 1; copy = on_disk }

abbrev pub device : Device
device = record {
  blocks = λ b i. if b == 5 then (if i == 16 then 7 else if i == 18 then b'a' else 0) else 0;
  logged = [];
}

abbrev unused : Inode
unused = record dir { ref = 0 }

abbrev pub state : FsState
state = record {
  device = device;
  dinodes = λ i. if i == 7 then record on_disk { addrs = replicate 13 0 } else on_disk;
  icache = dir ∷ (unused ∷ []);
}

abbrev name : Bytes
name i = if i == 0 then b'a' else 0

dir-IsDir : IsDir 1 0 dir state 2 0
dir-IsDir = record {
  there = refl;
  mapped = record {
    fits = omega arith;
    has_indirect = λ bn lt e. absurd (ground (arith, lt, e));
    allocated = allocated;
    apart = allocated;
    once = λ i j li lj e. omega (arith, li, lj);
  };
  size = refl;
  inside = omega arith;
}
  where
    allocated : (bn : ℕ) → bn < 1 → block_at dir device bn ≢ 0
    allocated zero lt e = absurd (omega (arith, e))
    allocated (suc bn) lt e = absurd (omega (arith, lt))

dirlookup-Looks_example : Looks sb 0 kmem 1 dir name 2 state (dirlookup sb 0 kmem 0 name state)
dirlookup-Looks_example = dirlookup-Looks sb 0 kmem 1 0 2 dir name state refl dir-IsDir
