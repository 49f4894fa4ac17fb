-- ===== src/Sysfile/Inodes/Tests.antt =====
-- The directory of Fs/Dirs/Tests, whose entry `a` is removed.
use my_oslab.Base.{
  ℕ, zero, suc, ◌+◌, ◌*◌, ◌<◌, ◌≢◌, ◌↔◌, Bool, true, arith, ◌≡◌, refl, Option, none, some, [], ◌∷◌,
  ℤ, pos,
}
use my_oslab.Strings.{strncmp}
use my_oslab.Fs.{bfree}
use my_oslab.Fs.Icache.{Inode, iget, idup}
use my_oslab.Fs.Inode.{FsState, itrunc, ilock, iput, iupdate, bmap}
use my_oslab.Fs.Contents.{readi, writei}
use my_oslab.Fs.Contents.Tests.{sb, kmem}
use my_oslab.Fs.Dirs.{dirlookup, namecmp, scan, read_entry}
use my_oslab.Fs.Dirs.Tests.{state, dir}
use my_oslab.Fs.Paths.{PathText, skipelem, namex, find_parent, namex_loop}
use my_oslab.Sysfile.Inodes.{sys_unlink, isdirempty}
use my_oslab.Sysfile.Inodes.Empty.{isdirempty_iff}
use my_oslab.Fs.Dirs.Scan.{IsDir, inum_at}
use my_oslab.Fs.Contents.Mapped.{block_at}

abbrev path : PathText
path = b'a' ∷ []

abbrev state_of : Option (ℤ × FsState) → FsState
state_of none = state
state_of (some (r, s)) = s

removed :
    sys_unlink sb 0 kmem 0 path state ≡ some (pos 0, state_of (sys_unlink sb 0 kmem 0 path state))
unfolding sys_unlink find_parent namex namex_loop skipelem idup ilock dirlookup scan read_entry
    readi bmap namecmp strncmp iget iput iupdate writei isdirempty bfree itrunc
removed = refl

-- A directory with a third entry, which is not in use.
abbrev larger : Inode
larger = record dir { copy = record (dir.copy) { size = 48 } }

abbrev with_larger : FsState
with_larger = record state { icache = larger ∷ [] }

larger-IsDir : IsDir 1 0 larger with_larger 1 32
larger-IsDir = record {
  there = refl;
  mapped = record {
    fits = omega arith;
    has_indirect = λ bn lt e. absurd (ground (arith, lt, e));
    allocated = allocated;
    apart = allocated;
    once = λ i j li lj e. omega (arith, li, lj);
  };
  size = refl;
  inside = omega arith;
}
  where
    allocated : (bn : ℕ) → bn < 1 → block_at larger with_larger.device bn ≢ 0
    allocated zero lt e = absurd (omega (arith, e))
    allocated (suc bn) lt e = absurd (omega (arith, lt))

isdirempty_iff_example :
    (b : Bool) × (isdirempty sb 0 kmem 0 0 with_larger ≡ some (b, with_larger))
    × ((b ≡ true) ↔ ((j : ℕ) → j < 1 → inum_at larger with_larger.device (32 + 16 * j) ≡ 0))
isdirempty_iff_example = isdirempty_iff sb 0 kmem 0 1 0 1 larger with_larger larger-IsDir
