-- ===== src/Sysfile/Fd/Tests.antt =====
-- A process with two descriptors open, which duplicates the second.
use my_oslab.Base.{ℕ, ◌<◌, ◌≡◌, ◌≢◌, refl, none, some, [], ◌∷◌, get_elem?, set, pos}
use my_oslab.File.{filedup}
use my_oslab.File.Tests.{ops, table, inode}
use my_oslab.Sysfile.Fd.{Ofile, argfd, fdalloc, sys_dup, sys_close}
use my_oslab.Sysfile.Fd.Dup.{sys_close-sys_dup}

abbrev ofile : Ofile
ofile = some 0 ∷ (some 0 ∷ (none ∷ (none ∷ [])))

abbrev duplicated : Ofile
duplicated = some 0 ∷ (some 0 ∷ (some 0 ∷ (none ∷ [])))

third :
    sys_dup (pos 1) ofile table ≡ some (pos 2, (duplicated, set table 0 (record inode { ref = 3 })))
unfolding sys_dup argfd fdalloc filedup
third = refl

sys_close-sys_dup_example :
    (get_elem? ofile 2 ≡ some none)
    × ((j : ℕ) → j < 2 → get_elem? ofile j ≢ some none)
    × (sys_close ops (pos 2) duplicated (set table 0 (record inode { ref = 3 })) []
        ≡ some (pos 0, (ofile, (table, []))))
sys_close-sys_dup_example =
    sys_close-sys_dup ops (pos 1) 2 ofile duplicated table (set table 0 (record inode { ref = 3 }))
      [] third
