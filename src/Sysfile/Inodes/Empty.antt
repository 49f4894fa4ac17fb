-- ===== src/Sysfile/Inodes/Empty.antt =====
-- `isdirempty` in a directory whose blocks are allocated.
use my_oslab.Base.{
  ℕ, ◌+◌, ◌*◌, ◌<◌, ◌≡◌, ◌↔◌, refl, sym, ap, ◌∙◌, subst, Bool, true, false, Option, none, some,
  ◌==◌, ==→eq, eq→==, arith,
}
use my_oslab.Kalloc.{Kmem}
use my_oslab.Strings.{Bytes}
use my_oslab.Fs.{Superblock}
use my_oslab.Fs.Icache.{Inode}
use my_oslab.Fs.Inode.{FsState}
use my_oslab.Fs.Dirs.{entry_inum, blank, scan}
use my_oslab.Fs.Dirs.Scan.{
  entry_at, first_entry-some, first_entry-none, IsDir, inum_at, entry_inum_lem, Scanned,
  scan-Scanned,
}
use my_oslab.Sysfile.{inode_of}
use my_oslab.Sysfile.Inodes.{in_use, not_stopped, isdirempty}

module _ (sb : Superblock) (table : ℕ) (kmem : Kmem) (cwd k : ℕ) where
  unused_entry :
      (ip : Inode) (s : FsState) (off : ℕ)
      → in_use sb table kmem cwd (entry_at ip s.device off) ≡ false
      → inum_at ip s.device off ≡ 0
  unused_entry ip s off h =
      let zero_inum : (entry_inum (entry_at ip s.device off) == 0) ≡ true = ground (arith, h) in
      sym (entry_inum_lem ip s.device off)
      ∙ ==→eq (entry_inum (entry_at ip s.device off)) 0 zero_inum

  used_entry :
      (ip : Inode) (s : FsState) (off : ℕ)
      → in_use sb table kmem cwd (entry_at ip s.device off) ≡ true
      → ¬ (inum_at ip s.device off ≡ 0)
  used_entry ip s off h e =
      let zero_inum : (entry_inum (entry_at ip s.device off) == 0) ≡ true =
        eq→== (entry_inum (entry_at ip s.device off)) 0 (entry_inum_lem ip s.device off ∙ e) in
      absurd (ground (arith, h, zero_inum))

  -- In a directory of 32 + 16 * `n` bytes whose blocks are allocated, `isdirempty` answers, without
  -- a change, whether every one of the `n` entries behind the first two has inode number 0.
  pub isdirempty_iff :
      (i n : ℕ) (ip : Inode) (s : FsState)
      → IsDir k i ip s n 32
      → (b : Bool) × (isdirempty sb table kmem cwd i s ≡ some (b, s))
        × ((b ≡ true) ↔ ((j : ℕ) → j < n → inum_at ip s.device (32 + 16 * j) ≡ 0))
  unfolding isdirempty
  isdirempty_iff i n ip s dir =
      let (b, e, iff) =
        at (scan sb table kmem test (ip.copy.size + 1) i 32 (blank sb table kmem) s) (
          scan-Scanned sb table kmem k test (ip.copy.size + 1) i n 32 ip (blank sb table kmem) s
            (omega (arith, dir.size)) dir (λ a t. refl)) in
      (b, started ∙ e, iff)
    where
      test : Bytes → Bool
      test = in_use sb table kmem cwd

      started :
          isdirempty sb table kmem cwd i s
          ≡ not_stopped sb table kmem cwd
              (scan sb table kmem test (ip.copy.size + 1) i 32 (blank sb table kmem) s)
      started =
          ap
            (λ (o : Option Inode). elim (inode_of s o) [
              | none ↦ none
              | some (dp, s') ↦
                  not_stopped sb table kmem cwd
                    (scan sb table kmem test (dp.copy.size + 1) i 32 (blank sb table kmem) s')
            ])
            dir.there

      at :
          (r : Option (Bool × (ℕ × (FsState × Bytes))))
          → Scanned sb table kmem k test ip s n 32 r
          → (b : Bool) × (not_stopped sb table kmem cwd r ≡ some (b, s))
            × ((b ≡ true) ↔ ((j : ℕ) → j < n → inum_at ip s.device (32 + 16 * j) ≡ 0))
      at _ (Scanned.hit o e) =
          let (m, lt, where_o, t, before) = first_entry-some test ip s.device n 32 o e in
          (
            false,
            refl,
            (
              (λ h. absurd (cc h)),
              (λ all. absurd (
                  used_entry ip s (32 + 16 * m)
                    (subst (λ (x : ℕ). test (entry_at ip s.device x) ≡ true) where_o t)
                    (all m lt))),
            ),
          )
      at _ (Scanned.miss end_off de e e') = (
        true,
        refl,
        (
          (λ h j lt.
              unused_entry ip s (32 + 16 * j) (first_entry-none test ip s.device n 32 e j lt)),
          (λ all. refl),
        ),
      )
