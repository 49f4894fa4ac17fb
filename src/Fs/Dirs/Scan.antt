-- ===== src/Fs/Dirs/Scan.antt =====
-- The loops over a directory whose blocks are allocated: the first entry that passes a test.
use my_oslab.Base.{
  ℕ, zero, suc, ◌+◌, ◌-◌, ◌*◌, ◌≤◌, ◌<◌, ◌≡◌, inl, inr, refl, sym, ap, ◌∙◌, subst, Bool, true,
  false, Option, none, some, get_elem?, set, set_same, add32, ltb, if◌then◌else◌, Bool-cases,
  fun_ext, arith,
}
use my_oslab.Kalloc.{Kmem}
use my_oslab.Strings.{Bytes}
use my_oslab.Strings.Move.{within}
use my_oslab.Fs.{Superblock, Device}
use my_oslab.Fs.Icache.{Inode, Icache}
use my_oslab.Fs.Inode.{FsState}
use my_oslab.Fs.Contents.{bsize, readi}
use my_oslab.Fs.Contents.Mapped.{IsMapped, file_byte}
use my_oslab.Fs.Contents.Reading.{Reads}
use my_oslab.Fs.Contents.Round.{readi_lem}
use my_oslab.Fs.Dirs.{
  dirent_size, entry_read, read_entry, with_inode_at, scan_entry, scan, entry_inum,
}

-- The entry at an offset of the directory, in a buffer that is 0 behind it.
abbrev pub entry_at : Inode → Device → ℕ → Bytes
entry_at ip d off a = if within 0 dirent_size a then file_byte ip d (off + (a - 0)) else 0

-- The inode number of the entry at an offset, in the bytes of the directory.
abbrev pub inum_at : Inode → Device → ℕ → ℕ
inum_at ip d off = file_byte ip d off + 256 * file_byte ip d (off + 1)

pub entry_inum_lem :
    (ip : Inode) (d : Device) (off : ℕ) → entry_inum (entry_at ip d off) ≡ inum_at ip d off
entry_inum_lem ip d off =
    ap (λ (x : ℕ). file_byte ip d x + 256 * file_byte ip d (off + 1)) (omega arith)

-- The offset of the first of `n` entries from `off` on that passes the test.
unfoldable pub first_entry : (Bytes → Bool) → Inode → Device → ℕ → ℕ → Option ℕ
first_entry p ip d zero off = none
first_entry p ip d (suc n) off = elim (p (entry_at ip d off)) [
  | true ↦ some off
  | false ↦ first_entry p ip d n (off + dirent_size)
]

-- Behind an entry the buffer is 0.
abbrev IsBuffer : Bytes → Type 0
IsBuffer de = (a : ℕ) → within 0 dirent_size a ≡ false → de a ≡ 0

entry_at-IsBuffer : (ip : Inode) (d : Device) (off : ℕ) → IsBuffer (entry_at ip d off)
entry_at-IsBuffer ip d off a t = rw t refl

-- The directory in entry `i` has `n` entries from `off` on.
pub record IsDir (k : ℕ) (i : ℕ) (ip : Inode) (s : FsState) (n off : ℕ) : Type 0 where
  pub there : get_elem? s.icache i ≡ some ip
  pub mapped : IsMapped ip s.device k
  pub size : ip.copy.size ≡ off + dirent_size * n
  pub inside : ip.copy.size ≤ k * bsize

-- The first entry is one of the `n`, and none before it passes the test.
pub first_entry-some :
    (p : Bytes → Bool) (ip : Inode) (d : Device) (n off o : ℕ)
    → first_entry p ip d n off ≡ some o
    → (m : ℕ) × (m < n)
      × (o ≡ off + dirent_size * m)
      × (p (entry_at ip d o) ≡ true)
      × ((j : ℕ) → j < m → p (entry_at ip d (off + dirent_size * j)) ≡ false)
unfolding first_entry
first_entry-some p ip d zero off o h = absurd (cc h)
first_entry-some p ip d (suc n) off o h = elim (Bool-cases (p (entry_at ip d off))) [
  | inl t ↦
      let here : off ≡ o = cc (rw (first_entry, t) at h) in
      (
        0,
        omega arith,
        omega (arith, here),
        subst (λ (x : ℕ). p (entry_at ip d x) ≡ true) here t,
        (λ j lt. absurd (omega (arith, lt))),
      )
  | inr t ↦
      let (m, lt, e, t', before) =
        first_entry-some p ip d n (off + dirent_size) o (rw (first_entry, t) at h) in
      (suc m, omega (arith, lt), omega (arith, e), t', earlier t m before)
]
  where
    earlier :
        p (entry_at ip d off) ≡ false
        → (m : ℕ)
        → ((j : ℕ) → j < m → p (entry_at ip d (off + dirent_size + dirent_size * j)) ≡ false)
        → (j : ℕ) → j < suc m
        → p (entry_at ip d (off + dirent_size * j)) ≡ false
    earlier t m before zero lt = subst (λ (x : ℕ). p (entry_at ip d x) ≡ false) (omega arith) t
    earlier t m before (suc j) lt =
        subst (λ (x : ℕ). p (entry_at ip d x) ≡ false) (omega arith) (before j (omega (arith, lt)))

pub first_entry-none :
    (p : Bytes → Bool) (ip : Inode) (d : Device) (n off : ℕ)
    → first_entry p ip d n off ≡ none
    → (j : ℕ) → j < n
    → p (entry_at ip d (off + dirent_size * j)) ≡ false
unfolding first_entry
first_entry-none p ip d zero off h j lt = absurd (omega (arith, lt))
first_entry-none p ip d (suc n) off h j lt = elim (Bool-cases (p (entry_at ip d off))) [
  | inl t ↦ absurd (cc (rw (first_entry, t) at h))
  | inr t ↦ at j lt t (first_entry-none p ip d n (off + dirent_size) (rw (first_entry, t) at h))
]
  where
    at :
        (j : ℕ)
        → j < suc n
        → p (entry_at ip d off) ≡ false
        → ((i : ℕ) → i < n → p (entry_at ip d (off + dirent_size + dirent_size * i)) ≡ false)
        → p (entry_at ip d (off + dirent_size * j)) ≡ false
    at zero lt t rest = subst (λ (x : ℕ). p (entry_at ip d x) ≡ false) (omega arith) t
    at (suc i) lt t rest =
        subst (λ (x : ℕ). p (entry_at ip d x) ≡ false) (omega arith) (rest i (omega (arith, lt)))

module _ (sb : Superblock) (table : ℕ) (kmem : Kmem) (k : ℕ) where
  pub with_inode_at-found :
      {R : Type 0} (i : ℕ) (s : FsState) (ip : Inode) (f : Inode → Option R)
      → get_elem? s.icache i ≡ some ip
      → with_inode_at sb table kmem i s f ≡ f ip
  with_inode_at-found i s ip f e =
      ap (λ (o : Option Inode). elim o [ none ↦ none | some x ↦ f x ]) e

  read_entry_lem :
      (i : ℕ) (ip : Inode) (off n : ℕ) (de : Bytes) (s : FsState)
      → IsDir k i ip s (suc n) off
      → IsBuffer de
      → read_entry sb table kmem i ip off de s ≡ some (s, entry_at ip s.device off)
  unfolding read_entry
  read_entry_lem i ip off n de s dir buf =
      let more : (if ltb ip.copy.size (off + dirent_size) then ip.copy.size - off else dirent_size)
          ≡ dirent_size =
        ground (arith, dir.size) in
      let (m', r, h) =
        subst
          (λ (c : ℕ).
            Reads sb table kmem k c c off 0 ip s.device de
              (readi sb table kmem false 0 off dirent_size ip s.device de))
          more
          (readi_lem sb table kmem k 0 off dirent_size ip s.device de (omega (arith, dir.size))
            (omega (arith, dir.size, dir.inside, dir.mapped.fits)) dir.inside dir.mapped) in
      let whole : m' ≡ entry_at ip s.device off = fun_ext (λ a. h a ∙ outside a) in
      let same : set s.icache i ip ≡ s.icache = set_same s.icache i ip dir.there in
      ap (entry_read sb table kmem i s) r
      ∙ ap (λ (c : Icache). some (record s { icache = c }, m')) same
      ∙ ap (λ (b : Bytes). some (s, b)) whole
    where
      outside :
          (a : ℕ)
          → (if within 0 dirent_size a then file_byte ip s.device (off + (a - 0)) else de a)
            ≡ entry_at ip s.device off a
      outside a = elim (Bool-cases (within 0 dirent_size a)) [
        | inl t ↦ rw t refl
        | inr t ↦ rw t (buf a t)
      ]

  -- How the loop ends.
  pub data Scanned (p : Bytes → Bool) (ip : Inode) (s : FsState) (n off : ℕ)
      : Option (Bool × (ℕ × (FsState × Bytes))) → Type 0 where
    hit :
        (o : ℕ)
        → first_entry p ip s.device n off ≡ some o
        → Scanned p ip s n off (some (true, (o, (s, entry_at ip s.device o))))
    miss :
        (end_off : ℕ) (de : Bytes)
        → first_entry p ip s.device n off ≡ none
        → end_off ≡ ip.copy.size
        → Scanned p ip s n off (some (false, (end_off, (s, de))))

  pub scan-Scanned :
      (p : Bytes → Bool) (fuel i n off : ℕ) (ip : Inode) (de : Bytes) (s : FsState)
      → n < fuel
      → IsDir k i ip s n off
      → IsBuffer de
      → Scanned p ip s n off (scan sb table kmem p fuel i off de s)
  unfolding scan first_entry
  scan-Scanned p zero i n off ip de s lt dir buf = absurd (omega (arith, lt))
  scan-Scanned p (suc fuel) i zero off ip de s lt dir buf =
      let done : ltb off ip.copy.size ≡ false = ground (arith, dir.size) in
      subst (Scanned p ip s 0 off)
        (sym (
          with_inode_at-found i s ip
            (scan_entry sb table kmem (λ off' de' s'. scan sb table kmem p fuel i off' de' s') p i
              off de s)
            dir.there))
        (rw (scan_entry, done) (Scanned.miss off de refl (omega (arith, dir.size))))
  scan-Scanned p (suc fuel) i (suc n) off ip de s lt dir buf =
      let more : ltb off ip.copy.size ≡ true = ground (arith, dir.size) in
      let read = read_entry_lem i ip off n de s dir buf in
      let here = entry_at ip s.device off in
      subst (Scanned p ip s (suc n) off)
        (sym (
          with_inode_at-found i s ip
            (scan_entry sb table kmem (λ off' de' s'. scan sb table kmem p fuel i off' de' s') p i
              off de s)
            dir.there))
        (rw (scan_entry, more, read)
          (elim (Bool-cases (p here)) [
            | inl t ↦ rw t (Scanned.hit off (rw (first_entry, t) refl))
            | inr t ↦
                let next : add32 off dirent_size ≡ off + dirent_size =
                  omega (arith, dir.size, dir.inside, dir.mapped.fits) in
                rw (t, next)
                  (later t (scan sb table kmem p fuel i (off + dirent_size) here s) (
                    scan-Scanned p fuel i n (off + dirent_size) ip here s (omega (arith, lt))
                      record {
                        there = dir.there;
                        mapped = dir.mapped;
                        size = omega (arith, dir.size);
                        inside = dir.inside;
                      }
                      (entry_at-IsBuffer ip s.device off)))
          ]))
    where
      later :
          p (entry_at ip s.device off) ≡ false
          → (r : Option (Bool × (ℕ × (FsState × Bytes)))) → Scanned p ip s n (off + dirent_size) r
          → Scanned p ip s (suc n) off r
      later t r (Scanned.hit o e) = Scanned.hit o (rw (first_entry, t) e)
      later t r (Scanned.miss end_off de' e e') =
          Scanned.miss end_off de' (rw (first_entry, t) e) e'
