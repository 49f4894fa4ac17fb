-- ===== src/Fs/Contents/Round.antt =====
-- `writei` and `readi` whole, between a file whose blocks are allocated and a buffer of the kernel.
use my_oslab.Base.{
  ℕ, ◌+◌, ◌-◌, ◌*◌, ◌^◌, ◌≤◌, ◌<◌, ◌≡◌, inl, inr, refl, ◌∙◌, subst, true, false, Option, some,
  add32, ltb, if◌then◌else◌, Bool-cases, arith, pos,
}
use my_oslab.Kalloc.{Kmem}
use my_oslab.Strings.{Bytes}
use my_oslab.Strings.Move.{within}
use my_oslab.Fs.{Superblock, Device}
use my_oslab.Fs.Icache.{Inode}
use my_oslab.Fs.Inode.{FsState, iupdate}
use my_oslab.Fs.Contents.{bsize, Written, readi, writei, readi_loop, writei_loop, update_size}
use my_oslab.Fs.Contents.Mapped.{IsMapped, file_byte}
use my_oslab.Fs.Contents.Pieces.{within-lt}
use my_oslab.Fs.Contents.Reading.{Reads, readi_loop-Reads}
use my_oslab.Fs.Contents.Writing.{Writes, Stored, writei_loop-Writes}

-- The inode with its size grown to `off`.
abbrev pub grown : ℕ → Inode → Inode
grown off ip =
    if ltb ip.copy.size off then record ip { copy = record (ip.copy) { size = off } } else ip

pub grown_size : (off : ℕ) (ip : Inode) → off ≤ (grown off ip).copy.size
grown_size off ip = ground arith

pub grown_fits :
    (off : ℕ) (ip : Inode) {b : ℕ} → off ≤ b → ip.copy.size ≤ b → (grown off ip).copy.size ≤ b
grown_fits off ip l l' = ground arith

grown_addrs : (off : ℕ) (ip : Inode) → (grown off ip).copy.addrs ≡ ip.copy.addrs
grown_addrs off ip = ground arith

file_byte-grown :
    (off : ℕ) (ip : Inode) (d : Device) (o : ℕ) → file_byte (grown off ip) d o ≡ file_byte ip d o
file_byte-grown off ip d o = elim (Bool-cases (ltb ip.copy.size off)) [
  | inl e ↦ rw e refl
  | inr e ↦ rw e refl
]

grown-IsMapped :
    (off : ℕ) (ip : Inode) (d : Device) (k : ℕ) → IsMapped ip d k → IsMapped (grown off ip) d k
grown-IsMapped off ip d k mp = elim (Bool-cases (ltb ip.copy.size off)) [
  | inl e ↦ rw e record {
    fits = mp.fits;
    has_indirect = mp.has_indirect;
    allocated = mp.allocated;
    apart = mp.apart;
    once = mp.once;
  }
  | inr e ↦ rw e mp
]

sub_zero : (n : ℕ) → n - 0 ≡ n
sub_zero n = omega arith

module _ (sb : Superblock) (table : ℕ) (kmem : Kmem) (k : ℕ) where
  -- `readi` to a buffer of the kernel returns how many of the `n` bytes asked for are before the
  -- end of the file, copies those bytes of the file and nothing else, and changes no block, where
  -- `off + n` does not overflow and the blocks to the end of the file are allocated.
  pub readi_lem :
      (dst off n : ℕ) (ip : Inode) (d : Device) (m : Bytes)
      → off ≤ ip.copy.size
      → off + n < 2 ^ 32
      → ip.copy.size ≤ k * bsize
      → IsMapped ip d k
      → Reads sb table kmem k
          (if ltb ip.copy.size (off + n) then ip.copy.size - off else n)
          (if ltb ip.copy.size (off + n) then ip.copy.size - off else n)
          off
          dst
          ip
          d
          m
          (readi sb table kmem false dst off n ip d m)
  unfolding readi
  readi_lem dst off n ip d m le small inside mp =
      let sum : add32 off n ≡ off + n = omega (arith, small) in
      let start : ltb ip.copy.size off ≡ false = ground arith in
      let wraps : ltb (off + n) off ≡ false = ground arith in
      rw (readi, sum, start, wraps)
        (subst
          (λ (c : ℕ).
            Reads sb table kmem k count c off dst ip d m
              (readi_loop sb table kmem false count count 0 off dst ip d m))
          (sub_zero count)
          (readi_loop-Reads sb table kmem k count count 0 off dst ip d m (omega arith) (omega arith)
            (ground arith) (ground arith) (ground arith) mp))
    where
      count : ℕ
      count = if ltb ip.copy.size (off + n) then ip.copy.size - off else n

  pub writei_lem :
      (src off n : ℕ) (memory : Bytes) (ip : Inode) (s : FsState)
      → 0 < n
      → off ≤ ip.copy.size
      → off + n ≤ k * bsize
      → IsMapped ip s.device k
      → (s' : FsState) × (writei sb table kmem false src off n memory ip s
          ≡ some (pos n, (grown (off + n) ip, s')))
        × Stored sb table kmem k off n src memory ip s.device s'.device
  unfolding writei iupdate
  writei_lem src off n memory ip s more le inside mp =
      let sum : add32 off n ≡ off + n = omega (arith, inside, mp.fits) in
      let start : ltb ip.copy.size off ≡ false = ground arith in
      let wraps : ltb (off + n) off ≡ false = ground arith in
      let fits : ltb (268 * 1024) (off + n) ≡ false = ground (arith, inside, mp.fits) in
      rw (writei, sum, start, wraps, fits)
        (finish (writei_loop sb table kmem false n n 0 off src memory ip s.device) (
          subst
            (λ (c : ℕ).
              Writes sb table kmem k n c off src memory ip s.device
                (writei_loop sb table kmem false n n 0 off src memory ip s.device))
            (sub_zero n)
            (writei_loop-Writes sb table kmem k n n 0 off src memory ip s.device (omega arith)
              (omega arith) (omega (arith, inside, mp.fits)) (omega (arith, inside, mp.fits))
              (omega (arith, inside)) mp)))
    where
      finish :
          (r : Option Written)
          → Writes sb table kmem k n n off src memory ip s.device r
          → (s' : FsState) × (update_size sb table kmem false n s r
              ≡ some (pos n, (grown (off + n) ip, s')))
            × Stored sb table kmem k off n src memory ip s.device s'.device
      finish r (d', e, stored) =
          let some_byte : ltb 0 n ≡ true = ground arith in
          (
            iupdate sb (grown (off + n) ip) (record s { device = d' }),
            rw (e, some_byte) refl,
            record {
              mapped = record {
                fits = stored.mapped.fits;
                has_indirect = stored.mapped.has_indirect;
                allocated = stored.mapped.allocated;
                apart = stored.mapped.apart;
                once = stored.mapped.once;
              };
              bytes = stored.bytes;
            },
          )

  -- What `writei` puts into a file, `readi` gets: both between the file and the kernel's memory,
  -- where the blocks written are allocated. Nothing else of the memory read into changes, and the
  -- file's blocks stay allocated.
  pub readi-writei :
      (src dst off n : ℕ) (memory : Bytes) (ip : Inode) (s : FsState) (m : Bytes)
      → 0 < n
      → off ≤ ip.copy.size
      → ip.copy.size ≤ k * bsize
      → off + n ≤ k * bsize
      → IsMapped ip s.device k
      → (s' : FsState) × (m' : Bytes) × (writei sb table kmem false src off n memory ip s
          ≡ some (pos n, (grown (off + n) ip, s')))
        × (readi sb table kmem false dst off n (grown (off + n) ip) s'.device m
            ≡ some (n, (grown (off + n) ip, (s'.device, m'))))
        × ((a : ℕ) → m' a ≡ (if within dst n a then memory (src + (a - dst)) else m a))
        × IsMapped (grown (off + n) ip) s'.device k
  readi-writei src dst off n memory ip s m more le old inside mp =
      let (s', w, stored) = writei_lem src off n memory ip s more le inside mp in
      let g = grown (off + n) ip in
      let (m', r, h) =
        read_back g s'.device (grown_size (off + n) ip) (grown_fits (off + n) ip inside old)
          (grown-IsMapped (off + n) ip s'.device k stored.mapped)
          (λ o lt. file_byte-grown (off + n) ip s'.device o ∙ stored.bytes o lt) in
      (s', m', w, r, h, grown-IsMapped (off + n) ip s'.device k stored.mapped)
    where
      read_back :
          (g : Inode) (d' : Device)
          → off + n ≤ g.copy.size
          → g.copy.size ≤ k * bsize
          → IsMapped g d' k
          → ((o : ℕ)
              → o < k * bsize
              → file_byte g d' o
                ≡ (if within off n o then memory (src + (o - off)) else file_byte ip s.device o))
          → (m' : Bytes) × (readi sb table kmem false dst off n g d' m ≡ some (n, (g, (d', m'))))
            × ((a : ℕ) → m' a ≡ (if within dst n a then memory (src + (a - dst)) else m a))
      read_back g d' enough fits mapped bytes =
          let all : (if ltb g.copy.size (off + n) then g.copy.size - off else n) ≡ n =
            ground arith in
          let (m', r, h) =
            subst
              (λ (c : ℕ).
                Reads sb table kmem k c c off dst g d' m
                  (readi sb table kmem false dst off n g d' m))
              all
              (readi_lem dst off n g d' m (omega arith) (omega (arith, inside, mp.fits)) fits
                mapped) in
          (m', r, λ a. h a ∙ same a)
        where
          same :
              (a : ℕ)
              → (if within dst n a then file_byte g d' (off + (a - dst)) else m a)
                ≡ (if within dst n a then memory (src + (a - dst)) else m a)
          same a = elim (Bool-cases (within dst n a)) [
            | inl t ↦
                let there : within off n (off + (a - dst)) ≡ true = ground arith in
                let place : off + (a - dst) - off ≡ a - dst = omega arith in
                rw t (
                  rw (there, place) at
                    (bytes (off + (a - dst)) (omega (arith, inside, within-lt dst n a t))))
            | inr t ↦ rw t refl
          ]
