-- ===== src/Fs/Contents/Reading.antt =====
-- The loop of `readi` on a file whose blocks are allocated, to a buffer of the kernel.
use my_oslab.Base.{
  ℕ, zero, suc, ◌+◌, ◌-◌, ◌*◌, ◌/◌, ◌%◌, ◌^◌, ◌≤◌, ◌<◌, ◌≡◌, inl, inr, ap, ◌∙◌, false, Option, some,
  add32, ltb, if◌then◌else◌, Bool-cases, arith,
}
use my_oslab.Kalloc.{Kmem}
use my_oslab.Strings.{Bytes, put}
use my_oslab.Strings.Move.{within}
use my_oslab.Vm.Copy.{move_bytes}
use my_oslab.Vm.Either.{either_copyout}
use my_oslab.Fs.{Superblock, Device}
use my_oslab.Fs.Icache.{Inode}
use my_oslab.Fs.Contents.{bsize, piece, Read, readi_loop}
use my_oslab.Fs.Contents.Mapped.{IsMapped, block_at, file_byte, bmap-IsMapped}
use my_oslab.Fs.Contents.Pieces.{
  move_out, IsPiece, piece-IsPiece, within-lt, piece_byte, choices, ranges_join,
}

module _ (sb : Superblock) (table : ℕ) (kmem : Kmem) (k : ℕ) where
  -- The bytes of the file from `off` on are in the memory from `dst` on.
  abbrev pub Reads : ℕ → ℕ → ℕ → ℕ → Inode → Device → Bytes → Option Read → Type 0
  Reads n count off dst ip d m r =
      (m' : Bytes) × (r ≡ some (n, (ip, (d, m'))))
      × ((a : ℕ) → m' a ≡ (if within dst count a then file_byte ip d (off + (a - dst)) else m a))

  pub readi_loop-Reads :
      (fuel n tot off dst : ℕ) (ip : Inode) (d : Device) (m : Bytes)
      → tot ≤ n
      → n - tot ≤ fuel
      → n < 2 ^ 32
      → off + (n - tot) < 2 ^ 32
      → off + (n - tot) ≤ k * bsize
      → IsMapped ip d k
      → Reads n (n - tot) off dst ip d m (readi_loop sb table kmem false fuel n tot off dst ip d m)
  unfolding readi_loop either_copyout
  readi_loop-Reads zero n tot off dst ip d m le enough small fits inside mp =
      let all : tot ≡ n = omega arith in
      (m, ap (λ (t : ℕ). some (t, (ip, (d, m)))) all, λ a. ground arith)
  readi_loop-Reads (suc fuel) n tot off dst ip d m le enough small fits inside mp =
      elim (Bool-cases (ltb tot n)) [
        | inr e ↦
            let all : tot ≡ n = ground arith in
            (m, rw (readi_loop, e) (ap (λ (t : ℕ). some (t, (ip, (d, m)))) all), λ a. ground arith)
        | inl e ↦
            let pc = piece-IsPiece n tot off (ground arith) in
            let here : off / bsize < k = omega (arith, inside, pc.some_byte, pc.inside) in
            let (m', r, h) =
              readi_loop-Reads fuel n (tot + len) (off + len) (dst + len) ip d m1
                (omega (arith, pc.inside, le)) (omega (arith, pc.some_byte, enough)) small
                (omega (arith, pc.inside, fits)) (omega (arith, pc.inside, inside)) mp in
            let tot_fits : add32 tot len ≡ tot + len = omega (arith, pc.inside, small, le) in
            let off_fits : add32 off len ≡ off + len = omega (arith, pc.inside, fits) in
            (
              m',
              rw (readi_loop, e, bmap-IsMapped sb ip d k (off / bsize) mp here, tot_fits, off_fits)
                  r,
              λ a. h a ∙ joined pc a (move_out (d.blocks b) len dst (off % bsize) a m),
            )
      ]
    where
      len : ℕ
      len = piece n tot off

      b : ℕ
      b = block_at ip d (off / bsize)

      m1 : Bytes
      m1 = move_bytes (λ pa ka m'. put m' pa (d.blocks b ka)) len dst (off % bsize) m

      -- The piece read first, and what is read behind it.
      joined :
          IsPiece n tot off len
          → (a : ℕ)
          → m1 a ≡ (if within dst len a then d.blocks b (off % bsize + (a - dst)) else m a)
          → (if within (dst + len) (n - (tot + len)) a
              then file_byte ip d (off + len + (a - (dst + len)))
              else m1 a)
            ≡ (if within dst (n - tot) a then file_byte ip d (off + (a - dst)) else m a)
      joined pc a first =
          let rest : n - (tot + len) ≡ n - tot - len = omega arith in
          rw rest (
            ranges_join (file_byte ip d) off dst len (n - tot) a (m1 a) (m a) pc.inside (
              first
              ∙ choices (within dst len a) (m a)
                  (λ t. piece_byte ip d off len (a - dst) pc.one_block (within-lt dst len a t))))
