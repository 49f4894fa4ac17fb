-- ===== src/Fs/Contents/Writing.antt =====
-- The loop of `writei` on a file whose blocks are allocated, from a buffer of the kernel.
use my_oslab.Base.{
  ℕ, zero, suc, ◌+◌, ◌-◌, ◌*◌, ◌/◌, ◌%◌, ◌^◌, ◌≤◌, ◌<◌, ◌≡◌, ◌≢◌, inl, inr, refl, sym, ap, ap₂,
  subst, ◌∙◌, true, false, Option, some, add32, ltb, ◌==◌, if◌then◌else◌, ne→==, eq→==, Bool-cases,
  arith,
}
use my_oslab.Kalloc.{Kmem}
use my_oslab.Strings.{Bytes, put}
use my_oslab.Strings.Move.{within}
use my_oslab.Vm.Copy.{move_bytes}
use my_oslab.Vm.Either.{either_copyin}
use my_oslab.Fs.{Superblock, Device, write_block}
use my_oslab.Fs.Icache.{Inode}
use my_oslab.Fs.Contents.{bsize, piece, Written, writei_loop}
use my_oslab.Fs.Contents.Mapped.{
  IsMapped, block_at, file_byte, bmap-IsMapped, block_at-write_block, IsMapped-write_block,
}
use my_oslab.Fs.Contents.Pieces.{move_in, IsPiece, piece-IsPiece, in_block, outside, ranges_join}

module _ (sb : Superblock) (table : ℕ) (kmem : Kmem) (k : ℕ) where
  -- The bytes of the file from `off` on are those of the memory from `src` on, and the others and
  -- the places of the blocks are as before.
  pub record Stored (off count src : ℕ) (memory : Bytes) (ip : Inode) (d d' : Device) : Type 0 where
    pub mapped : IsMapped ip d' k
    pub bytes :
        (o : ℕ)
        → o < k * bsize
        → file_byte ip d' o
          ≡ (if within off count o then memory (src + (o - off)) else file_byte ip d o)

  -- One piece of a write.
  piece-Stored :
      (n tot off src len : ℕ) (memory : Bytes) (ip : Inode) (d : Device)
      → IsPiece n tot off len
      → off / bsize < k
      → IsMapped ip d k
      → Stored off len src memory ip d (
          write_block
            (block_at ip d (off / bsize))
            (move_bytes
              (λ p q m'. put m' q (memory p))
              len
              src
              (off % bsize)
              (d.blocks (block_at ip d (off / bsize))))
            d)
  piece-Stored n tot off src len memory ip d pc here mp = record {
    mapped = IsMapped-write_block ip d k b v (mp.apart (off / bsize) here) mp;
    bytes = λ o lt.
        ap (λ (q : ℕ). d1.blocks q (o % bsize))
          (block_at-write_block ip d b (o / bsize) v (mp.apart (off / bsize) here))
        ∙ (elim (Bool-cases (o / bsize == off / bsize)) [
          | inl e ↦
              let block : o / bsize ≡ off / bsize = ground arith in
              let first : (block_at ip d (o / bsize) == b) ≡ true =
                eq→== (block_at ip d (o / bsize)) b (ap (block_at ip d) block) in
              let range : within (off % bsize) len (o % bsize) ≡ within off len o =
                in_block off len o pc.one_block block in
              rw first (
                move_in memory len src (off % bsize) (o % bsize) (d.blocks b)
                ∙ rw range (elim (Bool-cases (within off len o)) [
                  | inl t ↦
                      let place : o % bsize - off % bsize ≡ o - off = ground (arith, block) in
                      rw (t, place) refl
                  | inr t ↦
                      rw t (ap (λ (q : ℕ). d.blocks (block_at ip d q) (o % bsize)) (sym block))
                ]))
          | inr e ↦
              let there : o / bsize < k = omega (arith, lt) in
              let ne : block_at ip d (o / bsize) ≢ b =
                λ q. absurd (ground (arith, e, mp.once (o / bsize) (off / bsize) there here q)) in
              let out : within off len o ≡ false = outside off len o pc.one_block e in
              rw (ne→== (block_at ip d (o / bsize)) b ne, out) refl
        ]);
  }
    where
      b : ℕ
      b = block_at ip d (off / bsize)

      v : Bytes
      v = move_bytes (λ p q m'. put m' q (memory p)) len src (off % bsize) (d.blocks b)

      d1 : Device
      d1 = write_block b v d

  abbrev pub Writes : ℕ → ℕ → ℕ → ℕ → Bytes → Inode → Device → Option Written → Type 0
  Writes n count off src memory ip d r =
      (d' : Device) × (r ≡ some (n, (off + count, (ip, d')))) × Stored off count src memory ip d d'

  nothing-Stored :
      (off count src : ℕ) (memory : Bytes) (ip : Inode) (d : Device)
      → count ≡ 0
      → IsMapped ip d k
      → Stored off count src memory ip d d
  nothing-Stored off count src memory ip d z mp = record {
    mapped = mp;
    bytes = λ o lt. ground arith;
  }

  -- A piece and what is written behind it.
  both-Stored :
      (off len count src : ℕ) (memory : Bytes) (ip : Inode) (d d1 d2 : Device)
      → len ≤ count
      → Stored off len src memory ip d d1
      → Stored (off + len) (count - len) (src + len) memory ip d1 d2
      → Stored off count src memory ip d d2
  both-Stored off len count src memory ip d d1 d2 le first later = record {
    mapped = later.mapped;
    bytes = λ o lt.
        later.bytes o lt
        ∙ ranges_join memory src off len count o (file_byte ip d1 o) (file_byte ip d o) le
            (first.bytes o lt);
  }

  Writes-both :
      (n tot len off src : ℕ) (memory : Bytes) (ip : Inode) (d d1 : Device) (r : Option Written)
      → len ≤ n - tot
      → Stored off len src memory ip d d1
      → Writes n (n - (tot + len)) (off + len) (src + len) memory ip d1 r
      → Writes n (n - tot) off src memory ip d r
  Writes-both n tot len off src memory ip d d1 r le first (d', e, later) =
      let rest : n - (tot + len) ≡ n - tot - len = omega arith in
      let end_off : off + len + (n - (tot + len)) ≡ off + (n - tot) = omega (arith, le) in
      (
        d',
        e ∙ ap (λ (o : ℕ). some (n, (o, (ip, d')))) end_off,
        both-Stored off len (n - tot) src memory ip d d1 d' le first
            (subst (λ (c : ℕ). Stored (off + len) c (src + len) memory ip d1 d') rest later),
      )

  pub writei_loop-Writes :
      (fuel n tot off src : ℕ) (memory : Bytes) (ip : Inode) (d : Device)
      → tot ≤ n
      → n - tot ≤ fuel
      → n < 2 ^ 32
      → off + (n - tot) < 2 ^ 32
      → off + (n - tot) ≤ k * bsize
      → IsMapped ip d k
      → Writes n
          (n - tot)
          off
          src
          memory
          ip
          d
          (writei_loop sb table kmem false fuel n tot off src memory ip d)
  unfolding writei_loop either_copyin
  writei_loop-Writes zero n tot off src memory ip d le enough small fits inside mp =
      let all : tot ≡ n = omega arith in
      let there : off ≡ off + (n - tot) = omega arith in
      (
        d,
        ap₂ (λ (t o : ℕ). some (t, (o, (ip, d)))) all there,
        nothing-Stored off (n - tot) src memory ip d (omega arith) mp,
      )
  writei_loop-Writes (suc fuel) n tot off src memory ip d le enough small fits inside mp =
      elim (Bool-cases (ltb tot n)) [
        | inr e ↦
            let all : tot ≡ n = ground arith in
            let there : off ≡ off + (n - tot) = ground arith in
            (
              d,
              rw (writei_loop, e) (ap₂ (λ (t o : ℕ). some (t, (o, (ip, d)))) all there),
              nothing-Stored off (n - tot) src memory ip d (ground arith) mp,
            )
        | inl e ↦
            let pc = piece-IsPiece n tot off (ground arith) in
            let here : off / bsize < k = omega (arith, inside, pc.some_byte, pc.inside) in
            let first = piece-Stored n tot off src len memory ip d pc here mp in
            let tot_fits : add32 tot len ≡ tot + len = omega (arith, pc.inside, small, le) in
            let off_fits : add32 off len ≡ off + len = omega (arith, pc.inside, fits) in
            let later = Writes-both n tot len off src memory ip d d1 _ pc.inside first (
              writei_loop-Writes fuel n (tot + len) (off + len) (src + len) memory ip d1
                (omega (arith, pc.inside, le)) (omega (arith, pc.some_byte, enough)) small
                (omega (arith, pc.inside, fits)) (omega (arith, pc.inside, inside)) first.mapped) in
            rw (writei_loop, e, bmap-IsMapped sb ip d k (off / bsize) mp here, tot_fits, off_fits)
              later
      ]
    where
      len : ℕ
      len = piece n tot off

      d1 : Device
      d1 =
          let b = block_at ip d (off / bsize) in
          write_block b
            (move_bytes (λ p q m'. put m' q (memory p)) len src (off % bsize) (d.blocks b)) d
