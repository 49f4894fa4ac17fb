-- ===== src/Fs/Contents/Users.antt =====
-- `writei` and `readi` between a file whose blocks are allocated and the memory of a process.
use my_oslab.Base.{
  ℕ, zero, suc, ◌+◌, ◌-◌, ◌*◌, ◌/◌, ◌%◌, ◌^◌, ◌≤◌, ◌<◌, ◌≡◌, inl, inr, refl, sym, ap, ◌∙◌, Bool,
  true, false, ◌||◌, Option, none, some, add32, ltb, ◌==◌, if◌then◌else◌, Bool-cases, arith, pos,
  negsuc,
}
use my_oslab.Kalloc.{Kmem}
use my_oslab.Strings.{Bytes, put}
use my_oslab.Strings.Move.{within}
use my_oslab.Vm.Copy.{move_bytes, copyout}
use my_oslab.Vm.Either.{either_copyin, either_copyout}
use my_oslab.Vm.Through.{
  phys, seen, IsUser, IsUser-part, IsApart, Shows, SameBut, copyin-seen, copyout-Shows,
}
use my_oslab.Fs.{Superblock, Device, write_block}
use my_oslab.Fs.Icache.{Inode}
use my_oslab.Fs.Inode.{FsState, bmap}
use my_oslab.Fs.Contents.{
  bsize, maxfile, piece, with_block, copied, Written, Read, readi, writei, readi_loop, writei_loop,
  update_size,
}
use my_oslab.Fs.Contents.Mapped.{IsMapped, block_at, bmap-IsMapped}
use my_oslab.Fs.Contents.Pieces.{piece-IsPiece}
use my_oslab.Fs.Contents.Round.{grown, grown_size, readi-writei}

module _ (sb : Superblock) (table : ℕ) (kmem : Kmem) where
  -- A write from the user's memory is one from the buffer that the user sees.
  writei_loop-seen :
      (fuel n tot off src : ℕ) (memory : Bytes) (ip : Inode) (d : Device)
      → tot ≤ n
      → n < 2 ^ 32
      → IsUser table kmem src (n - tot)
      → writei_loop sb table kmem true fuel n tot off src memory ip d
        ≡ writei_loop sb table kmem false fuel n tot off src (seen table kmem memory) ip d
  unfolding writei_loop either_copyin
  writei_loop-seen zero n tot off src memory ip d le small u = refl
  writei_loop-seen (suc fuel) n tot off src memory ip d le small u = elim (Bool-cases (ltb tot n)) [
    | inr e ↦ rw (e, writei_loop) refl
    | inl e ↦
        let pc = piece-IsPiece n tot off (ground (arith, e)) in
        let tot_fits : add32 tot len ≡ tot + len = omega (arith, pc.inside, small, le) in
        rw (e, writei_loop)
          (at (bmap sb (off / bsize) ip d)
            (IsUser-part table kmem src (n - tot) src len (omega arith) (omega (arith, pc.inside))
              u)
            (λ ip' d'. rw tot_fits (
              writei_loop-seen fuel n (tot + len) (add32 off len) (src + len) memory ip' d'
                (omega (arith, pc.inside, le)) small
                (IsUser-part table kmem src (n - tot) (src + len) (n - (tot + len)) (omega arith)
                  (omega (arith, pc.inside)) u))))
  ]
    where
      len : ℕ
      len = piece n tot off

      Rest : Type 0
      Rest =
          (ip' : Inode) (d' : Device)
          → writei_loop sb table kmem true fuel n (add32 tot len) (add32 off len) (src + len) memory
              ip' d'
            ≡ writei_loop sb table kmem false fuel n (add32 tot len) (add32 off len) (src + len)
                (seen table kmem memory) ip' d'

      turn : Bool → Bytes → ℕ → Inode → Device → Option Written
      turn user source b ip' d' =
          copied
            (λ v.
              writei_loop sb table kmem user fuel n (add32 tot len) (add32 off len) (src + len)
                source ip' (write_block b v d'))
            (λ v.
              some
                (tot, (off, (ip', record d' { blocks = λ a. if a == b then v else d'.blocks a }))))
            (either_copyin table kmem source (off % bsize) user src len (d'.blocks b))

      at :
          (o : Option (ℕ × (Inode × Device)))
          → IsUser table kmem src len
          → Rest
          → with_block (turn true memory) o ≡ with_block (turn false (seen table kmem memory)) o
      at none u' rest = refl
      at (some (b, (ip', d'))) u' rest =
          ap
            (copied
              (λ v.
                writei_loop sb table kmem true fuel n (add32 tot len) (add32 off len) (src + len)
                  memory ip' (write_block b v d'))
              (λ v.
                some (
                  tot,
                  (off, (ip', record d' { blocks = λ a. if a == b then v else d'.blocks a })),
                )))
            (copyin-seen table kmem memory (off % bsize) src len (d'.blocks b) u')
          ∙ rest ip' (
              write_block b
                (move_bytes (λ pa q m'. put m' q (seen table kmem memory pa)) len src (off % bsize)
                  (d'.blocks b))
                d')

  pub writei-seen :
      (src off n : ℕ) (memory : Bytes) (ip : Inode) (s : FsState)
      → n < 2 ^ 32
      → IsUser table kmem src n
      → writei sb table kmem true src off n memory ip s
        ≡ writei sb table kmem false src off n (seen table kmem memory) ip s
  unfolding writei
  writei-seen src off n memory ip s small u =
      ap
        (λ (r : Option Written).
          if ltb ip.copy.size off || ltb (add32 off n) off
          then some (negsuc 0, (ip, s))
          else if ltb (maxfile * bsize) (add32 off n)
          then some (negsuc 0, (ip, s))
          else update_size sb table kmem false n s r)
        (writei_loop-seen n n 0 off src memory ip s.device (omega arith) small
          (IsUser-part table kmem src n src (n - 0) (omega arith) (omega arith) u))

  module _ (k a size : ℕ) (user : IsUser table kmem a size)
      (apart : IsApart table kmem a size) where
    -- A read to the user's memory and one to a buffer that agrees with it go the same way, and
    -- agree again.
    abbrev Both : ℕ → Inode → Device → Bytes → Option Read → Option Read → Type 0
    Both n ip d m r r' =
        (v' : Bytes) × (m' : Bytes) × (r ≡ some (n, (ip, (d, v'))))
        × (r' ≡ some (n, (ip, (d, m'))))
        × Shows table kmem a size m' v'
        × SameBut table kmem a size m m'

    readi_loop-Both :
        (fuel n tot off dst : ℕ) (ip : Inode) (d : Device) (m v : Bytes)
        → tot ≤ n
        → n - tot ≤ fuel
        → n < 2 ^ 32
        → off + (n - tot) < 2 ^ 32
        → off + (n - tot) ≤ k * bsize
        → a ≤ dst
        → dst + (n - tot) ≤ a + size
        → IsMapped ip d k
        → Shows table kmem a size m v
        → Both n ip d m
            (readi_loop sb table kmem false fuel n tot off dst ip d v)
            (readi_loop sb table kmem true fuel n tot off dst ip d m)
    unfolding readi_loop either_copyout
    readi_loop-Both zero n tot off dst ip d m v le enough small fits inside from to mp h =
        let all : tot ≡ n = omega arith in
        (
          v,
          m,
          ap (λ (t : ℕ). some (t, (ip, (d, v)))) all,
          ap (λ (t : ℕ). some (t, (ip, (d, m)))) all,
          h,
          λ p out. refl,
        )
    readi_loop-Both (suc fuel) n tot off dst ip d m v le enough small fits inside from to mp h =
        elim (Bool-cases (ltb tot n)) [
          | inr e ↦
              let all : tot ≡ n = ground arith in
              (
                v,
                m,
                rw (readi_loop, e) (ap (λ (t : ℕ). some (t, (ip, (d, v)))) all),
                rw (readi_loop, e) (ap (λ (t : ℕ). some (t, (ip, (d, m)))) all),
                h,
                λ p out. refl,
              )
          | inl e ↦
              let pc = piece-IsPiece n tot off (ground arith) in
              turn (omega (arith, inside, pc.some_byte, pc.inside)) e
                (omega (arith, pc.inside, small, le)) (omega (arith, pc.inside, fits))
                (λ m1 shows.
                  readi_loop-Both fuel n (tot + len) (off + len) (dst + len) ip d m1 v1
                    (omega (arith, pc.inside, le)) (omega (arith, pc.some_byte, enough)) small
                    (omega (arith, pc.inside, fits)) (omega (arith, pc.inside, inside))
                    (omega (arith, from)) (omega (arith, pc.inside, to)) mp shows)
                (copyout-Shows table kmem a size user apart (d.blocks b) dst (off % bsize) len m v
                  from (omega (arith, pc.inside, to)) h)
        ]
      where
        len : ℕ
        len = piece n tot off

        b : ℕ
        b = block_at ip d (off / bsize)

        v1 : Bytes
        v1 = move_bytes (λ pa ka m'. put m' pa (d.blocks b ka)) len dst (off % bsize) v

        turn :
            off / bsize < k
            → ltb tot n ≡ true
            → add32 tot len ≡ tot + len
            → add32 off len ≡ off + len
            → ((m1 : Bytes)
                → Shows table kmem a size m1 v1
                → Both n ip d m1
                    (readi_loop sb table kmem false fuel n
                      (tot + len)
                      (off + len)
                      (dst + len)
                      ip
                      d
                      v1)
                    (readi_loop sb table kmem true fuel n
                      (tot + len)
                      (off + len)
                      (dst + len)
                      ip
                      d
                      m1))
            → (m1 : Bytes) × (copyout table kmem dst (d.blocks b) (off % bsize) len m ≡ (pos 0, m1))
              × Shows table kmem a size m1 v1
              × SameBut table kmem a size m m1
            → Both n ip d m
                (readi_loop sb table kmem false (suc fuel) n tot off dst ip d v)
                (readi_loop sb table kmem true (suc fuel) n tot off dst ip d m)
        turn here e tot_fits off_fits rest (m1, out, shows, same) = after (rest m1 shows)
          where
            after :
                Both n ip d m1
                  (readi_loop sb table kmem false fuel n
                    (tot + len)
                    (off + len)
                    (dst + len)
                    ip
                    d
                    v1)
                  (readi_loop sb table kmem true fuel n (tot + len) (off + len) (dst + len) ip d m1)
                → Both n ip d m
                    (readi_loop sb table kmem false (suc fuel) n tot off dst ip d v)
                    (readi_loop sb table kmem true (suc fuel) n tot off dst ip d m)
            after (v', m', r, r', shows', same') = (
              v',
              m',
              rw (readi_loop, e, bmap-IsMapped sb ip d k (off / bsize) mp here, tot_fits, off_fits)
                  r,
              rw
                  (
                    readi_loop,
                    e,
                    bmap-IsMapped sb ip d k (off / bsize) mp here,
                    out,
                    tot_fits,
                    off_fits,
                  )
                  r',
              shows',
              λ p away. same' p away ∙ same p away,
            )

  readi-Both :
      (k dst off n : ℕ) (g : Inode) (d : Device) (m v : Bytes)
      → off + n ≤ g.copy.size
      → off + n < 2 ^ 32
      → off + n ≤ k * bsize
      → IsMapped g d k
      → (user : IsUser table kmem dst n) (apart : IsApart table kmem dst n)
      → Shows table kmem dst n m v
      → Both k dst n user apart n g d m
          (readi sb table kmem false dst off n g d v)
          (readi sb table kmem true dst off n g d m)
  unfolding readi
  readi-Both k dst off n g d m v enough small inside mp user apart h =
      let sum : add32 off n ≡ off + n = omega (arith, small) in
      let start : ltb g.copy.size off ≡ false = ground arith in
      let wraps : ltb (off + n) off ≡ false = ground arith in
      let whole : ltb g.copy.size (off + n) ≡ false = ground arith in
      rw (readi, sum, start, wraps, whole)
        (readi_loop-Both k dst n user apart n n 0 off dst g d m v (omega arith) (omega arith)
          (omega (arith, small)) (omega (arith, small)) (omega (arith, inside)) (omega arith)
          (omega arith) mp h)

  -- What `writei` puts into a file from the memory of a process, `readi` gets into the memory of a
  -- process: the byte at each of the `n` addresses from `dst` on is the one that was at the address
  -- from `src` on, and nothing else of the memory changes. The pages of both ranges are mapped for
  -- the user, no two addresses of the range read into are at one place, and the blocks written are
  -- allocated.
  pub readi-writei_user :
      (k src dst off n : ℕ) (memory : Bytes) (ip : Inode) (s : FsState) (m : Bytes)
      → 0 < n
      → off ≤ ip.copy.size
      → ip.copy.size ≤ k * bsize
      → off + n ≤ k * bsize
      → IsMapped ip s.device k
      → IsUser table kmem src n
      → IsUser table kmem dst n
      → IsApart table kmem dst n
      → (s' : FsState) × (m' : Bytes) × (writei sb table kmem true src off n memory ip s
          ≡ some (pos n, (grown (off + n) ip, s')))
        × (readi sb table kmem true dst off n (grown (off + n) ip) s'.device m
            ≡ some (n, (grown (off + n) ip, (s'.device, m'))))
        × ((i : ℕ) → i < n → m' (phys table kmem (dst + i)) ≡ memory (phys table kmem (src + i)))
        × SameBut table kmem dst n m m'
  readi-writei_user k src dst off n memory ip s m more le old inside mp from to apart =
      let (s', v1, w, r, h, mapped) =
        readi-writei sb table kmem k src dst off n (seen table kmem memory) ip s (seen table kmem m)
          more le old inside mp in
      let (v2, m', r', read, shows, same) =
        readi-Both k dst off n (grown (off + n) ip) s'.device m (seen table kmem m)
          (grown_size (off + n) ip) (omega (arith, inside, mp.fits)) inside mapped to apart
          (λ i l l'. refl) in
      (
        s',
        m',
        writei-seen src off n memory ip s (omega (arith, inside, mp.fits)) from ∙ w,
        read,
        (λ i lt.
            shows (dst + i) (omega arith) (omega (arith, lt))
            ∙ same_byte v1 v2 (sym r' ∙ r) h i lt),
        same,
      )
    where
      bytes : Option Read → Bytes
      bytes none = λ a. 0
      bytes (some (_, (_, (_, v)))) = v

      same_byte :
          {t t' : ℕ} {g g' : Inode} {d d' : Device} (v1 v2 : Bytes)
          → ◌≡◌ {A = Option Read} (some (t, (g, (d, v2)))) (some (t', (g', (d', v1))))
          → ((a : ℕ)
              → v1 a ≡ (
                  if within dst n a
                  then seen table kmem memory (src + (a - dst))
                  else seen table kmem m a))
          → (i : ℕ) → i < n
          → v2 (dst + i) ≡ memory (phys table kmem (src + i))
      same_byte v1 v2 e h i lt =
          let there : within dst n (dst + i) ≡ true = ground arith in
          let place : dst + i - dst ≡ i = omega arith in
          ap (λ (o : Option Read). bytes o (dst + i)) e ∙ (h (dst + i) ∙ rw (there, place) refl)
