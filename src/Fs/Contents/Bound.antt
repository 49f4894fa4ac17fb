-- ===== src/Fs/Contents/Bound.antt =====
-- No write makes a file larger than its blocks can hold.
use my_oslab.Base.{
  ℕ, zero, suc, ◌+◌, ◌-◌, ◌*◌, ◌/◌, ◌%◌, ◌^◌, ◌≤◌, ◌<◌, ◌≡◌, inl, inr, refl, subst, Bool, ◌||◌,
  Option, none, some, add32, ltb, ◌==◌, get_or, Bool-cases, cases_if, arith, ℤ, pos, negsuc,
}
use my_oslab.Kalloc.{Kmem}
use my_oslab.Strings.{Bytes}
use my_oslab.Vm.Either.{either_copyin}
use my_oslab.Fs.{Superblock, Device, balloc, write_block}
use my_oslab.Fs.Icache.{Inode}
use my_oslab.Fs.Inode.{
  FsState, ndirect, nindirect, set_addr, with_inode, find_indirect, own_addr, indirect_addr, bmap,
  iupdate,
}
use my_oslab.Fs.Contents.Round.{grown_fits}
use my_oslab.Fs.Contents.{
  bsize, maxfile, piece, with_block, copied, Written, writei, writei_loop, update_size,
}

-- The inode that `bmap` leaves has the size that it had.
abbrev KeepsSize : Inode → Option (ℕ × (Inode × Device)) → Type 0
KeepsSize ip none = Unit
KeepsSize ip (some (b, (ip', d))) = ip'.copy.size ≡ ip.copy.size

module _ (sb : Superblock) where
  set_addr-KeepsSize :
      (k : ℕ) (ip : Inode) (o : Option (ℕ × Device)) → KeepsSize ip (set_addr sb k ip o)
  set_addr-KeepsSize k ip none = tt
  set_addr-KeepsSize k ip (some (b, d)) = refl

  own_addr-KeepsSize : (k : ℕ) (ip : Inode) (d : Device) → KeepsSize ip (own_addr sb k ip d)
  unfolding own_addr
  own_addr-KeepsSize k ip d = elim (Bool-cases (get_or ip.copy.addrs k 0 == 0)) [
    | inl e ↦ rw (own_addr, e) (set_addr-KeepsSize k ip (balloc sb d))
    | inr e ↦ rw (own_addr, e) refl
  ]

  with_inode-KeepsSize :
      (ip ip1 : Inode) (o : Option (ℕ × Device))
      → ip1.copy.size ≡ ip.copy.size
      → KeepsSize ip (with_inode sb ip1 o)
  with_inode-KeepsSize ip ip1 none e = tt
  with_inode-KeepsSize ip ip1 (some (b, d)) e = e

  find_indirect-KeepsSize :
      (bn : ℕ) (ip : Inode) (o : Option (ℕ × (Inode × Device)))
      → KeepsSize ip o
      → KeepsSize ip (find_indirect sb bn o)
  find_indirect-KeepsSize bn ip none h = tt
  find_indirect-KeepsSize bn ip (some (a, (ip1, d))) h =
      with_inode-KeepsSize ip ip1 (indirect_addr sb a bn d) h

  bmap-KeepsSize : (bn : ℕ) (ip : Inode) (d : Device) → KeepsSize ip (bmap sb bn ip d)
  unfolding bmap
  bmap-KeepsSize bn ip d = elim (Bool-cases (ltb bn ndirect)) [
    | inl t ↦ rw (bmap, t) (own_addr-KeepsSize bn ip d)
    | inr t ↦ elim (Bool-cases (ltb (bn - ndirect) nindirect)) [
      | inl u ↦
          rw (bmap, t, u)
            (find_indirect-KeepsSize (bn - ndirect) ip (own_addr sb ndirect ip d)
              (own_addr-KeepsSize ndirect ip d))
      | inr u ↦ rw (bmap, t, u) tt
    ]
  ]

-- The loop of `writei` stops at the end of what it was to write at the latest.
abbrev Stops : ℕ → ℕ → Option Written → Type 0
Stops size limit none = Unit
Stops size limit (some (tot, (off, (ip, d)))) = (off ≤ limit) × (ip.copy.size ≡ size)

module _ (sb : Superblock) (table : ℕ) (k : Kmem) (user : Bool) where
  copied-Stops :
      (size limit : ℕ) (ok bad : Bytes → Option Written) (r : ℤ × Bytes)
      → ((v : Bytes) → Stops size limit (ok v))
      → ((v : Bytes) → Stops size limit (bad v))
      → Stops size limit (copied ok bad r)
  copied-Stops size limit ok bad (pos i, m) h h' = h m
  copied-Stops size limit ok bad (negsuc i, m) h h' = h' m

  with_block-Stops :
      (limit : ℕ) (ip : Inode) (f : ℕ → Inode → Device → Option Written)
      (o : Option (ℕ × (Inode × Device)))
      → KeepsSize ip o
      → ((b : ℕ) (ip' : Inode) (d' : Device) → Stops ip'.copy.size limit (f b ip' d'))
      → Stops ip.copy.size limit (with_block f o)
  with_block-Stops limit ip f none e h = tt
  with_block-Stops limit ip f (some (b, (ip', d'))) e h =
      subst (λ (z : ℕ). Stops z limit (f b ip' d')) e (h b ip' d')

  writei_loop-Stops :
      (fuel n tot off src : ℕ) (memory : Bytes) (ip : Inode) (d : Device) (limit : ℕ)
      → n < 2 ^ 32
      → off + (n - tot) ≤ limit
      → Stops ip.copy.size limit (writei_loop sb table k user fuel n tot off src memory ip d)
  unfolding writei_loop
  writei_loop-Stops zero n tot off src memory ip d limit small le = (omega arith, refl)
  writei_loop-Stops (suc fuel) n tot off src memory ip d limit small le =
      elim (Bool-cases (ltb tot n)) [
        | inr e ↦ rw (writei_loop, e) (omega arith, refl)
        | inl e ↦
            rw (writei_loop, e)
              (with_block-Stops limit ip _ (bmap sb (off / bsize) ip d)
                (bmap-KeepsSize sb (off / bsize) ip d)
                (λ b ip' d'.
                  copied-Stops ip'.copy.size limit _ _
                    (either_copyin table k memory (off % bsize) user src (piece n tot off)
                      (d'.blocks b))
                    (λ v.
                      writei_loop-Stops fuel n (add32 tot (piece n tot off))
                        (add32 off (piece n tot off)) (src + piece n tot off) memory ip'
                        (write_block b v d') limit small (ground arith))
                    (λ v. (omega arith, refl))))
      ]

-- The size is one that the blocks of an inode can hold.
abbrev IsBounded : Option (ℤ × (Inode × FsState)) → Type 0
IsBounded none = Unit
IsBounded (some (r, (ip, s))) = ip.copy.size ≤ maxfile * bsize

module _ (sb : Superblock) (table : ℕ) (k : Kmem) (user : Bool) where
  update_size-IsBounded :
      (n size : ℕ) (s : FsState) (r : Option Written)
      → size ≤ maxfile * bsize
      → Stops size (maxfile * bsize) r
      → IsBounded (update_size sb table k user n s r)
  unfolding iupdate
  update_size-IsBounded n size s none le h = tt
  update_size-IsBounded n size s (some (tot, (off, (ip, d)))) le (e, h) =
      cases_if IsBounded (ltb 0 n) (λ t. grown_fits off ip e (rw h le)) (λ t. rw h le)

  writei_always :
      (src off n : ℕ) (memory : Bytes) (ip : Inode) (s : FsState)
      → ip.copy.size ≤ maxfile * bsize
      → off < 2 ^ 32
      → n < 2 ^ 32
      → IsBounded (writei sb table k user src off n memory ip s)
  unfolding writei
  writei_always src off n memory ip s le small small' =
      cases_if IsBounded (ltb ip.copy.size off || ltb (add32 off n) off) (λ t. le)
        (λ t.
          cases_if IsBounded (ltb (maxfile * bsize) (add32 off n)) (λ u. le)
            (λ u.
              update_size-IsBounded n ip.copy.size s
                (writei_loop sb table k user n n 0 off src memory ip s.device) le
                (writei_loop-Stops sb table k user n n 0 off src memory ip s.device
                  (maxfile * bsize) small' (ground arith))))

  -- No `writei`, from whatever memory and however it ends, makes a file larger than the blocks of
  -- an inode can hold, for an offset and a count of 32 bits, whose sum may overflow.
  pub writei-IsBounded :
      (src off n : ℕ) (memory : Bytes) (ip ip' : Inode) (s s' : FsState) (r : ℤ)
      → ip.copy.size ≤ maxfile * bsize
      → off < 2 ^ 32
      → n < 2 ^ 32
      → writei sb table k user src off n memory ip s ≡ some (r, (ip', s'))
      → ip'.copy.size ≤ maxfile * bsize
  writei-IsBounded src off n memory ip ip' s s' r le small small' e =
      subst IsBounded e (writei_always src off n memory ip s le small small')
