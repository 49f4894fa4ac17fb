-- ===== src/File/Write.antt =====
-- `filewrite` to an inode: the transactions that it splits a write into.
use my_oslab.Base.{
  ℕ, zero, suc, ◌+◌, ◌-◌, ◌%◌, ◌^◌, ◌≤◌, ◌<◌, ◌≡◌, ◌≢◌, ◌⊎◌, inl, inr, refl, sym, ap, subst, ◌∙◌,
  false, Option, none, some, ◌==◌, ==→eq, ==→ne, ltb, if◌then◌else◌, Bool-cases, ==_self, ne→==,
  arith, ℤ, pos, negsuc,
}
use my_oslab.File.{
  File, FileType, FileOps, advance, max_write, chunk_written, write_chunk, write_next, write_chunks,
  write_result, write_type, filewrite,
}

module _ (ops : FileOps) where
  -- The call of `writei` in a transaction for `m` bytes from byte `i` on.
  abbrev pub call : ℕ → ℕ → ℕ → File → ops.World → Option (ℤ × ops.World)
  call addr i m f w = ops.writei f.ip (addr + i) f.off m (ops.ilock f.ip (ops.begin_op w))

  -- The end of a transaction.
  abbrev pub close : File → ops.World → ops.World
  close f w = ops.end_op (ops.iunlock f.ip w)

  -- From byte `i` to byte `j` in transactions of at most `max_write` bytes, one behind the other,
  -- in each of which `writei` returned the number of bytes it was asked for.
  pub data Done (addr : ℕ) : ℕ → File → ops.World → ℕ → File → ops.World → Type 0 where
    nothing : (i : ℕ) (f : File) (w : ops.World) → Done addr i f w i f w
    chunk :
        (i m j : ℕ) (f f' : File) (w w1 w' : ops.World)
        → 0 < m
        → m ≤ max_write
        → call addr i m f w ≡ some (pos m, w1)
        → Done addr (i + m) (record f { off = (f.off + m) % 2 ^ 32 }) (close f w1) j f' w'
        → Done addr i f w j f' w'

  -- How a write of `n` bytes goes on from byte `i`: to the end, or to the transaction behind the
  -- bytes `j`, for `m` bytes, which fails, or in which `writei` panics or returns another number.
  pub data Ends (addr n i : ℕ) (f : File) (w : ops.World)
      : Option (ℕ × (File × ops.World)) → Type 0 where
    all :
        (f' : File) (w' : ops.World)
        → Done addr i f w n f' w'
        → Ends addr n i f w (some (n, (f', w')))
    fails :
        (j m k : ℕ) (f' : File) (w' w1 : ops.World)
        → Done addr i f w j f' w'
        → j + m ≤ n
        → 0 < m
        → call addr j m f' w' ≡ some (negsuc k, w1)
        → Ends addr n i f w (some (j, (f', close f' w1)))
    panics :
        (j m : ℕ) (f' : File) (w' : ops.World)
        → Done addr i f w j f' w'
        → j + m ≤ n
        → (call addr j m f' w' ≡ none)
          ⊎ ((r : ℕ) × (w1 : ops.World) × (call addr j m f' w' ≡ some (pos r, w1)) × (r ≢ m))
        → Ends addr n i f w none

  -- A transaction before the others.
  Ends-chunk :
      (addr n i m : ℕ) (f : File) (w w1 : ops.World) (o : Option (ℕ × (File × ops.World)))
      → 0 < m
      → m ≤ max_write
      → call addr i m f w ≡ some (pos m, w1)
      → Ends addr n (i + m) (record f { off = (f.off + m) % 2 ^ 32 }) (close f w1) o
      → Ends addr n i f w o
  Ends-chunk addr n i m f w w1 _ small big e (Ends.all f' w' d) =
      Ends.all f' w' (Done.chunk i m n f f' w w1 w' small big e d)
  Ends-chunk addr n i m f w w1 _ small big e (Ends.fails j m' k f' w' w2 d le lt e') =
      Ends.fails j m' k f' w' w2 (Done.chunk i m j f f' w w1 w' small big e d) le lt e'
  Ends-chunk addr n i m f w w1 _ small big e (Ends.panics j m' f' w' d le c) =
      Ends.panics j m' f' w' (Done.chunk i m j f f' w w1 w' small big e d) le c

  write_chunks-Ends :
      (fuel addr i n : ℕ) (f : File) (w : ops.World)
      → i ≤ n
      → n - i ≤ fuel
      → Ends addr n i f w (write_chunks ops fuel addr i n f w)
  unfolding write_chunks write_chunk
  write_chunks-Ends zero addr i n f w le enough =
      let done : i ≡ n = omega (arith, le, enough) in
      subst (λ (j : ℕ). Ends addr j i f w (some (i, (f, w)))) done
        (Ends.all f w (Done.nothing i f w))
  write_chunks-Ends (suc fuel) addr i n f w le enough = elim (Bool-cases (ltb i n)) [
    | inr e ↦
        let done : i ≡ n = ground (arith, le, e) in
        rw (e, write_chunks)
          (subst (λ (j : ℕ). Ends addr j i f w (some (i, (f, w)))) done
            (Ends.all f w (Done.nothing i f w)))
    | inl e ↦
        rw (e, write_chunks)
          (at (call addr i m f w) refl (ground (arith, e)) (λ w1 small fits.
            write_chunks-Ends fuel addr (i + m) n (advance (pos m) f) (close f w1) fits
              (omega (arith, enough, small))))
  ]
    where
      m : ℕ
      m = if ltb max_write (n - i) then max_write else n - i

      next : ℕ → File → ops.World → Option (ℕ × (File × ops.World))
      next j f' w' = write_chunks ops fuel addr j n f' w'

      here : Done addr i f w i f w
      here = Done.nothing i f w

      at :
          (o : Option (ℤ × ops.World))
          → call addr i m f w ≡ o
          → (0 < m) × (m ≤ max_write) × (i + m ≤ n)
          → ((w1 : ops.World)
              → 0 < m
              → i + m ≤ n
              → Ends addr n
                  (i + m)
                  (advance (pos m) f)
                  (close f w1)
                  (next (i + m) (advance (pos m) f) (close f w1)))
          → Ends addr n i f w (write_next ops next m i (chunk_written ops f o))
      at none e (small, big, fits) rest = Ends.panics i m f w here fits (inl e)
      at (some (negsuc k, w1)) e (small, big, fits) rest = Ends.fails i m k f w w1 here fits small e
      at (some (pos r, w1)) e (small, big, fits) rest = elim (Bool-cases (r == m)) [
        | inl t ↦
            let same : r ≡ m = ==→eq r m t in
            rw (t, write_next)
              (subst (λ (x : ℕ). Ends addr n i f w (next (i + x) (advance (pos x) f) (close f w1)))
                (sym same)
                (Ends-chunk addr n i m f w w1 (next (i + m) (advance (pos m) f) (close f w1)) small
                  big (e ∙ ap (λ (x : ℕ). some (pos x, w1)) same) (rest w1 small fits)))
        | inr t ↦ rw (t, write_next) (Ends.panics i m f w here fits (inr (r, w1, e, ==→ne r m t)))
      ]

  -- The bytes done are those that the offset has moved by.
  Done-off :
      (addr i j : ℕ) (f f' : File) (w w' : ops.World)
      → f.off < 2 ^ 32
      → Done addr i f w j f' w'
      → (i ≤ j) × (f'.off ≡ (f.off + (j - i)) % 2 ^ 32)
  Done-off addr _ _ _ _ _ _ small (Done.nothing i f w) = (omega arith, omega (arith, small))
  Done-off addr _ _ _ _ _ _ small (Done.chunk i m j f f' w w1 w' lt big e d) =
      let (le, off) =
        Done-off addr (i + m) j (record f { off = (f.off + m) % 2 ^ 32 }) f' (close f w1) w'
          (omega arith) d in
      (omega (arith, le), omega (arith, le, off))

  -- What `filewrite` of `n` bytes does, with its result, the file and the world after it.
  pub data Wrote (f : File) (addr n : ℕ) (w : ops.World)
      : Option (ℤ × (File × ops.World)) → Type 0 where
    all :
        (f' : File) (w' : ops.World)
        → Done addr 0 f w n f' w'
        → f'.off ≡ (f.off + n) % 2 ^ 32
        → Wrote f addr n w (some (pos n, (f', w')))
    fails :
        (j m k : ℕ) (f' : File) (w' w1 : ops.World)
        → Done addr 0 f w j f' w'
        → f'.off ≡ (f.off + j) % 2 ^ 32
        → 0 < m
        → j + m ≤ n
        → call addr j m f' w' ≡ some (negsuc k, w1)
        → Wrote f addr n w (some (negsuc 0, (f', close f' w1)))
    panics :
        (j m : ℕ) (f' : File) (w' : ops.World)
        → Done addr 0 f w j f' w'
        → j + m ≤ n
        → (call addr j m f' w' ≡ none)
          ⊎ ((r : ℕ) × (w1 : ops.World) × (call addr j m f' w' ≡ some (pos r, w1)) × (r ≢ m))
        → Wrote f addr n w none

  -- `filewrite` to a writable inode calls `writei` for one run of at most `max_write` bytes behind
  -- the other, each in a transaction of its own, as long as that returns the number of bytes it
  -- was asked for. It returns `n` only when these runs are the `n` bytes, and -1 only when a call
  -- in this sequence has failed; the offset has grown by the bytes of the runs, modulo 2 ^ 32. It
  -- panics only when a call in the sequence panics or returns another number of bytes.
  pub filewrite-Wrote :
      (f : File) (addr n : ℕ) (w : ops.World)
      → f.off < 2 ^ 32
      → f.writable ≢ 0
      → f.type ≡ FileType.fd_inode
      → Wrote f addr n w (filewrite ops f addr n w)
  unfolding filewrite write_type
  filewrite-Wrote f addr n w small can inode =
      let writes : (f.writable == 0) ≡ false = ne→== f.writable 0 can in
      rw (filewrite, writes)
        (subst (λ (t : FileType). Wrote f addr n w (write_type ops t f addr n w)) (sym inode)
          (at (write_chunks ops n addr 0 n f w)
            (write_chunks-Ends n addr 0 n f w (omega arith) (omega arith))))
    where
      at :
          (o : Option (ℕ × (File × ops.World)))
          → Ends addr n 0 f w o
          → Wrote f addr n w (write_result ops n o)
      at _ (Ends.all f' w' d) =
          let (le, off) = Done-off addr 0 n f f' w w' small d in
          rw (==_self n) (Wrote.all f' w' d (omega (arith, off)))
      at _ (Ends.fails j m k f' w' w1 d fits lt e) =
          let (le, off) = Done-off addr 0 j f f' w w' small d in
          let short : (j == n) ≡ false = ne→== j n (λ q. omega (arith, q, fits, lt)) in
          rw short (Wrote.fails j m k f' w' w1 d (omega (arith, off)) lt fits e)
      at _ (Ends.panics j m f' w' d fits c) = Wrote.panics j m f' w' d fits c
