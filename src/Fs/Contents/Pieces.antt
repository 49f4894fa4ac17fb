-- ===== src/Fs/Contents/Pieces.antt =====
-- The pieces of a file that `readi` and `writei` copy, each in one block.
use my_oslab.Base.{
  ℕ, zero, suc, ◌+◌, ◌-◌, ◌/◌, ◌%◌, ◌≤◌, ◌<◌, ◌≡◌, inl, inr, refl, sym, ap₂, ◌∙◌, Bool, true, false,
  ◌==◌, if◌then◌else◌, Bool-cases, arith,
}
use my_oslab.Strings.{Bytes, put}
use my_oslab.Strings.Move.{within}
use my_oslab.Vm.Copy.{move_bytes}
use my_oslab.Fs.{Device}
use my_oslab.Fs.Icache.{Inode}
use my_oslab.Fs.Contents.{bsize, piece}
use my_oslab.Fs.Contents.Mapped.{block_at, file_byte}

-- `memmove` from the buffer of a block, and to it.
pub move_out :
    (kernel : Bytes) (n pa ka a : ℕ) (m : Bytes)
    → move_bytes (λ p q m'. put m' p (kernel q)) n pa ka m a
      ≡ (if within pa n a then kernel (ka + (a - pa)) else m a)
unfolding move_bytes
move_out kernel zero pa ka a m = ground arith
move_out kernel (suc n) pa ka a m =
    move_out kernel n (pa + 1) (ka + 1) a (put m pa (kernel ka)) ∙ step
  where
    step :
        (if within (pa + 1) n a then kernel (ka + 1 + (a - (pa + 1))) else put m pa (kernel ka) a)
        ≡ (if within pa (suc n) a then kernel (ka + (a - pa)) else m a)
    step = ground arith

pub move_in :
    (memory : Bytes) (n pa ka a : ℕ) (m : Bytes)
    → move_bytes (λ p q m'. put m' q (memory p)) n pa ka m a
      ≡ (if within ka n a then memory (pa + (a - ka)) else m a)
unfolding move_bytes
move_in memory zero pa ka a m = ground arith
move_in memory (suc n) pa ka a m =
    move_in memory n (pa + 1) (ka + 1) a (put m ka (memory pa)) ∙ step
  where
    step :
        (if within (ka + 1) n a then memory (pa + 1 + (a - (ka + 1))) else put m ka (memory pa) a)
        ≡ (if within ka (suc n) a then memory (pa + (a - ka)) else m a)
    step = ground arith

-- A piece lies in one block and is not empty.
pub record IsPiece (n tot off len : ℕ) : Type 0 where
  pub some_byte : 0 < len
  pub inside : len ≤ n - tot
  pub one_block : off % bsize + len ≤ bsize

pub piece-IsPiece : (n tot off : ℕ) → tot < n → IsPiece n tot off (piece n tot off)
piece-IsPiece n tot off lt = record {
  some_byte = ground arith;
  inside = ground arith;
  one_block = ground arith;
}

pub within-lt : (p n a : ℕ) → within p n a ≡ true → a - p < n
within-lt p n a t = ground arith

-- Offsets of one piece are in one block.
pub piece_byte :
    (ip : Inode) (d : Device) (off len i : ℕ)
    → off % bsize + len ≤ bsize
    → i < len
    → d.blocks (block_at ip d (off / bsize)) (off % bsize + i) ≡ file_byte ip d (off + i)
piece_byte ip d off len i one lt =
    let block : (off + i) / bsize ≡ off / bsize = omega arith in
    let place : (off + i) % bsize ≡ off % bsize + i = omega arith in
    ap₂ (λ (q r : ℕ). d.blocks (block_at ip d q) r) (sym block) (sym place)

pub choices :
    {x y : ℕ} (t : Bool) (z : ℕ) → (t ≡ true → x ≡ y) → (if t then x else z) ≡ (if t then y else z)
choices true z h = h refl
choices false z h = refl

pub in_block :
    (off len o : ℕ)
    → off % bsize + len ≤ bsize
    → o / bsize ≡ off / bsize
    → within (off % bsize) len (o % bsize) ≡ within off len o
in_block off len o one e = ground (arith, one, e)

pub outside :
    (off len o : ℕ)
    → off % bsize + len ≤ bsize
    → (o / bsize == off / bsize) ≡ false
    → within off len o ≡ false
outside off len o one e = ground (arith, one, e)

-- What is read of `g` in two ranges, one behind the other, is what is read in the range of both.
pub ranges_join :
    (g : ℕ → ℕ) (off dst len count a v w : ℕ)
    → len ≤ count
    → v ≡ (if within dst len a then g (off + (a - dst)) else w)
    → (if within (dst + len) (count - len) a then g (off + len + (a - (dst + len))) else v)
      ≡ (if within dst count a then g (off + (a - dst)) else w)
ranges_join g off dst len count a v w le e =
    rw e (elim (Bool-cases (within (dst + len) (count - len) a)) [
      | inl t ↦
          let all : within dst count a ≡ true = ground arith in
          let same : off + len + (a - (dst + len)) ≡ off + (a - dst) = ground arith in
          rw (t, all, same) refl
      | inr t ↦ rw t (elim (Bool-cases (within dst len a)) [
        | inl u ↦ let all : within dst count a ≡ true = ground arith in rw (u, all) refl
        | inr u ↦ let all : within dst count a ≡ false = ground arith in rw (u, all) refl
      ])
    ])
