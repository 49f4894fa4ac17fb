-- ===== src/Fs/Balloc.antt =====
-- Which block `balloc` takes.
pub mod Bitmap
use my_oslab.Base.{
  ℕ, zero, suc, ◌+◌, ◌-◌, ◌*◌, ◌/◌, ◌%◌, ◌≤◌, ◌<◌, ◌≡◌, ◌≢◌, ◌⊎◌, inl, inr, refl, sym, ap, ◌∙◌,
  Bool, true, false, not, Option, none, some, ltb, ◌==◌, if◌then◌else◌, Bool-cases, ne→==, ==_self,
  arith,
}
use my_oslab.Strings.{Bytes, put}
use my_oslab.Fs.{
  Superblock, Device, bpb, bblock, test_bit, set_bit, bit_at, change_byte, write_block, bzero,
  find_bit, balloc_loop, balloc, clear_bit, bfree,
}
use my_oslab.Fs.Bits.{test_bit-set_bit_self, test_bit-set_bit_ne, clear_bit-set_bit}

-- The bit of block `b` in the bitmap.
abbrev pub is_used : Superblock → Device → ℕ → Bool
is_used sb d b = bit_at (d.blocks (bblock sb b)) (b % bpb)

-- The first clear bit among `n` from `bi` on.
data FirstFree (n bi : ℕ) (bp : Bytes) : Option ℕ → Type 0 where
  at :
      (r : ℕ)
      → bi ≤ r
      → r < bi + n
      → bit_at bp r ≡ false
      → ((j : ℕ) → bi ≤ j → j < r → bit_at bp j ≡ true)
      → FirstFree n bi bp (some r)
  nowhere : ((j : ℕ) → bi ≤ j → j < bi + n → bit_at bp j ≡ true) → FirstFree n bi bp none

find_bit_later :
    (n bi : ℕ) (bp : Bytes) (o : Option ℕ)
    → bit_at bp bi ≡ true
    → FirstFree n (bi + 1) bp o
    → FirstFree (suc n) bi bp o
find_bit_later n bi bp _ u (at r l h f before) =
    FirstFree.at r (omega arith) (omega arith) f (λ j a b. elim (Bool-cases (j == bi)) [
      | inl e ↦ let same : j ≡ bi = ground arith in rw same u
      | inr e ↦ before j (ground arith) b
    ])
find_bit_later n bi bp _ u (nowhere all) = FirstFree.nowhere (λ j a b. elim (Bool-cases (j == bi)) [
  | inl e ↦ let same : j ≡ bi = ground arith in rw same u
  | inr e ↦ all j (ground arith) (omega arith)
])

find_bit-FirstFree : (n bi : ℕ) (bp : Bytes) → FirstFree n bi bp (find_bit n bi bp)
unfolding find_bit
find_bit-FirstFree zero bi bp = FirstFree.nowhere (λ j a b. absurd (omega arith))
find_bit-FirstFree (suc n) bi bp = elim (Bool-cases (bit_at bp bi)) [
  | inl u ↦ rw (find_bit, u) (find_bit_later n bi bp _ u (find_bit-FirstFree n (bi + 1) bp))
  | inr u ↦
      rw (find_bit, u)
        (FirstFree.at bi (omega arith) (omega arith) u (λ j a b. absurd (omega arith)))
]

-- The device after block `r` has been taken.
abbrev pub taken : Superblock → ℕ → Device → Device
taken sb r d =
    bzero r (write_block (bblock sb r) (change_byte set_bit (d.blocks (bblock sb r)) (r % bpb)) d)

-- What `balloc` does from block `b` on: it takes the first block that is not in use, or panics if
-- all are.
pub data Allotted (b : ℕ) (sb : Superblock) (d : Device) : Option (ℕ × Device) → Type 0 where
  takes :
      (r : ℕ)
      → b ≤ r
      → r < sb.size
      → is_used sb d r ≡ false
      → ((j : ℕ) → b ≤ j → j < r → is_used sb d j ≡ true)
      → Allotted b sb d (some (r, taken sb r d))
  panics : ((j : ℕ) → b ≤ j → j < sb.size → is_used sb d j ≡ true) → Allotted b sb d none

balloc_loop-Allotted :
    (n b : ℕ) (sb : Superblock) (d : Device)
    → b % bpb ≡ 0
    → sb.size ≤ b + n * bpb
    → Allotted b sb d (balloc_loop n b sb d)
unfolding balloc_loop
balloc_loop-Allotted zero b sb d al h = Allotted.panics (λ j a l. absurd (omega arith))
balloc_loop-Allotted (suc n) b sb d al h =
    look (find_bit bits 0 bp) (find_bit-FirstFree bits 0 bp)
      (balloc_loop-Allotted n (b + bpb) sb d (omega arith) (omega arith))
  where
    bits : ℕ
    bits = if ltb (sb.size - b) bpb then sb.size - b else bpb

    bp : Bytes
    bp = d.blocks (bblock sb b)

    -- A bit of this bitmap block is that of a block of the device.
    bit_of : (j : ℕ) (u : Bool) → b ≤ j → j < b + bpb → bit_at bp (j - b) ≡ u → is_used sb d j ≡ u
    bit_of j u l h e =
        let block : j / bpb ≡ b / bpb = omega arith in
        let place : j % bpb ≡ j - b = omega arith in rw (block, place) e

    look :
        (o : Option ℕ)
        → FirstFree bits 0 bp o
        → Allotted (b + bpb) sb d (balloc_loop n (b + bpb) sb d)
        → Allotted b sb d (elim o [
          | some bi ↦
              some
                (b + bi, bzero (b + bi) (write_block (bblock sb b) (change_byte set_bit bp bi) d))
          | none ↦ balloc_loop n (b + bpb) sb d
        ])
    look _ (at r l h f before) rest =
        let block : (b + r) / bpb ≡ b / bpb = ground arith in
        let place : (b + r) % bpb ≡ r = ground arith in
        let back : b + r - b ≡ r = omega arith in
        let takes : Allotted b sb d (some (b + r, taken sb (b + r) d)) =
          Allotted.takes (b + r) (omega arith) (ground arith)
            (bit_of (b + r) false (omega arith) (ground arith) (rw back f))
            (λ j a c.
              bit_of j true a (ground arith) (before (j - b) (omega arith) (omega arith))) in
        rw (block, place) at takes
    look _ (nowhere all) rest = later (balloc_loop n (b + bpb) sb d) rest
      where
        later : (o : Option (ℕ × Device)) → Allotted (b + bpb) sb d o → Allotted b sb d o
        later _ (takes r l h f before) = Allotted.takes r (omega arith) h f (λ j a c.
            elim (Bool-cases (ltb j (b + bpb))) [
              | inl e ↦ bit_of j true a (ground arith) (all (j - b) (omega arith) (ground arith))
              | inr e ↦ before j (ground arith) c
            ])
        later _ (panics rest') = Allotted.panics (λ j a c. elim (Bool-cases (ltb j (b + bpb))) [
          | inl e ↦ bit_of j true a (ground arith) (all (j - b) (omega arith) (ground arith))
          | inr e ↦ rest' j (ground arith) c
        ])

-- `balloc` takes the first block of the device whose bit in the bitmap is clear, sets the bit and
-- zeroes the block; it panics only if no bit of a block of the device is clear.
pub balloc-Allotted : (sb : Superblock) (d : Device) → Allotted 0 sb d (balloc sb d)
unfolding balloc
balloc-Allotted sb d = balloc_loop-Allotted ((sb.size + (bpb - 1)) / bpb) 0 sb d refl (omega arith)
