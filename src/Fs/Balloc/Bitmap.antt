-- ===== src/Fs/Balloc/Bitmap.antt =====
-- What `balloc` and `bfree` make of the bitmap.
use my_oslab.Base.{
  ℕ, ◌/◌, ◌%◌, ◌≡◌, ◌≢◌, ◌⊎◌, inl, inr, refl, sym, ap, ◌∙◌, Bool, true, false, some, ◌==◌,
  if◌then◌else◌, Bool-cases, ne→==, ==_self, arith,
}
use my_oslab.Strings.{Bytes}
use my_oslab.Fs.{
  Superblock, Device, bpb, bblock, test_bit, set_bit, bit_at, change_byte, write_block, bzero,
  clear_bit, bfree,
}
use my_oslab.Fs.Bits.{test_bit-set_bit_self, test_bit-set_bit_ne, clear_bit-set_bit}
use my_oslab.Fs.Balloc.{is_used, taken}

bit_at-change_byte :
    (bp : Bytes) (i j : ℕ)
    → bit_at (change_byte set_bit bp i) j ≡ (if j == i then true else bit_at bp j)
bit_at-change_byte bp i j = elim (Bool-cases (j == i)) [
  | inl e ↦
      let same : j ≡ i = ground arith in
      rw (same, ==_self i, ==_self (i / 8)) (test_bit-set_bit_self (i % 8) (bp (i / 8)))
  | inr e ↦ rw e (other (Bool-cases (j / 8 == i / 8)) (ground arith))
]
  where
    other :
        (j / 8 == i / 8 ≡ true) ⊎ (j / 8 == i / 8 ≡ false)
        → j ≢ i
        → bit_at (change_byte set_bit bp i) j ≡ bit_at bp j
    other (inl b) ne =
        let byte : i / 8 ≡ j / 8 = ground arith in
        rw b (
          test_bit-set_bit_ne (j % 8) (i % 8) (bp (i / 8)) (λ p. ne (omega arith))
          ∙ ap (λ q. test_bit (j % 8) (bp q)) byte)
    other (inr b) ne = rw b refl

-- Taking a block sets its bit and changes no other, where the zeroed block is not the bitmap's.
pub taken_lem :
    (sb : Superblock) (r j : ℕ) (d : Device)
    → bblock sb j ≢ r
    → is_used sb (taken sb r d) j ≡ (if j == r then true else is_used sb d j)
unfolding bzero
taken_lem sb r j d h =
    rw (ne→== (bblock sb j) r h) (elim (Bool-cases (bblock sb j == bblock sb r)) [
      | inl e ↦ rw e (
          let block : bblock sb r ≡ bblock sb j = ground arith in
          bit_at-change_byte (d.blocks (bblock sb r)) (r % bpb) (j % bpb) ∙ rw block (place _ e))
      | inr e ↦ rw e (let other : (j == r) ≡ false = ground arith in rw other refl)
    ])
  where
    place :
        (u : Bool)
        → (bblock sb j == bblock sb r) ≡ true
        → (if j % bpb == r % bpb then true else u) ≡ (if j == r then true else u)
    place u e = let same : (j % bpb == r % bpb) ≡ (j == r) = ground arith in rw same refl

change_byte_back :
    (bp : Bytes) (p i : ℕ)
    → bit_at bp p ≡ false
    → change_byte clear_bit (change_byte set_bit bp p) p i ≡ bp i
change_byte_back bp p i f = elim (Bool-cases (i == p / 8)) [
  | inl e ↦
      let same : i ≡ p / 8 = ground arith in
      rw (same, ==_self (p / 8)) (clear_bit-set_bit (p % 8) (bp (p / 8)) f)
  | inr e ↦ rw e refl
]

-- What `bfree` makes of a device.
abbrev pub freed : Superblock → ℕ → Device → Device
freed sb b d =
    write_block (bblock sb b) (change_byte clear_bit (d.blocks (bblock sb b)) (b % bpb)) d

-- `bfree` of a block that was just taken does not panic, and every block but the zeroed one then
-- reads as it did before it was taken.
pub bfree-taken :
    (sb : Superblock) (r a i : ℕ) (d : Device)
    → is_used sb d r ≡ false
    → bblock sb r ≢ r
    → a ≢ r
    → (bfree sb r (taken sb r d) ≡ some (freed sb r (taken sb r d)))
      × ((freed sb r (taken sb r d)).blocks a i ≡ d.blocks a i)
unfolding bfree bzero
bfree-taken sb r a i d f h ne = (
  (let used = taken_lem sb r r d h in rw (bfree, rw (==_self r) at used) refl),
  elim (Bool-cases (a == bblock sb r)) [
    | inl e ↦
        let same : a ≡ bblock sb r = ground arith in
        rw (e, ne→== (bblock sb r) r h, ==_self (bblock sb r))
          (change_byte_back (d.blocks (bblock sb r)) (r % bpb) i f
            ∙ ap (λ c. d.blocks c i) (sym same))
    | inr e ↦ rw (e, ne→== a r ne) refl
  ],
)
