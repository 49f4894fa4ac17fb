-- ===== src/Log/Pins.antt =====
-- The reference counts of the buffers through a commit and a recovery.
use my_oslab.Base.{
  ℕ, ◌+◌, ◌-◌, ◌^◌, ◌≤◌, ◌<◌, ◌≡◌, ◌≢◌, refl, ap, ◌∙◌, true, false, List, [], ◌∷◌, ◌||◌, length,
  ◌==◌, if◌then◌else◌, Bool-cases, ==→eq, inl, inr, sub32, arith,
}
use my_oslab.Log.{
  Disk, Dev, log_size, install_one, install_trans, write_head, read_head, recover_from_log,
}
use my_oslab.Log.Commit.{AllHome}
use my_oslab.Log.Header.{IsHeader}
use my_oslab.Log.Crash.{boot, has}

abbrev pub Distinct : List ℕ → Type 0
Distinct [] = Unit
Distinct (b ∷ bs) = (has b bs ≡ false) × Distinct bs

abbrev pub Counts : Dev → Type 0
Counts d = (a : ℕ) → d.refcnt a < 2 ^ 32

-- One installation takes one reference off the block's buffer, and no other.
refcnt-install_one :
    (start tail b a : ℕ) (d : Dev)
    → Counts d
    → b ≢ start + tail + 1
    → (install_one start tail b d).refcnt a ≡ (if a == b then sub32 (d.refcnt a) 1 else d.refcnt a)
unfolding install_one
refcnt-install_one start tail b a d small ne = ground (arith, small a)

drop_once :
    (r1 r a b : ℕ) (bs : List ℕ)
    → has b bs ≡ false
    → r1 ≡ (if a == b then sub32 r 1 else r)
    → (if has a bs then sub32 r1 1 else r1) ≡ (if (a == b) || has a bs then sub32 r 1 else r)
drop_once r1 r a b bs new e = elim (Bool-cases (a == b)) [
  | inl same ↦
      let absent : has a bs ≡ false = ap (λ c. has c bs) (==→eq a b same) ∙ new in
      rw (same, absent) (rw same at e)
  | inr other ↦ rw (other, rw other at e) refl
]

-- `install_trans` takes one reference off the buffer of each block of the header, and none off any
-- other buffer.
pub refcnt-install_trans :
    (start tail : ℕ) (bs : List ℕ) (d : Dev) (a : ℕ)
    → AllHome start bs
    → tail + length bs ≤ log_size
    → Distinct bs
    → Counts d
    → (install_trans start tail bs d).1.refcnt a
      ≡ (if has a bs then sub32 (d.refcnt a) 1 else d.refcnt a)
unfolding install_trans
refcnt-install_trans start tail [] d a home fits distinct small = refl
refcnt-install_trans start tail (b ∷ bs) d a home fits distinct small =
    let d1 = install_one start tail b d in
    let ne : b ≢ start + tail + 1 = λ e. omega (arith, home.0) in
    let one : (c : ℕ) → d1.refcnt c ≡ (if c == b then sub32 (d.refcnt c) 1 else d.refcnt c) =
      λ c. refcnt-install_one start tail b c d small ne in
    let small1 : Counts d1 = λ c. ground (arith, one c, small c) in
    refcnt-install_trans start (tail + 1) bs d1 a home.1 (omega arith) distinct.1 small1
    ∙ drop_once _ (d.refcnt a) a b bs distinct.0 (one a)

-- A recovery that installs a transaction leaves each of its blocks' buffers with the count
-- 2 ^ 32 - 1: `install_trans` unpins buffers that nothing has pinned since the boot. So `brelse`
-- never finds the count at 0 and the buffer is never recycled.
pub recovered_pins :
    (start : ℕ) (bs : List ℕ) (disk : Disk) (a : ℕ)
    → AllHome start bs
    → length bs ≤ log_size
    → Distinct bs
    → IsHeader bs (disk start)
    → has a bs ≡ true
    → (recover_from_log start (boot disk)).1.refcnt a ≡ 2 ^ 32 - 1
unfolding recover_from_log read_head write_head
recovered_pins start bs disk a home fits distinct header h = rw header (
    refcnt-install_trans start 0 bs (boot disk) a home (omega arith) distinct (λ c. omega arith)
    ∙ rw h refl)
