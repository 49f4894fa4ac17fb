-- ===== src/Fs/Bits.antt =====
-- Setting and clearing one bit of a number.
use my_oslab.Base.{ℕ, zero, suc, ◌+◌, ◌*◌, ◌/◌, ◌%◌, ◌≡◌, ◌≢◌, refl, ap, true, false, arith}
use my_oslab.Fs.{test_bit, set_bit, clear_bit}

pub test_bit-set_bit_self : (k x : ℕ) → test_bit k (set_bit k x) ≡ true
unfolding test_bit set_bit
test_bit-set_bit_self zero x = ground arith
test_bit-set_bit_self (suc k) x =
    let half : (x % 2 + 2 * set_bit k (x / 2)) / 2 ≡ set_bit k (x / 2) = omega arith in
    rw half (test_bit-set_bit_self k (x / 2))

pub test_bit-set_bit_ne : (j k x : ℕ) → j ≢ k → test_bit j (set_bit k x) ≡ test_bit j x
unfolding test_bit set_bit
test_bit-set_bit_ne zero zero x h = absurd (h refl)
test_bit-set_bit_ne zero (suc k) x h = ground arith
test_bit-set_bit_ne (suc j) zero x h =
    let half : (x / 2 * 2 + 1) / 2 ≡ x / 2 = omega arith in rw half refl
test_bit-set_bit_ne (suc j) (suc k) x h =
    let half : (x % 2 + 2 * set_bit k (x / 2)) / 2 ≡ set_bit k (x / 2) = omega arith in
    rw half (test_bit-set_bit_ne j k (x / 2) (λ e. h (ap suc e)))

pub clear_bit-set_bit : (k x : ℕ) → test_bit k x ≡ false → clear_bit k (set_bit k x) ≡ x
unfolding test_bit set_bit clear_bit
clear_bit-set_bit zero x h = ground arith
clear_bit-set_bit (suc k) x h =
    let half : (x % 2 + 2 * set_bit k (x / 2)) / 2 ≡ set_bit k (x / 2) = omega arith in
    let rest = clear_bit-set_bit k (x / 2) h in rw (half, rest) (omega arith)
