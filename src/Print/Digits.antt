-- ===== src/Print/Digits.antt =====
-- The buffer of 16 characters in `printint` is long enough.
use my_oslab.Base.{
  ℕ, zero, suc, ◌+◌, ◌-◌, ◌*◌, ◌/◌, ◌%◌, ◌^◌, ◌≤◌, ◌<◌, ◌≡◌, ◌⊎◌, inl, inr, Bool, true, [], ◌∷◌,
  length, length-append, ◌==◌, Bool-cases, cases_if, arith, ℤ, pos, negsuc,
}
use my_oslab.Print.{Text, digit_loop, int_buffer}

module _ (a : ℕ) where
  abbrev tens : ℕ → ℕ
  tens zero = 1
  tens (suc n) = 10 * tens n

  abbrev sixteens : ℕ → ℕ
  sixteens zero = 1
  sixteens (suc n) = 16 * sixteens n

  -- A number below a power of its base has no more digits.
  length-decimal : (fuel n x : ℕ) → x < tens (suc n) → length (digit_loop a fuel 10 x) ≤ suc n
  unfolding digit_loop
  length-decimal zero n x lt = omega arith
  length-decimal (suc fuel) zero x lt =
      let done : (x / 10 == 0) ≡ true = ground (arith, lt) in rw done (omega arith)
  length-decimal (suc fuel) (suc n) x lt = elim (Bool-cases (x / 10 == 0)) [
    | inl e ↦ rw e (omega arith)
    | inr e ↦ rw e (omega (arith, length-decimal fuel n (x / 10) (omega (arith, lt))))
  ]

  length-hexadecimal :
      (fuel n x : ℕ) → x < sixteens (suc n) → length (digit_loop a fuel 16 x) ≤ suc n
  unfolding digit_loop
  length-hexadecimal zero n x lt = omega arith
  length-hexadecimal (suc fuel) zero x lt =
      let done : (x / 16 == 0) ≡ true = ground (arith, lt) in rw done (omega arith)
  length-hexadecimal (suc fuel) (suc n) x lt = elim (Bool-cases (x / 16 == 0)) [
    | inl e ↦ rw e (omega arith)
    | inr e ↦ rw e (omega (arith, length-hexadecimal fuel n (x / 16) (omega (arith, lt))))
  ]

  length-digits :
      (base x fuel : ℕ)
      → (base ≡ 10) ⊎ (base ≡ 16)
      → x < 2 ^ 32
      → length (digit_loop a fuel base x) ≤ 10
  length-digits base x fuel (inl e) lt = rw e (length-decimal fuel 9 x (omega (arith, lt)))
  length-digits base x fuel (inr e) lt =
      rw e (omega (arith, length-hexadecimal fuel 7 x (omega (arith, lt))))

  -- `printint` fills 11 of the 16 characters of its buffer at most, in base 10 or 16.
  pub length-int_buffer :
      (xx : ℤ) (base : ℕ) (sign : Bool)
      → (base ≡ 10) ⊎ (base ≡ 16)
      → length (int_buffer a xx base sign) ≤ 11
  length-int_buffer (pos n) base sign h =
      omega (arith, length-digits base (n % 2 ^ 32) (n % 2 ^ 32 + 1) h (omega arith))
  length-int_buffer (negsuc n) base sign h =
      cases_if (λ (buf : Text). length buf ≤ 11) sign
        (λ t.
          let x = (n + 1) % 2 ^ 32 in
          let digits = digit_loop a (x + 1) base x in
          omega
            (arith, length-append digits (b'-' ∷ []), length-digits base x (x + 1) h (omega arith)))
        (λ t.
          let x = (2 ^ 32 - 1 - n % 2 ^ 32) % 2 ^ 32 in
          omega (arith, length-digits base x (x + 1) h (omega arith)))
