-- ===== src/Strings/Copy.antt =====
-- The copies of strings: where `strncpy` and `safestrcpy` write, and that a NUL ends the copy.
use my_oslab.Base.{
  ℕ, zero, suc, ◌+◌, ◌-◌, ◌≤◌, ◌<◌, ◌≡◌, ◌≢◌, ◌⊎◌, inl, inr, refl, ◌∙◌, true, false, ◌==◌,
  if◌then◌else◌, Bool-cases, arith,
}
use my_oslab.Strings.Move.{within}
use my_oslab.Strings.{Bytes, put, copy_string, safestrcpy, zero_fill, strncpy}

-- A string copied to `s` in at most `n` bytes: `k` is where its NUL went.
pub record IsCopied (s t n : ℕ) (src before after : Bytes) : Type 0 where
  pub k : ℕ
  pub short : k < n
  pub ended : after (s + k) ≡ 0
  pub copied : (i : ℕ) → i < k → (after (s + i) ≡ src (t + i)) × (src (t + i) ≢ 0)
  pub full : (k + 1 ≡ n) ⊎ (src (t + k) ≡ 0)
  pub above : (a : ℕ) → s + n ≤ a → after a ≡ before a
  pub below : (a : ℕ) → a < s → after a ≡ before a

copy_string-IsCopied :
    (n : ℕ) (dst : Bytes) (s : ℕ) (src : Bytes) (t : ℕ)
    → IsCopied s t (suc n) src dst (copy_string n dst s src t)
unfolding copy_string
copy_string-IsCopied zero dst s src t = record {
  k = 0;
  short = omega arith;
  ended = ground arith;
  copied = λ i l. absurd (omega arith);
  full = inl refl;
  above = λ a l. ground arith;
  below = λ a l. ground arith;
}
copy_string-IsCopied (suc n) dst s src t = elim (Bool-cases (src t == 0)) [
  | inl e ↦ rw (e, copy_string) (stops e)
  | inr e ↦
      rw (e, copy_string)
        (goes_on e (copy_string-IsCopied n (put dst s (src t)) (s + 1) src (t + 1)))
]
  where
    stops : (src t == 0) ≡ true → IsCopied s t (suc (suc n)) src dst (put (put dst s 0) (s + 1) 0)
    stops e = record {
      k = 0;
      short = omega arith;
      ended = ground arith;
      copied = λ i l. absurd (omega arith);
      full = inr (ground arith);
      above = λ a l. ground arith;
      below = λ a l. ground arith;
    }

    goes_on :
        {m : Bytes}
        → (src t == 0) ≡ false
        → IsCopied (s + 1) (t + 1) (suc n) src (put dst s (src t)) m
        → IsCopied s t (suc (suc n)) src dst m
    goes_on {m} e r = record {
      k = r.k + 1;
      short = let l = r.short in omega arith;
      ended = ground (arith, r.ended);
      copied = each;
      full = elim r.full [ inl f ↦ inl (omega arith) | inr f ↦ inr (ground (arith, f)) ];
      above = λ a l. ground (arith, r.above a (omega arith));
      below = λ a l. ground (arith, r.below a (omega arith));
    }
      where
        each : (i : ℕ) → i < r.k + 1 → (m (s + i) ≡ src (t + i)) × (src (t + i) ≢ 0)
        each zero l = (ground (arith, r.below s (omega arith)), ground arith)
        each (suc i) l =
            let (c, o) = r.copied i (omega arith) in (ground (arith, c), ground (arith, o))

-- `safestrcpy` with room writes only the `n` bytes at `s`, copies the bytes before some place
-- `k` among them, none a NUL, and puts a NUL there; `k` is the last place or the end of `t`.
pub safestrcpy-IsCopied :
    (dst : Bytes) (s : ℕ) (src : Bytes) (t n : ℕ)
    → 0 < n
    → IsCopied s t n src dst (safestrcpy dst s src t n)
unfolding safestrcpy
safestrcpy-IsCopied dst s src t zero h = absurd (omega arith)
safestrcpy-IsCopied dst s src t (suc n) h = copy_string-IsCopied n dst s src t

-- The bytes of a string, and zeros from its NUL on.
abbrev pub padded : Bytes → ℕ → ℕ → ℕ
padded src t zero = src t
padded src t (suc i) = let rest = padded src (t + 1) i in if src t == 0 then 0 else rest

zero_fill_lem : (s n a : ℕ) (m : Bytes) → zero_fill s n m a ≡ (if within s n a then 0 else m a)
unfolding zero_fill
zero_fill_lem s zero a m = ground arith
zero_fill_lem s (suc n) a m = zero_fill_lem (s + 1) n a (put m s 0) ∙ ground arith

padded-ended : (src : Bytes) (t i : ℕ) → src t ≡ 0 → padded src t i ≡ 0
padded-ended src t zero e = e
padded-ended src t (suc i) e = ground arith

-- `strncpy` fills exactly the `n` bytes at `s`: with the string at `t` and, behind it, zeros.
pub strncpy_lem :
    (dst : Bytes) (s : ℕ) (src : Bytes) (t n a : ℕ)
    → strncpy dst s src t n a ≡ (if within s n a then padded src t (a - s) else dst a)
unfolding strncpy
strncpy_lem dst s src t zero a = ground arith
strncpy_lem dst s src t (suc n) a = elim (Bool-cases (src t == 0)) [
  | inl e ↦
      rw (e, strncpy)
        (zero_fill_lem (s + 1) n a (put dst s 0)
          ∙ ground (arith, padded-ended src t (a - s) (ground arith)))
  | inr e ↦
      rw (e, strncpy)
        (strncpy_lem (put dst s (src t)) (s + 1) src (t + 1) n a ∙ shift e (a - s) refl)
]
  where
    shift :
        (src t == 0) ≡ false
        → (i : ℕ) → a - s ≡ i
        → (if within (s + 1) n a then padded src (t + 1) (a - (s + 1)) else put dst s (src t) a)
          ≡ (if within s (suc n) a then padded src t (a - s) else dst a)
    shift e zero h = rw h (ground arith)
    shift e (suc i) h = let next : a - (s + 1) ≡ i = omega arith in rw (h, next) (ground arith)
