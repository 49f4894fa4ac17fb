-- ===== src/Strings/Compare.antt =====
-- `memcmp` and `strncmp` return 0 exactly for what compares equal.
use my_oslab.Base.{
  ℕ, zero, suc, ◌+◌, ◌<◌, ◌≡◌, ◌≢◌, ◌↔◌, inl, inr, refl, true, false, not, ◌&&◌, pos, sub_ℕ, ◌==◌,
  Bool-cases, ==→eq, arith,
}
use my_oslab.Strings.{Bytes, memcmp, strncmp}

eq-of_sub_ℕ : (a b : ℕ) → sub_ℕ a b ≡ pos 0 → a ≡ b
eq-of_sub_ℕ a b h = ground arith

sub_ℕ_self : (a b : ℕ) → a ≡ b → sub_ℕ a b ≡ pos 0
sub_ℕ_self a b h = ground arith

equal_after :
    (m : Bytes) (v1 v2 n : ℕ) → memcmp m v1 v2 n ≡ pos 0 → (i : ℕ) → i < n → m (v1 + i) ≡ m (v2 + i)
unfolding memcmp
equal_after m v1 v2 zero h i lt = absurd (omega arith)
equal_after m v1 v2 (suc n) h i lt = elim (Bool-cases (m v1 == m v2)) [
  | inl e ↦ at i lt (equal_after m (v1 + 1) (v2 + 1) n (rw (e, memcmp) at h)) (==→eq _ _ e)
  | inr e ↦ absurd (differ e (eq-of_sub_ℕ (m v1) (m v2) (rw (e, memcmp) at h)))
]
  where
    differ : (m v1 == m v2) ≡ false → m v1 ≢ m v2
    differ e p = ground arith

    at :
        (i : ℕ)
        → i < suc n
        → ((j : ℕ) → j < n → m (v1 + 1 + j) ≡ m (v2 + 1 + j))
        → m v1 ≡ m v2
        → m (v1 + i) ≡ m (v2 + i)
    at zero lt rest e = ground arith
    at (suc j) lt rest e = ground (arith, rest j)

equal_before :
    (m : Bytes) (v1 v2 n : ℕ)
    → ((i : ℕ) → i < n → m (v1 + i) ≡ m (v2 + i))
    → memcmp m v1 v2 n ≡ pos 0
unfolding memcmp
equal_before m v1 v2 zero h = refl
equal_before m v1 v2 (suc n) h =
    let here : (m v1 == m v2) ≡ true = ground (arith, h 0) in
    rw (here, memcmp) (equal_before m (v1 + 1) (v2 + 1) n (λ i lt. ground (arith, h (suc i))))

-- `memcmp` returns 0 exactly when the two runs of `n` bytes are equal.
pub memcmp_iff :
    (m : Bytes) (v1 v2 n : ℕ)
    → (memcmp m v1 v2 n ≡ pos 0) ↔ ((i : ℕ) → i < n → m (v1 + i) ≡ m (v2 + i))
memcmp_iff m v1 v2 n = (equal_after m v1 v2 n, equal_before m v1 v2 n)

module _ (ps qs : Bytes) where
  -- The strings agree at every place among the first `n` that no NUL of the first comes before.
  abbrev pub SameString : ℕ → ℕ → ℕ → Type 0
  SameString p q n = (i : ℕ) → i < n → ((j : ℕ) → j < i → ps (p + j) ≢ 0) → ps (p + i) ≡ qs (q + i)

  same_after : (p q n : ℕ) → strncmp ps p qs q n ≡ pos 0 → SameString p q n
  unfolding strncmp
  same_after p q zero h i lt before = absurd (omega arith)
  same_after p q (suc n) h i lt before = elim (Bool-cases (not (ps p == 0) && ps p == qs q)) [
    | inl e ↦ at i lt before (same_after (p + 1) (q + 1) n (rw (e, strncmp) at h)) e
    | inr e ↦ stop i before (eq-of_sub_ℕ (ps p) (qs q) (rw (e, strncmp) at h)) e
  ]
    where
      at :
          (i : ℕ)
          → i < suc n
          → ((j : ℕ) → j < i → ps (p + j) ≢ 0)
          → SameString (p + 1) (q + 1) n
          → (not (ps p == 0) && ps p == qs q) ≡ true
          → ps (p + i) ≡ qs (q + i)
      at zero lt before rest e = ground arith
      at (suc k) lt before rest e =
          ground (arith, rest k (omega arith) (λ j l. ground (arith, before (suc j))))

      stop :
          (i : ℕ)
          → ((j : ℕ) → j < i → ps (p + j) ≢ 0)
          → ps p ≡ qs q
          → (not (ps p == 0) && ps p == qs q) ≡ false
          → ps (p + i) ≡ qs (q + i)
      stop zero before same e = ground arith
      stop (suc k) before same e = absurd (ground (arith, before 0))

  same_before : (p q n : ℕ) → SameString p q n → strncmp ps p qs q n ≡ pos 0
  unfolding strncmp
  same_before p q zero h = refl
  same_before p q (suc n) h = elim (Bool-cases (not (ps p == 0) && ps p == qs q)) [
    | inl e ↦
        rw (e, strncmp)
          (same_before (p + 1) (q + 1) n
            (λ i lt before. ground (arith, h (suc i) (omega arith) (shift e before))))
    | inr e ↦
        rw (e, strncmp)
          (sub_ℕ_self (ps p) (qs q) (ground (arith, h 0 (omega arith) (λ j l. omega arith))))
  ]
    where
      shift :
          {i : ℕ}
          → (not (ps p == 0) && ps p == qs q) ≡ true
          → ((j : ℕ) → j < i → ps (p + 1 + j) ≢ 0)
          → (j : ℕ) → j < suc i
          → ps (p + j) ≢ 0
      shift e before zero l = ground arith
      shift e before (suc j) l = ground (arith, before j)

  -- `strncmp` returns 0 exactly when the strings agree up to `n` bytes or the end of the first.
  pub strncmp_iff : (p q n : ℕ) → (strncmp ps p qs q n ≡ pos 0) ↔ SameString p q n
  strncmp_iff p q n = (same_after p q n, same_before p q n)
