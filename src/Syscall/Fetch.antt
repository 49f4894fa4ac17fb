-- ===== src/Syscall/Fetch.antt =====
-- Strings and words that system calls fetch from the process.
use my_oslab.Base.{
  ℕ, zero, suc, ◌+◌, ◌%◌, ◌^◌, ◌≤◌, ◌<◌, ◌≡◌, inl, inr, refl, ap, true, some, List, length, ◌==◌,
  Bool-cases, eq→==, arith, ℤ, pos, negsuc,
}
use my_oslab.Strings.{Bytes, put}
use my_oslab.Vm.{page_round_down, walkaddr}
use my_oslab.Vm.Instr.{copyinstr, each_char, copyinstr_lem}
use my_oslab.Syscall.{Caller, chars, copied_chars, fetchstr}

-- A string that ends within `max` bytes.
abbrev Ends : ℕ → ℕ → ℤ × Bytes → Type 0
Ends max ka (pos r, m) = (j : ℕ) × (j < max) × (m (ka + j) ≡ 0)
Ends max ka (negsuc r, m) = Unit

later-Ends : (max ka : ℕ) (r : ℤ × Bytes) → Ends max (ka + 1) r → Ends (suc max) ka r
later-Ends max ka (pos r, m) (j, lt, z) =
    let same : ka + 1 + j ≡ ka + suc j = omega arith in (suc j, omega arith, rw same at z)
later-Ends max ka (negsuc r, m) h = tt

each_char-Ends :
    (user : Bytes) (tr : ℕ → ℕ) (max va ka : ℕ) (m : Bytes)
    → Ends max ka (each_char user tr max va ka m)
each_char-Ends user tr zero va ka m = tt
each_char-Ends user tr (suc max) va ka m = elim (Bool-cases (tr (page_round_down va) == 0)) [
  | inl e ↦ rw e tt
  | inr e ↦
      let c = user (tr (page_round_down va) + va % 4096) in
      rw e (elim (Bool-cases (c == 0)) [
        | inl z ↦
            let here : (ka + 0 == ka) ≡ true = ground arith in rw z (0, omega arith, rw here refl)
        | inr z ↦ rw z (
            later-Ends max ka (each_char user tr max ((va + 1) % 2 ^ 64) (ka + 1) (put m ka c))
              (each_char-Ends user tr max ((va + 1) % 2 ^ 64) (ka + 1) (put m ka c)))
      ])
]

length-chars : (max j i : ℕ) (b : Bytes) → j < max → b (i + j) ≡ 0 → length (chars max b i) ≤ j
length-chars zero j i b lt z = absurd (omega (arith, lt))
length-chars (suc max) zero i b lt z =
    let place : i + 0 ≡ i = omega arith in
    let first : b i ≡ 0 = rw place at z in
    let ends : (b i == 0) ≡ true = eq→== (b i) 0 first in rw ends (omega arith)
length-chars (suc max) (suc j) i b lt z = elim (Bool-cases (b i == 0)) [
  | inl e ↦ rw e (omega arith)
  | inr e ↦
      let same : i + suc j ≡ i + 1 + j = omega arith in
      rw e (omega (arith, length-chars max j (i + 1) b (omega (arith, lt)) (rw same at z)))
]

-- A string that `fetchstr` fetches is shorter than the buffer, so that its NUL is in the buffer.
pub length-fetchstr :
    (p : Caller) (addr max : ℕ) (s : List ℕ)
    → addr < 2 ^ 64
    → fetchstr p addr max ≡ some s
    → length s < max
unfolding fetchstr
length-fetchstr p addr max s lt e =
    at (copyinstr p.user p.pagetable p.kmem 0 addr max (λ i. 0))
      (rw (copyinstr_lem p.user p.pagetable p.kmem 0 addr max (λ i. 0) lt)
        (each_char-Ends p.user (λ va. walkaddr p.pagetable va p.kmem) max addr 0 (λ i. 0)))
      e
  where
    at : (r : ℤ × Bytes) → Ends max 0 r → copied_chars max r ≡ some s → length s < max
    at (pos r, m) (j, lt, z) e' =
        let same : chars max m 0 ≡ s = cc e' in
        let place : 0 + j ≡ j = omega arith in
        omega (arith, ap length same, length-chars max j 0 m lt z, lt)
    at (negsuc r, m) h e' = absurd (cc e')
