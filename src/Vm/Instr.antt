-- ===== src/Vm/Instr.antt =====
-- `copyinstr` of kernel/vm.c is a copy character by character through the page table.
use my_oslab.Base.{
  ℕ, zero, suc, ◌+◌, ◌-◌, ◌%◌, ◌^◌, ◌≤◌, ◌<◌, ◌≡◌, ◌≢◌, ◌⊎◌, inl, inr, refl, sym, ap, ◌∙◌, Bool,
  true, false, ltb, ◌==◌, if◌then◌else◌, ne→==, Bool-cases, fun_ext, arith, ℤ, pos, negsuc,
}
use my_oslab.Kalloc.{page_size, Kmem}
use my_oslab.Strings.{Bytes, put}
use my_oslab.Vm.{page_round_down, walkaddr}

module _ (user : Bytes) where
  -- The inner loop for `n` bytes from the physical address `p` on: whether it came to a NUL.
  unfoldable pub copy_page : ℕ → ℕ → ℕ → Bytes → Bool × Bytes
  copy_page zero p ka m = (false, m)
  copy_page (suc n) p ka m = elim (user p == 0) [
    | true ↦ (true, put m ka 0)
    | false ↦ copy_page n (p + 1) (ka + 1) (put m ka (user p))
  ]

  -- The test of `got_null`.
  abbrev pub str_next : (Bytes → ℤ × Bytes) → Bool × Bytes → ℤ × Bytes
  str_next go (true, m) = (pos 0, m)
  str_next go (false, m) = go m

  -- The outer loop on fuel; each turn copies a byte at least.
  unfoldable pub str_loop : (ℕ → ℕ) → ℕ → ℕ → ℕ → ℕ → Bytes → ℤ × Bytes
  unfolding copy_page
  str_loop tr zero va ka max m = (negsuc 0, m)
  str_loop tr (suc fuel) va ka max m =
      let va0 = page_round_down va in
      let pa0 = tr va0 in
      let room = page_size - (va - va0) in
      let n = if ltb max room then max else room in
      elim (max == 0) [
        | true ↦ (negsuc 0, m)
        | false ↦ elim (pa0 == 0) [
          | true ↦ (negsuc 0, m)
          | false ↦
              str_next (λ m'. str_loop tr fuel ((va0 + page_size) % 2 ^ 64) (ka + n) (max - n) m')
                (copy_page n (pa0 + (va - va0)) ka m)
        ]
      ]

  unfoldable pub copyinstr : ℕ → Kmem → ℕ → ℕ → ℕ → Bytes → ℤ × Bytes
  unfolding str_loop
  copyinstr table k dst srcva max m = str_loop (λ va. walkaddr table va k) max srcva dst max m

  module _ (tr : ℕ → ℕ) where
    -- The copy character by character, each from the page of its own address, up to a NUL.
    abbrev pub each_char : ℕ → ℕ → ℕ → Bytes → ℤ × Bytes
    each_char zero va ka m = (negsuc 0, m)
    each_char (suc max) va ka m =
        let pa0 = tr (page_round_down va) in
        let c = user (pa0 + va % page_size) in
        let rest = each_char max ((va + 1) % 2 ^ 64) (ka + 1) (put m ka c) in
        if pa0 == 0 then (negsuc 0, m) else if c == 0 then (pos 0, put m ka 0) else rest

    each_char_page :
        (n o rest va0 ka : ℕ) (m : Bytes)
        → va0 % page_size ≡ 0
        → va0 < 2 ^ 64
        → o + n ≤ page_size
        → tr va0 ≢ 0
        → each_char (n + rest) ((va0 + o) % 2 ^ 64) ka m
          ≡ str_next
              (λ m'. each_char rest ((va0 + (o + n)) % 2 ^ 64) (ka + n) m')
              (copy_page n (tr va0 + o) ka m)
    unfolding copy_page
    each_char_page zero o rest va0 ka m al small h t =
        let all : 0 + rest ≡ rest = omega arith in
        let same_va : o + 0 ≡ o = omega arith in
        let same_ka : ka + 0 ≡ ka = omega arith in rw (all, same_va, same_ka) refl
    each_char_page (suc n) o rest va0 ka m al small h t =
        let more : suc n + rest ≡ suc (n + rest) = omega arith in
        let page : page_round_down ((va0 + o) % 2 ^ 64) ≡ va0 = omega arith in
        let place : (va0 + o) % 2 ^ 64 % page_size ≡ o = omega arith in
        let next : ((va0 + o) % 2 ^ 64 + 1) % 2 ^ 64 ≡ (va0 + (o + 1)) % 2 ^ 64 = omega arith in
        let last : o + suc n ≡ o + 1 + n = omega arith in
        let last_ka : ka + suc n ≡ ka + 1 + n = omega arith in
        let pa : tr va0 + o + 1 ≡ tr va0 + (o + 1) = omega arith in
        rw (more, page, place, ne→== (tr va0) 0 t, next, last, last_ka)
          (elim (Bool-cases (user (tr va0 + o) == 0)) [
            | inl e ↦ rw (copy_page, e) refl
            | inr e ↦
                rw (copy_page, e, pa)
                  (each_char_page n (o + 1) rest va0 (ka + 1) (put m ka (user (tr va0 + o))) al
                    small (omega arith) t)
          ])

    str_loop_lem :
        (fuel va ka max : ℕ) (m : Bytes)
        → va < 2 ^ 64
        → max ≤ fuel
        → str_loop tr fuel va ka max m ≡ each_char max va ka m
    unfolding str_loop
    str_loop_lem zero va ka max m small h = let none : max ≡ 0 = omega arith in rw none refl
    str_loop_lem (suc fuel) va ka zero m small h = refl
    str_loop_lem (suc fuel) va ka (suc l) m small h =
        elim (Bool-cases (tr (page_round_down va) == 0)) [
          | inl e ↦ rw (str_loop, nonzero, e) refl
          | inr e ↦
              turns e
              ∙ turn n (ground arith) (ground arith) (ground arith) (ground arith) (λ va' small' m'.
                str_loop_lem fuel va' (ka + n) (suc l - n) m' small' (ground arith))
        ]
      where
        va0 : ℕ
        va0 = page_round_down va

        n : ℕ
        n = if ltb (suc l) (page_size - (va - va0)) then suc l else page_size - (va - va0)

        nonzero : (suc l == 0) ≡ false
        nonzero = ground arith

        turns :
            (tr va0 == 0) ≡ false
            → str_loop tr (suc fuel) va ka (suc l) m
              ≡ str_next
                  (λ m'. str_loop tr fuel ((va0 + page_size) % 2 ^ 64) (ka + n) (suc l - n) m')
                  (copy_page n (tr va0 + (va - va0)) ka m)
        turns e = rw (str_loop, nonzero, e) refl

        turn :
            (n : ℕ)
            → n ≤ suc l
            → va - va0 + n ≤ page_size
            → (suc l - n ≡ 0) ⊎ (va - va0 + n ≡ page_size)
            → tr va0 ≢ 0
            → ((va' : ℕ)
                → va' < 2 ^ 64
                → (m' : Bytes)
                → str_loop tr fuel va' (ka + n) (suc l - n) m'
                  ≡ each_char (suc l - n) va' (ka + n) m')
            → str_next
                (λ m'. str_loop tr fuel ((va0 + page_size) % 2 ^ 64) (ka + n) (suc l - n) m')
                (copy_page n (tr va0 + (va - va0)) ka m)
              ≡ each_char (suc l) va ka m
        turn n le fits end t rest =
            let whole : n + (suc l - n) ≡ suc l = omega arith in
            let here : (va0 + (va - va0)) % 2 ^ 64 ≡ va = omega arith in
            let chunk =
              each_char_page n (va - va0) (suc l - n) va0 ka m (omega arith) (omega arith) fits t in
            ap (λ (go : Bytes → ℤ × Bytes). str_next go (copy_page n (tr va0 + (va - va0)) ka m))
              (fun_ext (λ m'. rest ((va0 + page_size) % 2 ^ 64) (omega arith) m' ∙ arrives end m'))
            ∙ sym (rw (whole, here) at chunk)
          where
            arrives :
                (suc l - n ≡ 0) ⊎ (va - va0 + n ≡ page_size)
                → (m' : Bytes)
                → each_char (suc l - n) ((va0 + page_size) % 2 ^ 64) (ka + n) m'
                  ≡ each_char (suc l - n) ((va0 + (va - va0 + n)) % 2 ^ 64) (ka + n) m'
            arrives (inl z) m' = rw z refl
            arrives (inr e) m' = rw e refl

-- `copyinstr` is the copy of a string character by character, each from the page that its own
-- address is mapped to. It returns 0 once the NUL is copied, and -1 at the first character whose
-- page is not the user's or after `max` characters without a NUL, with those before it copied.
pub copyinstr_lem :
    (user : Bytes) (table : ℕ) (k : Kmem) (dst srcva max : ℕ) (m : Bytes)
    → srcva < 2 ^ 64
    → copyinstr user table k dst srcva max m
      ≡ each_char user (λ va. walkaddr table va k) max srcva dst m
unfolding copyinstr
copyinstr_lem user table k dst srcva max m h =
    str_loop_lem user (λ va. walkaddr table va k) max srcva dst max m h (omega arith)
