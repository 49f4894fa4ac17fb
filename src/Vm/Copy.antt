-- ===== src/Vm/Copy.antt =====
-- `copyin` and `copyout` of kernel/vm.c, page by page, are copies byte by byte through the page
-- table. The memory read and the one written are two: the kernel's buffer lies outside of the
-- user's pages, and no page table in them.
use my_oslab.Base.{
  ℕ, zero, suc, ◌+◌, ◌-◌, ◌%◌, ◌^◌, ◌≤◌, ◌<◌, ◌≡◌, ◌≢◌, ◌⊎◌, inl, inr, refl, sym, ◌∙◌, true, false,
  ltb, ◌==◌, if◌then◌else◌, ne→==, Bool-cases, arith, ℤ, pos, negsuc,
}
use my_oslab.Kalloc.{page_size, Kmem}
use my_oslab.Strings.{Bytes, put}
use my_oslab.Vm.{page_round_down, walkaddr}

-- A copy of one byte between a physical address and an address of the kernel's.
abbrev pub Step : Type 0
Step = ℕ → ℕ → Bytes → Bytes

-- `memmove` of `n` bytes, from the physical address `pa` or to it.
unfoldable pub move_bytes : Step → ℕ → ℕ → ℕ → Bytes → Bytes
move_bytes step zero pa ka m = m
move_bytes step (suc n) pa ka m = move_bytes step n (pa + 1) (ka + 1) (step pa ka m)

-- The loop that `copyout` and `copyin` share, on fuel: `tr` is the physical address of a user
-- page, `va` the user's address and `ka` the kernel's.
unfoldable pub page_loop : Step → (ℕ → ℕ) → ℕ → ℕ → ℕ → ℕ → Bytes → ℤ × Bytes
unfolding move_bytes
page_loop step tr zero va ka len m = (pos 0, m)
page_loop step tr (suc fuel) va ka len m =
    let va0 = page_round_down va in
    let pa0 = tr va0 in
    let room = page_size - (va - va0) in
    let n = if ltb len room then len else room in
    elim (len == 0) [
      | true ↦ (pos 0, m)
      | false ↦ elim (pa0 == 0) [
        | true ↦ (negsuc 0, m)
        | false ↦
            page_loop step tr fuel ((va0 + page_size) % 2 ^ 64) (ka + n) (len - n)
              (move_bytes step n (pa0 + (va - va0)) ka m)
      ]
    ]

-- Every turn copies a byte at least, so that `len` turns are enough.
unfoldable pub copyout : ℕ → Kmem → ℕ → Bytes → ℕ → ℕ → Bytes → ℤ × Bytes
unfolding page_loop
copyout table k dstva kernel src len m =
    page_loop (λ pa ka m'. put m' pa (kernel ka)) (λ va. walkaddr table va k) len dstva src len m

unfoldable pub copyin : ℕ → Kmem → Bytes → ℕ → ℕ → ℕ → Bytes → ℤ × Bytes
unfolding page_loop
copyin table k user dst srcva len m =
    page_loop (λ pa ka m'. put m' ka (user pa)) (λ va. walkaddr table va k) len srcva dst len m

module _ (step : Step) (tr : ℕ → ℕ) where
  -- The copy byte by byte, each translated by its own page, until one has none.
  abbrev pub each_byte : ℕ → ℕ → ℕ → Bytes → ℤ × Bytes
  each_byte zero va ka m = (pos 0, m)
  each_byte (suc len) va ka m =
      let pa0 = tr (page_round_down va) in
      let rest = each_byte len ((va + 1) % 2 ^ 64) (ka + 1) (step (pa0 + va % page_size) ka m) in
      if pa0 == 0 then (negsuc 0, m) else rest

  each_byte_page :
      (n o rest va0 ka : ℕ) (m : Bytes)
      → va0 % page_size ≡ 0
      → va0 < 2 ^ 64
      → o + n ≤ page_size
      → tr va0 ≢ 0
      → each_byte (n + rest) ((va0 + o) % 2 ^ 64) ka m
        ≡ each_byte rest ((va0 + (o + n)) % 2 ^ 64) (ka + n) (move_bytes step n (tr va0 + o) ka m)
  unfolding move_bytes
  each_byte_page zero o rest va0 ka m al small h t =
      let all : 0 + rest ≡ rest = omega arith in
      let same_va : o + 0 ≡ o = omega arith in
      let same_ka : ka + 0 ≡ ka = omega arith in rw (all, same_va, same_ka) refl
  each_byte_page (suc n) o rest va0 ka m al small h t =
      let more : suc n + rest ≡ suc (n + rest) = omega arith in
      let page : page_round_down ((va0 + o) % 2 ^ 64) ≡ va0 = omega arith in
      let place : (va0 + o) % 2 ^ 64 % page_size ≡ o = omega arith in
      let next : ((va0 + o) % 2 ^ 64 + 1) % 2 ^ 64 ≡ (va0 + (o + 1)) % 2 ^ 64 = omega arith in
      let last : o + suc n ≡ o + 1 + n = omega arith in
      let last_ka : ka + suc n ≡ ka + 1 + n = omega arith in
      let pa : tr va0 + o + 1 ≡ tr va0 + (o + 1) = omega arith in
      rw (more, page, place, ne→== (tr va0) 0 t, next, last, last_ka, pa)
        (each_byte_page n (o + 1) rest va0 (ka + 1) (step (tr va0 + o) ka m) al small (omega arith)
          t)

  page_loop_lem :
      (fuel va ka len : ℕ) (m : Bytes)
      → va < 2 ^ 64
      → len ≤ fuel
      → page_loop step tr fuel va ka len m ≡ each_byte len va ka m
  unfolding page_loop
  page_loop_lem zero va ka len m small h = let none : len ≡ 0 = omega arith in rw none refl
  page_loop_lem (suc fuel) va ka zero m small h = refl
  page_loop_lem (suc fuel) va ka (suc l) m small h =
      elim (Bool-cases (tr (page_round_down va) == 0)) [
        | inl e ↦ rw (page_loop, nonzero, e) refl
        | inr e ↦
            turns e
            ∙ turn n (ground arith) (ground arith) (ground arith) (ground arith)
                (λ va' small'. page_loop_lem fuel va' (ka + n) (suc l - n) _ small' (ground arith))
      ]
    where
      va0 : ℕ
      va0 = page_round_down va

      n : ℕ
      n = if ltb (suc l) (page_size - (va - va0)) then suc l else page_size - (va - va0)

      nonzero : (suc l == 0) ≡ false
      nonzero = ground arith

      turns :
          (tr va0 == 0) ≡ false
          → page_loop step tr (suc fuel) va ka (suc l) m
            ≡ page_loop step tr fuel
                ((va0 + page_size) % 2 ^ 64)
                (ka + n)
                (suc l - n)
                (move_bytes step n (tr va0 + (va - va0)) ka m)
      turns e = rw (page_loop, nonzero, e) refl

      turn :
          (n : ℕ)
          → n ≤ suc l
          → va - va0 + n ≤ page_size
          → (suc l - n ≡ 0) ⊎ (va - va0 + n ≡ page_size)
          → tr va0 ≢ 0
          → ((va' : ℕ)
              → va' < 2 ^ 64
              → page_loop step tr fuel va'
                  (ka + n)
                  (suc l - n)
                  (move_bytes step n (tr va0 + (va - va0)) ka m)
                ≡ each_byte (suc l - n) va' (ka + n) (move_bytes step n (tr va0 + (va - va0)) ka m))
          → page_loop step tr fuel
              ((va0 + page_size) % 2 ^ 64)
              (ka + n)
              (suc l - n)
              (move_bytes step n (tr va0 + (va - va0)) ka m)
            ≡ each_byte (suc l) va ka m
      turn n le fits end t rest =
          let whole : n + (suc l - n) ≡ suc l = omega arith in
          let here : (va0 + (va - va0)) % 2 ^ 64 ≡ va = omega arith in
          let chunk =
            each_byte_page n (va - va0) (suc l - n) va0 ka m (omega arith) (omega arith) fits t in
          rest ((va0 + page_size) % 2 ^ 64) (omega arith)
          ∙ arrives end
          ∙ sym (rw (whole, here) at chunk)
        where
          arrives :
              (suc l - n ≡ 0) ⊎ (va - va0 + n ≡ page_size)
              → each_byte
                  (suc l - n)
                  ((va0 + page_size) % 2 ^ 64)
                  (ka + n)
                  (move_bytes step n (tr va0 + (va - va0)) ka m)
                ≡ each_byte
                    (suc l - n)
                    ((va0 + (va - va0 + n)) % 2 ^ 64)
                    (ka + n)
                    (move_bytes step n (tr va0 + (va - va0)) ka m)
          arrives (inl z) = rw z refl
          arrives (inr e) = rw e refl

-- `copyout` is the copy byte by byte, each byte to the page that its own address is mapped to: it
-- returns -1 at the first byte whose page is not the user's, with the bytes before it copied.
pub copyout_lem :
    (table : ℕ) (k : Kmem) (dstva : ℕ) (kernel : Bytes) (src len : ℕ) (m : Bytes)
    → dstva < 2 ^ 64
    → copyout table k dstva kernel src len m
      ≡ each_byte (λ pa ka m'. put m' pa (kernel ka)) (λ va. walkaddr table va k) len dstva src m
unfolding copyout
copyout_lem table k dstva kernel src len m h =
    page_loop_lem (λ pa ka m'. put m' pa (kernel ka)) (λ va. walkaddr table va k) len dstva src len
      m h (omega arith)

-- `copyin` is the copy byte by byte to the kernel's buffer, each byte from the page that its own
-- address is mapped to; it returns -1 at the first byte whose page is not the user's, with the
-- bytes before it copied.
pub copyin_lem :
    (table : ℕ) (k : Kmem) (user : Bytes) (dst srcva len : ℕ) (m : Bytes)
    → srcva < 2 ^ 64
    → copyin table k user dst srcva len m
      ≡ each_byte (λ pa ka m'. put m' ka (user pa)) (λ va. walkaddr table va k) len srcva dst m
unfolding copyin
copyin_lem table k user dst srcva len m h =
    page_loop_lem (λ pa ka m'. put m' ka (user pa)) (λ va. walkaddr table va k) len srcva dst len m
      h (omega arith)
