-- ===== src/Vm/Through.antt =====
-- `copyin` and `copyout` of a range that is mapped whole: the user's memory seen through the table.
use my_oslab.Base.{
  ℕ, zero, suc, ◌+◌, ◌%◌, ◌^◌, ◌≤◌, ◌<◌, ◌≡◌, ◌≢◌, refl, ◌∙◌, inl, inr, ◌==◌, ==→eq, ==→ne, ==_self,
  ne→==, Bool-cases, arith, pos,
}
use my_oslab.Kalloc.{page_size, Kmem}
use my_oslab.Strings.{Bytes, put}
use my_oslab.Vm.{page_round_down, walkaddr}
use my_oslab.Vm.Copy.{move_bytes, each_byte, copyin, copyout, copyin_lem, copyout_lem}

module _ (table : ℕ) (k : Kmem) where
  -- The physical address of a user's address.
  abbrev pub phys : ℕ → ℕ
  phys a = walkaddr table (page_round_down a) k + a % page_size

  -- Every page of a range of `n` bytes is the user's, and the range does not wrap.
  pub record IsUser (a n : ℕ) : Type 0 where
    pub ends : a + n < 2 ^ 64
    pub mapped : (i : ℕ) → a ≤ i → i < a + n → walkaddr table (page_round_down i) k ≢ 0

  -- The user's memory by the user's addresses.
  abbrev pub seen : Bytes → Bytes
  seen memory a = memory (phys a)

  pub IsUser-part : (a n b m : ℕ) → a ≤ b → b + m ≤ a + n → IsUser a n → IsUser b m
  IsUser-part a n b m le le' u = record {
    ends = omega (arith, u.ends);
    mapped = λ i l l'. u.mapped i (omega (arith, le, l)) (omega (arith, le', l'));
  }

  each_byte-seen :
      (memory : Bytes) (len va ka : ℕ) (m : Bytes)
      → IsUser va len
      → each_byte (λ pa q m'. put m' q (memory pa)) (λ a. walkaddr table a k) len va ka m
        ≡ (pos 0, move_bytes (λ pa q m'. put m' q (seen memory pa)) len va ka m)
  unfolding move_bytes
  each_byte-seen memory zero va ka m u = refl
  each_byte-seen memory (suc len) va ka m u =
      let there : walkaddr table (page_round_down va) k ≢ 0 =
        u.mapped va (omega arith) (omega arith) in
      let next : (va + 1) % 2 ^ 64 ≡ va + 1 = omega (arith, u.ends) in
      rw (ne→== (walkaddr table (page_round_down va) k) 0 there, next)
        (each_byte-seen memory len (va + 1) (ka + 1) (put m ka (memory (phys va)))
          (IsUser-part va (suc len) (va + 1) len (omega arith) (omega arith) u))

  pub copyin-seen :
      (memory : Bytes) (dst src len : ℕ) (m : Bytes)
      → IsUser src len
      → copyin table k memory dst src len m
        ≡ (pos 0, move_bytes (λ pa q m'. put m' q (seen memory pa)) len src dst m)
  copyin-seen memory dst src len m u =
      copyin_lem table k memory dst src len m (omega (arith, u.ends))
      ∙ each_byte-seen memory len src dst m u

  -- Different addresses of the range are at different places.
  abbrev pub IsApart : ℕ → ℕ → Type 0
  IsApart a n = (i j : ℕ) → a ≤ i → i < a + n → a ≤ j → j < a + n → phys i ≡ phys j → i ≡ j

  -- The memory `m` has in the range of `n` bytes at `a` what the buffer `v` has there.
  abbrev pub Shows : ℕ → ℕ → Bytes → Bytes → Type 0
  Shows a n m v = (i : ℕ) → a ≤ i → i < a + n → m (phys i) ≡ v i

  -- Two memories are the same outside of the range.
  abbrev pub SameBut : ℕ → ℕ → Bytes → Bytes → Type 0
  SameBut a n m m' = (p : ℕ) → ((i : ℕ) → a ≤ i → i < a + n → p ≢ phys i) → m' p ≡ m p

  module _ (a n : ℕ) (user : IsUser a n) (apart : IsApart a n) (kernel : Bytes) where
    each_byte-Shows :
        (len va ka : ℕ) (m v : Bytes)
        → a ≤ va
        → va + len ≤ a + n
        → Shows a n m v
        → (m' : Bytes) × (each_byte
              (λ pa q m''. put m'' pa (kernel q))
              (λ x. walkaddr table x k)
              len
              va
              ka
              m
            ≡ (pos 0, m'))
          × Shows a n m' (move_bytes (λ pa q m''. put m'' pa (kernel q)) len va ka v)
          × SameBut a n m m'
    unfolding move_bytes
    each_byte-Shows zero va ka m v le le' h = (m, refl, h, λ p out. refl)
    each_byte-Shows (suc len) va ka m v le le' h =
        let (m', e, shows, same) =
          each_byte-Shows len (va + 1) (ka + 1) (put m (phys va) (kernel ka)) (put v va (kernel ka))
            (omega (arith, le)) (omega (arith, le')) one in
        (
          m',
          stepped ∙ e,
          shows,
          (λ p out. same p out ∙ unchanged p (out va le (omega (arith, le')))),
        )
      where
        stepped :
            each_byte
              (λ pa q m''. put m'' pa (kernel q))
              (λ x. walkaddr table x k)
              (suc len)
              va
              ka
              m
            ≡ each_byte
                (λ pa q m''. put m'' pa (kernel q))
                (λ x. walkaddr table x k)
                len
                (va + 1)
                (ka + 1)
                (put m (phys va) (kernel ka))
        stepped =
            let there : walkaddr table (page_round_down va) k ≢ 0 =
              user.mapped va le (omega (arith, le')) in
            let next : (va + 1) % 2 ^ 64 ≡ va + 1 = omega (arith, user.ends, le') in
            rw (ne→== (walkaddr table (page_round_down va) k) 0 there, next) refl

        unchanged : (p : ℕ) → p ≢ phys va → put m (phys va) (kernel ka) p ≡ m p
        unchanged p h = rw (ne→== p (phys va) h) refl

        one : Shows a n (put m (phys va) (kernel ka)) (put v va (kernel ka))
        one i l l' = elim (Bool-cases (i == va)) [
          | inl t ↦
              let same : i ≡ va = ==→eq i va t in rw (same, ==_self va, ==_self (phys va)) refl
          | inr t ↦
              let differ : phys i ≢ phys va =
                λ q. ==→ne i va t (apart i va l l' le (omega (arith, le')) q) in
              rw (t, ne→== (phys i) (phys va) differ) (h i l l')
        ]

    pub copyout-Shows :
        (dst src len : ℕ) (m v : Bytes)
        → a ≤ dst
        → dst + len ≤ a + n
        → Shows a n m v
        → (m' : Bytes) × (copyout table k dst kernel src len m ≡ (pos 0, m'))
          × Shows a n m' (move_bytes (λ pa q m''. put m'' pa (kernel q)) len dst src v)
          × SameBut a n m m'
    copyout-Shows dst src len m v le le' h =
        let (m', e, shows, same) = each_byte-Shows len dst src m v le le' h in
        (
          m',
          copyout_lem table k dst kernel src len m (omega (arith, user.ends, le')) ∙ e,
          shows,
          same,
        )
