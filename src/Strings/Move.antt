-- ===== src/Strings/Move.antt =====
-- `memmove` and `memset` byte by byte.
use my_oslab.Base.{
  ℕ, zero, suc, ◌+◌, ◌-◌, ◌%◌, ◌≤◌, ◌<◌, ◌≡◌, ◌⊎◌, inl, inr, ◌∙◌, Bool, ◌&&◌, ltb, leb,
  if◌then◌else◌, Bool-cases, arith,
}
use my_oslab.Strings.{Bytes, put, memset_loop, memset, move_up, move_down, memmove}

-- The address is one of the `n` from `p` on.
abbrev pub within : ℕ → ℕ → ℕ → Bool
within p n a = leb p a && ltb a (p + n)

move_up_lem :
    (s d n a : ℕ) (m : Bytes)
    → (d ≤ s) ⊎ (s + n ≤ d)
    → move_up s d n m a ≡ (if within d n a then m (s + (a - d)) else m a)
unfolding move_up
move_up_lem s d zero a m h = ground arith
move_up_lem s d (suc n) a m h = move_up_lem (s + 1) (d + 1) n a (put m d (m s)) (omega arith) ∙ step
  where
    step :
        (if within (d + 1) n a then put m d (m s) (s + 1 + (a - (d + 1))) else put m d (m s) a)
        ≡ (if within d (suc n) a then m (s + (a - d)) else m a)
    step = ground arith

move_down_lem :
    (s d n a : ℕ) (m : Bytes)
    → s < d
    → move_down s d n m a ≡ (if within d n a then m (s + (a - d)) else m a)
unfolding move_down
move_down_lem s d zero a m h = ground arith
move_down_lem s d (suc n) a m h = move_down_lem s d n a (put m (d + n) (m (s + n))) h ∙ step
  where
    step :
        (if within d n a
          then put m (d + n) (m (s + n)) (s + (a - d))
          else put m (d + n) (m (s + n)) a)
        ≡ (if within d (suc n) a then m (s + (a - d)) else m a)
    step = ground arith

-- `memmove` copies: after it the `n` bytes at `dst` are those that stood at `src` before it,
-- however the two overlap, and no other byte has changed.
pub memmove_lem :
    (dst src n a : ℕ) (m : Bytes)
    → memmove dst src n m a ≡ (if within dst n a then m (src + (a - dst)) else m a)
unfolding memmove
memmove_lem dst src n a m = elim (Bool-cases (ltb src dst && ltb dst (src + n))) [
  | inl e ↦ rw e (move_down_lem src dst n a m (ground arith))
  | inr e ↦ rw e (move_up_lem src dst n a m (ground arith))
]

memset_loop_lem :
    (dst c i n a : ℕ) (m : Bytes)
    → memset_loop dst c i n m a ≡ (if within (dst + i) n a then c % 256 else m a)
unfolding memset_loop
memset_loop_lem dst c i zero a m = ground arith
memset_loop_lem dst c i (suc n) a m =
    memset_loop_lem dst c (i + 1) n a (put m (dst + i) (c % 256)) ∙ ground arith

-- `memset` stores the low byte of `c` at exactly the `n` bytes from `dst` on.
pub memset_lem :
    (dst c n a : ℕ) (m : Bytes) → memset dst c n m a ≡ (if within dst n a then c % 256 else m a)
unfolding memset
memset_lem dst c n a m = memset_loop_lem dst c 0 n a m ∙ ground arith
