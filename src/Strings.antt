-- ===== src/Strings.antt =====
-- kernel/string.c over memories of bytes. A `char *` is an address; a buffer that a function
-- reads and one that it writes may lie in two memories where the source's do not overlap.
-- `memmove`, whose buffers may, has one. Counts are the C `uint n`; a negative `int n` is 0 here,
-- for which the loops do as little.
pub mod Move
pub mod Compare
pub mod Copy
mod Tests
use my_oslab.Base.{
  ℕ, zero, suc, ◌+◌, Bool, true, false, ◌&&◌, Option, none, some, ltb, ◌==◌, if◌then◌else◌,
}
use my_oslab.Base.{ℤ, pos, sub_ℕ, not, ◌%◌}

abbrev pub Bytes : Type 0
Bytes = ℕ → ℕ

-- `*p = v`
abbrev pub put : Bytes → ℕ → ℕ → Bytes
put m p v a = if a == p then v else m a

-- The loop of `memset` from index `i` on, with `n` bytes to go; `c` is converted to a `char`.
unfoldable pub memset_loop : ℕ → ℕ → ℕ → ℕ → Bytes → Bytes
memset_loop dst c i zero m = m
memset_loop dst c i (suc n) m = memset_loop dst c (i + 1) n (put m (dst + i) (c % 256))

unfoldable pub memset : ℕ → ℕ → ℕ → Bytes → Bytes
unfolding memset_loop
memset dst c n m = memset_loop dst c 0 n m

unfoldable pub memcmp : Bytes → ℕ → ℕ → ℕ → ℤ
memcmp m v1 v2 zero = pos 0
memcmp m v1 v2 (suc n) = elim (m v1 == m v2) [
  | true ↦ memcmp m (v1 + 1) (v2 + 1) n
  | false ↦ sub_ℕ (m v1) (m v2)
]

-- The two loops of `memmove`: `s` and `d` are the pointers, `n` the bytes to go.
unfoldable pub move_up : ℕ → ℕ → ℕ → Bytes → Bytes
move_up s d zero m = m
move_up s d (suc n) m = move_up (s + 1) (d + 1) n (put m d (m s))

unfoldable pub move_down : ℕ → ℕ → ℕ → Bytes → Bytes
move_down s d zero m = m
move_down s d (suc n) m = move_down s d n (put m (d + n) (m (s + n)))

unfoldable pub memmove : ℕ → ℕ → ℕ → Bytes → Bytes
unfolding move_up move_down
memmove dst src n m =
    if ltb src dst && ltb dst (src + n) then move_down src dst n m else move_up src dst n m

unfoldable pub strncmp : Bytes → ℕ → Bytes → ℕ → ℕ → ℤ
strncmp ps p qs q zero = pos 0
strncmp ps p qs q (suc n) = elim (not (ps p == 0) && ps p == qs q) [
  | true ↦ strncmp ps (p + 1) qs (q + 1) n
  | false ↦ sub_ℕ (ps p) (qs q)
]

-- The second loop of `strncpy`.
unfoldable pub zero_fill : ℕ → ℕ → Bytes → Bytes
zero_fill s zero dst = dst
zero_fill s (suc n) dst = zero_fill (s + 1) n (put dst s 0)

unfoldable pub strncpy : Bytes → ℕ → Bytes → ℕ → ℕ → Bytes
unfolding zero_fill
strncpy dst s src t zero = dst
strncpy dst s src t (suc n) = elim (src t == 0) [
  | true ↦ zero_fill (s + 1) n (put dst s 0)
  | false ↦ strncpy (put dst s (src t)) (s + 1) src (t + 1) n
]

-- The loop of `safestrcpy` after its test `n <= 0`, with `--n` already made, and `*s = 0` behind it.
unfoldable pub copy_string : ℕ → Bytes → ℕ → Bytes → ℕ → Bytes
copy_string zero dst s src t = put dst s 0
copy_string (suc n) dst s src t = elim (src t == 0) [
  | true ↦ put (put dst s 0) (s + 1) 0
  | false ↦ copy_string n (put dst s (src t)) (s + 1) src (t + 1)
]

unfoldable pub safestrcpy : Bytes → ℕ → Bytes → ℕ → ℕ → Bytes
unfolding copy_string
safestrcpy dst s src t zero = dst
safestrcpy dst s src t (suc n) = copy_string n dst s src t

-- `strlen` on fuel: `none` where no NUL is met within it.
unfoldable pub strlen_loop : ℕ → ℕ → ℕ → Bytes → Option ℕ
strlen_loop zero s n m = none
strlen_loop (suc fuel) s n m = elim (m (s + n) == 0) [
  | true ↦ some n
  | false ↦ strlen_loop fuel s (n + 1) m
]
