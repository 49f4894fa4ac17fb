-- ===== src/Ulib.antt =====
-- user/ulib.c over strings as the lists of their characters before the NUL, and over memories of
-- bytes. `stat` only makes system calls.
pub mod Atoi
mod Tests
use my_oslab.Base.{
  ℕ, zero, suc, ◌+◌, ◌-◌, ◌*◌, ◌%◌, ◌^◌, Bool, true, false, ◌&&◌, ◌||◌, Option, none, some, List,
  [], ◌∷◌, ltb, leb, ◌==◌, if◌then◌else◌, ℤ, pos, sub_ℕ,
}
use my_oslab.Strings.{Bytes, put, move_up, move_down}

abbrev pub Text : Type 0
Text = List ℕ

-- `strcpy` to the memory at `s`.
unfoldable pub strcpy : Bytes → ℕ → Text → Bytes
strcpy m s [] = put m s 0
strcpy m s (c ∷ t) = strcpy (put m s c) (s + 1) t

unfoldable pub strcmp : Text → Text → ℤ
strcmp [] [] = pos 0
strcmp [] (d ∷ q) = sub_ℕ 0 d
strcmp (c ∷ p) [] = pos c
strcmp (c ∷ p) (d ∷ q) = elim (c == d) [ true ↦ strcmp p q | false ↦ sub_ℕ c d ]

unfoldable pub strlen : Text → ℕ
strlen [] = 0
strlen (c ∷ s) = strlen s + 1

-- `strchr`: the string from the character on.
unfoldable pub strchr : Text → ℕ → Option Text
strchr [] c = none
strchr (d ∷ s) c = elim (d == c) [ true ↦ some (d ∷ s) | false ↦ strchr s c ]

-- The loop of `gets` with room for `n` characters, of an input that ends where `read` returns less
-- than 1: the line and the input left.
unfoldable pub gets_loop : ℕ → Text → Text × Text
gets_loop zero input = ([], input)
gets_loop (suc n) [] = ([], [])
gets_loop (suc n) (c ∷ input) =
    let r = gets_loop n input in
    if c == b'\n' || c == b'\r' then (c ∷ [], input) else (c ∷ r.0, r.1)

unfoldable pub gets : ℕ → Text → Text × Text
unfolding gets_loop
gets max input = gets_loop (max - 1) input

-- The loop of `atoi`, whose `int` wraps.
unfoldable pub atoi_loop : ℕ → Text → ℕ
atoi_loop n [] = n
atoi_loop n (c ∷ s) = elim (leb b'0' c && leb c b'9') [
  | true ↦ atoi_loop ((n * 10 + c + (2 ^ 32 - b'0')) % 2 ^ 32) s
  | false ↦ n
]

unfoldable pub atoi : Text → ℕ
unfolding atoi_loop
atoi s = atoi_loop 0 s

-- `memmove`, which goes down where the regions are one.
unfoldable pub memmove : ℕ → ℕ → ℕ → Bytes → Bytes
unfolding move_up move_down
memmove dst src n m = if ltb dst src then move_up src dst n m else move_down src dst n m

unfoldable pub memcmp : Bytes → ℕ → ℕ → ℕ → ℤ
memcmp m s1 s2 zero = pos 0
memcmp m s1 s2 (suc n) = elim (m s1 == m s2) [
  | true ↦ memcmp m (s1 + 1) (s2 + 1) n
  | false ↦ sub_ℕ (m s1) (m s2)
]

unfoldable pub memcpy : ℕ → ℕ → ℕ → Bytes → Bytes
unfolding memmove
memcpy dst src n m = memmove dst src n m
