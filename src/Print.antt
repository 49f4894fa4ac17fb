-- ===== src/Print.antt =====
-- kernel/printf.c: what the formatting functions give to `consputc`, as the list of characters. A
-- string is the list of its characters before the NUL. `va_arg` takes the next word of a list, and
-- a string's word is read by `string_at`, which has `none` for a null pointer; a missing argument
-- is `none`. This is the build without the macros TEST and LAB_SYSCALL_TEST. The lock of the
-- console is not part of the model.
pub mod User
pub mod Digits
pub mod Agree
mod Tests
use my_oslab.Base.{
  ℕ, zero, suc, ◌+◌, ◌-◌, ◌*◌, ◌/◌, ◌%◌, ◌^◌, Bool, true, false, ◌&&◌, Option, none, some, List, [],
  ◌∷◌, ◌++◌, ltb, ◌==◌, if◌then◌else◌, ℤ, pos, negsuc,
}

abbrev pub Text : Type 0
Text = List ℕ

-- `digits[d]`, of which the letters start with `a` here.
abbrev pub digit : ℕ → ℕ → ℕ
digit a d = if ltb d 10 then b'0' + d else a + (d - 10)

-- The `do` loop of `printint`, whose buffer is given from its start. Each turn makes `x` smaller.
unfoldable pub digit_loop : ℕ → ℕ → ℕ → ℕ → Text
digit_loop a zero base x = []
digit_loop a (suc fuel) base x =
    let rest = digit_loop a fuel base (x / base) in
    digit a (x % base) ∷ (if x / base == 0 then [] else rest)

abbrev pub digits_of : ℕ → ℕ → ℕ → Text
digits_of a base x = digit_loop a (x + 1) base x

-- A buffer that is written out from its end.
abbrev pub backwards : Text → Text
backwards [] = []
backwards (c ∷ buf) = backwards buf ++ (c ∷ [])

-- An `int` as a `uint`.
abbrev pub to_uint : ℤ → ℕ
to_uint (pos n) = n % 2 ^ 32
to_uint (negsuc n) = (2 ^ 32 - 1 - n % 2 ^ 32) % 2 ^ 32

-- The buffer of `printint`.
abbrev pub int_buffer : ℕ → ℤ → ℕ → Bool → Text
int_buffer a (pos n) base sign = digits_of a base (to_uint (pos n))
int_buffer a (negsuc n) base sign =
    if sign
    then digits_of a base (to_uint (pos (n + 1))) ++ (b'-' ∷ [])
    else digits_of a base (to_uint (negsuc n))

unfoldable pub printint : ℤ → ℕ → Bool → Text
unfolding digit_loop
printint xx base sign = backwards (int_buffer b'a' xx base sign)

-- The loop of `printptr`.
abbrev pub ptr_loop : ℕ → ℕ → ℕ → Text
ptr_loop a zero x = []
ptr_loop a (suc n) x = digit a (x / 2 ^ 60) ∷ ptr_loop a n (x * 16 % 2 ^ 64)

unfoldable pub printptr : ℕ → Text
printptr x = b'0' ∷ (b'x' ∷ ptr_loop b'a' 16 x)

-- The low 32 bits of a word as an `int`.
abbrev pub to_int : ℕ → ℤ
to_int w = let low = w % 2 ^ 32 in if ltb low (2 ^ 31) then pos low else negsuc (2 ^ 32 - 1 - low)

-- `(null)`
abbrev pub null_text : Text
null_text = b'(' ∷ (b'n' ∷ (b'u' ∷ (b'l' ∷ (b'l' ∷ (b')' ∷ [])))))

abbrev pub text_or_null : Option Text → Text
text_or_null none = null_text
text_or_null (some s) = s

-- Characters before what the rest of the format gives.
abbrev pub before : Text → Option Text → Option Text
before out none = none
before out (some rest) = some (out ++ rest)

-- A directive that takes an argument.
abbrev pub with_arg : (ℕ → List ℕ → Option Text) → List ℕ → Option Text
with_arg f [] = none
with_arg f (w ∷ args) = f w args

module _ (string_at : ℕ → Option Text) where
  -- The `switch` for the character behind a `%`, with the rest of the format as `go`.
  abbrev pub directive : (List ℕ → Option Text) → ℕ → List ℕ → Option Text
  directive go c args =
      let int =
        λ (base : ℕ). with_arg (λ w rest. before (printint (to_int w) base true) (go rest)) args in
      if c == b'd'
      then int 10
      else if c == b'x'
      then int 16
      else if c == b'p'
      then with_arg (λ w rest. before (printptr w) (go rest)) args
      else if c == b's'
      then with_arg (λ w rest. before (text_or_null (string_at w)) (go rest)) args
      else if c == b'%'
      then before (b'%' ∷ []) (go args)
      else before (b'%' ∷ (c ∷ [])) (go args)

  -- The loop over the format in `_printf` and `info_with_color`.
  unfoldable pub format : Text → List ℕ → Option Text
  unfolding printint printptr
  format [] args = some []
  format (c ∷ []) args = if c == b'%' then some [] else some (c ∷ [])
  format (c ∷ d ∷ fmt) args = elim (c == b'%') [
    | true ↦ directive (λ rest. format fmt rest) d args
    | false ↦ before (c ∷ []) (format (d ∷ fmt) args)
  ]

  unfoldable pub print_text : Text → List ℕ → Option Text
  unfolding format
  print_text fmt args = format fmt args

  -- The colour, `[INFO] ` and the end of the colour.
  abbrev pub color : Text
  color = 27 ∷ (b'[' ∷ (b'0' ∷ (b';' ∷ (b'3' ∷ (b'6' ∷ (b'm' ∷ []))))))

  abbrev pub info : Text
  info = b'[' ∷ (b'I' ∷ (b'N' ∷ (b'F' ∷ (b'O' ∷ (b']' ∷ (b' ' ∷ []))))))

  abbrev pub rst_str : Text
  rst_str = 27 ∷ (b'[' ∷ (b'0' ∷ (b'm' ∷ [])))

  unfoldable pub info_with_color : Text → List ℕ → Option Text
  unfolding format
  info_with_color fmt args = elim (format fmt args) [
    | none ↦ none
    | some out ↦ some (color ++ (info ++ (out ++ rst_str)))
  ]
