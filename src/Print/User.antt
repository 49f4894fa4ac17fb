-- ===== src/Print/User.antt =====
-- user/printf.c: what `vprintf` writes, one character after the other.
use my_oslab.Base.{ℕ, ◌%◌, Bool, true, false, Option, some, List, [], ◌∷◌, ◌==◌, if◌then◌else◌, ℤ}
use my_oslab.Print.{
  Text, digit_loop, backwards, int_buffer, ptr_loop, to_int, text_or_null, before, with_arg,
}

unfoldable pub user_printint : ℤ → ℕ → Bool → Text
unfolding digit_loop
user_printint xx base sgn = backwards (int_buffer b'A' xx base sgn)

unfoldable pub user_printptr : ℕ → Text
user_printptr x = b'0' ∷ (b'x' ∷ ptr_loop b'A' 16 x)

module _ (string_at : ℕ → Option Text) where
  -- What follows a `%`, with the rest of the format as `go`.
  abbrev pub user_directive : (List ℕ → Option Text) → ℕ → List ℕ → Option Text
  user_directive go c args =
      let int = λ (base : ℕ) (sgn : Bool).
        with_arg (λ w rest. before (user_printint (to_int w) base sgn) (go rest)) args in
      if c == b'd'
      then int 10 true
      else if c == b'l'
      then int 10 false
      else if c == b'x'
      then int 16 false
      else if c == b'p'
      then with_arg (λ w rest. before (user_printptr w) (go rest)) args
      else if c == b's'
      then with_arg (λ w rest. before (text_or_null (string_at w)) (go rest)) args
      else if c == b'c'
      then with_arg (λ w rest. before (w % 256 ∷ []) (go rest)) args
      else if c == b'%'
      then before (b'%' ∷ []) (go args)
      else before (b'%' ∷ (c ∷ [])) (go args)

  -- The loop of `vprintf`; `after` is that its state is `%`.
  unfoldable pub vprintf : Bool → Text → List ℕ → Option Text
  unfolding user_printint user_printptr
  vprintf after [] args = some []
  vprintf true (c ∷ fmt) args = user_directive (λ rest. vprintf false fmt rest) c args
  vprintf false (c ∷ fmt) args = elim (c == b'%') [
    | true ↦ vprintf true fmt args
    | false ↦ before (c ∷ []) (vprintf false fmt args)
  ]

  unfoldable pub user_printf : Text → List ℕ → Option Text
  unfolding vprintf
  user_printf fmt args = vprintf false fmt args
