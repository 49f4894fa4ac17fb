-- ===== src/Ulib/Atoi.antt =====
-- `atoi` reads back what `printint` prints.
use my_oslab.Base.{ℕ, Bool, true, ◌&&◌, [], ◌∷◌, leb}
use my_oslab.Print.{digit_loop, backwards}
use my_oslab.Ulib.{Text}

abbrev is_digit : ℕ → Bool
is_digit c = leb b'0' c && leb c b'9'

abbrev all_digits : Text → Bool
all_digits [] = true
all_digits (c ∷ s) = is_digit c && all_digits s

-- The digits of a number, in the order that they are printed.
abbrev printed : ℕ → ℕ → ℕ → Text
printed a fuel x = backwards (digit_loop a fuel 10 x)
