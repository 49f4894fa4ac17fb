-- ===== src/Print/Tests.antt =====
-- A format with a number and a per cent sign.
use my_oslab.Base.{ℕ, Option, none, [], ◌∷◌}
use my_oslab.Print.{Text}

abbrev fmt : Text
fmt = b'n' ∷ (b'=' ∷ (b'%' ∷ (b'd' ∷ (b'%' ∷ (b'%' ∷ [])))))

abbrev nowhere : ℕ → Option Text
nowhere w = none
