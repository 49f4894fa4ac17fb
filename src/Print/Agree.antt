-- ===== src/Print/Agree.antt =====
-- The kernel's and the user library's formatting agree on the directives that they share.
use my_oslab.Base.{Bool, true, not, ◌&&◌, ◌||◌, [], ◌∷◌, ◌==◌, if◌then◌else◌}
use my_oslab.Print.{Text}

-- Each `%` has a `d`, an `s` or a `%` behind it.
abbrev pub is_common : Text → Bool
is_common [] = true
is_common (c ∷ []) = not (c == b'%')
is_common (c ∷ d ∷ fmt) =
    if c == b'%'
    then (d == b'd' || d == b's' || d == b'%') && is_common fmt
    else is_common (d ∷ fmt)
