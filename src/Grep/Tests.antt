-- ===== src/Grep/Tests.antt =====
-- Expressions with each of the operators.
use my_oslab.Base.{◌≡◌, ◌↔◌, refl, true, false, [], ◌∷◌}
use my_oslab.Grep.{Text, match}
use my_oslab.Grep.Meaning.{Occurs}
use my_oslab.Grep.Correct.{match_iff}

-- "b.*$" and "aabc"
abbrev to_the_end : Text
to_the_end = b'b' ∷ b'.' ∷ b'*' ∷ b'$' ∷ []

abbrev text : Text
text = b'a' ∷ b'a' ∷ b'b' ∷ b'c' ∷ []

match_iff_example : (match to_the_end text ≡ true) ↔ Occurs to_the_end text
match_iff_example = match_iff to_the_end text

found : match to_the_end text ≡ true
unfolding match
found = refl

-- "^a*c" does not match.
anchored : match (b'^' ∷ b'a' ∷ b'*' ∷ b'c' ∷ []) text ≡ false
unfolding match
anchored = refl
