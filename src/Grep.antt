-- ===== src/Grep.antt =====
-- user/grep.c: the matcher of regular expressions. A string is the list of its characters before
-- the NUL.
pub mod Meaning
pub mod Correct
mod Tests
use my_oslab.Base.{ℕ, Bool, true, false, not, ◌&&◌, ◌||◌, List, [], ◌∷◌, ◌==◌, if◌then◌else◌}

abbrev pub Text : Type 0
Text = List ℕ

-- `matchstar(c, re, text)`, with `matchhere` of the rest of the expression as `here`.
unfoldable pub matchstar : ℕ → (Text → Bool) → Text → Bool
matchstar c here [] = here []
matchstar c here (x ∷ text) =
    let rest = matchstar c here text in
    if here (x ∷ text) then true else if x == c || c == b'.' then rest else false

-- The two last tests of `matchhere`, for the character `c` of the expression.
abbrev pub matchone : ℕ → (Text → Bool) → Text → Bool
matchone c here [] = false
matchone c here (x ∷ text) = if c == b'.' || c == x then here text else false

unfoldable pub matchhere : Text → Text → Bool
unfolding matchstar
matchhere [] text = true
matchhere (c ∷ []) text =
    if c == b'$' then (elim text [ [] ↦ true | _ ∷ _ ↦ false ]) else matchone c (matchhere []) text
matchhere (c ∷ d ∷ re) text = elim (d == b'*') [
  | true ↦ matchstar c (matchhere re) text
  | false ↦ matchone c (matchhere (d ∷ re)) text
]

-- The loop of `match`.
unfoldable pub match_from : Text → Text → Bool
unfolding matchhere
match_from re [] = matchhere re []
match_from re (x ∷ text) =
    let rest = match_from re text in if matchhere re (x ∷ text) then true else rest

unfoldable pub match : Text → Text → Bool
unfolding match_from matchhere
match [] text = match_from [] text
match (c ∷ re) text = if c == b'^' then matchhere re text else match_from (c ∷ re) text
