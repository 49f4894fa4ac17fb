-- ===== src/Grep/Meaning.antt =====
-- What a regular expression means: the texts that its items describe, with no order of search.
use my_oslab.Base.{
  ℕ, ◌≡◌, refl, ap, ◌⊎◌, inl, inr, Bool, true, false, ◌||◌, List, [], ◌∷◌, ◌++◌, ◌==◌,
  if◌then◌else◌,
}
use my_oslab.Grep.{Text}

-- A character, or any number of them.
pub data Item : Type 0 where
  one : ℕ → Item
  star : ℕ → Item

-- The items of an expression that `^` does not precede, and whether `$` ends it.
pub record Regex : Type 0 where
  pub items : List Item
  pub at_end : Bool

abbrev pub add_item : Item → Regex → Regex
add_item i r = record r { items = i ∷ r.items }

unfoldable pub items_of : Text → Regex
items_of [] = record { items = []; at_end = false }
items_of (c ∷ []) =
    if c == b'$'
    then record { items = []; at_end = true }
    else record { items = one c ∷ []; at_end = false }
items_of (c ∷ d ∷ re) = elim (d == b'*') [
  | true ↦ add_item (star c) (items_of re)
  | false ↦ add_item (one c) (items_of (d ∷ re))
]

abbrev pub accepts : ℕ → ℕ → Bool
accepts c x = c == b'.' || c == x

-- The text is one that the items describe.
pub data Describes : List Item → Text → Type 0 where
  empty : Describes [] []
  char :
      {c x : ℕ} {is : List Item} {s : Text}
      → accepts c x ≡ true
      → Describes is s
      → Describes (one c ∷ is) (x ∷ s)
  leave : {c : ℕ} {is : List Item} {s : Text} → Describes is s → Describes (star c ∷ is) s
  more :
      {c x : ℕ} {is : List Item} {s : Text}
      → accepts c x ≡ true
      → Describes (star c ∷ is) s
      → Describes (star c ∷ is) (x ∷ s)

-- What may stand behind the text described: nothing, where the expression ends in `$`.
pub data Behind : Bool → Text → Type 0 where
  anything : {s : Text} → Behind false s
  nothing : Behind true []

-- The items describe a text at the front of this one.
pub record Starts (r : Regex) (text : Text) : Type 0 where
  pub front : Text
  pub back : Text
  pub whole : text ≡ front ++ back
  pub described : Describes r.items front
  pub behind : Behind r.at_end back

-- They describe a text that begins somewhere in this one.
pub data Somewhere (r : Regex) : Text → Type 0 where
  here : {s : Text} → Starts r s → Somewhere r s
  later : {x : ℕ} {s : Text} → Somewhere r s → Somewhere r (x ∷ s)

-- The text has a match of the expression, from its first character on after a `^`.
unfoldable pub Occurs : Text → Text → Type 0
Occurs [] text = Somewhere (items_of []) text
Occurs (c ∷ re) text = elim (c == b'^') [
  | true ↦ Starts (items_of re) text
  | false ↦ Somewhere (items_of (c ∷ re)) text
]

module _ {c : ℕ} {is : List Item} where
  pub one_inv :
      {f : Text}
      → Describes (one c ∷ is) f
      → (x : ℕ) × (s : Text) × (f ≡ x ∷ s) × (accepts c x ≡ true) × Describes is s
  one_inv (char {x} {s} h d) = (x, s, refl, h, d)

  pub star_inv :
      {f : Text}
      → Describes (star c ∷ is) f
      → Describes is f
        ⊎ ((x : ℕ) × (s : Text) × (f ≡ x ∷ s) × (accepts c x ≡ true) × Describes (star c ∷ is) s)
  star_inv (leave d) = inl d
  star_inv (more {x} {s} h d) = inr (x, s, refl, h, d)

pub empty_inv : {f : Text} → Describes [] f → f ≡ []
empty_inv empty = refl

pub Behind-inv : {s : Text} → Behind true s → s ≡ []
Behind-inv nothing = refl

-- Another character at the front, of an item added there or of a star that is there.
pub Starts-char :
    (c x : ℕ) (r : Regex) (s : Text)
    → accepts c x ≡ true
    → Starts r s
    → Starts (add_item (one c) r) (x ∷ s)
Starts-char c x r s h st = record {
  front = x ∷ st.front;
  back = st.back;
  whole = ap (λ t. x ∷ t) st.whole;
  described = char h st.described;
  behind = st.behind;
}

pub Starts-leave : (c : ℕ) (r : Regex) (s : Text) → Starts r s → Starts (add_item (star c) r) s
Starts-leave c r s st = record {
  front = st.front;
  back = st.back;
  whole = st.whole;
  described = leave st.described;
  behind = st.behind;
}

pub Starts-more :
    (c x : ℕ) (r : Regex) (s : Text)
    → accepts c x ≡ true
    → Starts (add_item (star c) r) s
    → Starts (add_item (star c) r) (x ∷ s)
Starts-more c x r s h st = record {
  front = x ∷ st.front;
  back = st.back;
  whole = ap (λ t. x ∷ t) st.whole;
  described = more h st.described;
  behind = st.behind;
}
