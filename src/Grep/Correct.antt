-- ===== src/Grep/Correct.antt =====
-- The matcher finds a match exactly where there is one.
use my_oslab.Base.{
  ℕ, ◌≡◌, refl, ap, ◌∙◌, inl, inr, ◌↔◌, Bool, true, false, List, [], ◌∷◌, ◌++◌, ◌==◌, Bool-cases,
  arith,
}
use my_oslab.Grep.{Text, matchstar, matchone, matchhere, match_from, match}
use my_oslab.Grep.Meaning.{
  Item, one, star, Regex, add_item, items_of, accepts, Describes, empty, leave, more, Behind,
  anything, nothing, Starts, Somewhere, here, later, Occurs, one_inv, empty_inv, Behind-inv,
  Starts-char, Starts-leave, Starts-more,
}

-- `f` decides whether a text starts with a match of `r`.
abbrev Decides : (Text → Bool) → Regex → Type 0
Decides f r = (s : Text) → (f s ≡ true) ↔ Starts r s

module _ (c : ℕ) (f : Text → Bool) (r : Regex) (d : Decides f r) where
  matchone_sound : (s : Text) → matchone c f s ≡ true → Starts (add_item (one c) r) s
  matchone_sound [] h = absurd (ground (arith, h))
  matchone_sound (x ∷ s) h = Starts-char c x r s (ground arith) ((d s).0 (ground arith))

  matchone_complete : (s : Text) → Starts (add_item (one c) r) s → matchone c f s ≡ true
  matchone_complete s st =
      let (x, t, front, h, rest) = one_inv st.described in
      let is : s ≡ x ∷ (t ++ st.back) = st.whole ∙ ap (λ q. q ++ st.back) front in
      let tail : f (t ++ st.back) ≡ true = (d (t ++ st.back)).1 (record {
        front = t;
        back = st.back;
        whole = refl;
        described = rest;
        behind = st.behind;
      }) in
      rw is (ground (arith, h, tail))

  matchstar_sound : (s : Text) → matchstar c f s ≡ true → Starts (add_item (star c) r) s
  unfolding matchstar
  matchstar_sound [] h = Starts-leave c r [] ((d []).0 h)
  matchstar_sound (x ∷ s) h = elim (Bool-cases (f (x ∷ s))) [
    | inl e ↦ Starts-leave c r (x ∷ s) ((d (x ∷ s)).0 e)
    | inr e ↦ Starts-more c x r s (ground arith) (matchstar_sound s (ground arith))
  ]

  matchstar_now : (s : Text) → f s ≡ true → matchstar c f s ≡ true
  unfolding matchstar
  matchstar_now [] h = h
  matchstar_now (x ∷ s) h = ground arith

  matchstar_later :
      (x : ℕ) (s : Text)
      → accepts c x ≡ true
      → matchstar c f s ≡ true
      → matchstar c f (x ∷ s) ≡ true
  unfolding matchstar
  matchstar_later x s h rest = ground arith

  matchstar_described :
      (front back : Text) (is : List Item)
      → r.items ≡ is
      → Describes (star c ∷ is) front
      → Behind r.at_end back
      → matchstar c f (front ++ back) ≡ true
  matchstar_described front back is e (leave q) b = matchstar_now (front ++ back) (
      (d (front ++ back)).1
        (record { front = front; back = back; whole = refl; described = rw e q; behind = b }))
  matchstar_described _ back is e (more {x} {s} h q) b =
      matchstar_later x (s ++ back) h (matchstar_described s back is e q b)

  matchstar_complete : (s : Text) → Starts (add_item (star c) r) s → matchstar c f s ≡ true
  matchstar_complete s st =
      rw st.whole (matchstar_described st.front st.back r.items refl st.described st.behind)

-- The end of the expression, without and with a `$`.
no_items : Decides (matchhere []) (items_of [])
unfolding matchhere items_of
no_items s = (
  λ h. record { front = []; back = s; whole = refl; described = empty; behind = anything },
  λ st. refl,
)

abbrev is_empty : Text → Bool
is_empty [] = true
is_empty (x ∷ s) = false

last_item : Decides is_empty (record { items = []; at_end = true })
last_item [] = (
  λ h. record { front = []; back = []; whole = refl; described = empty; behind = nothing },
  λ st. refl,
)
last_item (x ∷ s) = (λ h. absurd (ground (arith, h)), λ st. absurd (full st))
  where
    full : Starts (record { items = []; at_end = true }) (x ∷ s) → ⊥
    full st =
        let no_front = empty_inv st.described in
        let no_back = Behind-inv st.behind in
        let all = st.whole in ground (arith, no_front, no_back, rw (no_front, no_back) at all)

-- `matchhere` decides whether the text starts with a match of the items.
pub matchhere-Decides : (re s : Text) → (matchhere re s ≡ true) ↔ Starts (items_of re) s
unfolding matchhere items_of
matchhere-Decides [] s = no_items s
matchhere-Decides (c ∷ []) s = elim (Bool-cases (c == b'$')) [
  | inl e ↦ rw (e, matchhere, items_of) (dollar s)
  | inr e ↦
      rw (e, matchhere, items_of)
        (
          matchone_sound c (matchhere []) (items_of []) no_items s,
          matchone_complete c (matchhere []) (items_of []) no_items s,
        )
]
  where
    dollar :
        (s : Text)
        → ((elim s [ [] ↦ true | _ ∷ _ ↦ false ]) ≡ true)
          ↔ Starts (record { items = []; at_end = true }) s
    dollar [] = last_item []
    dollar (x ∷ t) = last_item (x ∷ t)
matchhere-Decides (c ∷ d ∷ re) s = elim (Bool-cases (d == b'*')) [
  | inl e ↦
      rw (e, matchhere, items_of)
        (
          matchstar_sound c (matchhere re) (items_of re) (matchhere-Decides re) s,
          matchstar_complete c (matchhere re) (items_of re) (matchhere-Decides re) s,
        )
  | inr e ↦
      rw (e, matchhere, items_of)
        (
          matchone_sound c (matchhere (d ∷ re)) (items_of (d ∷ re)) (matchhere-Decides (d ∷ re)) s,
          matchone_complete c (matchhere (d ∷ re)) (items_of (d ∷ re)) (matchhere-Decides (d ∷ re))
              s,
        )
]

match_from_sound : (re s : Text) → match_from re s ≡ true → Somewhere (items_of re) s
unfolding match_from
match_from_sound re [] h = here ((matchhere-Decides re []).0 h)
match_from_sound re (x ∷ s) h = elim (Bool-cases (matchhere re (x ∷ s))) [
  | inl e ↦ here ((matchhere-Decides re (x ∷ s)).0 e)
  | inr e ↦ later (match_from_sound re s (ground arith))
]

match_from_now : (re s : Text) → matchhere re s ≡ true → match_from re s ≡ true
unfolding match_from
match_from_now re [] h = h
match_from_now re (x ∷ s) h = ground arith

match_from_complete : (re : Text) {s : Text} → Somewhere (items_of re) s → match_from re s ≡ true
unfolding match_from
match_from_complete re (here {s} st) = match_from_now re s ((matchhere-Decides re s).1 st)
match_from_complete re (later {x} {s} w) = ground (arith, match_from_complete re w)

-- `match` returns 1 exactly when the text has a match of the expression: a text that its items
-- describe, at the front of the text after a `^`, and with nothing behind it before a `$`.
pub match_iff : (re text : Text) → (match re text ≡ true) ↔ Occurs re text
unfolding match Occurs
match_iff [] text = (match_from_sound [] text, match_from_complete [])
match_iff (c ∷ re) text = elim (Bool-cases (c == b'^')) [
  | inl e ↦ rw (e, match, Occurs) (matchhere-Decides re text)
  | inr e ↦ rw (e, match, Occurs) (match_from_sound (c ∷ re) text, match_from_complete (c ∷ re))
]
