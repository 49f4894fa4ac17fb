-- ===== src/Fs/Paths/Elements.antt =====
-- How `skipelem` splits a path, and what it puts into the name.
use my_oslab.Base.{
  ℕ, zero, suc, ◌+◌, ◌-◌, ◌≤◌, ◌<◌, ◌≡◌, ◌≢◌, ◌⊎◌, inl, inr, refl, sym, ap, ◌∙◌, subst, append-nil,
  Bool, true, false, not, ◌&&◌, Option, none, some, [], ◌∷◌, ◌++◌, length, take, get_or, ltb, ◌==◌,
  if◌then◌else◌, Bool-cases, arith,
}
use my_oslab.Strings.{Bytes, put}
use my_oslab.Fs.Dirs.{dirsiz}
use my_oslab.Fs.Paths.{
  PathText, skip_slashes, elem_chars, after_elem, move_chars, store_name, skipelem, starts_slash,
}

abbrev pub all_slash : PathText → Bool
all_slash [] = true
all_slash (c ∷ path) = c == b'/' && all_slash path

abbrev pub no_slash : PathText → Bool
no_slash [] = true
no_slash (c ∷ path) = not (c == b'/') && no_slash path

-- The slashes at the front of a path.
abbrev pub lead : PathText → PathText
lead [] = []
lead (c ∷ path) = if c == b'/' then c ∷ lead path else []

lead_skip : (path : PathText) → path ≡ lead path ++ skip_slashes path
lead_skip [] = refl
lead_skip (c ∷ path) = elim (Bool-cases (c == b'/')) [
  | inl e ↦ rw e (ap (λ (l : PathText). c ∷ l) (lead_skip path))
  | inr e ↦ rw e refl
]

lead_all : (path : PathText) → all_slash (lead path) ≡ true
lead_all [] = refl
lead_all (c ∷ path) = elim (Bool-cases (c == b'/')) [
  | inl e ↦ rw e (rw e (lead_all path))
  | inr e ↦ rw e refl
]

pub skip_starts : (path : PathText) → starts_slash (skip_slashes path) ≡ false
skip_starts [] = refl
skip_starts (c ∷ path) = elim (Bool-cases (c == b'/')) [
  | inl e ↦ rw e (skip_starts path)
  | inr e ↦ rw e e
]

elem_after : (path : PathText) → path ≡ elem_chars path ++ after_elem path
elem_after [] = refl
elem_after (c ∷ path) = elim (Bool-cases (c == b'/')) [
  | inl e ↦ rw e refl
  | inr e ↦ rw e (ap (λ (l : PathText). c ∷ l) (elem_after path))
]

elem_none : (path : PathText) → no_slash (elem_chars path) ≡ true
elem_none [] = refl
elem_none (c ∷ path) = elim (Bool-cases (c == b'/')) [
  | inl e ↦ rw e refl
  | inr e ↦ rw e (rw e (elem_none path))
]

-- What is left behind an element starts with a slash, or there is nothing.
after_starts : (path : PathText) → (after_elem path ≡ []) ⊎ (starts_slash (after_elem path) ≡ true)
after_starts [] = inl refl
after_starts (c ∷ path) = elim (Bool-cases (c == b'/')) [
  | inl e ↦ rw e (inr e)
  | inr e ↦ rw e (after_starts path)
]

move_chars_lem :
    (i j : ℕ) (cs : PathText) (name : Bytes)
    → move_chars i cs name j ≡ (
        if ltb j i then name j else if ltb (j - i) (length cs) then get_or cs (j - i) 0 else name j)
move_chars_lem i j [] name = ground arith
move_chars_lem i j (c ∷ cs) name =
    move_chars_lem (i + 1) j cs (put name i c) ∙ (elim (Bool-cases (ltb j i)) [
      | inl t ↦
          let before : ltb j (i + 1) ≡ true = ground arith in
          let other : (j == i) ≡ false = ground arith in rw (t, before, other) refl
      | inr t ↦ elim (Bool-cases (j == i)) [
        | inl e ↦
            let here : j - i ≡ 0 = ground arith in
            let before : ltb j (i + 1) ≡ true = ground arith in
            let first : ltb 0 (suc (length cs)) ≡ true = ground arith in
            rw (t, before, e, here, first) refl
        | inr e ↦
            let behind : j - i ≡ suc (j - (i + 1)) = ground arith in
            let after : ltb j (i + 1) ≡ false = ground arith in
            rw (t, after, e, behind)
              (let more : ltb (suc (j - (i + 1))) (suc (length cs))
                    ≡ ltb (j - (i + 1)) (length cs) =
                  ground arith in
                rw more refl)
      ]
    ])

move_chars_zero :
    (j : ℕ) (cs : PathText) (name : Bytes)
    → move_chars 0 cs name j ≡ (if ltb j (length cs) then get_or cs j 0 else name j)
move_chars_zero j cs name =
    let front : ltb j 0 ≡ false = ground arith in
    let same : j - 0 ≡ j = omega arith in move_chars_lem 0 j cs name ∙ rw (front, same) refl

-- The name that `skipelem` leaves: the first 14 characters of the element, a NUL behind a shorter
-- one, and the rest of the buffer as it was.
abbrev pub IsName : PathText → Bytes → Bytes → Type 0
IsName elem name name' =
    (j : ℕ)
    → name' j ≡ (
        if not (ltb j dirsiz)
        then name j
        else if ltb j (length elem)
        then get_or elem j 0
        else if j == length elem
        then 0
        else name j)

length-take_more : (n : ℕ) (cs : PathText) → n ≤ length cs → length (take n cs) ≡ n
length-take_more zero cs le = refl
length-take_more (suc n) [] le = absurd (omega (arith, le))
length-take_more (suc n) (c ∷ cs) le = ap suc (length-take_more n cs (omega (arith, le)))

get_or-take : (n j : ℕ) (cs : PathText) → j < n → get_or (take n cs) j 0 ≡ get_or cs j 0
get_or-take zero j cs lt = absurd (omega (arith, lt))
get_or-take (suc n) j [] lt = refl
get_or-take (suc n) zero (c ∷ cs) lt = refl
get_or-take (suc n) (suc j) (c ∷ cs) lt = get_or-take n j cs (omega (arith, lt))

store_name-IsName : (elem : PathText) (name : Bytes) → IsName elem name (store_name elem name)
store_name-IsName elem name j = elim (Bool-cases (ltb (length elem) dirsiz)) [
  | inl t ↦ rw t (ground (arith, t, move_chars_zero j elem name))
  | inr t ↦ rw t (
      move_chars_zero j (take dirsiz elem) name
      ∙ (let len : length (take dirsiz elem) ≡ dirsiz =
            length-take_more dirsiz elem (ground arith) in
          rw len (elim (Bool-cases (ltb j dirsiz)) [
            | inl u ↦
                let inside : ltb j (length elem) ≡ true = ground arith in
                rw (u, inside) (get_or-take dirsiz j elem (ground arith))
            | inr u ↦ rw u refl
          ])))
]

-- A path that `skipelem` gives nothing for has slashes only. Any other is slashes, an element,
-- more slashes, and the rest that it gives; the element is not empty and has no slash, and is
-- what the name holds.
pub data Splits (path : PathText) (name : Bytes) : Option (PathText × Bytes) → Type 0 where
  nothing : all_slash path ≡ true → Splits path name none
  splits :
      (front elem behind rest : PathText) (name' : Bytes)
      → path ≡ front ++ (elem ++ (behind ++ rest))
      → all_slash front ≡ true
      → elem ≢ []
      → no_slash elem ≡ true
      → all_slash behind ≡ true
      → starts_slash rest ≡ false
      → (rest ≡ []) ⊎ (behind ≢ [])
      → IsName elem name name'
      → Splits path name (some (rest, name'))

all_slash-append : (xs : PathText) → all_slash xs ≡ true → all_slash (xs ++ []) ≡ true
all_slash-append xs h = subst (λ (l : PathText). all_slash l ≡ true) (sym (append-nil xs)) h

-- Behind the element either the path ends or there is a slash.
behind_or_end :
    (path : PathText)
    → (path ≡ []) ⊎ (starts_slash path ≡ true)
    → (skip_slashes path ≡ []) ⊎ (lead path ≢ [])
behind_or_end [] h = inl refl
behind_or_end (c ∷ path) (inl e) = absurd (cc e)
behind_or_end (c ∷ path) (inr e) = inr (rw e (λ q. absurd (cc q)))

pub skipelem-Splits : (path : PathText) (name : Bytes) → Splits path name (skipelem path name)
unfolding skipelem
skipelem-Splits path name = at (skip_slashes path) refl
  where
    at :
        (q : PathText)
        → skip_slashes path ≡ q
        → Splits path name (elim q [
          | [] ↦ none
          | c ∷ rest ↦
              some (skip_slashes (after_elem (c ∷ rest)), store_name (elem_chars (c ∷ rest)) name)
        ])
    at [] e = Splits.nothing (
        subst (λ (l : PathText). all_slash l ≡ true)
          (sym (lead_skip path ∙ ap (λ (l : PathText). lead path ++ l) e))
          (all_slash-append (lead path) (lead_all path)))
    at (c ∷ rest) e =
        let q = c ∷ rest in
        let slash : (c == b'/') ≡ false = ap starts_slash (sym e) ∙ skip_starts path in
        Splits.splits (lead path) (elem_chars q) (lead (after_elem q)) (skip_slashes (after_elem q))
          (store_name (elem_chars q) name)
          (lead_skip path
            ∙ ap (λ (l : PathText). lead path ++ l)
                (e
                  ∙ elem_after q
                  ∙ ap (λ (l : PathText). elem_chars q ++ l) (lead_skip (after_elem q))))
          (lead_all path) (rw slash (λ z. absurd (cc z))) (elem_none q) (lead_all (after_elem q))
          (skip_starts (after_elem q)) (behind_or_end (after_elem q) (after_starts q))
          (store_name-IsName (elem_chars q) name)
