-- ===== src/Bio/Links.antt =====
-- Chains through a field of pointers, and what the assignments of a doubly linked list do to them.
use my_oslab.Base.{
  ℕ, ◌≡◌, refl, sym, ap, ◌∙◌, Bool, false, ◌||◌, List, [], ◌∷◌, ◌++◌, ◌==◌, arith, append-nil,
  append_assoc,
}
use my_oslab.Bio.{assign}

abbrev pub has : ℕ → List ℕ → Bool
has a [] = false
has a (x ∷ xs) = (a == x) || has a xs

-- From `a` the pointers lead through the nodes of the list to `z`.
abbrev pub Links : (ℕ → ℕ) → ℕ → List ℕ → ℕ → Type 0
Links f a [] z = f a ≡ z
Links f a (x ∷ xs) z = (f a ≡ x) × Links f x xs z

-- The last node of a list that starts at `a`.
abbrev pub last : ℕ → List ℕ → ℕ
last a [] = a
last a (x ∷ xs) = last x xs

abbrev pub rev : List ℕ → List ℕ
rev [] = []
rev (x ∷ xs) = rev xs ++ (x ∷ [])

pub has-append : (a : ℕ) (xs ys : List ℕ) → has a (xs ++ ys) ≡ (has a xs || has a ys)
has-append a [] ys = refl
has-append a (x ∷ xs) ys = ground (arith, has-append a xs ys)

pub has-rev : (a : ℕ) (xs : List ℕ) → has a (rev xs) ≡ has a xs
has-rev a [] = refl
has-rev a (x ∷ xs) = has-append a (rev xs) (x ∷ []) ∙ ground (arith, has-rev a xs)

abbrev pub Distinct : List ℕ → Type 0
Distinct [] = Unit
Distinct (x ∷ xs) = (has x xs ≡ false) × Distinct xs

-- A chain survives an assignment at a node that it does not start from.
pub Links-assign :
    (f : ℕ → ℕ) (b v a : ℕ) (xs : List ℕ) (z : ℕ)
    → has b (a ∷ xs) ≡ false
    → Links f a xs z
    → Links (assign f b v) a xs z
Links-assign f b v a [] z out h = ground arith
Links-assign f b v a (x ∷ xs) z out (e, h) =
    (ground arith, Links-assign f b v x xs z (ground arith) h)

pub last-avoids : (a : ℕ) (y : ℕ) (ys : List ℕ) → has a (y ∷ ys) ≡ false → (last y ys == a) ≡ false
last-avoids a y [] out = ground arith
last-avoids a y (x ∷ ys) out = last-avoids a x ys (ground arith)

pub has-front : (a : ℕ) (xs ys : List ℕ) → has a (xs ++ ys) ≡ false → has a xs ≡ false
has-front a xs ys out = ground (arith, has-append a xs ys)

pub has-back : (a : ℕ) (xs ys : List ℕ) → has a (xs ++ ys) ≡ false → has a ys ≡ false
has-back a xs ys out = ground (arith, has-append a xs ys)

pub Distinct-back : (xs ys : List ℕ) → Distinct (xs ++ ys) → Distinct ys
Distinct-back [] ys d = d
Distinct-back (x ∷ xs) ys (_, d) = Distinct-back xs ys d

-- The node behind `ys` is taken out: the one before it skips it.
pub Links-unlink :
    (f : ℕ → ℕ) (a : ℕ) (ys : List ℕ) (b : ℕ) (zs : List ℕ) (z : ℕ)
    → Distinct (a ∷ (ys ++ (b ∷ zs)))
    → Links f a (ys ++ (b ∷ zs)) z
    → Links (assign f (last a ys) (f b)) a (ys ++ zs) z
Links-unlink f a [] b zs z d (e, h) = skip zs h (ground arith)
  where
    skip : (zs : List ℕ) → Links f b zs z → has a zs ≡ false → Links (assign f a (f b)) a zs z
    skip [] h o = ground arith
    skip (x ∷ zs) (e, h) o = (ground arith, Links-assign f a (f b) x zs z o h)
Links-unlink f a (y ∷ ys) b zs z (out, d) (e, h) = (
  ground (arith, last-avoids a y ys (has-front a (y ∷ ys) (b ∷ zs) out)),
  Links-unlink f y ys b zs z d h,
)

-- A node is put in at the front.
pub Links-insert :
    (f : ℕ → ℕ) (a b : ℕ) (xs : List ℕ) (z : ℕ)
    → has b (a ∷ xs) ≡ false
    → has a xs ≡ false
    → Links f a xs z
    → Links (assign (assign f b (f a)) a b) a (b ∷ xs) z
Links-insert f a b [] z out o h = (ground arith, ground arith)
Links-insert f a b (x ∷ xs) z out o (e, h) = (
  ground arith,
  (
    ground arith,
    Links-assign (assign f b (f a)) a b x xs z o (Links-assign f b (f a) x xs z (ground arith) h),
  ),
)

-- A node is put in at the end.
pub Links-snoc :
    (f : ℕ → ℕ) (a : ℕ) (us : List ℕ) (b z : ℕ)
    → has b (a ∷ us) ≡ false
    → Distinct (a ∷ us)
    → Links f a us z
    → Links (assign (assign f b z) (last a us) b) a (us ++ (b ∷ [])) z
Links-snoc f a [] b z out d h = (ground arith, ground arith)
Links-snoc f a (y ∷ us) b z out (o, d) (e, h) =
    (ground (arith, last-avoids a y us o), Links-snoc f y us b z (ground arith) d h)

pub Links-last : (f : ℕ → ℕ) (a : ℕ) (xs : List ℕ) (z : ℕ) → Links f a xs z → f (last a xs) ≡ z
Links-last f a [] z h = h
Links-last f a (x ∷ xs) z (e, h) = Links-last f x xs z h

pub last-append : (a b : ℕ) (xs ys : List ℕ) → last a (xs ++ (b ∷ ys)) ≡ last b ys
last-append a b [] ys = refl
last-append a b (x ∷ xs) ys = last-append x b xs ys

-- The node in the middle points to the first behind it.
pub Links-middle :
    (f : ℕ → ℕ) (a : ℕ) (ys : List ℕ) (b : ℕ) (zs : List ℕ) (z : ℕ)
    → Links f a (ys ++ (b ∷ zs)) z
    → Links f b zs z
Links-middle f a [] b zs z (e, h) = h
Links-middle f a (y ∷ ys) b zs z (e, h) = Links-middle f y ys b zs z h

pub rev-append : (xs ys : List ℕ) → rev (xs ++ ys) ≡ rev ys ++ rev xs
rev-append [] ys = sym (append-nil (rev ys))
rev-append (x ∷ xs) ys =
    ap (λ (l : List ℕ). l ++ (x ∷ [])) (rev-append xs ys) ∙ append_assoc (rev ys) (rev xs) (x ∷ [])

pub Distinct-drop :
    (xs : List ℕ) (b : ℕ) (ys : List ℕ) → Distinct (xs ++ (b ∷ ys)) → Distinct (xs ++ ys)
Distinct-drop [] b ys (_, d) = d
Distinct-drop (x ∷ xs) b ys (o, d) =
    (ground (arith, has-append x xs (b ∷ ys), has-append x xs ys), Distinct-drop xs b ys d)

-- A node in the middle of a list without repetition is nowhere else.
pub Distinct-middle :
    (xs : List ℕ) (b : ℕ) (ys : List ℕ) → Distinct (xs ++ (b ∷ ys)) → has b (xs ++ ys) ≡ false
Distinct-middle [] b ys (o, d) = o
Distinct-middle (x ∷ xs) b ys (o, d) =
    ground (arith, has-append x xs (b ∷ ys), Distinct-middle xs b ys d)

pub Distinct-rev : (xs : List ℕ) → Distinct xs → Distinct (rev xs)
Distinct-rev [] d = tt
Distinct-rev (x ∷ xs) (o, d) = snoc (rev xs) (Distinct-rev xs d) (has-rev x xs ∙ o)
  where
    snoc : (ys : List ℕ) → Distinct ys → has x ys ≡ false → Distinct (ys ++ (x ∷ []))
    snoc [] d o = (refl, tt)
    snoc (y ∷ ys) (q, d) o = (ground (arith, has-append y ys (x ∷ [])), snoc ys d (ground arith))

pub rev-rev : (xs : List ℕ) → rev (rev xs) ≡ xs
rev-rev [] = refl
rev-rev (x ∷ xs) = rev-append (rev xs) (x ∷ []) ∙ ap (λ (l : List ℕ). x ∷ l) (rev-rev xs)

-- Where the chain goes first is where the chain the other way ends.
pub Links-first : (f : ℕ → ℕ) (a : ℕ) (xs : List ℕ) (z : ℕ) → Links f a xs z → f a ≡ last z (rev xs)
Links-first f a [] z h = h
Links-first f a (x ∷ xs) z (e, h) = e ∙ sym (last-append z x (rev xs) [])
