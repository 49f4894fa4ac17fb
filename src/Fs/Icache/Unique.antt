-- ===== src/Fs/Icache/Unique.antt =====
-- No inode has two entries of the cache.
use my_oslab.Base.{
  ℕ, zero, suc, ◌+◌, ◌<◌, ◌≡◌, ◌≢◌, ◌⊎◌, inl, inr, refl, sym, ap₂, subst, ◌∙◌, true, false, Option,
  none, some, [], ◌∷◌, length, get_elem?, get_elem?-set_self, get_elem?-set_ne, lt-of_get_elem?,
  set, ◌==◌, Bool-cases, arith,
}
use my_oslab.Fs.Icache.{
  Inode, Icache, holds, Looked, remember, iget_loop, take_entry, recycle, iget,
}

-- No inode has two entries that are in use.
abbrev pub IsUnique : Icache → Type 0
IsUnique c =
    (i j : ℕ) (x y : Inode)
    → get_elem? c i ≡ some x
    → get_elem? c j ≡ some y
    → 0 < y.ref
    → holds y.dev y.inum x ≡ true
    → i ≡ j

module _ (dev inum : ℕ) where
  -- Where the loop has ended, from entry `k` on with `e` as the empty one.
  pub data Ends (k : ℕ) (e : Option ℕ) (ips : Icache) : Looked dev inum → Type 0 where
    hits :
        (j : ℕ) (x : Inode)
        → get_elem? ips j ≡ some x
        → holds dev inum x ≡ true
        → Ends k e ips (Looked.hit (k + j))
    misses :
        (e' : Option ℕ)
        → ((j : ℕ) (x : Inode) → get_elem? ips j ≡ some x → holds dev inum x ≡ false)
        → Ends k e ips (Looked.miss e')

  Ends-cons :
      (k : ℕ) (e e' : Option ℕ) (x : Inode) (ips : Icache) (r : Looked dev inum)
      → holds dev inum x ≡ false
      → Ends (k + 1) e' ips r
      → Ends k e (x ∷ ips) r
  Ends-cons k e e' x ips _ h (hits j y g m) =
      let next : k + 1 + j ≡ k + suc j = omega arith in rw next (Ends.hits (suc j) y g m)
  Ends-cons k e e' x ips _ h (misses e'' all) = Ends.misses e'' each
    where
      each : (j : ℕ) (y : Inode) → get_elem? (x ∷ ips) j ≡ some y → holds dev inum y ≡ false
      each zero y g =
          let same : x ≡ y = cc g in subst (λ (z : Inode). holds dev inum z ≡ false) same h
      each (suc j) y g = all j y g

  pub iget_loop-Ends :
      (k : ℕ) (e : Option ℕ) (ips : Icache) → Ends k e ips (iget_loop dev inum k e ips)
  unfolding iget_loop
  iget_loop-Ends k e [] = Ends.misses e (λ j x g. absurd (ground (arith, g)))
  iget_loop-Ends k e (x ∷ ips) = elim (Bool-cases (holds dev inum x)) [
    | inl h ↦
        rw (iget_loop, h)
          (let here : k + 0 ≡ k = omega arith in
            subst (λ i. Ends k e (x ∷ ips) (Looked.hit i)) here (Ends.hits 0 x refl h))
    | inr h ↦
        rw (iget_loop, h)
          (Ends-cons k e (remember dev inum k x e) x ips _ h
            (iget_loop-Ends (k + 1) (remember dev inum k x e) ips))
  ]

set-IsUnique :
    (c : Icache) (j : ℕ) (z : Inode)
    → IsUnique c
    → j < length c
    → ((m : ℕ) (y : Inode) → m ≢ j → get_elem? c m ≡ some y → holds z.dev z.inum y ≡ false)
    → IsUnique (set c j z)
set-IsUnique c j z u l alone m n x y gx gy used same =
    at (Bool-cases (m == j)) (Bool-cases (n == j))
  where
    here : (i : ℕ) (w : Inode) → (i == j) ≡ true → get_elem? (set c j z) i ≡ some w → z ≡ w
    here i w e g = let i=j : i ≡ j = ground arith in cc (get_elem?-set_self c j z l, rw i=j at g)

    there :
        (i : ℕ) (w : Inode)
        → (i == j) ≡ false
        → get_elem? (set c j z) i ≡ some w
        → get_elem? c i ≡ some w
    there i w e g = sym (get_elem?-set_ne c j i z (ground arith)) ∙ g

    at : (m == j ≡ true) ⊎ (m == j ≡ false) → (n == j ≡ true) ⊎ (n == j ≡ false) → m ≡ n
    at (inl a) (inl b) = ground arith
    at (inl a) (inr b) =
        let other = alone n y (ground arith) (there n y b gy) in
        let zx : z ≡ x = here m x a gx in let bad = rw zx at other in absurd (ground (arith, bad))
    at (inr a) (inl b) =
        let other = alone m x (ground arith) (there m x a gx) in
        let zy : z ≡ y = here n y b gy in let bad = rw zy at other in absurd (ground (arith, bad))
    at (inr a) (inr b) = u m n x y (there m x a gx) (there n y b gy) used same

-- `iget` has returned entry `i`: it holds the inode, and no inode has two entries.
pub record Got (dev inum i : ℕ) (c : Icache) : Type 0 where
  pub entry : Inode
  pub found : get_elem? c i ≡ some entry
  pub holds_it : holds dev inum entry ≡ true
  pub unique : IsUnique c

module _ (dev inum : ℕ) (c : Icache) (u : IsUnique c) where
  take_entry-Got :
      (j : ℕ) (x : Inode) (i : ℕ) (c' : Icache)
      → get_elem? c j ≡ some x
      → holds dev inum x ≡ true
      → take_entry dev inum j c ≡ some (i, c')
      → Got dev inum i c'
  take_entry-Got j x i c' g h e =
      let z : Inode = record x { ref = x.ref + 1 } in
      let l = lt-of_get_elem? c j x g in
      let both : some (j, set c j z) ≡ some (i, c') = rw (g, take_entry) at e in
      let same_i : j ≡ i = cc both in
      let same_c : set c j z ≡ c' = cc both in
      subst (λ (p : ℕ × Icache). Got dev inum p.0 p.1) (ap₂ (λ a b. (a, b)) same_i same_c)
        (record {
          entry = z;
          found = get_elem?-set_self c j z l;
          holds_it = ground arith;
          unique = set-IsUnique c j z u l alone;
        })
    where
      alone : (m : ℕ) (y : Inode) → m ≢ j → get_elem? c m ≡ some y → holds x.dev x.inum y ≡ false
      alone m y ne gy = elim (Bool-cases (holds x.dev x.inum y)) [
        | inl t ↦ absurd (ne (u m j y x gy g (ground arith) t))
        | inr t ↦ t
      ]

  recycle-Got :
      (j i : ℕ) (c' : Icache)
      → ((m : ℕ) (y : Inode) → get_elem? c m ≡ some y → holds dev inum y ≡ false)
      → recycle dev inum j c ≡ some (i, c')
      → Got dev inum i c'
  recycle-Got j i c' none_holds e = at (get_elem? c j) refl
    where
      at : (o : Option Inode) → get_elem? c j ≡ o → Got dev inum i c'
      at none g = absurd (let e' = rw (g, recycle) at e in ground (arith, e'))
      at (some x) g =
          let z : Inode = record x { dev = dev; inum = inum; ref = 1; valid = 0 } in
          let l = lt-of_get_elem? c j x g in
          let both : some (j, set c j z) ≡ some (i, c') = rw (g, recycle) at e in
          let same_i : j ≡ i = cc both in
          let same_c : set c j z ≡ c' = cc both in
          subst (λ (p : ℕ × Icache). Got dev inum p.0 p.1) (ap₂ (λ a b. (a, b)) same_i same_c)
            (record {
              entry = z;
              found = get_elem?-set_self c j z l;
              holds_it = ground arith;
              unique = set-IsUnique c j z u l (λ m y ne gy. none_holds m y gy);
            })

  -- Where no inode has two entries in use, the entry that `iget` returns holds the inode asked for
  -- and is in use, and still no inode has two.
  pub iget-Got : (i : ℕ) (c' : Icache) → iget dev inum c ≡ some (i, c') → Got dev inum i c'
  unfolding iget
  iget-Got i c' e = at (iget_loop dev inum 0 none c) (iget_loop-Ends dev inum 0 none c) e
    where
      at :
          (r : Looked dev inum)
          → Ends dev inum 0 none c r
          → (elim r [
            | Looked.hit k ↦ take_entry dev inum k c
            | Looked.miss none ↦ none
            | Looked.miss (some k) ↦ recycle dev inum k c
          ])
            ≡ some (i, c')
          → Got dev inum i c'
      at _ (hits j x g h) e =
          let first : 0 + j ≡ j = omega arith in take_entry-Got j x i c' g h (rw first at e)
      at _ (misses none all) e = absurd (ground (arith, e))
      at _ (misses (some k) all) e = recycle-Got k i c' all e
