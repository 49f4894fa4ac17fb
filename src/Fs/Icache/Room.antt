-- ===== src/Fs/Icache/Room.antt =====
-- `iget` and the empty entries of the cache.
use my_oslab.Base.{
  ℕ, zero, suc, ◌+◌, ◌<◌, ◌≡◌, ◌≢◌, ◌⊎◌, inl, inr, refl, subst, Option, none, some, [], ◌∷◌, length,
  get_elem?, get_elem?-ne_none, Bool-cases, arith,
}
use my_oslab.Fs.Icache.{
  Inode, Icache, holds, Looked, remember, iget_loop, take_entry, recycle, iget,
}
use my_oslab.Fs.Icache.Unique.{Ends, iget_loop-Ends}

module _ (dev inum : ℕ) where
  -- The loop has no empty entry only if there is none.
  all_used :
      (k : ℕ) (e : Option ℕ) (ips : Icache)
      → iget_loop dev inum k e ips ≡ Looked.miss none
      → (e ≡ none) × ((j : ℕ) (x : Inode) → get_elem? ips j ≡ some x → x.ref ≢ 0)
  unfolding iget_loop
  all_used k e [] h = (cc h, λ j x g. absurd (ground (arith, g)))
  all_used k e (y ∷ ips) h = elim (Bool-cases (holds dev inum y)) [
    | inl t ↦ absurd (let h' = rw (iget_loop, t) at h in ground (arith, h'))
    | inr t ↦
        let (unset, used) =
          all_used (k + 1) (remember dev inum k y e) ips (rw (iget_loop, t) at h) in
        both e unset used
  ]
    where
      both :
          (e : Option ℕ)
          → remember dev inum k y e ≡ none
          → ((j : ℕ) (x : Inode) → get_elem? ips j ≡ some x → x.ref ≢ 0)
          → (e ≡ none) × ((j : ℕ) (x : Inode) → get_elem? (y ∷ ips) j ≡ some x → x.ref ≢ 0)
      both (some m) unset used = absurd (ground (arith, unset))
      both none unset used = (refl, each)
        where
          y_used : y.ref ≢ 0
          y_used = ground (arith, unset)

          each : (j : ℕ) (x : Inode) → get_elem? (y ∷ ips) j ≡ some x → x.ref ≢ 0
          each zero x g = let same : y ≡ x = cc g in subst (λ (z : Inode). z.ref ≢ 0) same y_used
          each (suc j) x g = used j x g

  -- The empty entry is one of the table.
  in_table :
      (k m : ℕ) (e : Option ℕ) (ips : Icache)
      → iget_loop dev inum k e ips ≡ Looked.miss (some m)
      → (e ≡ some m) ⊎ (m < k + length ips)
  unfolding iget_loop
  in_table k m e [] h = inl (cc h)
  in_table k m e (y ∷ ips) h = elim (Bool-cases (holds dev inum y)) [
    | inl t ↦ absurd (let h' = rw (iget_loop, t) at h in ground (arith, h'))
    | inr t ↦ one e (in_table (k + 1) m (remember dev inum k y e) ips (rw (iget_loop, t) at h))
  ]
    where
      one :
          (e : Option ℕ)
          → (remember dev inum k y e ≡ some m) ⊎ (m < k + 1 + length ips)
          → (e ≡ some m) ⊎ (m < k + suc (length ips))
      one e (inr l) = inr (omega arith)
      one (some n) (inl r) = inl r
      one none (inl r) = inr (ground (arith, r))

  -- `iget` does not panic while an entry of the table is empty.
  pub iget_returns :
      (c : Icache) (j : ℕ) (x : Inode) → get_elem? c j ≡ some x → x.ref ≡ 0 → iget dev inum c ≢ none
  unfolding iget
  iget_returns c j x g z = at (iget_loop dev inum 0 none c) refl (iget_loop-Ends dev inum 0 none c)
    where
      some_entry : (i : ℕ) → i < length c → recycle dev inum i c ≢ none
      some_entry i l = at_entry (get_elem? c i) refl
        where
          at_entry : (o : Option Inode) → get_elem? c i ≡ o → recycle dev inum i c ≢ none
          at_entry none g' = absurd (get_elem?-ne_none c i l g')
          at_entry (some y) g' = rw (g', recycle) (λ n. ground (arith, n))

      at :
          (r : Looked dev inum)
          → iget_loop dev inum 0 none c ≡ r
          → Ends dev inum 0 none c r
          → (elim r [
            | Looked.hit k ↦ take_entry dev inum k c
            | Looked.miss none ↦ none
            | Looked.miss (some k) ↦ recycle dev inum k c
          ])
            ≢ none
      at _ eq (Ends.hits i y gy h) =
          let first : 0 + i ≡ i = omega arith in rw (first, gy, take_entry) (λ n. ground (arith, n))
      at _ eq (Ends.misses none all) =
          let (unset, used) = all_used 0 none c eq in absurd (used j x g z)
      at _ eq (Ends.misses (some k) all) = elim (in_table 0 k none c eq) [
        | inl n ↦ absurd (ground (arith, n))
        | inr l ↦ some_entry k (omega arith)
      ]
