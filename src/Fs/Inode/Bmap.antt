-- ===== src/Fs/Inode/Bmap.antt =====
-- `bmap` finds again what it has allocated.
use my_oslab.Base.{
  ℕ, ◌+◌, ◌-◌, ◌^◌, ◌<◌, ◌≡◌, ◌≢◌, inl, inr, refl, ap, subst, ◌∙◌, true, false, Option, none, some,
  length, get_or, get_or-set_self, set, ltb, ◌==◌, ==_self, Bool-cases, arith,
}
use my_oslab.Strings.{Bytes}
use my_oslab.Fs.{Superblock, Device, balloc, write_block}
use my_oslab.Fs.Balloc.{is_used, Allotted, balloc-Allotted}
use my_oslab.Fs.Icache.{Inode}
use my_oslab.Fs.Inode.{
  ndirect, nindirect, word_at, put_word, set_addr, set_word, with_inode, find_indirect, own_addr,
  indirect_addr, bmap,
}

word_at-put_word : (bp : Bytes) (j v : ℕ) → v < 2 ^ 32 → word_at (put_word bp j v) j ≡ v
word_at-put_word bp j v h = ground arith

module _ (sb : Superblock) where
  pub own_addr_found :
      (k : ℕ) (ip : Inode) (e : Device) (a : ℕ)
      → get_or ip.copy.addrs k 0 ≡ a
      → a ≢ 0
      → own_addr sb k ip e ≡ some (a, (ip, e))
  unfolding own_addr
  own_addr_found k ip e a h nz =
      let used : (get_or ip.copy.addrs k 0 == 0) ≡ false = ground arith in
      rw (own_addr, used) (ap (λ x. some (x, (ip, e))) h)

  pub indirect_addr_found :
      (a bn : ℕ) (d : Device) (w : ℕ)
      → word_at (d.blocks a) bn ≡ w
      → w ≢ 0
      → indirect_addr sb a bn d ≡ some (w, d)
  unfolding indirect_addr
  indirect_addr_found a bn d w h nz =
      let used : (word_at (d.blocks a) bn == 0) ≡ false = ground arith in
      rw (indirect_addr, used) (ap (λ x. some (x, d)) h)

  own_addr_again :
      (k : ℕ) (ip ip' : Inode) (d d' : Device) (b : ℕ)
      → k < length ip.copy.addrs
      → b ≢ 0
      → own_addr sb k ip d ≡ some (b, (ip', d'))
      → (e : Device) → own_addr sb k ip' e ≡ some (b, (ip', e))
  unfolding own_addr
  own_addr_again k ip ip' d d' b l nz h e = elim (Bool-cases (get_or ip.copy.addrs k 0 == 0)) [
    | inl z ↦ fresh (balloc sb d) (rw (own_addr, z) at h)
    | inr z ↦
        let h' = rw (own_addr, z) at h in
        let same : ip ≡ ip' = cc h' in
        let addr : get_or ip.copy.addrs k 0 ≡ b = cc h' in
        subst (λ (x : Inode). own_addr sb k x e ≡ some (b, (x, e))) same
          (own_addr_found k ip e b addr nz)
  ]
    where
      fresh :
          (o : Option (ℕ × Device))
          → set_addr sb k ip o ≡ some (b, (ip', d'))
          → own_addr sb k ip' e ≡ some (b, (ip', e))
      fresh none h' = absurd (ground (arith, h'))
      fresh (some (c, d1)) h' =
          let x : Inode = record ip { copy = record (ip.copy) { addrs = set ip.copy.addrs k c } } in
          let same : x ≡ ip' = cc h' in
          let block : c ≡ b = cc h' in
          let there : get_or (set ip.copy.addrs k c) k 0 ≡ c =
            get_or-set_self ip.copy.addrs k c 0 l in
          subst (λ (y : Inode). own_addr sb k y e ≡ some (b, (y, e))) same
            (own_addr_found k x e b (there ∙ block) nz)

  indirect_addr_again :
      (a bn : ℕ) (d d' : Device) (b : ℕ)
      → b ≢ 0
      → b < 2 ^ 32
      → indirect_addr sb a bn d ≡ some (b, d')
      → indirect_addr sb a bn d' ≡ some (b, d')
  unfolding indirect_addr
  indirect_addr_again a bn d d' b nz small h = elim (Bool-cases (word_at (d.blocks a) bn == 0)) [
    | inl z ↦ fresh (balloc sb d) (rw (indirect_addr, z) at h)
    | inr z ↦
        let h' = rw (indirect_addr, z) at h in
        let same : d ≡ d' = cc h' in
        let addr : word_at (d.blocks a) bn ≡ b = cc h' in
        subst (λ (x : Device). indirect_addr sb a bn x ≡ some (b, x)) same
          (indirect_addr_found a bn d b addr nz)
  ]
    where
      fresh :
          (o : Option (ℕ × Device))
          → set_word sb a bn o ≡ some (b, d')
          → indirect_addr sb a bn d' ≡ some (b, d')
      fresh none h' = absurd (ground (arith, h'))
      fresh (some (c, d1)) h' =
          let x : Device = write_block a (put_word (d1.blocks a) bn c) d1 in
          let same : x ≡ d' = cc h' in
          let block : c ≡ b = cc h' in
          let there : word_at (x.blocks a) bn ≡ c =
            rw (==_self a) (word_at-put_word (d1.blocks a) bn c (omega arith)) in
          subst (λ (y : Device). indirect_addr sb a bn y ≡ some (b, y)) same
            (indirect_addr_found a bn x b (there ∙ block) nz)

  -- `balloc` does not return block 0 where that is in use.
  balloc-ne_zero :
      (d d' : Device) (r : ℕ) → is_used sb d 0 ≡ true → balloc sb d ≡ some (r, d') → r ≢ 0
  balloc-ne_zero d d' r used h = at (balloc sb d) (balloc-Allotted sb d) h
    where
      at : (o : Option (ℕ × Device)) → Allotted 0 sb d o → o ≡ some (r, d') → r ≢ 0
      at _ (Allotted.takes q l h' f before) e z =
          let same : q ≡ r = cc e in
          let at_zero : is_used sb d 0 ≡ false = rw (same ∙ z) at f in
          absurd (ground (arith, at_zero, used))
      at _ (Allotted.panics all) e z = absurd (ground (arith, e))

  own_addr-ne_zero :
      (k : ℕ) (ip ip' : Inode) (d d' : Device) (a : ℕ)
      → is_used sb d 0 ≡ true
      → own_addr sb k ip d ≡ some (a, (ip', d'))
      → a ≢ 0
  unfolding own_addr
  own_addr-ne_zero k ip ip' d d' a used h = elim (Bool-cases (get_or ip.copy.addrs k 0 == 0)) [
    | inl z ↦ fresh (balloc sb d) refl (rw (own_addr, z) at h)
    | inr z ↦
        let h' = rw (own_addr, z) at h in
        let addr : get_or ip.copy.addrs k 0 ≡ a = cc h' in λ e. absurd (ground (arith, z, addr, e))
  ]
    where
      fresh :
          (o : Option (ℕ × Device))
          → balloc sb d ≡ o
          → set_addr sb k ip o ≡ some (a, (ip', d'))
          → a ≢ 0
      fresh none eq h' = absurd (ground (arith, h'))
      fresh (some (c, d1)) eq h' =
          let block : c ≡ a = cc h' in subst (λ x. x ≢ 0) block (balloc-ne_zero d d1 c used eq)

  -- Where block 0 is in use, a block that `bmap` has returned, of 32 bits and not 0, is the one
  -- that it returns again for the inode and the device that it left, which it leaves as they are.
  pub bmap_again :
      (bn : ℕ) (ip ip' : Inode) (d d' : Device) (b : ℕ)
      → length ip.copy.addrs ≡ ndirect + 1
      → is_used sb d 0 ≡ true
      → b ≢ 0
      → b < 2 ^ 32
      → bmap sb bn ip d ≡ some (b, (ip', d'))
      → bmap sb bn ip' d' ≡ some (b, (ip', d'))
  unfolding bmap
  bmap_again bn ip ip' d d' b l used nz small h = elim (Bool-cases (ltb bn ndirect)) [
    | inl t ↦
        rw (bmap, t) (own_addr_again bn ip ip' d d' b (ground arith) nz (rw (bmap, t) at h) d')
    | inr t ↦ elim (Bool-cases (ltb (bn - ndirect) nindirect)) [
      | inl u ↦ rw (bmap, t, u) (outer (own_addr sb ndirect ip d) refl (rw (bmap, t, u) at h))
      | inr u ↦ absurd (let h' = rw (bmap, t, u) at h in ground (arith, h'))
    ]
  ]
    where
      inner :
          (a : ℕ) (ip1 : Inode) (d1 : Device) (o : Option (ℕ × Device))
          → own_addr sb ndirect ip d ≡ some (a, (ip1, d1))
          → indirect_addr sb a (bn - ndirect) d1 ≡ o
          → with_inode sb ip1 o ≡ some (b, (ip', d'))
          → find_indirect sb (bn - ndirect) (own_addr sb ndirect ip' d') ≡ some (b, (ip', d'))
      inner a ip1 d1 none eq eq' h' = absurd (ground (arith, h'))
      inner a ip1 d1 (some (c, d2)) eq eq' h' =
          let whole : (c, (ip1, d2)) ≡ (b, (ip', d')) = cc h' in
          let block : c ≡ b = ap (λ q. q.0) whole in
          let first =
            own_addr_again ndirect ip ip1 d d1 a (omega arith)
              (own_addr-ne_zero ndirect ip ip1 d d1 a used eq) eq d2 in
          let second =
            indirect_addr_again a (bn - ndirect) d1 d2 c (rw block nz) (rw block small) eq' in
          let again : find_indirect sb (bn - ndirect) (own_addr sb ndirect ip1 d2)
              ≡ some (c, (ip1, d2)) =
            ap (find_indirect sb (bn - ndirect)) first ∙ ap (with_inode sb ip1) second in
          subst
            (λ (q : ℕ × (Inode × Device)).
              find_indirect sb (bn - ndirect) (own_addr sb ndirect q.1.0 q.1.1) ≡ some q)
            whole again

      outer :
          (o : Option (ℕ × (Inode × Device)))
          → own_addr sb ndirect ip d ≡ o
          → find_indirect sb (bn - ndirect) o ≡ some (b, (ip', d'))
          → find_indirect sb (bn - ndirect) (own_addr sb ndirect ip' d') ≡ some (b, (ip', d'))
      outer none eq h' = absurd (ground (arith, h'))
      outer (some (a, (ip1, d1))) eq h' =
          inner a ip1 d1 (indirect_addr sb a (bn - ndirect) d1) eq refl h'
