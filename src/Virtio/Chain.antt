-- ===== src/Virtio/Chain.antt =====
-- The chain of descriptors that a request takes is free again when the request is finished.
use my_oslab.Base.{
  set_comm, ℕ, suc, ◌+◌, ◌≡◌, ◌≢◌, refl, sym, ap, subst, ◌∙◌, Bool, true, false, Option, none, some,
  List, [], ◌∷◌, get_elem?, get_elem?-set_self, get_elem?-set_ne, lt-of_get_elem?, set, set-set,
  set_same, ==_self, ne→==, if◌then◌else◌, arith,
}
use my_oslab.Virtio.{
  Desc, Disk, put_at, take_free, alloc_desc, free_desc, released, has_next, chain_on, chain_next,
  free_chain, free_all, free_next, given_back, Three, third_desc, second_desc, first_desc,
  alloc3_desc, format, submit, finish,
}

-- The descriptor that the loop of `alloc_desc` takes.
data Taken (i : ℕ) (free : List Bool) : Option ℕ × List Bool → Type 0 where
  takes : (n : ℕ) → get_elem? free n ≡ some true → Taken i free (some (i + n), set free n false)
  full : Taken i free (none, free)

take_free-Taken : (i : ℕ) (free : List Bool) → Taken i free (take_free i free)
unfolding take_free
take_free-Taken i [] = Taken.full
take_free-Taken i (true ∷ free) =
    let same : i + 0 ≡ i = omega arith in
    subst (λ (n : ℕ). Taken i (true ∷ free) (some n, false ∷ free)) same (Taken.takes 0 refl)
take_free-Taken i (false ∷ free) = later (take_free (i + 1) free) (take_free-Taken (i + 1) free)
  where
    later :
        (r : Option ℕ × List Bool)
        → Taken (i + 1) free r
        → Taken i (false ∷ free) (r.0, false ∷ r.1)
    later _ (Taken.takes n e) =
        let same : i + suc n ≡ i + 1 + n = omega arith in
        subst (λ (k : ℕ). Taken i (false ∷ free) (some k, false ∷ set free n false)) same
          (Taken.takes (suc n) e)
    later _ Taken.full = Taken.full

-- What `alloc_desc` does.
data Allocs (d : Disk) : Option ℕ × Disk → Type 0 where
  allocs :
      (a : ℕ)
      → get_elem? d.free a ≡ some true
      → Allocs d (some a, record d { free = set d.free a false })
  fails : Allocs d (none, d)

alloc_desc-Allocs : (d : Disk) → Allocs d (alloc_desc d)
unfolding alloc_desc
alloc_desc-Allocs d = at (take_free 0 d.free) (take_free-Taken 0 d.free)
  where
    at : (r : Option ℕ × List Bool) → Taken 0 d.free r → Allocs d (r.0, record d { free = r.1 })
    at _ (Taken.takes n e) =
        let same : 0 + n ≡ n = omega arith in
        subst (λ (k : ℕ). Allocs d (some k, record d { free = set d.free n false })) (sym same)
          (Allocs.allocs n e)
    at _ Taken.full = Allocs.fails

free_desc-released :
    (chan i : ℕ) (d : Disk)
    → get_elem? d.free i ≡ some false
    → free_desc chan i d ≡ some (released chan i d)
unfolding free_desc
free_desc-released chan i d e = rw (free_desc, e) refl

chain_on_next :
    (go : ℕ → Disk → Option Disk) (x : Desc) (d : Disk) (n : ℕ)
    → has_next x.flags ≡ true
    → x.next ≡ n
    → chain_on go x d ≡ go n d
chain_on_next go x d n e next = rw (chain_on, e) (ap (λ (i : ℕ). go i d) next)

chain_on_end :
    (go : ℕ → Disk → Option Disk) (x : Desc) (d : Disk)
    → has_next x.flags ≡ false
    → chain_on go x d ≡ some d
chain_on_end go x d e = rw (chain_on, e) refl

put_at_self : {A : Type 0} (f : ℕ → A) (i : ℕ) (v : A) → put_at f i v i ≡ v
put_at_self f i v = rw (==_self i) refl

put_at_ne : {A : Type 0} (f : ℕ → A) (i j : ℕ) (v : A) → j ≢ i → put_at f i v j ≡ f j
put_at_ne f i j v h = rw (ne→== j i h) refl

chain_step :
    (chan fuel i n : ℕ) (d : Disk)
    → get_elem? d.free i ≡ some false
    → has_next (d.desc i).flags ≡ true
    → (d.desc i).next ≡ n
    → free_chain chan (suc fuel) i d ≡ free_chain chan fuel n (released chan i d)
unfolding free_chain
chain_step chan fuel i n d e more next =
    let go : ℕ → Disk → Option Disk = λ j x. free_chain chan fuel j x in
    ap (chain_next go i) (free_desc-released chan i d e)
    ∙ ap (λ (x : Desc). chain_on go x (released chan i d))
        (put_at_self d.desc i (record (d.desc i) { addr = 0 }))
    ∙ chain_on_next go (record (d.desc i) { addr = 0 }) (released chan i d) n more next

chain_end :
    (chan fuel i : ℕ) (d : Disk)
    → get_elem? d.free i ≡ some false
    → has_next (d.desc i).flags ≡ false
    → free_chain chan (suc fuel) i d ≡ some (released chan i d)
unfolding free_chain
chain_end chan fuel i d e last =
    let go : ℕ → Disk → Option Disk = λ j x. free_chain chan fuel j x in
    ap (chain_next go i) (free_desc-released chan i d e)
    ∙ ap (λ (x : Desc). chain_on go x (released chan i d))
        (put_at_self d.desc i (record (d.desc i) { addr = 0 }))
    ∙ chain_on_end go (record (d.desc i) { addr = 0 }) (released chan i d) last

-- A descriptor that was free is taken, and another one is as before.
taken_self :
    (xs : List Bool) (a : ℕ) (v w : Bool)
    → get_elem? xs a ≡ some w
    → get_elem? (set xs a v) a ≡ some v
taken_self xs a v w e = get_elem?-set_self xs a v (lt-of_get_elem? xs a w e)

-- One that is free behind the taking of another is not that one.
other_free :
    (xs : List Bool) (a b : ℕ)
    → get_elem? xs a ≡ some true
    → get_elem? (set xs a false) b ≡ some true
    → (a ≢ b) × (get_elem? xs b ≡ some true)
other_free xs a b e h = (differ, sym (get_elem?-set_ne xs a b false differ) ∙ h)
  where
    differ : a ≢ b
    differ s =
        let at_b : get_elem? xs b ≡ some true = subst (λ (i : ℕ). get_elem? xs i ≡ some true) s e in
        let now : get_elem? (set xs a false) b ≡ some false =
          subst (λ (i : ℕ). get_elem? (set xs i false) b ≡ some false) (sym s)
            (taken_self xs b false true at_b) in
        absurd (cc (sym now ∙ h))

-- The three descriptors of a request, in a list of which they were taken.
pub record AreTaken (free : List Bool) (a b c : ℕ) : Type 0 where
  pub free_a : get_elem? free a ≡ some true
  pub free_b : get_elem? free b ≡ some true
  pub free_c : get_elem? free c ≡ some true
  pub a-b : a ≢ b
  pub a-c : a ≢ c
  pub b-c : b ≢ c

abbrev pub without : List Bool → ℕ → ℕ → ℕ → List Bool
without free a b c = set (set (set free a false) b false) c false

-- The first of two that were taken is free again.
unset :
    (free : List Bool) (a b : ℕ)
    → a ≢ b
    → get_elem? free a ≡ some true
    → set (set (set free a false) b false) a true ≡ set free b false
unset free a b h e =
    ap (λ (l : List Bool). set l a true) (set_comm free a b false false h)
    ∙ set-set (set free b false) a false true
    ∙ set_same (set free b false) a true (get_elem?-set_ne free b a false (λ q. h (sym q)) ∙ e)

back_one :
    (free : List Bool) (a : ℕ) → get_elem? free a ≡ some true → set (set free a false) a true ≡ free
back_one free a e = set-set free a false true ∙ set_same free a true e

-- The three are free again.
back_three :
    (free : List Bool) (a b c : ℕ)
    → AreTaken free a b c
    → set (set (set (without free a b c) a true) b true) c true ≡ free
back_three free a b c t =
    ap (λ (l : List Bool). set (set (set (set l c false) a true) b true) c true)
      (set_comm free a b false false t.a-b)
    ∙ ap (λ (l : List Bool). set (set l b true) c true)
        (unset (set free b false) a c t.a-c
          (get_elem?-set_ne free b a false (λ q. t.a-b (sym q)) ∙ t.free_a))
    ∙ ap (λ (l : List Bool). set l c true) (unset free b c t.b-c t.free_b)
    ∙ back_one free c t.free_c

-- What `alloc3_desc` does: three descriptors or none, and no panic.
pub data Allots3 (chan : ℕ) (d : Disk) : Option (Option Three × Disk) → Type 0 where
  allots :
      (a b c : ℕ)
      → AreTaken d.free a b c
      → Allots3 chan d (some (some (a, (b, c)), record d { free = without d.free a b c }))
  none_left : (d' : Disk) → d'.free ≡ d.free → Allots3 chan d (some (none, d'))

alloc3_desc-Allots3 : (chan : ℕ) (d : Disk) → Allots3 chan d (alloc3_desc chan d)
unfolding alloc3_desc
alloc3_desc-Allots3 chan d = first (alloc_desc d) (alloc_desc-Allocs d)
  where
    third :
        (a b : ℕ) (r : Option ℕ × Disk)
        → a ≢ b
        → get_elem? d.free a ≡ some true
        → get_elem? d.free b ≡ some true
        → Allocs (record d { free = set (set d.free a false) b false }) r
        → Allots3 chan d (third_desc chan a b r)
    third a b _ ne ea eb (Allocs.allocs c ec) =
        let (b-c, ec') =
          other_free (set d.free a false) b c (get_elem?-set_ne d.free a b false ne ∙ eb) ec in
        let (a-c, ec'') = other_free d.free a c ea ec' in
        Allots3.allots a b c
          record { free_a = ea; free_b = eb; free_c = ec''; a-b = ne; a-c = a-c; b-c = b-c }
    third a b _ ne ea eb Allocs.fails =
        let d2 = record d { free = set (set d.free a false) b false } in
        let ne' : b ≢ a = λ q. ne (sym q) in
        let at_a : get_elem? d2.free a ≡ some false =
          get_elem?-set_ne (set d.free a false) b a false ne' ∙ taken_self d.free a false true ea in
        let at_b : get_elem? (set d2.free a true) b ≡ some false =
          get_elem?-set_ne d2.free a b true ne
          ∙ taken_self (set d.free a false) b false true
              (get_elem?-set_ne d.free a b false ne ∙ eb) in
        let back : set (set d2.free a true) b true ≡ d.free =
          ap (λ (l : List Bool). set l b true) (unset d.free a b ne ea) ∙ back_one d.free b eb in
        subst (Allots3 chan d)
          (sym (
            ap (λ (r : Option Disk). given_back (free_next (free_all chan (b ∷ [])) r))
              (free_desc-released chan a d2 at_a)
            ∙ ap (λ (r : Option Disk). given_back (free_next (free_all chan []) r))
                (free_desc-released chan b (released chan a d2) at_b)))
          (Allots3.none_left (released chan b (released chan a d2)) back)

    second :
        (a : ℕ) (r : Option ℕ × Disk)
        → get_elem? d.free a ≡ some true
        → Allocs (record d { free = set d.free a false }) r
        → Allots3 chan d (second_desc chan a r)
    second a _ ea (Allocs.allocs b eb) =
        let (ne, eb') = other_free d.free a b ea eb in
        let d2 = record d { free = set (set d.free a false) b false } in
        third a b (alloc_desc d2) ne ea eb' (alloc_desc-Allocs d2)
    second a _ ea Allocs.fails =
        let d1 = record d { free = set d.free a false } in
        subst (Allots3 chan d)
          (sym (
            ap (λ (r : Option Disk). given_back (free_next (free_all chan []) r))
              (free_desc-released chan a d1 (taken_self d.free a false true ea))))
          (Allots3.none_left (released chan a d1) (back_one d.free a ea))

    first : (r : Option ℕ × Disk) → Allocs d r → Allots3 chan d (first_desc chan r)
    first _ (Allocs.allocs a ea) =
        let d1 = record d { free = set d.free a false } in
        second a (alloc_desc d1) ea (alloc_desc-Allocs d1)
    first _ Allocs.fails = Allots3.none_left d refl

-- The flags of the second descriptor lead on, whether it is for a read or a write.
second_leads : (write : Bool) → has_next ((if write then 0 else 2) + 1) ≡ true
second_leads true = refl
second_leads false = refl

finished :
    (chan header block status buf : ℕ) (write : Bool) (e d3 : Disk) (a b c : ℕ) (free : List Bool)
    → AreTaken free a b c
    → d3.desc ≡ (submit header block status buf write (a, (b, c)) e).desc
    → d3.free ≡ without free a b c
    → (d4 : Disk) × (finish chan (a, (b, c)) d3 ≡ some d4) × (d4.free ≡ free)
unfolding submit format finish
finished chan header block status buf write e d3 a b c free k hd hf = (
  released chan c (released chan b (released chan a d0)),
  chain_step chan 7 a b d0 free_a (ap (λ (x : Desc). has_next x.flags) desc_a)
        (ap (λ (x : Desc). x.next) desc_a)
      ∙ chain_step chan 6 b c (released chan a d0) free_b
          (ap (λ (x : Desc). has_next x.flags) desc_b ∙ second_leads write)
          (ap (λ (x : Desc). x.next) desc_b)
      ∙ chain_end chan 5 c (released chan b (released chan a d0)) free_c
          (ap (λ (x : Desc). has_next x.flags) desc_c),
  ap (λ (l : List Bool). set (set (set l a true) b true) c true) hf ∙ back_three free a b c k,
)
  where
    d0 : Disk
    d0 = record d3 { info = put_at d3.info a (record (d3.info a) { b = 0 }) }

    first : Desc
    first = record { addr = header; len = 16; flags = 1; next = b }

    second : Desc
    second = record { addr = block; len = 1024; flags = (if write then 0 else 2) + 1; next = c }

    third : Desc
    third = record { addr = status; len = 1; flags = 2; next = 0 }

    b-a : b ≢ a
    b-a q = k.a-b (sym q)

    c-a : c ≢ a
    c-a q = k.a-c (sym q)

    c-b : c ≢ b
    c-b q = k.b-c (sym q)

    desc_a : d3.desc a ≡ first
    desc_a =
        ap (λ (f : ℕ → Desc). f a) hd
        ∙ put_at_ne (put_at (put_at e.desc a first) b second) c a third k.a-c
        ∙ put_at_ne (put_at e.desc a first) b a second k.a-b
        ∙ put_at_self e.desc a first

    desc_b : (released chan a d0).desc b ≡ second
    desc_b =
        put_at_ne d3.desc a b (record (d3.desc a) { addr = 0 }) b-a
        ∙ ap (λ (f : ℕ → Desc). f b) hd
        ∙ put_at_ne (put_at (put_at e.desc a first) b second) c b third k.b-c
        ∙ put_at_self (put_at e.desc a first) b second

    desc_c : (released chan b (released chan a d0)).desc c ≡ third
    desc_c =
        put_at_ne (released chan a d0).desc b c (record ((released chan a d0).desc b) { addr = 0 })
          c-b
        ∙ put_at_ne d3.desc a c (record (d3.desc a) { addr = 0 }) c-a
        ∙ ap (λ (f : ℕ → Desc). f c) hd
        ∙ put_at_self (put_at (put_at e.desc a first) b second) c third

    free_a : get_elem? d3.free a ≡ some false
    free_a =
        ap (λ (l : List Bool). get_elem? l a) hf
        ∙ get_elem?-set_ne (set (set free a false) b false) c a false c-a
        ∙ get_elem?-set_ne (set free a false) b a false b-a
        ∙ taken_self free a false true k.free_a

    free_b : get_elem? (set d3.free a true) b ≡ some false
    free_b =
        get_elem?-set_ne d3.free a b true k.a-b
        ∙ ap (λ (l : List Bool). get_elem? l b) hf
        ∙ get_elem?-set_ne (set (set free a false) b false) c b false c-b
        ∙ taken_self (set free a false) b false true
            (get_elem?-set_ne free a b false k.a-b ∙ k.free_b)

    free_c : get_elem? (set (set d3.free a true) b true) c ≡ some false
    free_c =
        get_elem?-set_ne (set d3.free a true) b c true k.b-c
        ∙ get_elem?-set_ne d3.free a c true k.a-c
        ∙ ap (λ (l : List Bool). get_elem? l c) hf
        ∙ taken_self (set (set free a false) b false) c false true (
            get_elem?-set_ne (set free a false) b c false k.b-c
            ∙ get_elem?-set_ne free a c false k.a-c
            ∙ k.free_c)

-- When a request that got its descriptors is finished, freeing its chain does not panic and leaves
-- the same descriptors free as before the request, provided that the descriptors and the free list
-- are as `submit` left them.
pub finish-alloc3_desc :
    (chan header block status buf : ℕ) (write : Bool) (d d1 d3 : Disk) (t : Three)
    → alloc3_desc chan d ≡ some (some t, d1)
    → d3.desc ≡ (submit header block status buf write t d1).desc
    → d3.free ≡ (submit header block status buf write t d1).free
    → (d4 : Disk) × (finish chan t d3 ≡ some d4) × (d4.free ≡ d.free)
unfolding submit format finish
finish-alloc3_desc chan header block status buf write d d1 d3 t h hd hf =
    at (alloc3_desc chan d) (alloc3_desc-Allots3 chan d) h
  where
    Goal : Type 0
    Goal = (d4 : Disk) × (finish chan t d3 ≡ some d4) × (d4.free ≡ d.free)

    at : (r : Option (Option Three × Disk)) → Allots3 chan d r → r ≡ some (some t, d1) → Goal
    at _ (Allots3.none_left d' e) h' = absurd (cc h')
    at _ (Allots3.allots a b c k) h' =
        let who : (a, (b, c)) ≡ t = cc h' in
        let state : record d { free = without d.free a b c } ≡ d1 = cc h' in
        subst (λ (q : Three). (d4 : Disk) × (finish chan q d3 ≡ some d4) × (d4.free ≡ d.free)) who
          (finished chan header block status buf write d1 d3 a b c d.free k
            (subst (λ (q : Three). d3.desc ≡ (submit header block status buf write q d1).desc)
              (sym who) hd)
            (hf ∙ ap (λ (x : Disk). x.free) (sym state)))
