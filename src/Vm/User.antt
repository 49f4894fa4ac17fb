-- ===== src/Vm/User.antt =====
-- The user memory of a process in kernel/vm.c: growing, shrinking, copying and freeing it.
use my_oslab.Base.{
  ℕ, zero, suc, ◌+◌, ◌-◌, ◌*◌, ◌/◌, true, false, not, ◌||◌, Option, none, some, ltb, leb, ◌==◌,
  if◌then◌else◌, ℤ, pos, negsuc,
}
use my_oslab.Kalloc.{page_size, Kmem, kalloc, kfree, page_round_up}
use my_oslab.Vm.{
  pte_v, pte_r, pte_w, pte_x, pte_u, has, pte2pa, pte_flags, walk, set_pte, clear_page, copy_page,
  mappages, uvmunmap,
}

unfoldable pub uvmcreate : Kmem → ℕ × Kmem
uvmcreate k =
    let (table, k1) = kalloc k in if table == 0 then (0, k1) else (table, clear_page table k1)

-- The size that is left, and the memory.
unfoldable pub uvmdealloc : ℕ → ℕ → ℕ → ℕ → Kmem → Option (ℕ × Kmem)
uvmdealloc end table oldsz newsz k =
    if leb oldsz newsz
    then some (oldsz, k)
    else if ltb (page_round_up newsz) (page_round_up oldsz)
    then elim (uvmunmap end table (page_round_up newsz)
        ((page_round_up oldsz - page_round_up newsz) / page_size) true k) [
          | none ↦ none
          | some k' ↦ some (newsz, k')
        ]
    else some (newsz, k)

-- `uvmdealloc(pagetable, a, oldsz); return 0;`
abbrev pub give_back : ℕ → ℕ → ℕ → ℕ → Kmem → Option (ℕ × Kmem)
give_back end table a oldsz k = elim (uvmdealloc end table a oldsz k) [
  | none ↦ none
  | some (sz, k') ↦ some (0, k')
]

-- The loop of `uvmalloc` with `n` pages to go; `oldsz` has been rounded up.
unfoldable pub grow_loop : ℕ → ℕ → ℕ → ℕ → ℕ → ℕ → Kmem → Option (ℕ × Kmem)
unfolding uvmdealloc
grow_loop end zero table a oldsz newsz k = some (newsz, k)
grow_loop end (suc n) table a oldsz newsz k =
    let (mem, k1) = kalloc k in
    elim (mem == 0) [
      | true ↦ give_back end table a oldsz k1
      | false ↦
          elim (mappages table a page_size mem (pte_w + pte_x + pte_r + pte_u)
            (clear_page mem k1)) [
              | none ↦ none
              | some (pos r, k2) ↦ grow_loop end n table (a + page_size) oldsz newsz k2
              | some (negsuc r, k2) ↦ elim (kfree end mem k2) [
                | none ↦ none
                | some k3 ↦ give_back end table a oldsz k3
              ]
            ]
    ]

unfoldable pub uvmalloc : ℕ → ℕ → ℕ → ℕ → Kmem → Option (ℕ × Kmem)
unfolding grow_loop
uvmalloc end table oldsz newsz k =
    let start = page_round_up oldsz in
    let rest = grow_loop end ((newsz - start + 4095) / page_size) table start start newsz k in
    if ltb newsz oldsz then some (oldsz, k) else rest

-- The loop of `freewalk` over the entries from number `i` on; `go` frees a table below.
unfoldable pub free_entries : (ℕ → Kmem → Option Kmem) → ℕ → ℕ → ℕ → Kmem → Option Kmem
free_entries go zero i table k = some k
free_entries go (suc n) i table k =
    let pte = table + 8 * i in
    let v = k.memory pte in
    elim (has pte_v v) [
      | false ↦ free_entries go n (i + 1) table k
      | true ↦ elim (has pte_r v || has pte_w v || has pte_x v) [
        | true ↦ none
        | false ↦ elim (go (pte2pa v) k) [
          | none ↦ none
          | some k1 ↦ free_entries go n (i + 1) table (set_pte pte 0 k1)
        ]
      ]
    ]

-- `freewalk` of a table with that many levels; `walk` makes three.
unfoldable pub freewalk : ℕ → ℕ → ℕ → Kmem → Option Kmem
unfolding free_entries
freewalk end zero table k = none
freewalk end (suc depth) table k =
    elim (free_entries (λ t k'. freewalk end depth t k') 512 0 table k) [
      | none ↦ none
      | some k1 ↦ kfree end table k1
    ]

unfoldable pub uvmfree : ℕ → ℕ → ℕ → Kmem → Option Kmem
unfolding freewalk
uvmfree end table sz k =
    elim (if ltb 0 sz then uvmunmap end table 0 (page_round_up sz / page_size) true k else some k) [
      | none ↦ none
      | some k1 ↦ freewalk end 3 table k1
    ]

-- The label `err` of `uvmcopy`, with `i` pages mapped.
abbrev pub undo_copy : ℕ → ℕ → ℕ → Kmem → Option (ℤ × Kmem)
undo_copy end new i k = elim (uvmunmap end new 0 i true k) [
  | none ↦ none
  | some k1 ↦ some (negsuc 0, k1)
]

-- The loop of `uvmcopy` from page `i` on.
unfoldable pub copy_loop : ℕ → ℕ → ℕ → ℕ → ℕ → Kmem → Option (ℤ × Kmem)
copy_loop end zero old new i k = some (pos 0, k)
copy_loop end (suc n) old new i k = elim (walk old (i * page_size) false k) [
  | none ↦ none
  | some (pte, k0) ↦
      let v = k0.memory pte in
      let (mem, k1) = kalloc k0 in
      elim (pte == 0 || not (has pte_v v)) [
        | true ↦ none
        | false ↦ elim (mem == 0) [
          | true ↦ undo_copy end new i k1
          | false ↦
              elim (mappages new (i * page_size) page_size mem (pte_flags v)
                (copy_page mem (pte2pa v) k1)) [
                  | none ↦ none
                  | some (pos r, k2) ↦ copy_loop end n old new (i + 1) k2
                  | some (negsuc r, k2) ↦ elim (kfree end mem k2) [
                    | none ↦ none
                    | some k3 ↦ undo_copy end new i k3
                  ]
                ]
        ]
      ]
]

unfoldable pub uvmcopy : ℕ → ℕ → ℕ → ℕ → Kmem → Option (ℤ × Kmem)
unfolding copy_loop
uvmcopy end old new sz k = copy_loop end ((sz + 4095) / page_size) old new 0 k

-- `*pte &= ~PTE_U`
unfoldable pub uvmclear : ℕ → ℕ → Kmem → Option Kmem
uvmclear table va k = elim (walk table va false k) [
  | none ↦ none
  | some (pte, k0) ↦
      let v = k0.memory pte in
      if pte == 0 then none else some (set_pte pte (if has pte_u v then v - pte_u else v) k0)
]
