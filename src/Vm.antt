-- ===== src/Vm.antt =====
-- kernel/vm.c: page tables in the memory that kalloc.c hands out. A page table is the address of
-- its page, an entry a 64-bit word; 0 stands for a null pointer. A panic is `none`.
pub mod User
pub mod Copy
pub mod Either
pub mod Through
pub mod Instr
mod Tests
use my_oslab.Base.{
  ℕ, zero, suc, ◌+◌, ◌-◌, ◌*◌, ◌/◌, ◌%◌, ◌^◌, Bool, true, false, not, ◌&&◌, ◌||◌, Option, none,
  some, ltb, leb, ◌==◌, if◌then◌else◌, ℤ, pos, negsuc,
}
use my_oslab.Kalloc.{page_size, Memory, Kmem, kalloc, kfree, store, page_round_up}

-- MAXVA
abbrev pub max_va : ℕ
max_va = 2 ^ 38

-- PGROUNDDOWN
abbrev pub page_round_down : ℕ → ℕ
page_round_down a = a / 4096 * 4096

-- The flags of an entry as numbers; `pte & PTE_V` and the like are tests of a bit.
abbrev pub pte_v : ℕ
pte_v = 1

abbrev pub pte_r : ℕ
pte_r = 2

abbrev pub pte_w : ℕ
pte_w = 4

abbrev pub pte_x : ℕ
pte_x = 8

abbrev pub pte_u : ℕ
pte_u = 16

abbrev pub has : ℕ → ℕ → Bool
has flag pte = pte / flag % 2 == 1

-- PA2PTE, PTE2PA, PTE_FLAGS and PX
abbrev pub pa2pte : ℕ → ℕ
pa2pte pa = pa / 4096 * 1024

abbrev pub pte2pa : ℕ → ℕ
pte2pa pte = pte / 1024 * 4096 % 2 ^ 64

abbrev pub pte_flags : ℕ → ℕ
pte_flags pte = pte % 1024

abbrev pub px : ℕ → ℕ → ℕ
px level va = va / 2 ^ (12 + 9 * level) % 512

-- `PA2PTE(pa) | perm | PTE_V` for flags `perm` below 1024, which the address leaves free.
abbrev pub leaf : ℕ → ℕ → ℕ
leaf pa perm = pa2pte pa + perm / 2 * 2 + 1

-- `*pte = v`
abbrev pub set_pte : ℕ → ℕ → Kmem → Kmem
set_pte pte v k = record k { memory = store k.memory pte v }

-- `memset(page, 0, PGSIZE)` and `memmove(to, from, PGSIZE)`, seen word by word.
abbrev pub clear_page : ℕ → Kmem → Kmem
clear_page page k = record k {
  memory = λ a. if leb page a && ltb a (page + page_size) then 0 else k.memory a;
}

abbrev pub copy_page : ℕ → ℕ → Kmem → Kmem
copy_page to from k = record k {
  memory =
      λ a. if leb to a && ltb a (to + page_size) then k.memory (from + (a - to)) else k.memory a;
}

-- The loop of `walk` from a level down: the address of the entry, and 0 where a table is missing
-- that is not, or cannot be, allocated.
unfoldable pub walk_level : ℕ → ℕ → ℕ → Bool → Kmem → ℕ × Kmem
walk_level zero table va alloc k = (table + 8 * px 0 va, k)
walk_level (suc l) table va alloc k =
    let pte = table + 8 * px (suc l) va in
    let (page, k1) = kalloc k in
    elim (has pte_v (k.memory pte)) [
      | true ↦ walk_level l (pte2pa (k.memory pte)) va alloc k
      | false ↦ elim (not alloc) [
        | true ↦ (0, k)
        | false ↦ elim (page == 0) [
          | true ↦ (0, k1)
          | false ↦ walk_level l page va alloc (set_pte pte (leaf page 0) (clear_page page k1))
        ]
      ]
    ]

unfoldable pub walk : ℕ → ℕ → Bool → Kmem → Option (ℕ × Kmem)
unfolding walk_level
walk table va alloc k =
    let r = walk_level 2 table va alloc k in if leb max_va va then none else some r

-- The entry of a page that `walk` finds without allocating, or `none` for a null pointer.
abbrev pub find_pte : ℕ → ℕ → Kmem → Option ℕ
find_pte table va k =
    let pte = (walk_level 2 table va false k).0 in if pte == 0 then none else some pte

-- `walkaddr`; after its own test of `va`, `walk` does not panic.
unfoldable pub walkaddr : ℕ → ℕ → Kmem → ℕ
unfolding walk_level
walkaddr table va k = elim (find_pte table va k) [
  | none ↦ 0
  | some pte ↦
      let v = k.memory pte in
      if leb max_va va || not (has pte_v v) || not (has pte_u v) then 0 else pte2pa v
]

-- The loop of `mappages`, on fuel.
unfoldable pub map_loop : ℕ → ℕ → ℕ → ℕ → ℕ → ℕ → Kmem → Option (ℤ × Kmem)
unfolding walk
map_loop zero table a last pa perm k = none
map_loop (suc fuel) table a last pa perm k = elim (walk table a true k) [
  | none ↦ none
  | some (pte, k1) ↦ elim (pte == 0) [
    | true ↦ some (negsuc 0, k1)
    | false ↦ elim (has pte_v (k1.memory pte)) [
      | true ↦ none
      | false ↦
          let k2 = set_pte pte (leaf pa perm) k1 in
          elim (a == last) [
            | true ↦ some (pos 0, k2)
            | false ↦ map_loop fuel table (a + page_size) last (pa + page_size) perm k2
          ]
    ]
  ]
]

-- No more pages lie below MAXVA than there is fuel: a loop that passes `last` meets the panic of
-- `walk` before it runs out.
unfoldable pub mappages : ℕ → ℕ → ℕ → ℕ → ℕ → Kmem → Option (ℤ × Kmem)
unfolding map_loop
mappages table va size pa perm k =
    map_loop (max_va / page_size + 1) table (page_round_down va)
      (page_round_down ((va + size + (2 ^ 64 - 1)) % 2 ^ 64)) pa perm k

-- The loop of `uvmunmap` with `n` pages to go.
unfoldable pub unmap_loop : ℕ → ℕ → ℕ → ℕ → Bool → Kmem → Option Kmem
unfolding walk
unmap_loop end zero table a do_free k = some k
unmap_loop end (suc n) table a do_free k = elim (walk table a false k) [
  | none ↦ none
  | some (pte, k0) ↦
      let v = k0.memory pte in
      elim (pte == 0 || not (has pte_v v) || pte_flags v == pte_v) [
        | true ↦ none
        | false ↦ elim (if do_free then kfree end (pte2pa v) k0 else some k0) [
          | none ↦ none
          | some k1 ↦ unmap_loop end n table (a + page_size) do_free (set_pte pte 0 k1)
        ]
      ]
]

unfoldable pub uvmunmap : ℕ → ℕ → ℕ → ℕ → Bool → Kmem → Option Kmem
unfolding unmap_loop
uvmunmap end table va npages do_free k =
    let rest = unmap_loop end npages table va do_free k in
    if not (va % page_size == 0) then none else rest
