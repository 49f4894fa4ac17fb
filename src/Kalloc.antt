-- ===== src/Kalloc.antt =====
-- kernel/kalloc.c: the allocator of 4096-byte pages, over a memory of 64-bit words. A page on the
-- free list holds the address of the next one in its first word (`struct run`). A panic is `none`.
-- The spinlock `kmem.lock` makes each function's critical section one step.
pub mod Chain
pub mod Pages
pub mod Boot
mod Tests
use my_oslab.Base.{
  ℕ, zero, suc, ◌+◌, ◌*◌, ◌/◌, ◌%◌, ◌^◌, Bool, true, false, not, ◌&&◌, ◌||◌, Option, none, some,
  ltb, leb, ◌==◌, if◌then◌else◌,
}

-- PGSIZE
abbrev pub page_size : ℕ
page_size = 4096

-- PHYSTOP
abbrev pub phys_stop : ℕ
phys_stop = 0x8000_0000 + 128 * 1024 * 1024

-- PGROUNDUP: clearing the low 12 bits is rounding down to a multiple of 4096.
abbrev pub page_round_up : ℕ → ℕ
page_round_up sz = (sz + 4095) % 2 ^ 64 / 4096 * 4096

-- The word at each (8-byte aligned) address.
abbrev pub Memory : Type 0
Memory = ℕ → ℕ

-- `memset(pa, c, PGSIZE)`, seen word by word.
unfoldable pub fill_page : Memory → ℕ → ℕ → Memory
fill_page m pa c a = if leb pa a && ltb a (pa + page_size) then c * 0x0101_0101_0101_0101 else m a

-- `r->next = q`
unfoldable pub store : Memory → ℕ → ℕ → Memory
store m r q a = if a == r then q else m a

-- `kmem`, with the memory that its list runs through.
pub record Kmem : Type 0 where
  pub freelist : ℕ
  pub memory : Memory

-- `end` is the first address after the kernel, from the linker script.
unfoldable pub kfree : ℕ → ℕ → Kmem → Option Kmem
kfree end pa k =
    if not (pa % page_size == 0) || ltb pa end || leb phys_stop pa
    then none
    else (let m = fill_page k.memory pa 1 in
        some (record { freelist = pa; memory = store m pa k.freelist }))

unfoldable pub kalloc : Kmem → ℕ × Kmem
kalloc k = if k.freelist == 0 then (0, k) else (
  k.freelist,
  record { freelist = k.memory k.freelist; memory = fill_page k.memory k.freelist 5 },
)

-- The loop of `freerange`, on fuel.
unfoldable pub freerange_loop : ℕ → ℕ → ℕ → ℕ → Kmem → Option Kmem
freerange_loop zero end p pa_end k = none
freerange_loop (suc fuel) end p pa_end k = elim (leb (p + page_size) pa_end) [
  | true ↦ elim (kfree end p k) [
    | some k' ↦ freerange_loop fuel end (p + page_size) pa_end k'
    | none ↦ none
  ]
  | false ↦ some k
]

unfoldable pub freerange : ℕ → ℕ → ℕ → Kmem → Option Kmem
unfolding freerange_loop
freerange end pa_start pa_end =
    freerange_loop (pa_end / page_size + 1) end (page_round_up pa_start) pa_end

unfoldable pub kinit : ℕ → Kmem → Option Kmem
unfolding freerange
kinit end = freerange end end phys_stop
