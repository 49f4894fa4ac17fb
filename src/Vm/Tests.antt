-- ===== src/Vm/Tests.antt =====
-- A page table that maps the user's first two pages, and copies across the border between them.
use my_oslab.Base.{ℕ, ◌%◌, ◌≡◌, refl, some, none, ◌==◌, if◌then◌else◌, arith, negsuc}
use my_oslab.Kalloc.{Kmem, Memory, kalloc, kfree, fill_page, store}
use my_oslab.Strings.{Bytes, put}
use my_oslab.Vm.Instr.{copyinstr, each_char, copyinstr_lem}
use my_oslab.Vm.{leaf, walkaddr, mappages, uvmunmap}
use my_oslab.Vm.User.{uvmalloc, uvmdealloc}
use my_oslab.Vm.Copy.{each_byte, copyout, copyout_lem}

-- The tables stand in the pages 0x1000, 0x2000 and 0x3000; the free list has 0x8000_5000 only.
abbrev entries : Memory
entries = λ a.
    if a == 0x1000
    then leaf 0x2000 0
    else if a == 0x2000
    then leaf 0x3000 0
    else if a == 0x3000
    then leaf 0xa000 22
    else if a == 0x3008
    then leaf 0x5000 22
    else 0

abbrev kernel_memory : Kmem
kernel_memory = record { freelist = 0x8000_5000; memory = entries }

abbrev numbers : Bytes
numbers = λ a. a % 256

copyout_lem_example :
    copyout 0x1000 kernel_memory 4090 numbers 0 10 numbers
    ≡ each_byte
        (λ pa ka m'. put m' pa (numbers ka))
        (λ va. walkaddr 0x1000 va kernel_memory)
        10
        4090
        0
        numbers
copyout_lem_example = copyout_lem 0x1000 kernel_memory 4090 numbers 0 10 numbers (omega arith)

-- The seventh byte goes to the second page.
second_page : (copyout 0x1000 kernel_memory 4090 numbers 0 10 numbers).1 0x5000 ≡ 6
unfolding copyout walkaddr
second_page = refl

-- A third page is not mapped.
not_mapped : (copyout 0x1000 kernel_memory 8190 numbers 0 10 numbers).0 ≡ negsuc 0
unfolding copyout walkaddr
not_mapped = refl

-- The process grows by the last free page, and shrinks again.
grown : ℕ × ℕ
unfolding uvmalloc uvmdealloc
grown = elim (uvmalloc 0x8000_0000 0x1000 8192 12288 kernel_memory) [
  | none ↦ (0, 0)
  | some (sz, k) ↦ elim (uvmdealloc 0x8000_0000 0x1000 sz 8192 k) [
    | none ↦ (sz, 0)
    | some (sz', k') ↦ (walkaddr 0x1000 8192 k, sz')
  ]
]

grows : grown ≡ (0x8000_5000, 8192)
unfolding grown uvmalloc uvmdealloc walkaddr kalloc mappages fill_page uvmunmap store kfree
grows = refl

copyinstr_lem_example :
    copyinstr numbers 0x1000 kernel_memory 0 4090 10 numbers
    ≡ each_char numbers (λ va. walkaddr 0x1000 va kernel_memory) 10 4090 0 numbers
copyinstr_lem_example = copyinstr_lem numbers 0x1000 kernel_memory 0 4090 10 numbers (omega arith)
