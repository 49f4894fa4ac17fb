-- ===== src/Syscall/Tests.antt =====
-- A process whose first page is mapped at 0xa000, with the string `hi` at address 16.
use my_oslab.Base.{
  ℕ, ◌≡◌, ◌<◌, ◌+◌, ◌*◌, ◌/◌, refl, some, List, [], ◌∷◌, length, ◌==◌, if◌then◌else◌, arith,
}
use my_oslab.Kalloc.{Kmem}
use my_oslab.Vm.{walkaddr}
use my_oslab.Vm.Instr.{copyinstr}
use my_oslab.Syscall.{Caller, fetchstr}
use my_oslab.Syscall.Fetch.{length-fetchstr}

abbrev leaf : ℕ → ℕ → ℕ
leaf pa flags = pa / 4096 * 1024 + 1 + flags

abbrev kmem : Kmem
kmem = record {
  freelist = 0;
  memory = λ a.
      if a == 0x1000
      then leaf 0x2000 0
      else if a == 0x2000
      then leaf 0x3000 0
      else if a == 0x3000
      then leaf 0xa000 22
      else 0;
}

abbrev caller : Caller
caller = record {
  args = 16 ∷ [];
  sz = 4096;
  pagetable = 0x1000;
  kmem = kmem;
  user = λ a. if a == 0xa010 then b'h' else if a == 0xa011 then b'i' else 0;
}

abbrev hi : List ℕ
hi = b'h' ∷ (b'i' ∷ [])

fetched : fetchstr caller 16 128 ≡ some hi
unfolding fetchstr copyinstr walkaddr
fetched = refl

length-fetchstr_example : length hi < 128
length-fetchstr_example = length-fetchstr caller 16 128 hi (omega arith) fetched
