-- ===== src/Syscall.antt =====
-- kernel/syscall.c, kernel/sysproc.c and `growproc` of kernel/proc.c. The calling process is what
-- they read of it: its registers, its size, its page table and the memory. A panic is `none`.
pub mod Fetch
mod Tests
use my_oslab.Base.{
  ℕ, zero, suc, ◌+◌, ◌-◌, ◌*◌, ◌%◌, ◌^◌, Bool, true, false, ◌&&◌, ◌||◌, Option, none, some, List,
  [], ◌∷◌, ◌++◌, length, get_elem?, add32, sub32, ltb, leb, ◌==◌, if◌then◌else◌, ℤ, pos, negsuc,
}
use my_oslab.Kalloc.{Kmem}
use my_oslab.Strings.{Bytes, put}
use my_oslab.Print.{to_int}
use my_oslab.Vm.Copy.{copyin}
use my_oslab.Vm.Instr.{copyinstr}
use my_oslab.Vm.User.{uvmalloc, uvmdealloc}

-- What a call reads of its process. `args` are the registers a0 to a5 of its trapframe.
pub record Caller : Type 0 where
  pub args : List ℕ
  pub sz : ℕ
  pub pagetable : ℕ
  pub kmem : Kmem
  pub user : Bytes

-- -1 as a `uint64`.
abbrev pub minus_one : ℕ
minus_one = 2 ^ 64 - 1

-- The 8 bytes of a `uint64`.
abbrev pub word_of : ℕ → Bytes → ℕ → ℕ
word_of zero b i = 0
word_of (suc n) b i = b i + 256 * word_of n b (i + 1)

abbrev pub copied_word : ℤ × Bytes → Option ℕ
copied_word (pos r, b) = if r == 0 then some (word_of 8 b 0) else none
copied_word (negsuc r, b) = none

-- `none` is -1; otherwise the word.
unfoldable pub fetchaddr : Caller → ℕ → Option ℕ
unfolding copyin
fetchaddr p addr =
    let word = copied_word (copyin p.pagetable p.kmem p.user 0 addr 8 (λ i. 0)) in
    if leb p.sz addr || ltb p.sz ((addr + 8) % 2 ^ 64) then none else word

-- The characters of a buffer before the NUL, which are `max` at most.
abbrev pub chars : ℕ → Bytes → ℕ → List ℕ
chars zero b i = []
chars (suc max) b i = let rest = chars max b (i + 1) in if b i == 0 then [] else b i ∷ rest

abbrev pub copied_chars : ℕ → ℤ × Bytes → Option (List ℕ)
copied_chars max (pos r, b) = some (chars max b 0)
copied_chars max (negsuc r, b) = none

-- `none` is -1; otherwise the string, whose length is returned.
unfoldable pub fetchstr : Caller → ℕ → ℕ → Option (List ℕ)
unfolding copyinstr
fetchstr p addr max = copied_chars max (copyinstr p.user p.pagetable p.kmem 0 addr max (λ i. 0))

unfoldable pub argraw : Caller → ℕ → Option ℕ
argraw p n = if ltb n 6 then get_elem? p.args n else none

unfoldable pub argint : Caller → ℕ → Option ℤ
unfolding argraw
argint p n = elim (argraw p n) [ none ↦ none | some w ↦ some (to_int w) ]

unfoldable pub argaddr : Caller → ℕ → Option ℕ
unfolding argraw
argaddr p n = argraw p n

-- The outer `none` is the panic, the inner one -1.
unfoldable pub argstr : Caller → ℕ → ℕ → Option (Option (List ℕ))
unfolding argaddr fetchstr
argstr p n max = elim (argaddr p n) [ none ↦ none | some addr ↦ some (fetchstr p addr max) ]

-- NELEM(syscalls)
abbrev pub nelem : ℕ
nelem = 24

abbrev pub call_entry : {W : Type 0} → Option (W → Option (ℕ × W)) → W → Option (ℕ × W)
call_entry none w = some (minus_one, w)
call_entry (some f) w = f w

-- `syscall`: what goes to a0, given the functions of the table over the state of the kernel. A
-- number that is none of a call's is printed.
unfoldable pub syscall : {W : Type 0} → (ℕ → Option (W → Option (ℕ × W))) → ℕ → W → Option (ℕ × W)
syscall table a7 w =
    let call = call_entry (table (a7 % 2 ^ 32)) w in
    elim (to_int a7) [
      | negsuc n ↦ some (minus_one, w)
      | pos num ↦ if ltb 0 num && ltb num nelem then call else some (minus_one, w)
    ]

-- A result of `uvmalloc`: 0 is a failure.
abbrev pub grown_to : Kmem → Option (ℕ × Kmem) → Option (ℤ × (Option ℕ × Kmem))
grown_to k none = none
grown_to k (some (sz, k')) =
    if sz == 0 then some (negsuc 0, (none, k')) else some (pos 0, (some sz, k'))

abbrev pub shrunk_to : Option (ℕ × Kmem) → Option (ℤ × (Option ℕ × Kmem))
shrunk_to none = none
shrunk_to (some (sz, k')) = some (pos 0, (some sz, k'))

-- `growproc` for a process of size `sz`, a `uint` there: the result, the new size if it is set,
-- and the memory. `n` is converted to a `uint` in `sz + n`.
unfoldable pub growproc : ℕ → ℕ → ℤ → ℕ → Kmem → Option (ℤ × (Option ℕ × Kmem))
unfolding uvmalloc uvmdealloc
growproc end table (pos n) sz k =
    let more = grown_to k (uvmalloc end table (sz % 2 ^ 32) (add32 sz n) k) in
    if n == 0 then some (pos 0, (some (sz % 2 ^ 32), k)) else more
growproc end table (negsuc n) sz k =
    shrunk_to (uvmdealloc end table (sz % 2 ^ 32) (sub32 (sz % 2 ^ 32) (n + 1)) k)

-- An `int` that is returned as a `uint64`.
abbrev pub extend : ℤ → ℕ
extend (pos n) = n
extend (negsuc n) = 2 ^ 64 - 1 - n

abbrev pub sbrk_result : ℕ → Option (ℤ × (Option ℕ × Kmem)) → Option (ℕ × (Option ℕ × Kmem))
sbrk_result addr none = none
sbrk_result addr (some (pos r, g)) = some (extend (to_int addr), g)
sbrk_result addr (some (negsuc r, g)) = some (minus_one, g)

unfoldable pub sys_sbrk : ℕ → Caller → Option (ℕ × (Option ℕ × Kmem))
unfolding argint growproc
sys_sbrk end p = elim (argint p 0) [
  | none ↦ none
  | some n ↦ sbrk_result p.sz (growproc end p.pagetable n p.sz p.kmem)
]

-- An `int` as a `uint`.
abbrev pub uint_of : ℤ → ℕ
uint_of (pos n) = n % 2 ^ 32
uint_of (negsuc n) = 2 ^ 32 - 1 - n % 2 ^ 32

-- How a turn of the loop of `sys_sleep` ends, with the number of the tick that the call began in.
pub data Slept : Type 0 where
  returns : ℕ → Slept
  sleeps : Slept

unfoldable pub sleep_turn : ℕ → ℤ → Bool → ℕ → Slept
sleep_turn ticks0 n killed ticks =
    if ltb (sub32 ticks ticks0) (uint_of n)
    then (if killed then Slept.returns minus_one else Slept.sleeps)
    else Slept.returns 0

-- `sys_rename` behind `argstr`: the memory from `p->name` on.
unfoldable pub rename : List ℕ → Bytes → Bytes
rename name m i =
    if ltb i (length name)
    then (elim (get_elem? name i) [ none ↦ m i | some c ↦ c ])
    else if i == length name
    then 0
    else m i

-- MAXPATH
abbrev pub maxpath : ℕ
maxpath = 128

unfoldable pub sys_rename : Caller → Bytes → Option (ℕ × Bytes)
unfolding argstr rename
sys_rename p m = elim (argstr p 0 maxpath) [
  | none ↦ none
  | some none ↦ some (minus_one, m)
  | some (some name) ↦ some (0, rename name m)
]
