-- ===== src/Vm/Either.antt =====
-- `either_copyout` and `either_copyin` of kernel/proc.c: a copy between a buffer of the kernel and
-- an address that is the user's or the kernel's. The buffer is a memory of its own; `memmove`
-- between two memories goes byte by byte.
use my_oslab.Base.{ℕ, Bool, ℤ, pos, if◌then◌else◌}
use my_oslab.Kalloc.{Kmem}
use my_oslab.Strings.{Bytes, put}
use my_oslab.Vm.Copy.{move_bytes, copyout, copyin}

module _ (table : ℕ) (k : Kmem) where
  unfoldable pub either_copyout : Bool → ℕ → Bytes → ℕ → ℕ → Bytes → ℤ × Bytes
  unfolding copyout move_bytes
  either_copyout user_dst dst kernel src len m =
      if user_dst
      then copyout table k dst kernel src len m
      else (pos 0, move_bytes (λ pa ka m'. put m' pa (kernel ka)) len dst src m)

  unfoldable pub either_copyin : Bytes → ℕ → Bool → ℕ → ℕ → Bytes → ℤ × Bytes
  unfolding copyin move_bytes
  either_copyin memory dst user_src src len m =
      if user_src
      then copyin table k memory dst src len m
      else (pos 0, move_bytes (λ pa ka m'. put m' ka (memory pa)) len src dst m)
