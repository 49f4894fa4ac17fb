-- ===== src/Sysfile/Fd/Pipes/Tests.antt =====
-- A process asks for a pipe; its address for the descriptors is not mapped, so that it gets none.
use my_oslab.Base.{arith, refl, none, some, [], ◌∷◌}
use my_oslab.Kalloc.Chain.{IsFree}
use my_oslab.Strings.{Bytes}
use my_oslab.File.Tests.{ops}
use my_oslab.Pipe.Alloc.Tests.{state, files, files-IsClean}
use my_oslab.Sysfile.Fd.{Ofile}
use my_oslab.Sysfile.Fd.Pipes.{sys_pipe}
use my_oslab.Sysfile.Fd.Pipes.Undone.{Pipes, sys_pipe-Pipes}

abbrev ofile : Ofile
ofile = some 1 ∷ (none ∷ (none ∷ []))

abbrev memory : Bytes
memory = λ a. 0

one_page : IsFree 0x8000_0000 (state 0x8000_5000 files).kmem (0x8000_5000 ∷ [])
one_page = (refl, record { aligned = refl; above = omega arith; below = omega arith }, tt, refl)

sys_pipe-Pipes_example :
    Pipes ops 0x8000_0000 0x1000 64 ofile
      (state 0x8000_5000 files)
      (0x8000_5000 ∷ [])
      (sys_pipe ops 0x8000_0000 0x1000 64 ofile (state 0x8000_5000 files) memory)
sys_pipe-Pipes_example =
    sys_pipe-Pipes ops 0x8000_0000 0x1000 64 ofile (state 0x8000_5000 files) (0x8000_5000 ∷ [])
      memory (omega arith) files-IsClean one_page
