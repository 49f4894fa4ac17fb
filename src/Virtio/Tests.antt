-- ===== src/Virtio/Tests.antt =====
-- The driver at concrete inputs: a request on an idle disk, with no process to wake.
use my_oslab.Base.{◌≡◌, refl, Bool, true, false, some, List, [], ◌∷◌, replicate}
use my_oslab.Virtio.{Desc, Info, Disk, take_free, alloc_desc, Three, alloc3_desc, submit, finish}
use my_oslab.Virtio.Chain.{finish-alloc3_desc}

abbrev no_desc : Desc
no_desc = record { addr = 0; len = 0; flags = 0; next = 0 }

abbrev no_info : Info
no_info = record { b = 0; status = 0 }

abbrev idle : List Bool → Disk
idle free = record {
  desc = λ i. no_desc;
  free = free;
  avail = λ i. 0;
  avail_idx = 0;
  used_idx = 0;
  info = λ i. no_info;
  owned = λ b. 0;
  procs = [];
}

abbrev all_free : Disk
all_free = idle (replicate 8 true)

abbrev first_three : Disk
first_three = idle (false ∷ (false ∷ (false ∷ replicate 5 true)))

abbrev three : Three
three = (0, (1, 2))

alloc3_desc-idle : alloc3_desc 99 all_free ≡ some (some three, first_three)
unfolding alloc3_desc alloc_desc take_free
alloc3_desc-idle = refl

finish-alloc3_desc_example :
    (d4 : Disk) × (finish 99 three (submit 4096 8192 5000 8184 true three first_three) ≡ some d4)
    × (d4.free ≡ all_free.free)
finish-alloc3_desc_example =
    finish-alloc3_desc 99 4096 8192 5000 8184 true all_free first_three
      (submit 4096 8192 5000 8184 true three first_three) three alloc3_desc-idle refl refl
