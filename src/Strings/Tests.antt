-- ===== src/Strings/Tests.antt =====
-- The string functions at the bytes "abcabd", of which a string or a part is copied.
use my_oslab.Base.{◌+◌, ◌<◌, ◌≡◌, ◌↔◌, ℕ, ◌==◌, ltb, if◌then◌else◌}
use my_oslab.Base.{pos}
use my_oslab.Strings.{Bytes, memset, memcmp}
use my_oslab.Strings.Move.{memset_lem}
use my_oslab.Strings.Compare.{memcmp_iff}

abbrev text : Bytes
text = λ a. if ltb a 3 then 97 + a else if ltb a 5 then 94 + a else if a == 5 then 100 else 0

memset_lem_example : memset 2 511 3 text 4 ≡ 255
memset_lem_example = memset_lem 2 511 3 4 text

memcmp_iff_example : (memcmp text 1 4 1 ≡ pos 0) ↔ ((i : ℕ) → i < 1 → text (1 + i) ≡ text (4 + i))
memcmp_iff_example = memcmp_iff text 1 4 1
