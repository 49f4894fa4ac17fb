-- ===== src/Fs/Paths/Tests.antt =====
-- The path `//a/b`.
use my_oslab.Base.{◌≡◌, false, [], ◌∷◌, arith}
use my_oslab.Fs.Contents.Tests.{sb, kmem}
use my_oslab.Fs.Dirs.Tests.{state}
use my_oslab.Fs.Paths.{PathText, skipelem, namex_loop}
use my_oslab.Fs.Paths.Elements.{Splits, skipelem-Splits}
use my_oslab.Fs.Paths.Walk.{namex_loop_enough}

abbrev path : PathText
path = b'/' ∷ (b'/' ∷ (b'a' ∷ (b'/' ∷ (b'b' ∷ []))))

skipelem-Splits_example : Splits path (λ i. 0) (skipelem path (λ i. 0))
skipelem-Splits_example = skipelem-Splits path (λ i. 0)

namex_loop_enough_example :
    namex_loop sb 0 kmem false 5 0 path (λ i. 0) state
    ≡ namex_loop sb 0 kmem false 128 0 path (λ i. 0) state
namex_loop_enough_example =
    namex_loop_enough sb 0 kmem false 5 128 0 path (λ i. 0) state (omega arith) (omega arith)
