-- ===== src/Pipe/Ring.antt =====
-- The bytes in a pipe: the buffer from `nread` to `nwrite`, round its end and round 2 ^ 32.
use my_oslab.Base.{
  ℕ, zero, suc, ◌+◌, ◌%◌, ◌^◌, ◌≤◌, ◌<◌, ◌≡◌, refl, ap, ap₂, true, false, List, [], ◌∷◌, ◌++◌,
  length, get_or, set, length-set, get_or-set_self, get_or-set_ne, add32, sub32, ◌∙◌, arith,
}
use my_oslab.Pipe.{Pipe, pipe_size, push, pop, is_full, is_empty}

module _ (buf : List ℕ) where
  -- The `n` bytes from the count `r` on.
  abbrev pub window : ℕ → ℕ → List ℕ
  window r zero = []
  window r (suc n) = get_or buf (r % pipe_size) 0 ∷ window (add32 r 1) n

abbrev pub count : Pipe → ℕ
count p = sub32 p.nwrite p.nread

abbrev pub contents : Pipe → List ℕ
contents p = window p.buf p.nread (count p)

pub record IsValid (p : Pipe) : Type 0 where
  pub room : length p.buf ≡ pipe_size
  pub nread_small : p.nread < 2 ^ 32
  pub nwrite_small : p.nwrite < 2 ^ 32
  pub fits : count p ≤ pipe_size

pub length-window : (buf : List ℕ) (r n : ℕ) → length (window buf r n) ≡ n
length-window buf r zero = refl
length-window buf r (suc n) = ap suc (length-window buf (add32 r 1) n)

-- The test for a full pipe is that it holds PIPESIZE bytes, the test for an empty one that it
-- holds none, whatever the counters are.
pub is_full_iff :
    (p : Pipe)
    → IsValid p
    → (is_full p ≡ true → count p ≡ pipe_size) × (is_full p ≡ false → count p < pipe_size)
is_full_iff p v = ground arith

pub is_empty_iff :
    (p : Pipe) → IsValid p → (is_empty p ≡ true → count p ≡ 0) × (is_empty p ≡ false → 0 < count p)
is_empty_iff p v = ground arith

window-set :
    (buf : List ℕ) (ch n r w : ℕ)
    → length buf ≡ pipe_size
    → r < 2 ^ 32
    → n < pipe_size
    → w ≡ (r + n) % 2 ^ 32
    → window (set buf (w % pipe_size) ch) r (suc n) ≡ window buf r n ++ (ch ∷ [])
window-set buf ch zero r w room small hn e =
    ap (λ x. x ∷ [])
      (let same : w % pipe_size ≡ r % pipe_size = omega arith in
        rw same (get_or-set_self buf (r % pipe_size) ch 0 (omega arith)))
window-set buf ch (suc n) r w room small hn e =
    ap₂ ◌∷◌ (get_or-set_ne buf (w % pipe_size) (r % pipe_size) ch 0 (omega arith))
      (window-set buf ch n (add32 r 1) w room (omega arith) (omega arith) (omega arith))

pub push-IsValid : (ch : ℕ) (p : Pipe) → IsValid p → count p < pipe_size → IsValid (push ch p)
unfolding push
push-IsValid ch p v h = record {
  room = length-set p.buf (p.nwrite % pipe_size) ch ∙ v.room;
  nread_small = v.nread_small;
  nwrite_small = omega arith;
  fits = omega arith;
}

pub count-push :
    (ch : ℕ) (p : Pipe) → IsValid p → count p < pipe_size → count (push ch p) ≡ count p + 1
unfolding push
count-push ch p v h = omega arith

-- A byte pushed into a pipe with room is appended to its contents.
pub contents-push :
    (ch : ℕ) (p : Pipe)
    → IsValid p
    → count p < pipe_size
    → contents (push ch p) ≡ contents p ++ (ch ∷ [])
unfolding push
contents-push ch p v h =
    let more : count (push ch p) ≡ suc (count p) = omega arith in
    ap (window _ p.nread) more
    ∙ window-set p.buf ch (count p) p.nread p.nwrite v.room v.nread_small h (omega arith)

pub pop-IsValid : (p : Pipe) → IsValid p → 0 < count p → IsValid (pop p).1
unfolding pop
pop-IsValid p v h = omega arith

-- The byte popped from a pipe is the first of its contents.
pub contents-pop :
    (p : Pipe) → IsValid p → 0 < count p → contents p ≡ (pop p).0 ∷ contents (pop p).1
unfolding pop
contents-pop p v h =
    let more : count p ≡ suc (count (pop p).1) = omega arith in ap (window p.buf p.nread) more
