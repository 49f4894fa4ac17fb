-- ===== src/Console/Read.antt =====
-- `consoleread` on lines that have been handed to the readers.
use my_oslab.Base.{
  ℕ, zero, suc, ◌+◌, ◌-◌, ◌%◌, ◌^◌, ◌<◌, ◌≡◌, inl, inr, refl, Bool, true, false, ◌||◌, Option, none,
  some, get_or, add32, sub32, ◌==◌, Bool-cases, arith,
}
use my_oslab.Pipe.{UserSpace}
use my_oslab.Console.{
  Console, ConsoleState, ConsoleGot, input_buf, newline, end_of_file, read_char, consoleread,
}
use my_oslab.Console.Input.{IsConsole}

module _ {M : Type 0} where
  abbrev pub state_of : ConsoleGot M → ConsoleState → ConsoleState
  state_of (ConsoleGot.returned v m s) s0 = s
  state_of (ConsoleGot.asleep dst n m s) s0 = s

  abbrev pub has_returned : ConsoleGot M → Bool
  has_returned (ConsoleGot.returned v m s) = true
  has_returned (ConsoleGot.asleep dst n m s) = false

-- The character `i` places behind the next one to be read.
abbrev pub char_at : Console → ℕ → ℕ
char_at c i = get_or c.buf ((c.r + i) % 2 ^ 32 % input_buf) 0

-- It ends a line.
abbrev pub is_end : ℕ → Bool
is_end c = c == newline || c == end_of_file

-- `cons.r++`
abbrev pub taken : ConsoleState → ConsoleState
taken s = record s { cons = record (s.cons) { r = add32 s.cons.r 1 } }

taken-IsConsole :
    (s : ConsoleState) → IsConsole s → 0 < sub32 s.cons.w s.cons.r → IsConsole (taken s)
taken-IsConsole s v h = record {
  room = v.room;
  r_small = omega arith;
  w_small = v.w_small;
  e_small = v.e_small;
  lines = omega arith;
  fits = omega arith;
}

module _ (us : UserSpace) (chan me target : ℕ) where
  read_char_returns :
      (dst n c : ℕ) (m : us.Memory) (s : ConsoleState)
      (next : us.Memory → ConsoleState → ConsoleGot us.Memory)
      → (is_end c ≡ false → (m' : us.Memory) → has_returned (next m' (taken s)) ≡ true)
      → has_returned (read_char us chan me target dst n c m s next) ≡ true
  unfolding read_char
  read_char_returns dst n c m s next h = elim (Bool-cases (c == end_of_file)) [
    | inl e ↦ rw (e, read_char) refl
    | inr e ↦ rw (e, read_char) (at (us.store m dst c) e)
  ]
    where
      at :
          (o : Option us.Memory)
          → (c == end_of_file) ≡ false
          → has_returned (elim o [
            | none ↦ ConsoleGot.returned (some (target - suc n)) m (taken s)
            | some m' ↦ elim (c == newline) [
              | true ↦ ConsoleGot.returned (some (target - n)) m' (taken s)
              | false ↦ next m' (taken s)
            ]
          ])
            ≡ true
      at none e = refl
      at (some m') e = elim (Bool-cases (c == newline)) [
        | inl f ↦ rw f refl
        | inr f ↦ rw f (h (ground arith) m')
      ]

  -- A reader does not fall asleep while the end of a line is among the characters it may read.
  pub consoleread_returns :
      (n dst : ℕ) (m : us.Memory) (s : ConsoleState) (i : ℕ)
      → IsConsole s
      → i < sub32 s.cons.w s.cons.r
      → is_end (char_at s.cons i) ≡ true
      → has_returned (consoleread us chan me target dst n m s) ≡ true
  unfolding consoleread
  consoleread_returns zero dst m s i v h e = refl
  consoleread_returns (suc n) dst m s i v h e =
      rw (busy, consoleread)
        (read_char_returns dst n _ m s (λ m' s'. consoleread us chan me target dst' n m' s')
          (λ more m'. after i h e more (λ i' h' e'.
            consoleread_returns n dst' m' (taken s) i' (taken-IsConsole s v (omega arith)) h' e')))
    where
      dst' : ℕ
      dst' = (dst + 1) % 2 ^ 64

      busy : (s.cons.r == s.cons.w) ≡ false
      busy = ground arith

      after :
          {B : Bool} (i : ℕ)
          → i < sub32 s.cons.w s.cons.r
          → is_end (char_at s.cons i) ≡ true
          → is_end (get_or s.cons.buf (s.cons.r % input_buf) 0) ≡ false
          → ((i' : ℕ)
              → i' < sub32 s.cons.w (add32 s.cons.r 1)
              → is_end (char_at (taken s).cons i') ≡ true
              → B ≡ true)
          → B ≡ true
      after zero h e more rest = absurd (
          let same : (s.cons.r + 0) % 2 ^ 32 % input_buf ≡ s.cons.r % input_buf = omega arith in
          ground (arith, rw same at e))
      after (suc i) h e more rest =
          let same : (add32 s.cons.r 1 + i) % 2 ^ 32 ≡ (s.cons.r + suc i) % 2 ^ 32 = omega arith in
          rest i (omega arith) (rw same e)
