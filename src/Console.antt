-- ===== src/Console.antt =====
-- kernel/console.c. The console's lock makes `consoleintr` one step, and each stretch of
-- `consoleread` between two sleeps. The device takes the characters in the order they are sent.
pub mod Input
pub mod Read
mod Tests
use my_oslab.Base.{
  ℕ, zero, suc, ◌+◌, ◌-◌, ◌%◌, ◌^◌, Bool, true, false, not, ◌&&◌, ◌||◌, Option, none, some, List,
  [], ◌∷◌, ◌++◌, get_or, set, add32, sub32, ◌==◌, ltb, if◌then◌else◌,
}
use my_oslab.Proc.{Table, Chan, of_addr, wakeup, sleep}
use my_oslab.Pipe.{UserSpace, is_killed}

-- INPUT_BUF
abbrev pub input_buf : ℕ
input_buf = 128

-- `cons`; `r`, `w` and `e` are `uint`s that wrap.
pub record Console : Type 0 where
  pub buf : List ℕ
  pub r : ℕ
  pub w : ℕ
  pub e : ℕ

-- The console, the process table, and what was sent to the device, the first character first.
pub record ConsoleState : Type 0 where
  pub cons : Console
  pub procs : Table
  pub sent : List ℕ

-- BACKSPACE
abbrev pub backspace : ℕ
backspace = 256

-- `C('D')` for its letter, a character from `@` on.
abbrev pub control : ℕ → ℕ
control x = x - 64

abbrev pub newline : ℕ
newline = 10

abbrev pub end_of_file : ℕ
end_of_file = control 68

unfoldable pub consputc : ℕ → ConsoleState → ConsoleState
consputc c s = record s { sent = s.sent ++ (if c == backspace then 8 ∷ 32 ∷ 8 ∷ [] else c ∷ []) }

-- `cons.e--; consputc(BACKSPACE)`
abbrev pub erase : ConsoleState → ConsoleState
erase s = consputc backspace (record s { cons = record (s.cons) { e = sub32 s.cons.e 1 } })

-- The loop of control-u, with the number of characters that can be erased.
unfoldable pub kill_line : ℕ → ConsoleState → ConsoleState
kill_line zero s = s
kill_line (suc n) s =
    let rest = kill_line n (erase s) in
    if not (s.cons.e == s.cons.w)
      && not (get_or s.cons.buf (sub32 s.cons.e 1 % input_buf) 0 == newline)
    then rest
    else s

-- The character typed, and then stored and, at the end of a line, handed to the readers.
unfoldable pub store_char : ℕ → ℕ → ConsoleState → ConsoleState
store_char chan c s =
    let cons : Console = record (s.cons) {
      buf = set s.cons.buf (s.cons.e % input_buf) (c % 256);
      e = add32 s.cons.e 1;
    } in
    if c == newline || c == end_of_file || cons.e == add32 cons.r input_buf
    then record s { cons = record cons { w = cons.e }; procs = wakeup (of_addr chan) s.procs }
    else record s { cons = cons }

-- The address `&cons.r` is `chan`. The process list of control-p is not part of the state.
unfoldable pub consoleintr : ℕ → ℕ → ConsoleState → ConsoleState
unfolding kill_line store_char consputc
consoleintr chan c s =
    if c == control 80
    then s
    else if c == control 85
    then kill_line (sub32 s.cons.e s.cons.w) s
    else if c == control 72 || c == 127
    then (if not (s.cons.e == s.cons.w) then erase s else s)
    else if not (c == 0) && ltb (sub32 s.cons.e s.cons.r) input_buf
    then (let c' = if c == 13 then newline else c in store_char chan c' (consputc c' s))
    else s

-- A stretch of `consoleread`: it returns (`none` for -1), or sleeps with `n` bytes to go.
pub data ConsoleGot (M : Type 0) : Type 0 where
  returned : Option ℕ → M → ConsoleState → ConsoleGot M
  asleep : ℕ → ℕ → M → ConsoleState → ConsoleGot M

module _ (us : UserSpace) (chan me : ℕ) where
  open us use {Memory, load, store}

  -- The read of an empty buffer.
  unfoldable pub read_empty : ℕ → ℕ → Memory → ConsoleState → ConsoleGot Memory
  read_empty dst n m s =
      if is_killed me s.procs
      then ConsoleGot.returned none m s
      else ConsoleGot.asleep dst n m (record s { procs = sleep (of_addr chan) me s.procs })

  -- The character `c` that was read from `s`, with `n` more bytes to go behind it; `next` is the
  -- loop's next turn, with the memory the character was stored in.
  unfoldable pub read_char :
      ℕ
      → ℕ
      → ℕ
      → ℕ
      → Memory
      → ConsoleState
      → (Memory → ConsoleState → ConsoleGot Memory)
      → ConsoleGot Memory
  read_char target dst n c m s next =
      let taken : ConsoleState = record s { cons = record (s.cons) { r = add32 s.cons.r 1 } } in
      elim (c == end_of_file) [
        | true ↦
            ConsoleGot.returned (some (target - suc n)) m (if ltb (suc n) target then s else taken)
        | false ↦ elim (store m dst c) [
          | none ↦ ConsoleGot.returned (some (target - suc n)) m taken
          | some m' ↦ elim (c == newline) [
            | true ↦ ConsoleGot.returned (some (target - n)) m' taken
            | false ↦ next m' taken
          ]
        ]
      ]

  -- `consoleread` from the head of its loop, `n` of the `target` bytes to go to `dst`.
  unfoldable pub consoleread : ℕ → ℕ → ℕ → Memory → ConsoleState → ConsoleGot Memory
  unfolding read_empty read_char
  consoleread target dst zero m s = ConsoleGot.returned (some target) m s
  consoleread target dst (suc n) m s =
      let next : Memory → ConsoleState → ConsoleGot Memory =
        consoleread target ((dst + 1) % 2 ^ 64) n in
      elim (s.cons.r == s.cons.w) [
        | true ↦ read_empty dst (suc n) m s
        | false ↦ read_char target dst n (get_or s.cons.buf (s.cons.r % input_buf) 0) m s next
      ]

  -- The loop of `consolewrite`: the characters read from the caller are sent until one fails.
  unfoldable pub consolewrite : Memory → ℕ → ℕ → ℕ → ConsoleState → ℕ × ConsoleState
  consolewrite m src zero i s = (i, s)
  consolewrite m src (suc n) i s = elim (load m ((src + i) % 2 ^ 64)) [
    | none ↦ (i, s)
    | some c ↦ consolewrite m src n (i + 1) (record s { sent = s.sent ++ (c ∷ []) })
  ]
