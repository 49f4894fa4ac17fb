-- ===== src/Console/Tests.antt =====
-- The console with "ab\n" handed to the readers and "cd" behind it, its counters about to wrap.
use my_oslab.Base.{ℕ, ◌+◌, ◌-◌, ◌^◌, ◌≡◌, refl, some, [], ◌∷◌, ◌++◌, replicate, arith}
use my_oslab.Pipe.{UserSpace}
use my_oslab.Console.{ConsoleState, consoleintr}
use my_oslab.Console.Input.{IsConsole, consoleintr-IsConsole}

abbrev typed : ConsoleState
typed = record {
  cons = record {
    buf = 10 ∷ 99 ∷ 100 ∷ (replicate 123 7 ++ (97 ∷ 98 ∷ []));
    r = 2 ^ 32 - 2;
    w = 1;
    e = 3;
  };
  procs = [];
  sent = [];
}

typed-IsConsole : IsConsole typed
typed-IsConsole = record {
  room = refl;
  r_small = omega arith;
  w_small = omega arith;
  e_small = omega arith;
  lines = omega arith;
  fits = omega arith;
}

consoleintr-IsConsole_example : IsConsole (consoleintr 0 13 typed)
consoleintr-IsConsole_example = consoleintr-IsConsole 0 13 typed typed-IsConsole

abbrev user : UserSpace
user = record { Memory = ℕ; load = λ m a. some a; store = λ m a c. some (m + 1) }

-- Control-u erases the two characters that no reader has been given.
two_erased : (consoleintr 0 21 typed).sent ≡ 8 ∷ 32 ∷ 8 ∷ 8 ∷ 32 ∷ 8 ∷ []
unfolding consoleintr
two_erased = refl

-- A return ends the line.
line_handed_over : (consoleintr 0 13 typed).cons.w ≡ 4
unfolding consoleintr
line_handed_over = refl
