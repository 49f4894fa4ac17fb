-- ===== src/Console/Input.antt =====
-- What typed characters do to the console's buffer.
use my_oslab.Base.{
  ℕ, zero, suc, ◌%◌, ◌^◌, ◌≤◌, ◌<◌, ◌≡◌, ◌≢◌, ◌⊎◌, inl, ◌∙◌, true, false, not, ◌&&◌, ◌||◌, List,
  length, get_or, set, length-set, sub32, ◌==◌, ltb, if◌then◌else◌, cases_if, arith,
}
use my_oslab.Console.{
  Console, ConsoleState, input_buf, newline, control, consputc, erase, kill_line, store_char,
  consoleintr,
}

-- The counters stand in the order `r`, `w`, `e` round 2 ^ 32, at most INPUT_BUF apart.
pub record IsConsole (s : ConsoleState) : Type 0 where
  pub room : length s.cons.buf ≡ input_buf
  pub r_small : s.cons.r < 2 ^ 32
  pub w_small : s.cons.w < 2 ^ 32
  pub e_small : s.cons.e < 2 ^ 32
  pub lines : sub32 s.cons.w s.cons.r ≤ sub32 s.cons.e s.cons.r
  pub fits : sub32 s.cons.e s.cons.r ≤ input_buf

sent-IsConsole :
    (out : List ℕ) (s : ConsoleState) → IsConsole s → IsConsole (record s { sent = out })
sent-IsConsole out s v = record {
  room = v.room;
  r_small = v.r_small;
  w_small = v.w_small;
  e_small = v.e_small;
  lines = v.lines;
  fits = v.fits;
}

erase-IsConsole : (s : ConsoleState) → IsConsole s → s.cons.e ≢ s.cons.w → IsConsole (erase s)
unfolding consputc
erase-IsConsole s v h = record {
  room = v.room;
  r_small = v.r_small;
  w_small = v.w_small;
  e_small = omega arith;
  lines = omega arith;
  fits = omega arith;
}

kill_line-IsConsole : (n : ℕ) (s : ConsoleState) → IsConsole s → IsConsole (kill_line n s)
unfolding kill_line
kill_line-IsConsole zero s v = v
kill_line-IsConsole (suc n) s v =
    cases_if IsConsole _ (λ t. kill_line-IsConsole n (erase s) (erase-IsConsole s v (ground arith)))
      (λ t. v)

store_char-IsConsole :
    (chan c : ℕ) (s : ConsoleState)
    → IsConsole s
    → sub32 s.cons.e s.cons.r < input_buf
    → IsConsole (store_char chan c s)
unfolding store_char
store_char-IsConsole chan c s v h =
    cases_if IsConsole _
      (λ t. record {
        room = room;
        r_small = v.r_small;
        w_small = omega arith;
        e_small = omega arith;
        lines = omega arith;
        fits = omega arith;
      })
      (λ t. record {
        room = room;
        r_small = v.r_small;
        w_small = v.w_small;
        e_small = omega arith;
        lines = omega arith;
        fits = omega arith;
      })
  where
    room : length (set s.cons.buf (s.cons.e % input_buf) (c % 256)) ≡ input_buf
    room = length-set s.cons.buf (s.cons.e % input_buf) (c % 256) ∙ v.room

-- Every character typed keeps the counters of the console in order: what has been handed to the
-- readers ends before what can still be edited, and both fit the buffer.
pub consoleintr-IsConsole :
    (chan c : ℕ) (s : ConsoleState) → IsConsole s → IsConsole (consoleintr chan c s)
unfolding consoleintr consputc
consoleintr-IsConsole chan c s v =
    cases_if IsConsole (c == control 80) (λ t. v)
      λ t.
        cases_if IsConsole (c == control 85)
          (λ t. kill_line-IsConsole (sub32 s.cons.e s.cons.w) s v)
          λ t.
            cases_if IsConsole (c == control 72 || c == 127)
              (λ t.
                cases_if IsConsole (not (s.cons.e == s.cons.w))
                  (λ t'. erase-IsConsole s v (ground arith)) (λ t'. v))
              λ t.
                cases_if IsConsole (not (c == 0) && ltb (sub32 s.cons.e s.cons.r) input_buf)
                  (λ t'.
                    let c' = if c == 13 then newline else c in
                    store_char-IsConsole chan c' (consputc c' s) (kept c') (small c' t'))
                  (λ t'. v)
  where
    kept : (c : ℕ) → IsConsole (consputc c s)
    kept c = sent-IsConsole _ s v

    small :
        (c' : ℕ)
        → (not (c == 0) && ltb (sub32 s.cons.e s.cons.r) input_buf) ≡ true
        → sub32 (consputc c' s).cons.e (consputc c' s).cons.r < input_buf
    small c' h = ground arith

-- The character before the place of the next one.
abbrev pub last : Console → ℕ
last c = get_or c.buf (sub32 c.e 1 % input_buf) 0

-- Control-u leaves what has been handed to the readers, and erases until nothing can be edited
-- or a newline comes before it; the count of characters that can be erased is enough.
pub kill_line_lem :
    (n : ℕ) (s : ConsoleState)
    → IsConsole s
    → sub32 s.cons.e s.cons.w ≤ n
    → ((kill_line n s).cons.e ≡ s.cons.w) ⊎ (last (kill_line n s).cons ≡ newline)
unfolding kill_line consputc
kill_line_lem zero s v h = inl (omega arith)
kill_line_lem (suc n) s v h =
    cases_if (λ (x : ConsoleState). (x.cons.e ≡ s.cons.w) ⊎ (last x.cons ≡ newline)) _
      (λ t. kill_line_lem n (erase s) (erase-IsConsole s v (ground arith)) (ground arith))
      (λ t. stops t)
  where
    stops :
        (not (s.cons.e == s.cons.w) && not (last s.cons == newline)) ≡ false
        → (s.cons.e ≡ s.cons.w) ⊎ (last s.cons ≡ newline)
    stops t = ground arith
