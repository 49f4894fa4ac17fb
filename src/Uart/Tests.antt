-- ===== src/Uart/Tests.antt =====
-- The transmit buffer at a concrete state: it wraps around, with one character in it.
use my_oslab.Base.{◌≡◌, refl, [], ◌∷◌, replicate, set, arith}
use my_oslab.Uart.{Uart, uartstart, uartputc}
use my_oslab.Uart.Fifo.{IsRing, written, Puts, uartputc-Puts}

abbrev one_left : Uart
one_left = record { buf = set (replicate 32 0) 31 104; w = 0; r = 31; sent = 103 ∷ []; procs = [] }

one_left-IsRing : IsRing one_left
one_left-IsRing = record { full_size = refl; w_in = omega arith; r_in = omega arith }

uartputc-Puts_example :
    (IsRing (uartstart 7 1 one_left) × (written (uartstart 7 1 one_left) ≡ written one_left))
    × Puts 105 one_left (uartputc 7 1 105 one_left)
uartputc-Puts_example = uartputc-Puts 7 1 105 one_left one_left-IsRing

-- The character before it is the one that is sent.
oldest_first : (uartstart 7 1 one_left).sent ≡ 104 ∷ (103 ∷ [])
unfolding uartstart
oldest_first = refl
