-- ===== src/Uart.antt =====
-- The transmit buffer of kernel/uart.c. The device's register is the list of what it was given,
-- the last character first; how often the status says that it can take one before it says that it
-- cannot is an argument, `ready`. The states where `panicked` is set, in which the source loops
-- for ever, are left out.
pub mod Fifo
mod Tests
use my_oslab.Base.{
  ℕ, zero, suc, ◌+◌, ◌%◌, Bool, true, false, Option, none, some, List, [], ◌∷◌, get_or, set, ◌==◌,
  if◌then◌else◌,
}
use my_oslab.Proc.{Chan, Table, wakeup}
use my_oslab.Console.{ConsoleState, consoleintr}

-- UART_TX_BUF_SIZE
abbrev pub size : ℕ
size = 32

-- `uart_tx_buf`, `uart_tx_w` and `uart_tx_r`, the register, and the processes.
pub record Uart : Type 0 where
  pub buf : List ℕ
  pub w : ℕ
  pub r : ℕ
  pub sent : List ℕ
  pub procs : Table

-- The end of a turn of the loop of `uartstart`; `chan` is the address of `uart_tx_r`.
abbrev pub send : ℕ → Uart → Uart
send chan u = record u {
  r = (u.r + 1) % size;
  procs = wakeup (Chan.of_addr chan) u.procs;
  sent = get_or u.buf u.r 0 ∷ u.sent;
}

unfoldable pub uartstart : ℕ → ℕ → Uart → Uart
unfolding wakeup
uartstart chan zero u = u
uartstart chan (suc ready) u = elim (u.w == u.r) [
  | true ↦ u
  | false ↦ uartstart chan ready (send chan u)
]

-- `uart_tx_buf[uart_tx_w] = c`, a `char`, and the next place.
abbrev pub store : ℕ → Uart → Uart
store c u = record u { buf = set u.buf u.w (c % 256); w = (u.w + 1) % size }

-- A turn of the loop of `uartputc`: `none` where it goes to sleep.
unfoldable pub uartputc : ℕ → ℕ → ℕ → Uart → Option Uart
unfolding uartstart
uartputc chan ready c u =
    if (u.w + 1) % size == u.r then none else some (uartstart chan ready (store c u))

-- The first loop of `uartintr` for the characters that have arrived.
abbrev pub receive : ℕ → List ℕ → ConsoleState → ConsoleState
receive chan [] s = s
receive chan (c ∷ input) s = receive chan input (consoleintr chan c s)

-- `uartintr`; `cons` is the address that readers of the console sleep on.
unfoldable pub uartintr : ℕ → ℕ → ℕ → List ℕ → ConsoleState × Uart → ConsoleState × Uart
unfolding uartstart consoleintr
uartintr cons chan ready input (s, u) = (receive cons input s, uartstart chan ready u)
