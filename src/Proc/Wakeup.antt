-- ===== src/Proc/Wakeup.antt =====
-- Sleeping and waking.
use my_oslab.Base.{
  ℕ, zero, suc, ◌≡◌, refl, true, some, [], ◌∷◌, get_elem?, get_elem?-modify_self, ==_self,
}
use mathlib.Core.Option
use my_oslab.Proc.{
  Proc, Table, Chan, null, of_proc, of_addr, sleeping, runnable, chan_eq, wake, wakeup, sleep,
  sleep_return,
}

-- `wakeup` makes exactly the processes that sleep on the channel runnable, and changes nothing
-- else in the table: at every index the result is the old process, or that process made runnable
-- if it was SLEEPING on the channel.
pub get_elem?-wakeup :
    (c : Chan) (ps : Table) (i : ℕ)
    → get_elem? (wakeup c ps) i ≡ Option.map (wake c) (get_elem? ps i)
unfolding wakeup
get_elem?-wakeup c [] i = refl
get_elem?-wakeup c (p ∷ ps) zero = refl
get_elem?-wakeup c (p ∷ ps) (suc i) = get_elem?-wakeup c ps i

chan_eq_self : (c : Chan) → chan_eq c c ≡ true
chan_eq_self null = refl
chan_eq_self (of_proc i) = ==_self i
chan_eq_self (of_addr a) = ==_self a

-- No wakeup is lost: a process that has gone to sleep on a channel is runnable after the next
-- `wakeup` on it, and when it runs again its fields are those from before, but for the state.
pub wakeup-sleep :
    (c : Chan) (ps : Table) (i : ℕ) (p : Proc)
    → get_elem? ps i ≡ some p
    → (get_elem? (wakeup c (sleep c i ps)) i ≡ some (record p { chan = c; state = runnable }))
      × (get_elem? (sleep_return i (wakeup c (sleep c i ps))) i
          ≡ some (record p { chan = null; state = runnable }))
unfolding sleep sleep_return
wakeup-sleep c ps i p at = (woken, rw (get_elem?-modify_self, woken))
  where
    asleep : get_elem? (sleep c i ps) i ≡ some (record p { chan = c; state = sleeping })
    asleep = rw (get_elem?-modify_self, at)

    woken : get_elem? (wakeup c (sleep c i ps)) i ≡ some (record p { chan = c; state = runnable })
    woken = rw (get_elem?-wakeup, asleep, chan_eq_self c)
