-- ===== src/Locks/Nesting.antt =====
-- Nested calls of `push_off` and `pop_off`.
use my_oslab.Base.{
  ℕ, zero, suc, ◌+◌, ◌-◌, ◌≡◌, ◌⊎◌, inl, inr, refl, Bool, true, false, ◌&&◌, ◌||◌, Option, none,
  some, ltb, ◌==◌, if◌then◌else◌, arith,
}
use my_oslab.Locks.{Cpu, push_off, pop_off}

-- `n` calls of each.
abbrev pub pushes : ℕ → Cpu → Cpu
pushes zero c = c
pushes (suc n) c = pushes n (push_off c)

abbrev pub pops : ℕ → Cpu → Option Cpu
pops zero c = some c
pops (suc n) c = elim (pops n c) [ none ↦ none | some c1 ↦ pop_off c1 ]

-- The CPU is back where it was; an `intena` that the next `push_off` sets may differ.
pub record Back (c : Cpu) (o : Option Cpu) : Type 0 where
  pub after : Cpu
  pub result : o ≡ some after
  pub noff : after.noff ≡ c.noff
  pub intr : after.intr ≡ c.intr
  pub intena : (c.noff ≡ 0) ⊎ (after.intena ≡ c.intena)

pop_off-Back :
    (c d : Cpu)
    → (c.noff ≡ 0) ⊎ (c.intr ≡ false)
    → d.noff ≡ c.noff + 1
    → d.intr ≡ false
    → d.intena ≡ (if c.noff == 0 then c.intr else c.intena)
    → Back c (pop_off d)
unfolding pop_off
pop_off-Back c d ok n i e = record {
  after = record d {
    noff = d.noff - 1;
    intr = if d.noff - 1 == 0 && d.intena then true else d.intr;
  };
  result = let free : (d.intr || ltb d.noff 1) ≡ false = ground arith in rw free refl;
  noff = omega arith;
  intr = ground arith;
  intena = ground arith;
}

-- As many calls of `pop_off` as of `push_off` do not panic, and leave the nesting and whether the
-- CPU takes interrupts as they were, where a CPU inside of a `push_off` takes none.
pub pops-pushes : (n : ℕ) (c : Cpu) → (c.noff ≡ 0) ⊎ (c.intr ≡ false) → Back c (pops n (pushes n c))
unfolding push_off
pops-pushes zero c ok = record {
  after = c;
  result = refl;
  noff = refl;
  intr = refl;
  intena = inr refl;
}
pops-pushes (suc n) c ok =
    let r = pops-pushes n (push_off c) (inr refl) in
    rw (pops, r.result) (pop_off-Back c r.after ok r.noff r.intr (kept r.intena))
  where
    kept :
        {u : Bool}
        → (c.noff + 1 ≡ 0) ⊎ (u ≡ (if c.noff == 0 then c.intr else c.intena))
        → u ≡ (if c.noff == 0 then c.intr else c.intena)
    kept (inl z) = absurd (omega arith)
    kept (inr e) = e
