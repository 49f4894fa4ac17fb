-- ===== src/Locks/Mutex/Turns.antt =====
-- Each turn of a CPU keeps the lock exclusive.
use my_oslab.Base.{
  ℕ, suc, ◌≡◌, ◌≢◌, inl, inr, refl, ap, true, false, ◌||◌, some, List, [], ◌∷◌, ltb, ◌==◌,
  Bool-cases, arith,
}
use my_oslab.Locks.{
  Cpu, Spinlock, push_off, pop_off, holding, acquire_start, test_and_set, acquire_end,
  release_start, release_end,
}
use my_oslab.Locks.Mutex.{
  Phase, outside, spinning, locked, inside, leaving, System, go, turn_at, run, has_lock, is_inside,
  is_outside, IsExclusive, Goes, inside_has_lock, Fits, go-IsExclusive,
}

module _ (i : ℕ) (s : System) (x : IsExclusive s) where
  goes : (p : Phase) (lk : Spinlock) (c : Cpu) → Fits i p lk c s → Goes (some (go i p lk c s))
  goes p lk c f = record {
    after = go i p lk c s;
    result = refl;
    exclusive = go-IsExclusive i p lk c s x f;
  }

  -- While CPU `i` has the lock no other has.
  others_wait : has_lock (s.phase i) ≡ true → (j : ℕ) → j ≢ i → has_lock (s.phase j) ≡ false
  others_wait h j ne = elim (Bool-cases (has_lock (s.phase j))) [
    | inl t ↦ absurd (ne (x.one j i t h))
    | inr t ↦ t
  ]

  not_owner : is_inside (s.phase i) ≡ false → s.lock.cpu ≢ suc i
  not_owner h e = absurd (ground (arith, x.owner i e))

  from_outside : s.phase i ≡ outside → Goes (turn_at outside i s)
  unfolding acquire_start push_off
  from_outside e =
      let away : is_inside (s.phase i) ≡ false = ap is_inside e in
      let free : holding i s.lock ≡ false = ground (arith, not_owner away) in
      rw (turn_at, acquire_start, free)
        (goes spinning s.lock (push_off (s.cpus i)) (record {
          alone = λ h j ne. absurd (ground (arith, h));
          taken = λ h z. ground (arith, h);
          others_taken = λ j ne h. x.taken j h;
          owner = λ h. absurd (not_owner away h);
          others_owner = λ j ne h. x.owner j h;
          mine = λ h. absurd (ground (arith, h));
          others_mine = λ j ne h. x.mine j h;
          armed = λ h. (refl, omega arith);
        }))

  from_spinning : s.phase i ≡ spinning → Goes (turn_at spinning i s)
  unfolding test_and_set
  from_spinning e = elim (Bool-cases (s.lock.locked == 0)) [
    | inl t ↦ rw t (
        goes locked (record (s.lock) { locked = 1 }) (s.cpus i)
          (record {
            alone = λ h j ne. elim (Bool-cases (has_lock (s.phase j))) [
              | inl u ↦ absurd (x.taken j u (ground arith))
              | inr u ↦ u
            ];
            taken = λ h z. omega arith;
            others_taken = λ j ne h z. omega arith;
            owner = λ h. absurd (not_owner away h);
            others_owner = λ j ne h. x.owner j h;
            mine = λ h. absurd (ground (arith, h));
            others_mine = λ j ne h. x.mine j h;
            armed = λ h. x.armed i in_loop;
          }))
    | inr t ↦ rw t (
        goes spinning (record (s.lock) { locked = 1 }) (s.cpus i)
          (record {
            alone = λ h j ne. absurd (ground (arith, h));
            taken = λ h z. omega arith;
            others_taken = λ j ne h z. omega arith;
            owner = λ h. absurd (not_owner away h);
            others_owner = λ j ne h. x.owner j h;
            mine = λ h. absurd (ground (arith, h));
            others_mine = λ j ne h. x.mine j h;
            armed = λ h. x.armed i in_loop;
          }))
  ]
    where
      away : is_inside (s.phase i) ≡ false
      away = ap is_inside e

      in_loop : is_outside (s.phase i) ≡ false
      in_loop = ap is_outside e

  from_locked : s.phase i ≡ locked → Goes (turn_at locked i s)
  unfolding acquire_end
  from_locked e =
      let has : has_lock (s.phase i) ≡ true = ap has_lock e in
      goes inside (acquire_end i s.lock) (s.cpus i) (record {
        alone = λ h j ne. others_wait has j ne;
        taken = λ h. x.taken i has;
        others_taken = λ j ne h. x.taken j h;
        owner = λ h. refl;
        others_owner = λ j ne h. absurd (omega arith);
        mine = λ h. refl;
        others_mine = λ j ne h. absurd (ne (x.one j i (inside_has_lock _ h) has));
        armed = λ h. x.armed i (ap is_outside e);
      })

  from_inside : s.phase i ≡ inside → Goes (turn_at inside i s)
  unfolding release_start
  from_inside e =
      let has : has_lock (s.phase i) ≡ true = ap has_lock e in
      let holds : holding i s.lock ≡ true =
        ground (arith, x.taken i has, x.mine i (ap is_inside e)) in
      rw (turn_at, release_start, holds)
        (goes leaving (record (s.lock) { cpu = 0 }) (s.cpus i)
          (record {
            alone = λ h j ne. others_wait has j ne;
            taken = λ h. x.taken i has;
            others_taken = λ j ne h. x.taken j h;
            owner = λ h. absurd (omega arith);
            others_owner = λ j ne h. absurd (omega arith);
            mine = λ h. absurd (ground (arith, h));
            others_mine = λ j ne h. absurd (ne (x.one j i (inside_has_lock _ h) has));
            armed = λ h. x.armed i (ap is_outside e);
          }))

  from_leaving : s.phase i ≡ leaving → Goes (turn_at leaving i s)
  unfolding release_end pop_off
  from_leaving e =
      let has : has_lock (s.phase i) ≡ true = ap has_lock e in
      let away : is_inside (s.phase i) ≡ false = ap is_inside e in
      let (off, deep) = x.armed i (ap is_outside e) in
      let pops : ((s.cpus i).intr || ltb (s.cpus i).noff 1) ≡ false = ground (arith, off, deep) in
      rw (turn_at, release_end, pop_off, pops)
        (goes outside (record (s.lock) { locked = 0 }) _
          (record {
            alone = λ h j ne. absurd (ground (arith, h));
            taken = λ h. absurd (ground (arith, h));
            others_taken = λ j ne h. absurd (ne (x.one j i h has));
            owner = λ h. absurd (not_owner away h);
            others_owner = λ j ne h. x.owner j h;
            mine = λ h. absurd (ground (arith, h));
            others_mine = λ j ne h. x.mine j h;
            armed = λ h. absurd (ground (arith, h));
          }))

  turn-Goes : (p : Phase) → s.phase i ≡ p → Goes (turn_at p i s)
  turn-Goes outside e = from_outside e
  turn-Goes spinning e = from_spinning e
  turn-Goes locked e = from_locked e
  turn-Goes inside e = from_inside e
  turn-Goes leaving e = from_leaving e

-- From a state in which one CPU at most has the lock, `lk->cpu` names the one inside and only CPUs
-- outside take interrupts, in whatever order the CPUs take their turns, no `acquire` or `release`
-- panics, and all of that still holds.
pub run-Goes : (is : List ℕ) (s : System) → IsExclusive s → Goes (run is s)
run-Goes [] s x = record { after = s; result = refl; exclusive = x }
run-Goes (i ∷ is) s x =
    let g = turn-Goes i s x (s.phase i) refl in rw (run, g.result) (run-Goes is g.after g.exclusive)
