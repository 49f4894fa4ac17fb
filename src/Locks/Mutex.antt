-- ===== src/Locks/Mutex.antt =====
-- Several CPUs at one spinlock, each in a loop of `acquire` and `release`, in any order of turns.
pub mod Turns
use my_oslab.Base.{
  ℕ, zero, suc, ◌+◌, ◌-◌, ◌≤◌, ◌<◌, ◌≡◌, ◌≢◌, ◌⊎◌, inl, inr, refl, sym, ap, ◌∙◌, Bool, true, false,
  not, ◌&&◌, ◌||◌, Option, none, some, List, [], ◌∷◌, ltb, ◌==◌, if◌then◌else◌, Bool-cases, arith,
}
use my_oslab.Locks.{
  Cpu, Spinlock, push_off, pop_off, holding, acquire_start, test_and_set, acquire_end,
  release_start, release_end,
}

-- Where a CPU is: outside, in the loop of `acquire`, with the loop behind it, in its critical
-- section, or about to free the lock.
pub data Phase : Type 0 where
  outside : Phase
  spinning : Phase
  locked : Phase
  inside : Phase
  leaving : Phase

pub record System : Type 0 where
  pub lock : Spinlock
  pub phase : ℕ → Phase
  pub cpus : ℕ → Cpu

-- CPU `i` goes on to a phase.
abbrev pub go : ℕ → Phase → Spinlock → Cpu → System → System
go i p lk c s = record {
  lock = lk;
  phase = λ j. if j == i then p else s.phase j;
  cpus = λ j. if j == i then c else s.cpus j;
}

-- The turn of CPU `i` in phase `p`; `none` is a panic.
abbrev pub turn_at : Phase → ℕ → System → Option System
turn_at outside i s = elim (acquire_start i s.lock (s.cpus i)) [
  | none ↦ none
  | some c ↦ some (go i spinning s.lock c s)
]
turn_at spinning i s =
    let (last, lk) = test_and_set s.lock in
    some (go i (if last then locked else spinning) lk (s.cpus i) s)
turn_at locked i s = some (go i inside (acquire_end i s.lock) (s.cpus i) s)
turn_at inside i s = elim (release_start i s.lock) [
  | none ↦ none
  | some lk ↦ some (go i leaving lk (s.cpus i) s)
]
turn_at leaving i s =
    let (lk, r) = release_end s.lock (s.cpus i) in
    elim r [ none ↦ none | some c ↦ some (go i outside lk c s) ]

-- The turns of the CPUs in a list, one after the other.
abbrev pub run : List ℕ → System → Option System
run [] s = some s
run (i ∷ is) s = elim (turn_at (s.phase i) i s) [ none ↦ none | some s' ↦ run is s' ]

-- The CPU has the lock.
abbrev pub has_lock : Phase → Bool
has_lock outside = false
has_lock spinning = false
has_lock locked = true
has_lock inside = true
has_lock leaving = true

abbrev pub is_inside : Phase → Bool
is_inside inside = true
is_inside _ = false

abbrev pub is_outside : Phase → Bool
is_outside outside = true
is_outside _ = false

-- One CPU at most has the lock, which is then taken; its `cpu` says who is inside; and a CPU that
-- is not outside takes no interrupts.
pub record IsExclusive (s : System) : Type 0 where
  pub one : (i j : ℕ) → has_lock (s.phase i) ≡ true → has_lock (s.phase j) ≡ true → i ≡ j
  pub taken : (i : ℕ) → has_lock (s.phase i) ≡ true → s.lock.locked ≢ 0
  pub owner : (i : ℕ) → s.lock.cpu ≡ suc i → is_inside (s.phase i) ≡ true
  pub mine : (i : ℕ) → is_inside (s.phase i) ≡ true → s.lock.cpu ≡ suc i
  pub armed :
      (i : ℕ) → is_outside (s.phase i) ≡ false → ((s.cpus i).intr ≡ false) × (1 ≤ (s.cpus i).noff)

-- A turn that has been made without a panic.
pub record Goes (o : Option System) : Type 0 where
  pub after : System
  pub result : o ≡ some after
  pub exclusive : IsExclusive after

pub inside_has_lock : (p : Phase) → is_inside p ≡ true → has_lock p ≡ true
inside_has_lock outside h = absurd (ground (arith, h))
inside_has_lock spinning h = absurd (ground (arith, h))
inside_has_lock locked h = absurd (ground (arith, h))
inside_has_lock inside h = refl
inside_has_lock leaving h = absurd (ground (arith, h))

-- What a CPU that goes on must see to, for itself and for the others.
pub record Fits (i : ℕ) (p : Phase) (lk : Spinlock) (c : Cpu) (s : System) : Type 0 where
  pub alone : has_lock p ≡ true → (j : ℕ) → j ≢ i → has_lock (s.phase j) ≡ false
  pub taken : has_lock p ≡ true → lk.locked ≢ 0
  pub others_taken : (j : ℕ) → j ≢ i → has_lock (s.phase j) ≡ true → lk.locked ≢ 0
  pub owner : lk.cpu ≡ suc i → is_inside p ≡ true
  pub others_owner : (j : ℕ) → j ≢ i → lk.cpu ≡ suc j → is_inside (s.phase j) ≡ true
  pub mine : is_inside p ≡ true → lk.cpu ≡ suc i
  pub others_mine : (j : ℕ) → j ≢ i → is_inside (s.phase j) ≡ true → lk.cpu ≡ suc j
  pub armed : is_outside p ≡ false → (c.intr ≡ false) × (1 ≤ c.noff)

pub go-IsExclusive :
    (i : ℕ) (p : Phase) (lk : Spinlock) (c : Cpu) (s : System)
    → IsExclusive s
    → Fits i p lk c s
    → IsExclusive (go i p lk c s)
go-IsExclusive i p lk c s x f = record {
  one = λ j k hj hk. both j k (Bool-cases (j == i)) (Bool-cases (k == i)) hj hk;
  taken = λ j h. elim (Bool-cases (j == i)) [
    | inl t ↦ f.taken (rw t at h)
    | inr t ↦ f.others_taken j (ground arith) (rw t at h)
  ];
  owner = λ j h. elim (Bool-cases (j == i)) [
    | inl t ↦ rw t (let same : j ≡ i = ground arith in f.owner (rw same at h))
    | inr t ↦ rw t (f.others_owner j (ground arith) h)
  ];
  mine = λ j h. elim (Bool-cases (j == i)) [
    | inl t ↦ let same : j ≡ i = ground arith in rw same (f.mine (rw t at h))
    | inr t ↦ f.others_mine j (ground arith) (rw t at h)
  ];
  armed = λ j h. elim (Bool-cases (j == i)) [
    | inl t ↦ rw t (f.armed (rw t at h))
    | inr t ↦ rw t (x.armed j (rw t at h))
  ];
}
  where
    both :
        (j k : ℕ)
        → (j == i ≡ true) ⊎ (j == i ≡ false)
        → (k == i ≡ true) ⊎ (k == i ≡ false)
        → has_lock (if j == i then p else s.phase j) ≡ true
        → has_lock (if k == i then p else s.phase k) ≡ true
        → j ≡ k
    both j k (inl a) (inl b) hj hk = ground arith
    both j k (inl a) (inr b) hj hk =
        let mine' = rw a at hj in
        let other = rw b at hk in absurd (ground (arith, f.alone mine' k (ground arith), other))
    both j k (inr a) (inl b) hj hk =
        let other = rw a at hj in
        let mine' = rw b at hk in absurd (ground (arith, f.alone mine' j (ground arith), other))
    both j k (inr a) (inr b) hj hk = x.one j k (rw a at hj) (rw b at hk)
