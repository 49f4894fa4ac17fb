-- ===== src/Log/Commit.antt =====
-- The disk writes of a commit and of a recovery, spelled out.
use my_oslab.Base.{
  ℕ, ◌+◌, ◌≤◌, ◌<◌, ◌≡◌, ◌⊎◌, refl, ap₂, ◌∙◌, List, [], ◌∷◌, length, ◌==◌, if◌then◌else◌, arith,
}
use my_oslab.Log.{Disk, Write, Dev, log_size, install_one, install_trans, write_log_one, write_log}

-- A block outside of the log, whose header is block `start`.
abbrev pub IsHome : ℕ → ℕ → Type 0
IsHome start b = (b < start) ⊎ (start + log_size < b)

abbrev pub AllHome : ℕ → List ℕ → Type 0
AllHome start [] = Unit
AllHome start (b ∷ bs) = IsHome start b × AllHome start bs

module _ (start : ℕ) (f : Disk) where
  -- The log blocks from index `tail` on hold the contents `f` of the blocks `bs`.
  abbrev pub Logged : ℕ → List ℕ → Disk → Type 0
  Logged tail [] m = Unit
  Logged tail (b ∷ bs) m = (m (start + tail + 1) ≡ f b) × Logged (tail + 1) bs m

  abbrev pub log_trace : ℕ → List ℕ → List Write
  log_trace tail [] = []
  log_trace tail (b ∷ bs) = (start + tail + 1, f b) ∷ log_trace (tail + 1) bs

  abbrev pub home_trace : List ℕ → List Write
  home_trace [] = []
  home_trace (b ∷ bs) = (b, f b) ∷ home_trace bs

  pub mem-write_log_one :
      (tail b a : ℕ) (d : Dev)
      → (write_log_one start tail b d).mem a ≡ (if a == start + tail + 1 then d.mem b else d.mem a)
  unfolding write_log_one
  mem-write_log_one tail b a d = refl

  pub write_log-trace :
      (tail : ℕ) (bs : List ℕ) (d : Dev)
      → AllHome start bs
      → tail + length bs ≤ log_size
      → ((b : ℕ) → IsHome start b → d.mem b ≡ f b)
      → let (ws, d') = write_log start tail bs d in
        (ws ≡ log_trace tail bs)
        × ((a : ℕ) → a ≤ start + tail → d'.mem a ≡ d.mem a)
        × ((b : ℕ) → IsHome start b → d'.mem b ≡ f b)
        × Logged tail bs d'.mem
  unfolding write_log
  write_log-trace tail [] d home fits same = (refl, (λ a h. refl), same, tt)
  write_log-trace tail (b ∷ bs) d home fits same =
      let d1 = write_log_one start tail b d in
      let slot : d1.mem (start + tail + 1) ≡ f b =
        ground (arith, mem-write_log_one tail b (start + tail + 1) d, same b home.0) in
      let (ws, early, homes, logged) =
        write_log-trace (tail + 1) bs d1 home.1 (omega arith)
          (λ c h. ground (arith, mem-write_log_one tail b c d, same c h)) in
      (
        ap₂ (λ v ws. (start + tail + 1, v) ∷ ws) slot ws,
        (λ a h. early a (omega arith) ∙ ground (arith, mem-write_log_one tail b a d)),
        homes,
        (early (start + tail + 1) (omega arith) ∙ slot, logged),
      )

  pub mem-install_one :
      (tail b a : ℕ) (d : Dev)
      → (install_one start tail b d).mem a ≡ (if a == b then d.mem (start + tail + 1) else d.mem a)
  unfolding install_one
  mem-install_one tail b a d = refl

  -- Changes outside of the log leave it as it is.
  pub Logged-frame :
      (tail : ℕ) (bs : List ℕ) (m m' : Disk)
      → tail + length bs ≤ log_size
      → ((a : ℕ) → start < a → a ≤ start + log_size → m' a ≡ m a)
      → Logged tail bs m
      → Logged tail bs m'
  Logged-frame tail [] m m' fits same h = tt
  Logged-frame tail (b ∷ bs) m m' fits same h = (
    same (start + tail + 1) (omega arith) (omega arith) ∙ h.0,
    Logged-frame (tail + 1) bs m m' (omega arith) same h.1,
  )

  pub install_trans-trace :
      (tail : ℕ) (bs : List ℕ) (d : Dev)
      → AllHome start bs
      → tail + length bs ≤ log_size
      → Logged tail bs d.mem
      → let (ws, d') = install_trans start tail bs d in
        (ws ≡ home_trace bs) × ((a : ℕ) → start ≤ a → a ≤ start + log_size → d'.mem a ≡ d.mem a)
  unfolding install_trans
  install_trans-trace tail [] d home fits logged = (refl, (λ a lo hi. refl))
  install_trans-trace tail (b ∷ bs) d home fits logged =
      let d1 = install_one start tail b d in
      let kept : (a : ℕ) → start ≤ a → a ≤ start + log_size → d1.mem a ≡ d.mem a =
        λ a lo hi. ground (arith, mem-install_one tail b a d, home.0) in
      let copied : d1.mem b ≡ f b = ground (arith, mem-install_one tail b b d, logged.0) in
      let (ws, rest) = install_trans-trace (tail + 1) bs d1 home.1 (omega arith) (
        Logged-frame (tail + 1) bs d.mem d1.mem (omega arith) (λ a lo hi. kept a (omega arith) hi)
          logged.1) in
      (ap₂ (λ v ws. (b, v) ∷ ws) copied ws, (λ a lo hi. rest a lo hi ∙ kept a lo hi))
