-- ===== src/Log/Crash.antt =====
-- A crash at any moment of a commit, and of a recovery.
use my_oslab.Base.{
  ℕ, suc, ◌+◌, ◌≤◌, ◌<◌, ◌≡◌, ◌⊎◌, refl, ap, ◌∙◌, false, Bool, List, [], ◌∷◌, ◌||◌, length, ◌==◌,
  if◌then◌else◌, arith,
}
use my_oslab.Log.{Disk, Dev, update, log_size, recover_from_log}
use my_oslab.Log.Writes.{apply, Spares, apply-append, apply-Spares}
use my_oslab.Log.Commit.{IsHome, AllHome, Logged, log_trace, home_trace}
use my_oslab.Log.Header.{IsHeader, recover-trace}

-- The machine after a boot: nothing is cached, so `bread` returns the disk's blocks.
abbrev pub boot : Disk → Dev
boot d = record { mem = d; refcnt = λ b. 0 }

-- The disk after a boot and a recovery.
abbrev pub recovered : ℕ → Disk → Disk
recovered start d = apply (recover_from_log start (boot d)).0 d

abbrev pub has : ℕ → List ℕ → Bool
has a [] = false
has a (b ∷ bs) = (a == b) || has a bs

module _ (start : ℕ) (f : Disk) where
  pub apply-home_trace :
      (bs : List ℕ) (d : Disk) (a : ℕ)
      → apply (home_trace start f bs) d a ≡ (if has a bs then f a else d a)
  unfolding apply
  apply-home_trace [] d a = refl
  apply-home_trace (b ∷ bs) d a = apply-home_trace bs (update d b (f b)) a ∙ ground arith

  pub Spares-home_trace :
      (bs : List ℕ) (a : ℕ) → has a bs ≡ false → Spares a (home_trace start f bs)
  Spares-home_trace [] a h = tt
  Spares-home_trace (b ∷ bs) a h = (ground arith, Spares-home_trace bs a (ground arith))

  pub not-has_of_AllHome :
      (bs : List ℕ) (a : ℕ) → AllHome start bs → start ≤ a → a ≤ start + log_size → has a bs ≡ false
  not-has_of_AllHome [] a home lo hi = refl
  not-has_of_AllHome (b ∷ bs) a home lo hi =
      ground (arith, home.0, not-has_of_AllHome bs a home.1 lo hi)

  pub Spares-log_trace :
      (tail : ℕ) (bs : List ℕ) (a : ℕ)
      → ((a ≤ start + tail) ⊎ (start + log_size < a))
      → tail + length bs ≤ log_size
      → Spares a (log_trace start f tail bs)
  Spares-log_trace tail [] a away fits = tt
  Spares-log_trace tail (b ∷ bs) a away fits =
      (omega arith, Spares-log_trace (tail + 1) bs a (omega arith) (omega arith))

  pub Logged-log_trace :
      (tail : ℕ) (bs : List ℕ) (d : Disk)
      → tail + length bs ≤ log_size
      → Logged start f tail bs (apply (log_trace start f tail bs) d)
  unfolding apply
  Logged-log_trace tail [] d fits = tt
  Logged-log_trace tail (b ∷ bs) d fits =
      let d1 = update d (start + tail + 1) (f b) in
      (
        apply-Spares (start + tail + 1) (log_trace start f (tail + 1) bs) d1
              (Spares-log_trace (tail + 1) bs (start + tail + 1) (omega arith) (omega arith))
            ∙ ground arith,
        Logged-log_trace (tail + 1) bs d1 (omega arith),
      )

  pub length-log_trace : (tail : ℕ) (bs : List ℕ) → length (log_trace start f tail bs) ≡ length bs
  length-log_trace tail [] = refl
  length-log_trace tail (b ∷ bs) = ap suc (length-log_trace (tail + 1) bs)

  pub length-home_trace : (bs : List ℕ) → length (home_trace start f bs) ≡ length bs
  length-home_trace [] = refl
  length-home_trace (b ∷ bs) = ap suc (length-home_trace bs)

  -- Recovery from a committed transaction installs it.
  pub recovered-committed :
      (bs : List ℕ) (d : Disk) (a : ℕ)
      → AllHome start bs
      → length bs ≤ log_size
      → IsHeader bs (d start)
      → Logged start f 0 bs d
      → IsHome start a
      → recovered start d a ≡ (if has a bs then f a else d a)
  recovered-committed bs d a home fits header logged out =
      let (hb0, _, ws) = recover-trace start f bs (boot d) home fits header logged in
      ap (λ xs. apply xs d a) ws
      ∙ ap (λ (e : Disk). e a) (apply-append (home_trace start f bs) ((start, hb0) ∷ []) d)
      ∙ apply-Spares a ((start, hb0) ∷ []) (apply (home_trace start f bs) d) (omega arith, tt)
      ∙ apply-home_trace bs d a

-- Recovery from a disk with no transaction changes no block outside of the log.
pub recovered-clear :
    (start : ℕ) (d : Disk) (a : ℕ)
    → IsHeader [] (d start)
    → IsHome start a
    → recovered start d a ≡ d a
recovered-clear start d a header out =
    recovered-committed start d [] d a tt (omega arith) header tt out
