-- ===== src/Log/Recover.antt =====
-- A crash during a recovery.
use my_oslab.Base.{
  ℕ, ◌+◌, ◌-◌, ◌≤◌, ◌≡◌, refl, ◌∙◌, true, false, Bool, List, [], ◌∷◌, length, ◌==◌, if◌then◌else◌,
  ==_self, arith,
}
use native.Mathlib.Decide.{dec_le}
use my_oslab.Log.{Disk, Write, update, log_size, recover_from_log}
use my_oslab.Log.Writes.{
  apply, crash, apply-append, apply-one, crash-Spares, take_all, take-append_le, take-append_ge,
}
use my_oslab.Log.Commit.{IsHome, AllHome, Logged, Logged-frame, home_trace}
use my_oslab.Log.Header.{IsHeader, recover-trace}
use my_oslab.Log.Crash.{
  boot, recovered, has, apply-home_trace, Spares-home_trace, not-has_of_AllHome,
  recovered-committed, recovered-clear,
}

module _ (start : ℕ) (f d : Disk) (bs : List ℕ) (home : AllHome start bs)
    (fits : length bs ≤ log_size) (header : IsHeader bs (d start)) (logged : Logged start f 0 bs d)
    (a : ℕ) (out : IsHome start a) where
  part_way :
      (k : ℕ)
      → recovered start (crash k (home_trace start f bs) d) a ≡ (if has a bs then f a else d a)
  part_way k =
      recovered-committed start f bs e a home fits
        (rw (at start (omega arith) (omega arith)) header)
        (Logged-frame start f 0 bs d e (omega arith) (λ b lo hi. at b (omega arith) hi) logged) out
      ∙ other (has a bs) refl
    where
      e : Disk
      e = crash k (home_trace start f bs) d

      at : (b : ℕ) → start ≤ b → b ≤ start + log_size → e b ≡ d b
      at b lo hi =
          crash-Spares k b (home_trace start f bs) d
            (Spares-home_trace start f bs b (not-has_of_AllHome start f bs b home lo hi))

      other :
          (h : Bool)
          → has a bs ≡ h
          → (if has a bs then f a else e a) ≡ (if has a bs then f a else d a)
      other true h = rw h refl
      other false h =
          rw h (crash-Spares k a (home_trace start f bs) d (Spares-home_trace start f bs a h))

  -- A recovery that is itself cut short after any number of its disk writes, and then run again,
  -- leaves every block outside of the log as an uninterrupted recovery does: this is so for every
  -- disk whose header names at most LOGSIZE blocks, all outside of the log, with one content `f`
  -- logged for each.
  pub recover_again :
      (k : ℕ)
      → recovered start (crash k (recover_from_log start (boot d)).0 d) a ≡ recovered start d a
  recover_again k =
      let (hb0, header0, trace) = recover-trace start f bs (boot d) home fits header logged in
      let homes = home_trace start f bs in
      let whole = recovered-committed start f bs d a home fits header logged out in
      let ne : (a == start) ≡ false = ground (arith, out) in
      rw (whole, trace)
        (elim (dec_le k (length homes)) [
          | yes le ↦ rw (take-append_le k homes ((start, hb0) ∷ []) le) (part_way k)
          | no nle ↦
              rw
                (
                  take-append_ge k homes ((start, hb0) ∷ []) (omega arith),
                  take_all {A = Write} (k - length homes) ((start, hb0) ∷ []) (omega arith),
                  apply-append homes,
                  apply-one start hb0,
                )
                (recovered-clear start (update (apply homes d) start hb0) a
                    (rw (==_self start) header0) out
                  ∙ rw ne (apply-home_trace start f bs d a))
        ])
