-- ===== src/Log/Atomic.antt =====
-- A transaction reaches the disk whole or not at all.
use my_oslab.Base.{
  ℕ, zero, suc, ◌+◌, ◌-◌, ◌≤◌, ◌<◌, ◌≡◌, ◌⊎◌, inl, refl, sym, ◌∙◌, true, false, Bool, List, [], ◌∷◌,
  ◌++◌, length, take, ◌==◌, if◌then◌else◌, ==_self, arith,
}
use native.Mathlib.Decide.{dec_le}
use my_oslab.Log.{Block, Disk, Write, Dev, update, log_size, commit}
use my_oslab.Log.Writes.{
  apply, crash, apply-append, apply-cons, apply-one, apply-Spares, crash-Spares, take_all,
  take-append_le, take-append_ge,
}
use my_oslab.Log.Commit.{IsHome, AllHome, Logged, Logged-frame, log_trace, home_trace}
use my_oslab.Log.Header.{IsHeader, commit-trace}
use my_oslab.Log.Crash.{
  recovered, has, apply-home_trace, Spares-home_trace, not-has_of_AllHome, Spares-log_trace,
  Logged-log_trace, length-log_trace, recovered-committed, recovered-clear,
}

module _ (start : ℕ) (f d0 : Disk) (bs : List ℕ) (home : AllHome start bs)
    (fits : length bs ≤ log_size)
    (same : (a : ℕ) → IsHome start a → has a bs ≡ false → f a ≡ d0 a) where
  -- While the log is written, recovery finds the disk as it was.
  early :
      (k a : ℕ)
      → IsHeader [] (d0 start)
      → IsHome start a
      → recovered start (crash k (log_trace start f 0 bs) d0) a ≡ d0 a
  early k a clear out =
      recovered-clear start (crash k (log_trace start f 0 bs) d0) a
        (rw (at start (inl (omega arith))) clear) out
      ∙ at a (omega arith)
    where
      at :
          (b : ℕ)
          → ((b ≤ start + 0) ⊎ (start + log_size < b))
          → crash k (log_trace start f 0 bs) d0 b ≡ d0 b
      at b away =
          crash-Spares k b (log_trace start f 0 bs) d0
            (Spares-log_trace start f 0 bs b away (omega arith))

  abbrev committed : Block → Disk
  committed hb = update (apply (log_trace start f 0 bs) d0) start hb

  committed-home : (hb : Block) (a : ℕ) → IsHome start a → committed hb a ≡ d0 a
  committed-home hb a out =
      let ne : (a == start) ≡ false = ground (arith, out) in
      rw ne (
        apply-Spares a (log_trace start f 0 bs) d0
          (Spares-log_trace start f 0 bs a (omega arith) (omega arith)))

  -- While the blocks are installed, recovery installs them all.
  installing :
      (hb : Block) (j a : ℕ)
      → IsHeader bs hb
      → IsHome start a
      → recovered start (crash j (home_trace start f bs) (committed hb)) a ≡ f a
  installing hb j a header out =
      recovered-committed start f bs d a home fits
        (rw (at start (omega arith) (omega arith), ==_self start) header) logged out
      ∙ new (has a bs) refl
    where
      d : Disk
      d = crash j (home_trace start f bs) (committed hb)

      at : (b : ℕ) → start ≤ b → b ≤ start + log_size → d b ≡ committed hb b
      at b lo hi =
          crash-Spares j b (home_trace start f bs) (committed hb)
            (Spares-home_trace start f bs b (not-has_of_AllHome start f bs b home lo hi))

      logged : Logged start f 0 bs d
      logged =
          Logged-frame start f 0 bs (apply (log_trace start f 0 bs) d0) d (omega arith)
            (λ b lo hi. at b (omega arith) hi ∙ ground arith)
            (Logged-log_trace start f 0 bs d0 (omega arith))

      new : (h : Bool) → has a bs ≡ h → (if has a bs then f a else d a) ≡ f a
      new true e = rw e refl
      new false e = rw e (
          crash-Spares j a (home_trace start f bs) (committed hb) (Spares-home_trace start f bs a e)
          ∙ committed-home hb a out
          ∙ sym (same a out e))

  -- Once the header is cleared, recovery leaves the installed blocks.
  cleared :
      (hb hb0 : Block) (a : ℕ)
      → IsHeader [] hb0
      → IsHome start a
      → recovered start (update (apply (home_trace start f bs) (committed hb)) start hb0) a ≡ f a
  cleared hb hb0 a header out =
      recovered-clear start d a (rw (==_self start) header) out
      ∙ (let ne : (a == start) ≡ false = ground (arith, out) in rw ne refl)
      ∙ apply-home_trace start f bs (committed hb) a
      ∙ new (has a bs) refl
    where
      d : Disk
      d = update (apply (home_trace start f bs) (committed hb)) start hb0

      new : (h : Bool) → has a bs ≡ h → (if has a bs then f a else committed hb a) ≡ f a
      new true e = rw e refl
      new false e = rw e (committed-home hb a out ∙ sym (same a out e))

apply_none : (k : ℕ) (d : Disk) → crash k [] d ≡ d
unfolding apply
apply_none zero d = refl
apply_none (suc k) d = refl

module _ (start : ℕ) (d : Dev) (d0 : Disk) where
  abbrev pub writes : List ℕ → List Write
  writes bs = (commit start bs d).0

  -- The crash after `k` of the writes of a commit of at least one block.
  commit_crash :
      (b : ℕ) (bs : List ℕ) (k a : ℕ)
      → AllHome start (b ∷ bs)
      → length (b ∷ bs) ≤ log_size
      → IsHeader [] (d0 start)
      → ((c : ℕ) → IsHome start c → has c (b ∷ bs) ≡ false → d.mem c ≡ d0 c)
      → IsHome start a
      → (k ≤ length (b ∷ bs) → recovered start (crash k (writes (b ∷ bs)) d0) a ≡ d0 a)
        × (length (b ∷ bs) < k → recovered start (crash k (writes (b ∷ bs)) d0) a ≡ d.mem a)
  commit_crash b bs k a home fits clear same out =
      let cs = b ∷ bs in
      let f = d.mem in
      let (hb, hb0, header, header0, trace) = commit-trace start f b bs d home fits (λ c h. refl) in
      let logs = log_trace start f 0 cs in
      let homes = home_trace start f cs in
      let D = λ (k : ℕ). crash k (writes cs) d0 in
      let before : k ≤ length cs → recovered start (D k) a ≡ d0 a = λ h.
        rw (trace, take-append_le k logs _ (omega (arith, length-log_trace start f 0 cs)))
          (early start f d0 cs home fits same k a clear out) in
      let after : (j : ℕ)
          → k - length logs ≡ suc j
          → length logs ≤ k
          → recovered start (D k) a ≡ f a =
        λ j e h.
          rw
            (
              trace,
              take-append_ge k logs _ h,
              e,
              apply-append logs,
              apply-cons start hb (take j (homes ++ ((start, hb0) ∷ []))),
            )
            (elim (dec_le j (length homes)) [
              | yes le ↦
                  rw (take-append_le j homes ((start, hb0) ∷ []) le)
                    (installing start f d0 cs home fits same hb j a header out)
              | no nle ↦
                  rw
                    (
                      take-append_ge j homes ((start, hb0) ∷ []) (omega arith),
                      take_all {A = Write} (j - length homes) ((start, hb0) ∷ []) (omega arith),
                      apply-append homes,
                      apply-one start hb0,
                    )
                    (cleared start f d0 cs home fits same hb hb0 a header0 out)
            ]) in
      (
        before,
        λ h.
            after (k - length logs - 1) (omega (arith, length-log_trace start f 0 cs))
              (omega (arith, length-log_trace start f 0 cs)),
      )

  -- Commits are atomic. Take a disk `d0` with no transaction in its log, and a cache that differs
  -- from it, outside of the log, only at the blocks `bs` of the transaction, which are at most
  -- LOGSIZE and lie outside of the log. If the machine crashes after any number `k` of the disk
  -- writes of `commit` and recovers, then every block outside of the log holds its old contents
  -- if the header had not been written, which is the write after the `length bs` log blocks, and
  -- its new contents, those of the cache, if it had.
  pub commit_atomic :
      (bs : List ℕ) (k a : ℕ)
      → AllHome start bs
      → length bs ≤ log_size
      → IsHeader [] (d0 start)
      → ((c : ℕ) → IsHome start c → has c bs ≡ false → d.mem c ≡ d0 c)
      → IsHome start a
      → (k ≤ length bs → recovered start (crash k (commit start bs d).0 d0) a ≡ d0 a)
        × (length bs < k → recovered start (crash k (commit start bs d).0 d0) a ≡ d.mem a)
  unfolding commit
  commit_atomic (b ∷ bs) k a home fits clear same out =
      commit_crash b bs k a home fits clear same out
  commit_atomic [] k a home fits clear same out =
      let nothing = apply_none k d0 in
      (
        (λ h. rw nothing (recovered-clear start d0 a clear out)),
        (λ h. rw nothing (recovered-clear start d0 a clear out ∙ sym (same a out refl))),
      )
