-- ===== src/Log/Header.antt =====
-- The log's header on disk, and what a commit and a recovery write.
use my_oslab.Base.{
  ℕ, ◌+◌, ◌≤◌, ◌<◌, ◌≡◌, refl, ap, ap₂, ◌∙◌, List, [], ◌∷◌, ◌++◌, length, ◌==◌, if◌then◌else◌,
  arith,
}
use my_oslab.Log.{
  Block, Disk, Dev, update, log_size, install_trans, write_log, put_words, get_words, write_head,
  read_head, recover_from_log, commit,
}
use my_oslab.Log.Commit.{
  IsHome, AllHome, Logged, log_trace, home_trace, write_log-trace, install_trans-trace,
  Logged-frame,
}

put_words-below : (i : ℕ) (bs : List ℕ) (w : Block) (a : ℕ) → a < i → put_words i bs w a ≡ w a
unfolding put_words
put_words-below i [] w a h = refl
put_words-below i (b ∷ bs) w a h =
    put_words-below (i + 1) bs (λ c. if c == i then b else w c) a (omega arith) ∙ ground arith

get_words-put_words :
    (i : ℕ) (bs : List ℕ) (w : Block) → get_words i (length bs) (put_words i bs w) ≡ bs
unfolding get_words put_words
get_words-put_words i [] w = refl
get_words-put_words i (b ∷ bs) w =
    let w' = λ (c : ℕ). if c == i then b else w c in
    ap₂ ◌∷◌ (put_words-below (i + 1) bs w' i (omega arith) ∙ ground arith)
      (get_words-put_words (i + 1) bs w')

-- The block is the header of the transaction `bs`.
abbrev pub IsHeader : List ℕ → Block → Type 0
IsHeader bs w = get_words 1 (w 0) w ≡ bs

pub write_head-IsHeader :
    (start : ℕ) (bs : List ℕ) (d : Dev)
    → (hb : Block) × IsHeader bs hb
      × ((write_head start bs d).0 ≡ (start, hb) ∷ [])
      × ((write_head start bs d).1.mem ≡ update d.mem start hb)
unfolding write_head
write_head-IsHeader start bs d =
    let w = λ (a : ℕ). if a == 0 then length bs else d.mem start a in
    let count : put_words 1 bs w 0 ≡ length bs = put_words-below 1 bs w 0 (omega arith) in
    (
      put_words 1 bs w,
      ap (λ n. get_words 1 n (put_words 1 bs w)) count ∙ get_words-put_words 1 bs w,
      refl,
      refl,
    )

pub IsHeader-nil : (w : Block) → w 0 ≡ 0 → IsHeader [] w
unfolding get_words
IsHeader-nil w e = ap (λ n. get_words 1 n w) e

module _ (start : ℕ) (f : Disk) where
  -- A commit writes the contents to the log, then the header, then the contents to their homes,
  -- then an empty header.
  pub commit-trace :
      (b : ℕ) (bs : List ℕ) (d : Dev)
      → AllHome start (b ∷ bs)
      → length (b ∷ bs) ≤ log_size
      → ((a : ℕ) → IsHome start a → d.mem a ≡ f a)
      → (hb hb0 : Block) × IsHeader (b ∷ bs) hb
        × IsHeader [] hb0
        × ((commit start (b ∷ bs) d).0
            ≡ log_trace start f 0 (b ∷ bs)
              ++ (((start, hb) ∷ []) ++ (home_trace start f (b ∷ bs) ++ ((start, hb0) ∷ []))))
  unfolding commit
  commit-trace b bs d home fits same =
      let d1 = (write_log start 0 (b ∷ bs) d).1 in
      let (ws1, early, homes, logged) =
        write_log-trace start f 0 (b ∷ bs) d home (omega arith) same in
      let (hb, header, ws2, mem2) = write_head-IsHeader start (b ∷ bs) d1 in
      let d2 = (write_head start (b ∷ bs) d1).1 in
      let logged2 : Logged start f 0 (b ∷ bs) d2.mem =
        Logged-frame start f 0 (b ∷ bs) d1.mem d2.mem (omega arith)
          (λ a lo hi. ap (λ m. m a) mem2 ∙ ground arith) logged in
      let (ws3, _) = install_trans-trace start f 0 (b ∷ bs) d2 home (omega arith) logged2 in
      let d3 = (install_trans start 0 (b ∷ bs) d2).1 in
      let (hb0, header0, ws4, mem4) = write_head-IsHeader start [] d3 in
      (hb, hb0, header, header0, rw (ws1, ws2, ws3, ws4) refl)

  -- A recovery from a disk with the header of `bs` writes the logged contents to their homes, then
  -- an empty header.
  pub recover-trace :
      (bs : List ℕ) (d : Dev)
      → AllHome start bs
      → length bs ≤ log_size
      → IsHeader bs (d.mem start)
      → Logged start f 0 bs d.mem
      → (hb0 : Block) × IsHeader [] hb0
        × ((recover_from_log start d).0 ≡ home_trace start f bs ++ ((start, hb0) ∷ []))
  unfolding recover_from_log read_head
  recover-trace bs d home fits header logged =
      let (ws1, _) = install_trans-trace start f 0 bs d home (omega arith) logged in
      let d1 = (install_trans start 0 bs d).1 in
      let (hb0, header0, ws2, _) = write_head-IsHeader start [] d1 in
      (hb0, header0, rw (header, ws1, ws2) refl)
