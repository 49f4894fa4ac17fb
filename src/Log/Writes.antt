-- ===== src/Log/Writes.antt =====
-- Disk writes in sequence, and the blocks that they leave alone.
use my_oslab.Base.{
  ℕ, zero, suc, ◌-◌, ◌≤◌, ◌≡◌, ◌≢◌, refl, sym, ap, ◌∙◌, List, [], ◌∷◌, ◌++◌, length, take, arith,
}
use my_oslab.Log.{Block, Disk, Write, update}

-- The disk after the writes.
unfoldable pub apply : List Write → Disk → Disk
apply [] d = d
apply ((b, v) ∷ ws) d = apply ws (update d b v)

-- A crash after `k` of the writes.
abbrev pub crash : ℕ → List Write → Disk → Disk
crash k ws = apply (take k ws)

-- No write is of block `a`.
abbrev pub Spares : ℕ → List Write → Type 0
Spares a [] = Unit
Spares a ((b, v) ∷ ws) = (a ≢ b) × Spares a ws

pub apply-append : (xs ys : List Write) (d : Disk) → apply (xs ++ ys) d ≡ apply ys (apply xs d)
unfolding apply
apply-append [] ys d = refl
apply-append ((b, v) ∷ xs) ys d = apply-append xs ys (update d b v)

pub apply-cons :
    (b : ℕ) (v : Block) (ws : List Write) (d : Disk)
    → apply ((b, v) ∷ ws) d ≡ apply ws (update d b v)
unfolding apply
apply-cons b v ws d = refl

pub apply-one : (b : ℕ) (v : Block) (d : Disk) → apply ((b, v) ∷ []) d ≡ update d b v
unfolding apply
apply-one b v d = refl

pub crash-Spares : (k a : ℕ) (ws : List Write) (d : Disk) → Spares a ws → crash k ws d a ≡ d a
unfolding apply
crash-Spares zero a ws d h = refl
crash-Spares (suc k) a [] d h = refl
crash-Spares (suc k) a ((b, v) ∷ ws) d h =
    crash-Spares k a ws (update d b v) h.1 ∙ ground (arith, h.0)

pub take_all {ℓ} : {A : Type ℓ} (k : ℕ) (xs : List A) → length xs ≤ k → take k xs ≡ xs
take_all zero [] h = refl
take_all zero (x ∷ xs) h = absurd (omega arith)
take_all (suc k) [] h = refl
take_all (suc k) (x ∷ xs) h = ap (λ r. x ∷ r) (take_all k xs (omega arith))

pub take-append_le {ℓ} :
    {A : Type ℓ} (k : ℕ) (xs ys : List A) → k ≤ length xs → take k (xs ++ ys) ≡ take k xs
take-append_le zero xs ys h = refl
take-append_le (suc k) [] ys h = absurd (omega arith)
take-append_le (suc k) (x ∷ xs) ys h = ap (λ r. x ∷ r) (take-append_le k xs ys (omega arith))

pub take-append_ge {ℓ} :
    {A : Type ℓ} (k : ℕ) (xs ys : List A)
    → length xs ≤ k
    → take k (xs ++ ys) ≡ xs ++ take (k - length xs) ys
take-append_ge k [] ys h = ap (λ n. take n ys) (omega arith)
take-append_ge zero (x ∷ xs) ys h = absurd (omega arith)
take-append_ge (suc k) (x ∷ xs) ys h =
    ap (λ r. x ∷ r) (take-append_ge k xs ys (omega arith) ∙ ap (λ n. xs ++ take n ys) (omega arith))

pub apply-Spares : (a : ℕ) (ws : List Write) (d : Disk) → Spares a ws → apply ws d a ≡ d a
apply-Spares a ws d h =
    ap (λ xs. apply xs d a) (sym (take_all (length ws) ws (omega arith)))
    ∙ crash-Spares (length ws) a ws d h
