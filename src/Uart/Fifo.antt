-- ===== src/Uart/Fifo.antt =====
-- The transmit buffer is a queue: what is written to it goes to the device in that order, and
-- nothing is lost or sent twice.
use my_oslab.Base.{
  ℕ, zero, suc, ◌+◌, ◌-◌, ◌%◌, ◌<◌, ◌≡◌, ◌≢◌, refl, sym, ap, ap₂, subst, ◌∙◌, Option, none, some,
  List, [], ◌∷◌, ◌++◌, length, length-set, get_or, get_or-set_self, get_or-set_ne, set, ◌==◌, ==→eq,
  ==→ne, Bool-cases, inl, inr, arith,
}
use my_oslab.Uart.{Uart, send, uartstart, store, uartputc}

-- The characters of a buffer of 32 from `r` on.
abbrev pub items : ℕ → ℕ → List ℕ → List ℕ
items zero r buf = []
items (suc n) r buf = get_or buf r 0 ∷ items n ((r + 1) % 32) buf

-- The characters sent, the first one first, and those that the buffer has yet.
abbrev pub in_order : List ℕ → List ℕ → List ℕ
in_order [] rest = rest
in_order (c ∷ sent) rest = in_order sent (c ∷ rest)

abbrev pub pending : Uart → List ℕ
pending u = items ((u.w + 32 - u.r) % 32) u.r u.buf

abbrev pub written : Uart → List ℕ
written u = in_order u.sent (pending u)

pub record IsRing (u : Uart) : Type 0 where
  pub full_size : length u.buf ≡ 32
  pub w_in : u.w < 32
  pub r_in : u.r < 32

in_order-append : (sent xs ys : List ℕ) → in_order sent (xs ++ ys) ≡ in_order sent xs ++ ys
in_order-append [] xs ys = refl
in_order-append (c ∷ sent) xs ys = in_order-append sent (c ∷ xs) ys

one_less :
    (w r : ℕ) → w < 32 → r < 32 → w ≢ r → (w + 32 - r) % 32 ≡ suc ((w + 32 - (r + 1) % 32) % 32)
one_less w r hw hr h = omega arith

one_more :
    (w r : ℕ)
    → w < 32
    → r < 32
    → (w + 1) % 32 ≢ r
    → ((w + 1) % 32 + 32 - r) % 32 ≡ suc ((w + 32 - r) % 32)
one_more w r hw hr h = omega arith

at_w : (w r : ℕ) → w < 32 → r < 32 → w ≡ (r + (w + 32 - r) % 32) % 32
at_w w r hw hr = omega arith

-- A write at `w` behind the items adds one to them.
items-set :
    (n r w c : ℕ) (buf : List ℕ)
    → length buf ≡ 32
    → n < 32
    → w ≡ (r + n) % 32
    → r < 32
    → items (suc n) r (set buf w c) ≡ items n r buf ++ (c ∷ [])
items-set zero r w c buf hl hn e hr =
    let same : w ≡ r = omega (arith, e) in
    ap (λ (x : ℕ). x ∷ [])
      (subst (λ (k : ℕ). get_or (set buf w c) k 0 ≡ c) same
        (get_or-set_self buf w c 0 (omega arith)))
items-set (suc n) r w c buf hl hn e hr =
    ap₂ (λ (x : ℕ) (xs : List ℕ). x ∷ xs) (get_or-set_ne buf w r c 0 (omega arith))
      (items-set n ((r + 1) % 32) w c buf hl (omega arith) (omega arith) (omega arith))

send-IsRing : (chan : ℕ) (u : Uart) → IsRing u → IsRing (send chan u)
send-IsRing chan u k = record { full_size = k.full_size; w_in = k.w_in; r_in = omega arith }

store-IsRing : (c : ℕ) (u : Uart) → IsRing u → IsRing (store c u)
store-IsRing c u k = record {
  full_size = length-set u.buf u.w (c % 256) ∙ k.full_size;
  w_in = omega arith;
  r_in = k.r_in;
}

written-send : (chan : ℕ) (u : Uart) → IsRing u → u.w ≢ u.r → written (send chan u) ≡ written u
written-send chan u k h =
    ap (λ (n : ℕ). in_order u.sent (items n u.r u.buf)) (sym (one_less u.w u.r k.w_in k.r_in h))

written-store :
    (c : ℕ) (u : Uart)
    → IsRing u
    → (u.w + 1) % 32 ≢ u.r
    → written (store c u) ≡ written u ++ (c % 256 ∷ [])
written-store c u k h =
    ap (λ (n : ℕ). in_order u.sent (items n u.r (set u.buf u.w (c % 256))))
      (one_more u.w u.r k.w_in k.r_in h)
    ∙ ap (in_order u.sent) (
        items-set ((u.w + 32 - u.r) % 32) u.r u.w (c % 256) u.buf k.full_size (omega arith)
          (at_w u.w u.r k.w_in k.r_in) k.r_in)
    ∙ in_order-append u.sent (pending u) (c % 256 ∷ [])

uartstart-IsRing :
    (chan ready : ℕ) (u : Uart)
    → IsRing u
    → IsRing (uartstart chan ready u) × (written (uartstart chan ready u) ≡ written u)
unfolding uartstart
uartstart-IsRing chan zero u k = (k, refl)
uartstart-IsRing chan (suc ready) u k = elim (Bool-cases (u.w == u.r)) [
  | inl e ↦ rw (uartstart, e) (k, refl)
  | inr e ↦
      let (k', same) = uartstart-IsRing chan ready (send chan u) (send-IsRing chan u k) in
      rw (uartstart, e) (k', same ∙ written-send chan u k (==→ne u.w u.r e))
]

-- What a turn of `uartputc` for the character `c` does.
pub data Puts (c : ℕ) (u : Uart) : Option Uart → Type 0 where
  sleeps : (u.w + 1) % 32 ≡ u.r → Puts c u none
  puts : (u' : Uart) → IsRing u' → written u' ≡ written u ++ (c % 256 ∷ []) → Puts c u (some u')

-- In a ring of 32 places, `uartstart` keeps the ring and the characters written, sent or yet in the
-- buffer, in their order; and `uartputc` keeps the ring and adds the low byte of its character behind
-- them, unless the buffer is full and it sleeps.
pub uartputc-Puts :
    (chan ready c : ℕ) (u : Uart)
    → IsRing u
    → (IsRing (uartstart chan ready u) × (written (uartstart chan ready u) ≡ written u))
      × Puts c u (uartputc chan ready c u)
unfolding uartputc
uartputc-Puts chan ready c u k = (
  uartstart-IsRing chan ready u k,
  elim (Bool-cases ((u.w + 1) % 32 == u.r)) [
    | inl e ↦ rw (uartputc, e) (Puts.sleeps (==→eq ((u.w + 1) % 32) u.r e))
    | inr e ↦
        let (k', same) = uartstart-IsRing chan ready (store c u) (store-IsRing c u k) in
        rw (uartputc, e)
          (Puts.puts (uartstart chan ready (store c u)) k'
            (same ∙ written-store c u k (==→ne ((u.w + 1) % 32) u.r e)))
  ],
)
