-- ===== src/BitReader/Window.antt =====
-- The bits of a byte buffer as a list, most significant bit first, and numbers written in bits.
use goh.Base.{
  All, List, [], ap, arith, drop, get_or, length, refl, suc, take, zero, ℕ, ◌%◌, ◌*◌, ◌++◌, ◌+◌,
  ◌-◌, ◌/◌, ◌<◌, ◌^◌, ◌∙◌, ◌∷◌, ◌≡◌, ◌≤◌,
}
use native.Mathlib.Nat.{div-div-eq-div-mul, pow-suc, div-add-mod}

abbrev pub byte_at : List ℕ → ℕ → ℕ
byte_at buf i = get_or buf i 0

-- Bit `p` of the buffer.
abbrev pub bit_at : List ℕ → ℕ → ℕ
bit_at buf p = byte_at buf (p / 8) / 2 ^ (7 - p % 8) % 2

-- The `n` bits from position `p` on.
unfoldable pub window : List ℕ → ℕ → ℕ → List ℕ
window buf p zero = []
window buf p (suc n) = bit_at buf p ∷ window buf (p + 1) n

-- The number that the bits go on writing behind `acc`.
unfoldable pub value : ℕ → List ℕ → ℕ
value acc [] = acc
value acc (b ∷ bs) = value (acc * 2 + b) bs

-- The low `n` bits of `v`.
unfoldable pub bits_of : ℕ → ℕ → List ℕ
bits_of zero v = []
bits_of (suc n) v = v / 2 ^ n % 2 ∷ bits_of n v

abbrev pub IsBit : ℕ → Type 0
IsBit b = b < 2

pub length-window : (buf : List ℕ) (p n : ℕ) → length (window buf p n) ≡ n
unfolding window
length-window buf p zero = refl
length-window buf p (suc n) = ap suc (length-window buf (p + 1) n)

pub window-IsBit : (buf : List ℕ) (p n : ℕ) → All IsBit (window buf p n)
unfolding window
window-IsBit buf p zero = tt
window-IsBit buf p (suc n) = (omega arith, window-IsBit buf (p + 1) n)

pub window_from : (buf : List ℕ) (p q m n : ℕ) → p ≡ q → m ≡ n → window buf p m ≡ window buf q n
window_from buf p q m n e h = cc

pub window-append :
    (buf : List ℕ) (p m n : ℕ) → window buf p (m + n) ≡ window buf p m ++ window buf (p + m) n
unfolding window
window-append buf p zero n = ground arith
window-append buf p (suc m) n =
    window_from buf p p (suc m + n) (suc (m + n)) refl (omega arith)
    ∙ ap (λ t. bit_at buf p ∷ t)
        (window-append buf (p + 1) m n
          ∙ ap (λ t. window buf (p + 1) m ++ t)
              (window_from buf (p + 1 + m) (p + suc m) n n (omega arith) refl))

pub take-window : (buf : List ℕ) (p m n : ℕ) → m ≤ n → take m (window buf p n) ≡ window buf p m
unfolding window
take-window buf p zero n h = refl
take-window buf p (suc m) zero h = absurd (omega arith)
take-window buf p (suc m) (suc n) h =
    ap (λ t. bit_at buf p ∷ t) (take-window buf (p + 1) m n (omega arith))

pub drop-window :
    (buf : List ℕ) (p m n : ℕ) → m ≤ n → drop m (window buf p n) ≡ window buf (p + m) (n - m)
unfolding window
drop-window buf p zero n h = ground arith
drop-window buf p (suc m) zero h = absurd (omega arith)
drop-window buf p (suc m) (suc n) h =
    drop-window buf (p + 1) m n (omega arith)
    ∙ window_from buf (p + 1 + m) (p + suc m) (n - m) (suc n - suc m) (omega arith) (omega arith)

pub length-bits_of : (n v : ℕ) → length (bits_of n v) ≡ n
unfolding bits_of
length-bits_of zero v = refl
length-bits_of (suc n) v = ap suc (length-bits_of n v)

pub value-append : (xs ys : List ℕ) (acc : ℕ) → value acc (xs ++ ys) ≡ value (value acc xs) ys
unfolding value
value-append [] ys acc = refl
value-append (x ∷ xs) ys acc = value-append xs ys (acc * 2 + x)

mod_split : (v n : ℕ) → v % 2 ^ suc n ≡ v / 2 ^ n % 2 * 2 ^ n + v % 2 ^ n
mod_split v n = omega (
  arith,
  div-add-mod v (2 ^ suc n),
  div-add-mod v (2 ^ n),
  ap (λ (t : ℕ). v / t * t) (pow-suc 2 n),
  ap (λ (t : ℕ). t * 2 ^ n) (div-div-eq-div-mul v (2 ^ n) 2),
  ap (λ (t : ℕ). v / t * 2 ^ n) (pow-suc 2 n),
  ap (λ (t : ℕ). t * 2 ^ n) (div-add-mod (v / 2 ^ n) 2),
)

-- `n` bits of `v` write the low bits of `v`.
pub value-bits_of : (n v acc : ℕ) → value acc (bits_of n v) ≡ acc * 2 ^ n + v % 2 ^ n
unfolding bits_of value
value-bits_of zero v acc = omega arith
value-bits_of (suc n) v acc = omega (
  arith,
  value-bits_of n v (acc * 2 + v / 2 ^ n % 2),
  mod_split v n,
  ap (λ (t : ℕ). acc * t) (pow-suc 2 n),
)

pub grow : (a b t : ℕ) → a ≤ b → (a + 1) * t ≤ (b + 1) * t
grow a b t h = grind arith

pub value-lt : (bs : List ℕ) (acc : ℕ) → All IsBit bs → value acc bs < (acc + 1) * 2 ^ length bs
unfolding value
value-lt [] acc h = omega arith
value-lt (b ∷ bs) acc h = omega (
  arith,
  value-lt bs (acc * 2 + b) h.1,
  grow (acc * 2 + b) (acc * 2 + 1) (2 ^ length bs) (omega arith),
  ap (λ (t : ℕ). acc * t) (pow-suc 2 (length bs)),
  pow-suc 2 (length bs),
)
