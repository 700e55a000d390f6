-- ===== src/Base/Bits.antt =====
-- The bit operations at variables. Both are read off the digit recursion that they stand for, by
-- induction on its count of digits together with the width of the low field.
use Prim.Native.Nat.{
  ℕ, zero, suc, ◌+◌, ◌-◌, ◌*◌, ◌/◌, ◌%◌, ◌^◌, ◌≤◌, ◌<◌, min, max, bit_and, bit_or, digits,
  bit_and-bitwise, bit_or-bitwise,
}
use mathlib.Core.Path.{◌≡◌, refl, ap, ◌∙◌}
use mathlib.Core.Bool.{Bool, true, false}
use native.Mathlib.Omega.{arith}
use native.Mathlib.Nat.{pow-suc, one-le-pow}
use goh.Base.Tests.{◌==◌, ==_iff, if◌then◌else◌, Bool-cases}

-- A number with a low field of `k` bits: the field is `low`, and `high` stands above it.
abbrev Fields : ℕ → ℕ → ℕ → ℕ → Type 0
Fields k high low x = (low < 2 ^ k) × (x ≡ high * 2 ^ k + low)

widen : (k high : ℕ) → high * 2 ^ suc k ≡ high * (2 ^ k * 2)
widen k high = ap (λ p. high * p) (pow-suc 2 k)

-- Without its last digit, the field is one bit shorter.
halve_Fields : (k high low x : ℕ) → Fields (suc k) high low x → Fields k high (low / 2) (x / 2)
halve_Fields k high low x (fits, e) = (omega (arith, pow-suc 2 k), omega (arith, widen k high))

last_digit : (k high low x : ℕ) → Fields (suc k) high low x → x % 2 ≡ low % 2
last_digit k high low x (fits, e) = omega (arith, widen k high)

-- The digits of `min` with `k` ones keep the field.
keep_low :
    (count k high low x : ℕ)
    → x ≤ count
    → Fields k high low x
    → digits (λ b. 0) min count x (2 ^ k - 1) ≡ low
keep_low zero k high low zero le (fits, e) = omega arith
keep_low zero k high low (suc x) le f = absurd (omega arith)
keep_low (suc count) k high low zero le (fits, e) = omega arith
keep_low (suc count) zero high low (suc x) le (fits, e) =
    omega (arith, keep_low count zero (suc x / 2) 0 (suc x / 2) (omega arith) (omega arith))
keep_low (suc count) (suc k) high low (suc x) le f =
    let half : (2 ^ suc k - 1) / 2 ≡ 2 ^ k - 1 = omega (arith, pow-suc 2 k) in
    let odd : (2 ^ suc k - 1) % 2 ≡ 1 = omega (arith, pow-suc 2 k, one-le-pow k 2) in
    let shorter = halve_Fields k high low (suc x) f in
    rw (half, odd, keep_low count k high (low / 2) (suc x / 2) (omega arith) shorter)
      (omega (arith, last_digit k high low (suc x) f))

-- The digits of `max` fill an empty field.
fill_low :
    (count k high low x : ℕ)
    → x ≤ count
    → low < 2 ^ k
    → x ≡ high * 2 ^ k
    → digits (λ b. b) max count x low ≡ x + low
fill_low zero k high low zero le fits e = omega arith
fill_low zero k high low (suc x) le fits e = absurd (omega arith)
fill_low (suc count) k high low zero le fits e = omega arith
fill_low (suc count) zero high low (suc x) le fits e =
    omega (arith, fill_low count zero (suc x / 2) (low / 2) (suc x / 2) (omega arith))
fill_low (suc count) (suc k) high low (suc x) le fits e = omega (
  arith,
  widen k high,
  pow-suc 2 k,
  fill_low count k high (low / 2) (suc x / 2) (omega arith) (omega (arith, pow-suc 2 k))
      (omega (arith, widen k high)),
)

-- The digits of `max` lose nothing of the first number.
max-digits-pos : (count a b : ℕ) → a ≤ count → 0 < a → 0 < digits (λ b. b) max count a b
max-digits-pos zero a b le h = absurd (omega arith)
max-digits-pos (suc count) zero b le h = absurd (omega arith)
max-digits-pos (suc count) (suc a) b le h = ground (arith, max-digits-pos count (suc a / 2) (b / 2))

pub bit_or-pos : (a b : ℕ) → 0 < a → 0 < bit_or a b
bit_or-pos a b h = rw (bit_or-bitwise a b) (max-digits-pos a a b (omega arith) h)

-- `(high << k) | low` is a sum when `low` fits in `k` bits.
pub bit_or_sum : (k high low : ℕ) → low < 2 ^ k → bit_or (high * 2 ^ k) low ≡ high * 2 ^ k + low
bit_or_sum k high low fits =
    let x : ℕ = high * 2 ^ k in
    bit_or-bitwise x low ∙ fill_low x k high low x (omega arith) fits refl

-- `&` with `k` ones is the remainder by `2 ^ k`.
pub bit_and_ones : (k x : ℕ) → bit_and x (2 ^ k - 1) ≡ x % 2 ^ k
bit_and_ones k x =
    let f : Fields k (x / 2 ^ k) (x % 2 ^ k) x = ground (arith, one-le-pow k 2) in
    bit_and-bitwise x (2 ^ k - 1) ∙ keep_low x k (x / 2 ^ k) (x % 2 ^ k) x (omega arith) f

pub bit_and_bit : (x : ℕ) → bit_and x 1 ≡ x % 2
bit_and_bit x = bit_and_ones 1 x

pub bit_and_octet : (x : ℕ) → bit_and x 7 ≡ x % 8
bit_and_octet x = bit_and_ones 3 x

-- A test of every number under a bound, for facts that evaluation settles.
unfoldable pub passes : (ℕ → Bool) → ℕ → Bool
passes test zero = true
passes test (suc n) = let smaller = passes test n in if test n then smaller else false

pub passes_each :
    (test : ℕ → Bool) (bound x : ℕ) → x < bound → passes test bound ≡ true → test x ≡ true
unfolding passes
passes_each test zero x lt h = absurd (omega arith)
passes_each test (suc n) x lt h = ground (arith, Bool-cases (test n), passes_each test n x)

-- Two functions that the test finds equal.
pub passes_equal :
    (f g : ℕ → ℕ) (bound x : ℕ) → x < bound → passes (λ y. f y == g y) bound ≡ true → f x ≡ g x
passes_equal f g bound x lt h = (==_iff (f x) (g x)).0 (passes_each (λ y. f y == g y) bound x lt h)
