-- ===== src/IntCheck/Laws.antt =====
-- The checked operations give the exact result, or the error exactly when it does not fit.
use goh.Base.{Bool, arith, if◌then◌else◌, ltb, ℕ, ◌&&◌, ◌*◌, ◌+◌, ◌-◌, ◌/◌, ◌<◌, ◌^◌, ◌≡◌, ◌≤◌, ◌⊎◌}
use goh.Base.Int.{leb_ℤ, negsuc, pos, ℤ, ◌+ℤ◌, ◌≤ℤ◌}
use goh.IntCheck.{checked_add_int, checked_mul_int}
use goh.Result.{ok, err, invalid_data}
use native.Mathlib.Nat.{div-add-mod, mod-lt}

-- The range of an `int`.
abbrev pub IsInt : ℤ → Type 0
IsInt a = (negsuc (2 ^ 63 - 1) ≤ℤ a) × (a ≤ℤ pos (2 ^ 63 - 1))

-- Whether a value is in that range.
abbrev pub fits_int : ℤ → Bool
fits_int a = leb_ℤ (negsuc (2 ^ 63 - 1)) a && leb_ℤ a (pos (2 ^ 63 - 1))

-- `checkedAddInt` of two ints is their sum if that is an int, and `ErrInvalidData` if not.
pub checked_add_int_exact :
    (a b : ℤ)
    → IsInt a
    → IsInt b
    → checked_add_int a b ≡ (if fits_int (a +ℤ b) then ok (a +ℤ b) else err invalid_data)
unfolding checked_add_int ◌+ℤ◌
checked_add_int_exact (pos a) (pos b) ha hb = ground arith
checked_add_int_exact (pos a) (negsuc b) ha hb = ground arith
checked_add_int_exact (negsuc a) (pos b) ha hb = ground arith
checked_add_int_exact (negsuc a) (negsuc b) ha hb = ground arith

-- Of two lengths it is their sum below 2 ^ 63.
pub checked_add_int-pos :
    (a b : ℕ) → a + b < 2 ^ 63 → checked_add_int (pos a) (pos b) ≡ ok (pos (a + b))
unfolding checked_add_int
checked_add_int-pos a b h = ground arith

scale : (a q b : ℕ) → a ≤ q → a * b ≤ q * b
scale a q b h = grind arith

mul_fits : (a b m : ℕ) → a ≤ m / b → a * b ≤ m
mul_fits a b m h = omega (arith, scale a (m / b) b h, div-add-mod m b)

mul_exceeds : (a b m : ℕ) → 0 < b → m / b < a → m < a * b
mul_exceeds a b m p h =
    omega (arith, scale (m / b + 1) a b (omega arith), div-add-mod m b, mod-lt m p)

mul_none : (a b : ℕ) → (a ≡ 0) ⊎ (b ≡ 0) → a * b ≡ 0
mul_none a b h = grind arith

-- `checkedMulInt` of two non-negative ints is their product if that is an int, and
-- `ErrInvalidData` if not.
pub checked_mul_int_exact :
    (a b : ℕ)
    → checked_mul_int (pos a) (pos b)
      ≡ (if ltb (a * b) (2 ^ 63) then ok (pos (a * b)) else err invalid_data)
unfolding checked_mul_int
checked_mul_int_exact a b =
    ground (arith, mul_fits a b (2 ^ 63 - 1), mul_exceeds a b (2 ^ 63 - 1), mul_none a b)
