-- ===== src/IntCheck.antt =====
-- internal/h264/intcheck.go: arithmetic on `int`, 64 bits wide, with overflow as an error.
pub mod Laws
use goh.Base.{Bool, if◌then◌else◌, ltb, ◌&&◌, ◌*◌, ◌+◌, ◌-◌, ◌/◌, ◌==◌, ◌^◌, ◌||◌}
use goh.Base.Int.{leb_ℤ, ltb_ℤ, neg, neg_part, negsuc, pos, pos_part, ℤ, ◌+ℤ◌, ◌-ℤ◌}
use goh.Base.Words.{wrap}
use goh.Result.{Result, ok, err, invalid_data}

abbrev pub max_int : ℤ
max_int = pos (2 ^ 63 - 1)

abbrev pub min_c_int : ℤ
min_c_int = negsuc (2 ^ 31 - 1)

abbrev pub max_c_int : ℤ
max_c_int = pos (2 ^ 31 - 1)

unfoldable pub fits_c_int : ℤ → Bool
fits_c_int v = leb_ℤ min_c_int v && leb_ℤ v max_c_int

-- `a + b`, `a - b`, `a * b` and `a / b` of an `int`; the quotient of positive numbers only.
abbrev pub add_int : ℤ → ℤ → ℤ
add_int a b = wrap 64 (a +ℤ b)

abbrev pub sub_int : ℤ → ℤ → ℤ
sub_int a b = wrap 64 (a -ℤ b)

unfoldable pub checked_add_int : ℤ → ℤ → Result ℤ
unfolding ◌+ℤ◌ ◌-ℤ◌
checked_add_int a b =
    if ltb_ℤ (pos 0) b && ltb_ℤ (sub_int max_int b) a
    then err invalid_data
    else if ltb_ℤ b (pos 0) && ltb_ℤ a (sub_int (sub_int (neg max_int) (pos 1)) b)
    then err invalid_data
    else ok (add_int a b)

-- Behind the tests for signs both operands are positive.
unfoldable pub checked_mul_int : ℤ → ℤ → Result ℤ
checked_mul_int (negsuc a) b = if pos_part b + neg_part b == 0 then ok (pos 0) else err invalid_data
checked_mul_int (pos a) (negsuc b) = if a == 0 then ok (pos 0) else err invalid_data
checked_mul_int (pos a) (pos b) =
    if a == 0 || b == 0
    then ok (pos 0)
    else if ltb ((2 ^ 63 - 1) / b) a
    then err invalid_data
    else ok (wrap 64 (pos (a * b)))
