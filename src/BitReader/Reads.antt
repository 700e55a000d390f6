-- ===== src/BitReader/Reads.antt =====
-- The reading methods against what they promise of the unread bits.
use goh.Base.{
  List, arith, bit_or, drop, if◌then◌else◌, leb, length, suc, take, zero, ℕ, ◌&&◌, ◌*◌, ◌+◌, ◌<◌,
  ◌^◌, ◌≡◌, ◌≤◌, ◌⊎◌,
}
use goh.Base.Words.{u32, ◌<<<◌}
use goh.Base.Bits.{bit_or_sum}
use native.Mathlib.Nat.{pow-suc, one-le-pow, pow-le-pow_right}
use goh.Result.{Result, ok, err, invalid_data}
use goh.BitReader.{BitReader, read_bits_loop, read_bits}
use goh.BitReader.Window.{bit_at, window, value, grow}
use goh.BitReader.Valid.{IsValid, left, advance, bits_left-valid, read_bit_lem, advance-IsValid}

-- Reading `n` bits, as an operation on the unread bits.
unfoldable pub take_bits : ℕ → List ℕ → Result ℕ × List ℕ
take_bits n bs =
    if leb n 32 && leb n (length bs)
    then (ok (value 0 (take n bs)), drop n bs)
    else (err invalid_data, bs)

pub doubled :
    (out t b : ℕ) → (out + 1) * (2 * t) ≤ 2 ^ 32 → b < 2 → 0 < t → (out * 2 + b + 1) * t ≤ 2 ^ 32
doubled out t b h hb ht = omega (arith, grow (out * 2 + b) (out * 2 + 1) t (omega arith))

pub or_bit : (out b : ℕ) → b < 2 → out < 2 ^ 31 → bit_or (u32 (out <<< 1)) b ≡ out * 2 + b
or_bit out b hb h = ground (arith, bit_or_sum 1 out b hb)

pub room : (out t : ℕ) → (out + 1) * (2 * t) ≤ 2 ^ 32 → 0 < t → out < 2 ^ 31
room out t h ht = grind arith

pub read_bits_loop_lem :
    (n out : ℕ) {r : BitReader}
    → IsValid r
    → n ≤ left r
    → (out + 1) * 2 ^ n ≤ 2 ^ 32
    → read_bits_loop n out r ≡ (ok (value out (window r.buf r.bit_pos n)), advance r n)
unfolding read_bits_loop window value
read_bits_loop_lem zero out {r} v h fits = ground arith
read_bits_loop_lem (suc n) out {r} v h fits = ground (
  arith,
  read_bit_lem v (omega arith),
  pow-suc 2 n,
  one-le-pow n 2,
  doubled out (2 ^ n) (bit_at r.buf r.bit_pos),
  room out (2 ^ n),
  or_bit out (bit_at r.buf r.bit_pos),
  read_bits_loop_lem n (out * 2 + bit_at r.buf r.bit_pos) {r = advance r 1}
      (advance-IsValid 1 v (omega arith)),
)

pub le_pow : (n : ℕ) → n ≤ 32 → 2 ^ n ≤ 2 ^ 32
le_pow n h = pow-le-pow_right (omega arith) h

pub read_bits_enough :
    (n : ℕ) {r : BitReader}
    → IsValid r
    → n ≤ 32
    → n ≤ left r
    → read_bits n r ≡ (ok (value 0 (window r.buf r.bit_pos n)), advance r n)
unfolding read_bits
read_bits_enough n {r} v h k = ground (
  arith,
  v.usable,
  v.short,
  bits_left-valid v,
  read_bits_loop_lem n 0 v k (omega (arith, le_pow n h)),
)

pub read_bits_short :
    (n : ℕ) {r : BitReader}
    → IsValid r
    → (32 < n) ⊎ (left r < n)
    → read_bits n r ≡ (err invalid_data, r)
unfolding read_bits
read_bits_short n {r} v h = ground (arith, v.usable, v.short, bits_left-valid v)
