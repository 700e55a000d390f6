-- ===== src/Golomb.antt =====
-- internal/h264/golomb.go: the Exp-Golomb readers. The loop over the leading zeros is cut off by
-- its own bound of 32, which is the fuel.
pub mod Code
pub mod Decode
pub mod Safe
use goh.Base.{bit_and, if◌then◌else◌, suc, zero, ℕ, ◌+◌, ◌-◌, ◌==◌}
use goh.Base.Int.{neg, ℤ}
use goh.Base.Words.{int32, u32, wrap, ◌<<<◌, ◌>>>◌}
use goh.Result.{invalid_data}
use goh.BitReader.{◌>>=◌, Read, pure, fail, read_bit, read_bits}

-- The suffix behind the zeros and the one.
unfoldable pub ue_suffix : ℕ → Read ℕ
ue_suffix leading_zeros =
    if leading_zeros == 0
    then pure 0
    else do suffix ← read_bits leading_zeros; pure (u32 (u32 (1 <<< leading_zeros) - 1 + suffix))

-- The loop, `rounds` rounds before `leadingZeros` reaches 32.
unfoldable pub ue_loop : ℕ → ℕ → Read ℕ
unfolding ue_suffix
ue_loop zero leading_zeros = fail invalid_data
ue_loop (suc rounds) leading_zeros = do
  bit ← read_bit
  if bit == 1 then ue_suffix leading_zeros else ue_loop rounds (leading_zeros + 1)

unfoldable pub read_ue_golomb_long : Read ℕ
read_ue_golomb_long = ue_loop 32 0

unfoldable pub read_ue_golomb_31 : Read ℕ
read_ue_golomb_31 = read_ue_golomb_long

-- `int32((codeNum + 1) >> 1)`, negated for an even code number.
unfoldable pub se_of_code : ℕ → ℤ
se_of_code code_num =
    let v = int32 (u32 (code_num + 1) >>> 1) in
    if bit_and code_num 1 == 0 then wrap 32 (neg v) else v

unfoldable pub read_se_golomb_long : Read ℤ
unfolding se_of_code
read_se_golomb_long = do code_num ← read_ue_golomb_long; pure (se_of_code code_num)
