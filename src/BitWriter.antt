-- ===== src/BitWriter.antt =====
-- internal/h264/bitwriter.go: the MSB-first bit writer and its Exp-Golomb codes. A method takes
-- the writer and returns it after the call. Receivers are not nil.
pub mod Byte
pub mod Valid
pub mod Written
pub mod Appends
pub mod RoundTrip
pub mod Stuck
use goh.Base.{
  Bool, List, Option, [], bit_and, bit_or, false, if◌then◌else◌, length, ltb, none, not, some, suc,
  true, zero, ℕ, ◌!=◌, ◌&&◌, ◌*◌, ◌++◌, ◌+◌, ◌-◌, ◌/◌, ◌==◌, ◌||◌, ◌∷◌,
}
use goh.Base.Int.{leb_ℤ, ltb_ℤ, neg, pos, ℤ, ◌*ℤ◌, ◌-ℤ◌}
use goh.Base.Words.{len_32, max_u32, pattern_of, u32, u8, ◌<<<◌, ◌>>>◌}
use goh.Result.{Result, ok, err, invalid_data}

pub record BitWriter : Type 0 where
  pub buf : List ℕ
  pub bit_pos : ℕ
  pub invalid : Bool

abbrev pub max_byte_len : ℕ
max_byte_len = max_u32 / 8

unfoldable pub new_bit_writer : List ℕ → BitWriter
new_bit_writer dst =
    if ltb max_byte_len (length dst)
    then record { buf = dst; bit_pos = max_u32; invalid = true }
    else record { buf = dst; bit_pos = u32 (length dst * 8); invalid = false }

unfoldable pub byte_aligned : BitWriter → Bool
byte_aligned w = not w.invalid && bit_and w.bit_pos 7 == 0

-- `bw.buf[len(bw.buf)-1] |= 1 << uint(7-(bw.bitPos&7))`: the last byte with a bit set.
-- (Go panics on an empty buffer, which no well-formed writer has there.)
unfoldable pub or_last : List ℕ → ℕ → List ℕ
or_last [] m = []
or_last (b ∷ []) m = u8 (bit_or b m) ∷ []
or_last (b ∷ (c ∷ bs)) m = b ∷ or_last (c ∷ bs) m

unfoldable pub write_bit : ℕ → BitWriter → BitWriter
unfolding or_last
write_bit v w =
    if w.invalid || w.bit_pos == max_u32
    then record w { invalid = true }
    else let grown = if bit_and w.bit_pos 7 == 0 then w.buf ++ (0 ∷ []) else w.buf in
      record w {
        buf = if bit_and v 1 != 0 then or_last grown (1 <<< (7 - bit_and w.bit_pos 7)) else grown;
        bit_pos = u32 (w.bit_pos + 1);
      }

-- `for bw.bitPos&7 != 0 { bw.WriteBit(0) }`, by rounds; eight are enough. A writer that turns
-- invalid at the last position stays where it is and loops for ever: `none`.
unfoldable pub align_loop : ℕ → BitWriter → Option BitWriter
align_loop zero w = none
align_loop (suc rounds) w =
    let more = align_loop rounds (write_bit 0 w) in
    if bit_and w.bit_pos 7 == 0 then some w else more

unfoldable pub write_zero_align : BitWriter → Option BitWriter
write_zero_align w = if w.invalid then some w else align_loop 9 w

unfoldable pub write_aligned_bytes : List ℕ → BitWriter → Result (Unit {0}) × BitWriter
write_aligned_bytes src w =
    if w.invalid
      || not (byte_aligned w)
      || ltb max_byte_len (length src)
      || ltb (max_u32 - w.bit_pos) (length src * 8)
    then (err invalid_data, w)
    else (ok tt, record w { buf = w.buf ++ src; bit_pos = u32 (w.bit_pos + length src * 8) })

-- `for i := n; i > 0; i-- { bw.WriteBit(v >> (i - 1)) }`
unfoldable pub write_bits_loop : ℕ → ℕ → BitWriter → BitWriter
write_bits_loop zero v w = w
write_bits_loop (suc n) v w = write_bits_loop n v (write_bit (v >>> n) w)

unfoldable pub write_bits : ℕ → ℕ → BitWriter → Result (Unit {0}) × BitWriter
write_bits v n w =
    if w.invalid || ltb 32 n || ltb (max_u32 - w.bit_pos) n
    then (err invalid_data, w)
    else (ok tt, write_bits_loop n v w)

-- `WriteBit(0)`, `n` times.
unfoldable pub write_zeros : ℕ → BitWriter → BitWriter
write_zeros zero w = w
write_zeros (suc n) w = write_zeros n (write_bit 0 w)

unfoldable pub write_ue_golomb : ℕ → BitWriter → Result (Unit {0}) × BitWriter
write_ue_golomb v w =
    let code_num = u32 (v + 1) in
    if code_num == 0
    then (err invalid_data, w)
    else let width = len_32 code_num in write_bits code_num width (write_zeros (width - 1) w)

-- The code number of an `int32`, an `int64`.
unfoldable pub se_code_num : ℤ → ℤ
unfolding ◌*ℤ◌ ◌-ℤ◌
se_code_num v =
    let doubled = v *ℤ pos 2 in if leb_ℤ v (pos 0) then neg doubled else doubled -ℤ pos 1

unfoldable pub write_se_golomb : ℤ → BitWriter → Result (Unit {0}) × BitWriter
write_se_golomb v w =
    let code_num = se_code_num v in
    if ltb_ℤ code_num (pos 0) || ltb_ℤ (pos (max_u32 - 1)) code_num
    then (err invalid_data, w)
    else write_ue_golomb (pattern_of 32 code_num) w

unfoldable pub write_rbsp_trailing_bits : BitWriter → Option BitWriter
write_rbsp_trailing_bits w = if w.invalid then some w else align_loop 9 (write_bit 1 w)
