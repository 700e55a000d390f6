-- ===== src/BitReader.antt =====
-- internal/h264/bitreader.go: the bounded MSB-first bit reader. A method takes the reader and
-- returns its result with the reader after the call, on errors too. Receivers are not nil.
pub mod Window
pub mod Valid
pub mod Reads
pub mod Laws
pub mod Unread
pub mod Padded
pub mod Align
pub mod Safe
pub mod Opens
use goh.Base.{
  Bool, List, bit_and, bit_or, false, get_elem?, if◌then◌else◌, length, ltb, none, some, suc, true,
  zero, ℕ, ◌%◌, ◌*◌, ◌+◌, ◌-◌, ◌/◌, ◌==◌, ◌^◌, ◌||◌,
}
use goh.Base.Int.{leb_ℤ, ltb_ℤ, negsuc, pos, pos_part, ℤ}
use goh.Base.Words.{and_not, int32, u32, ◌<<<◌, ◌>>>◌}
use goh.Result.{Result, Error, ok, err, panic, invalid_data, slice}

pub record BitReader : Type 0 where
  pub buf : List ℕ
  pub bit_pos : ℕ
  pub num_bits : ℕ
  pub invalid : Bool

-- A method of the reader.
abbrev pub Read {ℓ} : Type ℓ → Type ℓ
Read A = BitReader → Result A × BitReader

abbrev pub resume {ℓ κ} :
    {A : Type ℓ} {B : Type κ} → Result A × BitReader → (A → Read B) → Result B × BitReader
resume (ok a, r) f = f a r
resume (err e, r) f = (err e, r)
resume (panic, r) f = (panic, r)

infixl 5 ◌>>=◌
abbrev pub ◌>>=◌ {ℓ κ} : {A : Type ℓ} {B : Type κ} → Read A → (A → Read B) → Read B
◌>>=◌ m f r = resume (m r) f

abbrev pub pure {ℓ} : {A : Type ℓ} → A → Read A
pure a r = (ok a, r)

abbrev pub fail {ℓ} : {A : Type ℓ} → Error → Read A
fail e r = (err e, r)

-- A result that reads nothing.
abbrev pub lift {ℓ} : {A : Type ℓ} → Result A → Read A
lift x r = (x, r)

abbrev pub max_byte_len : ℕ
max_byte_len = (2 ^ 32 - 1) / 2 / 8

unfoldable pub new_bit_reader : List ℕ → BitReader
new_bit_reader buf =
    if ltb max_byte_len (length buf)
    then record { buf = buf; bit_pos = 0; num_bits = u32 (max_byte_len * 8); invalid = true }
    else record { buf = buf; bit_pos = 0; num_bits = u32 (length buf * 8); invalid = false }

-- `for size > 0 && buf[size-1] == 0 { size-- }`
unfoldable pub trim_zeros : List ℕ → ℕ → Result ℕ
trim_zeros buf zero = ok zero
trim_zeros buf (suc n) =
    let shorter = trim_zeros buf n in
    elim (get_elem? buf n) [ none ↦ panic | some b ↦ if b == 0 then shorter else ok (suc n) ]

-- `bits.TrailingZeros8` of a byte, by the number of bits left to look at.
trailing_zeros_from : ℕ → ℕ → ℕ
trailing_zeros_from zero b = 0
trailing_zeros_from (suc k) b =
    let rest = trailing_zeros_from k (b / 2) in if b % 2 == 1 then 0 else suc rest

unfoldable pub trailing_zeros_8 : ℕ → ℕ
unfolding trailing_zeros_from
trailing_zeros_8 b = trailing_zeros_from 8 b

-- What follows the loop, at the size that it leaves.
unfoldable pub rbsp_length_at : List ℕ → ℕ → Result ℕ
unfolding trailing_zeros_8
rbsp_length_at buf zero = err invalid_data
rbsp_length_at buf (suc n) = elim (get_elem? buf n) [
  | none ↦ panic
  | some b ↦
      let padding = trailing_zeros_8 b + 1 in
      if ltb (suc n * 8) padding then err invalid_data else ok (u32 (suc n * 8 - padding))
]

unfoldable pub rbsp_bit_length : List ℕ → Result ℕ
unfolding trim_zeros rbsp_length_at
rbsp_bit_length buf =
    if ltb max_byte_len (length buf) then err invalid_data else elim (trim_zeros buf (length buf)) [
      | ok size ↦ rbsp_length_at buf size
      | err e ↦ err e
      | panic ↦ panic
    ]

unfoldable pub new_rbsp_bit_reader : List ℕ → Result BitReader
new_rbsp_bit_reader buf = elim (rbsp_bit_length buf) [
  | ok n ↦ ok (record { buf = buf; bit_pos = 0; num_bits = n; invalid = false })
  | err e ↦ err e
  | panic ↦ panic
]

-- `int32(numBits) - int32(bitPos)` wraps as the difference of the two words does.
unfoldable pub bits_left : BitReader → ℤ
bits_left r = if r.invalid then negsuc 0 else int32 (r.num_bits + (2 ^ 32 - r.bit_pos % 2 ^ 32))

-- Whether `int32(n) > gb.bitsLeft()`.
abbrev pub exceeds : ℕ → BitReader → Bool
exceeds n r = ltb_ℤ (bits_left r) (int32 n)

unfoldable pub read_bit : Read ℕ
read_bit r =
    if r.invalid
    then (err invalid_data, r)
    else if ltb_ℤ (bits_left r) (pos 1)
    then (err invalid_data, r)
    else let byte_index = r.bit_pos >>> 3 in
      let bit_offset = 7 - bit_and r.bit_pos 7 in
      let r' = record r { bit_pos = u32 (r.bit_pos + 1) } in
      elim (get_elem? r.buf byte_index) [
        | none ↦ (panic, r')
        | some b ↦ (ok (bit_and (b >>> bit_offset) 1), r')
      ]

-- The loop of `readBits`, by the bits left to read.
unfoldable pub read_bits_loop : ℕ → ℕ → Read ℕ
read_bits_loop zero out = pure out
read_bits_loop (suc n) out = do bit ← read_bit; read_bits_loop n (bit_or (u32 (out <<< 1)) bit)

unfoldable pub read_bits : ℕ → Read ℕ
read_bits n r =
    if r.invalid
    then (err invalid_data, r)
    else if ltb 32 n || exceeds n r
    then (err invalid_data, r)
    else read_bits_loop n 0 r

unfoldable pub show_bits : ℕ → Read ℕ
show_bits n r =
    if r.invalid
    then (err invalid_data, r)
    else if ltb 32 n || exceeds n r
    then (err invalid_data, r)
    else let (out, r') = read_bits n r in (out, record r' { bit_pos = r.bit_pos })

-- The loop of `showBitsPadded`, by the bits left to look at.
padded_loop : List ℕ → ℕ → ℕ → ℕ → Result ℕ
padded_loop buf zero bit_pos out = ok out
padded_loop buf (suc n) bit_pos out =
    let byte_index = bit_pos >>> 3 in
    let bit_offset = 7 - bit_and bit_pos 7 in
    elim (get_elem? buf byte_index) [
      | none ↦ panic
      | some b ↦
          padded_loop buf n (u32 (bit_pos + 1))
            (bit_or (u32 (out <<< 1)) (bit_and (b >>> bit_offset) 1))
    ]

-- `out << (n - available)`
abbrev shift_padding : Result ℕ → ℕ → Result ℕ
shift_padding (ok out) k = ok (u32 (out <<< k))
shift_padding (err e) k = err e
shift_padding panic k = panic

pub padded_from : BitReader → ℕ → Result ℕ
unfolding padded_loop
padded_from r n =
    let left = bits_left r in
    if ltb_ℤ left (pos n)
    then (if leb_ℤ left (pos 0)
        then ok 0
        else shift_padding (padded_loop r.buf (pos_part left) r.bit_pos 0) (n - pos_part left))
    else shift_padding (padded_loop r.buf n r.bit_pos 0) 0

unfoldable pub show_bits_padded : BitReader → ℕ → Result ℕ
show_bits_padded r n = if r.invalid then ok 0 else padded_from r (if ltb 32 n then 32 else n)

unfoldable pub skip_bits : ℕ → Read (Unit {0})
skip_bits n r =
    if r.invalid
    then (err invalid_data, r)
    else if exceeds n r
    then (err invalid_data, r)
    else (ok tt, record r { bit_pos = u32 (r.bit_pos + n) })

-- `(gb.bitPos + 7) &^ 7`
abbrev pub aligned_pos : BitReader → ℕ
aligned_pos r = and_not (u32 (r.bit_pos + 7)) 7

unfoldable pub align_to_byte : Read (Unit {0})
align_to_byte r =
    if r.invalid
    then (err invalid_data, r)
    else if ltb r.num_bits (aligned_pos r)
    then (err invalid_data, r)
    else (ok tt, record r { bit_pos = aligned_pos r })

-- The argument is an `int`, so that it may be negative.
unfoldable pub read_aligned_bytes : ℤ → Read (List ℕ)
read_aligned_bytes (negsuc n) r = (err invalid_data, r)
read_aligned_bytes (pos n) r =
    if r.invalid
    then (err invalid_data, r)
    else if ltb r.num_bits (aligned_pos r)
    then (err invalid_data, r)
    else if ltb (r.num_bits - aligned_pos r) (n * 8 % 2 ^ 64)
    then (err invalid_data, r)
    else let start = aligned_pos r >>> 3 in
      (slice r.buf start (start + n), record r { bit_pos = u32 (aligned_pos r + u32 n * 8) })

-- What `remainingAlignedBytes` does after `alignToByte`.
aligned_tail : Read (List ℕ)
aligned_tail r =
    if ltb_ℤ (bits_left r) (pos 0)
    then (err invalid_data, r)
    else let n = (pos_part (bits_left r) + 7) >>> 3 in
      let start = r.bit_pos >>> 3 in
      if ltb (length r.buf) (start + n)
      then (err invalid_data, r)
      else (slice r.buf start (start + n), r)

unfoldable pub remaining_aligned_bytes : Read (List ℕ)
unfolding aligned_tail
remaining_aligned_bytes = do _ ← align_to_byte; aligned_tail

unfoldable pub remaining_aligned_raw_bytes : Read (List ℕ)
remaining_aligned_raw_bytes r =
    if r.invalid
    then (err invalid_data, r)
    else if ltb (length r.buf * 8) (aligned_pos r)
    then (err invalid_data, r)
    else let r' = record r { bit_pos = aligned_pos r } in
      let start = r'.bit_pos >>> 3 in
      if ltb (length r.buf) start
      then (err invalid_data, r')
      else (slice r.buf start (length r.buf), r')
