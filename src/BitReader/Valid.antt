-- ===== src/BitReader/Valid.antt =====
-- Well-formed readers, their unread bits, and single bits read from them.
use goh.Base.{
  List, arith, false, get_elem?-eq-get_or, length, ℕ, ◌%◌, ◌*◌, ◌+◌, ◌-◌, ◌/◌, ◌<◌, ◌^◌, ◌≡◌, ◌≤◌,
}
use goh.Base.Int.{pos}
use goh.Base.Bits.{bit_and_bit, bit_and_octet}
use goh.Result.{Result, ok, err, invalid_data}
use goh.BitReader.{BitReader, bits_left, read_bit}
use goh.BitReader.Window.{byte_at, bit_at, window}

-- The position lies within the limit, the limit within the buffer.
pub record IsValid (r : BitReader) : Type 0 where
  pub usable : r.invalid ≡ false
  pub short : r.num_bits < 2 ^ 31
  pub within : r.num_bits ≤ length r.buf * 8
  pub reached : r.bit_pos ≤ r.num_bits

abbrev pub left : BitReader → ℕ
left r = r.num_bits - r.bit_pos

-- The bits that the reader has not read yet: what its client sees of it.
abbrev pub remaining : BitReader → List ℕ
remaining r = window r.buf r.bit_pos (left r)

abbrev pub advance : BitReader → ℕ → BitReader
advance r n = record r { bit_pos = r.bit_pos + n }

-- What a client sees of a call.
abbrev pub view {ℓ} : {A : Type ℓ} → Result A × BitReader → Result A × List ℕ
view p = (p.0, remaining p.1)

pub bits_left-valid : {r : BitReader} → IsValid r → bits_left r ≡ pos (left r)
unfolding bits_left
bits_left-valid v = ground arith

pub advance-IsValid : {r : BitReader} (n : ℕ) → IsValid r → n ≤ left r → IsValid (advance r n)
advance-IsValid n v h = record {
  usable = v.usable;
  short = v.short;
  within = v.within;
  reached = omega (arith, v.reached);
}

pub read_bit_lem :
    {r : BitReader}
    → IsValid r
    → 0 < left r
    → read_bit r ≡ (ok (bit_at r.buf r.bit_pos), advance r 1)
unfolding read_bit
read_bit_lem {r} v h = ground (
  arith,
  bits_left-valid v,
  v.usable,
  v.short,
  v.within,
  bit_and_octet r.bit_pos,
  bit_and_bit (byte_at r.buf (r.bit_pos / 8) / 2 ^ (7 - r.bit_pos % 8)),
  get_elem?-eq-get_or r.buf (r.bit_pos / 8) 0,
)

pub read_bit_end : {r : BitReader} → IsValid r → left r ≡ 0 → read_bit r ≡ (err invalid_data, r)
unfolding read_bit
read_bit_end {r} v h = ground (arith, bits_left-valid v, v.usable)
