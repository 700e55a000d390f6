-- ===== src/BitReader/Align.antt =====
-- Moves to byte boundaries, and whole bytes read there.
use goh.Base.{
  Bool-cases, arith, drop, if◌then◌else◌, inl, inr, leb, take, ℕ, ◌%◌, ◌*◌, ◌+◌, ◌/◌, ◌<◌, ◌^◌, ◌≡◌,
}
use goh.Base.Int.{pos}
use goh.Base.Bits.{bit_and_octet}
use goh.Result.{ok, err, invalid_data, slice_lem}
use goh.BitReader.{BitReader, aligned_pos, align_to_byte, read_aligned_bytes}
use goh.BitReader.Valid.{IsValid}

-- The first byte boundary at or behind a position.
abbrev pub boundary : ℕ → ℕ
boundary p = (p + 7) / 8 * 8

pub aligned_pos-boundary : {r : BitReader} → IsValid r → aligned_pos r ≡ boundary r.bit_pos
aligned_pos-boundary {r} v =
    ground (arith, v.short, v.reached, bit_and_octet ((r.bit_pos + 7) % 2 ^ 32))

align_to_byte_eq :
    {r : BitReader}
    → IsValid r
    → align_to_byte r ≡ (
        if leb (boundary r.bit_pos) r.num_bits
        then (ok tt, record r { bit_pos = boundary r.bit_pos })
        else (err invalid_data, r))
unfolding align_to_byte
align_to_byte_eq {r} v = ground (arith, v.usable, aligned_pos-boundary v)

-- `alignToByte` moves to the next byte boundary if that is within the limit, and otherwise fails
-- and moves nothing. The reader stays well formed.
pub align_to_byte-boundary :
    {r : BitReader}
    → IsValid r
    → (align_to_byte r ≡ (
        if leb (boundary r.bit_pos) r.num_bits
        then (ok tt, record r { bit_pos = boundary r.bit_pos })
        else (err invalid_data, r)))
      × IsValid (align_to_byte r).1
unfolding align_to_byte
align_to_byte-boundary {r} v = (
  align_to_byte_eq v,
  ground (arith, v.usable, v.short, v.within, v.reached, aligned_pos-boundary v),
)

-- `readAlignedBytes` of a size that fits between the next boundary and the limit returns the
-- bytes there and moves behind them; any other size below 2 ^ 61 is an error that moves nothing.
pub read_aligned_bytes-slice :
    (n : ℕ) {r : BitReader}
    → IsValid r
    → n < 2 ^ 61
    → read_aligned_bytes (pos n) r ≡ (
        if leb (boundary r.bit_pos + n * 8) r.num_bits
        then (
          ok (take n (drop (boundary r.bit_pos / 8) r.buf)),
          record r { bit_pos = boundary r.bit_pos + n * 8 },
        )
        else (err invalid_data, r))
unfolding read_aligned_bytes
read_aligned_bytes-slice n {r} v h =
    elim (Bool-cases (leb (boundary r.bit_pos + n * 8) r.num_bits)) [
      | inl k ↦ ground (
        arith,
        v.usable,
        v.short,
        v.within,
        aligned_pos-boundary v,
        slice_lem r.buf (boundary r.bit_pos / 8) n,
      )
      | inr k ↦ ground (arith, v.usable, v.short, aligned_pos-boundary v)
    ]
