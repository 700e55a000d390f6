-- ===== src/Avcc.antt =====
-- internal/h264/nal.go: packets of NAL units with their lengths in front.
pub mod Size
pub mod RoundTrip
pub mod Written
pub mod Rounds
use goh.Base.{
  List, Option, [], bit_or, if◌then◌else◌, leb, length, ltb, none, some, suc, zero, ℕ, ◌+◌, ◌-◌,
  ◌==◌, ◌||◌,
}
use goh.Base.Words.{◌<<<◌}
use goh.Nal.{NalUnit, nal_input_too_large}
use goh.Result.{◌>>=◌, Result, err, index, invalid_data, ok, panic}
use goh.AnnexB.{Split, finish, parse_slice}

-- `nalSize = (nalSize << 8) | int(data[pos]); pos++`, for the bytes of a length that are left.
unfoldable pub read_size : ℕ → List ℕ → ℕ → ℕ → Result (ℕ × ℕ)
read_size zero bytes at nal_size = ok (nal_size, at)
read_size (suc i) bytes at nal_size = do
  b ← index bytes at
  read_size i bytes (at + 1) (bit_or (nal_size <<< 8) b)

-- A unit of `nal_size` bytes at `at`; `rest` goes on behind it.
abbrev pub sized_unit :
    List ℕ
    → ℕ
    → ℕ
    → List NalUnit
    → List ℕ
    → (ℕ → List NalUnit → List ℕ → Option Split)
    → Option Split
sized_unit bytes nal_size at out scratch rest =
    if nal_size == 0 || ltb (length bytes - at) nal_size
    then some (err invalid_data, out, scratch)
    else parse_slice bytes at (at + nal_size) out scratch (rest (at + nal_size))

-- The body of the loop. `pos >= len(data)-nalLengthSize` is a test of ints, where the difference
-- may be negative.
abbrev pub avcc_body :
    List ℕ
    → ℕ
    → ℕ
    → List NalUnit
    → List ℕ
    → (ℕ → List NalUnit → List ℕ → Option Split)
    → Option Split
avcc_body bytes size at out scratch rest =
    if leb (length bytes) (at + size)
    then some (err invalid_data, out, scratch)
    else elim (read_size size bytes at 0) [
      | ok (nal_size, at') ↦ sized_unit bytes nal_size at' out scratch rest
      | err e ↦ some (err e, out, scratch)
      | panic ↦ some (panic, out, scratch)
    ]

-- The loop of `SplitAVCCInto`, `none` when the rounds run out.
unfoldable pub avcc_loop : ℕ → List ℕ → ℕ → ℕ → List NalUnit → List ℕ → Option Split
avcc_loop zero bytes size at out scratch = none
avcc_loop (suc rounds) bytes size at out scratch =
    if ltb at (length bytes)
    then avcc_body bytes size at out scratch (avcc_loop rounds bytes size)
    else some (finish out scratch)

-- Each round takes two bytes at least, so that the rounds suffice.
unfoldable pub split_avcc_into : List ℕ → ℕ → Option Split
split_avcc_into bytes size =
    if ltb size 1 || ltb 4 size
    then some (err invalid_data, [], [])
    else if nal_input_too_large bytes
    then some (err invalid_data, [], [])
    else avcc_loop (suc (length bytes)) bytes size 0 [] []
