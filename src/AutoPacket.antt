-- ===== src/AutoPacket.antt =====
-- internal/h264/nal.go: `SplitAutoPacket`, the choice between the two packet formats.
pub mod Choice
use goh.Base.{
  Bool, List, Option, [], bit_or, get_or, if◌then◌else◌, leb, length, ltb, none, some, ℕ, ◌&&◌, ◌+◌,
  ◌==◌, ◌||◌,
}
use goh.Base.Int.{negsuc, pos, ℤ}
use goh.Base.Words.{◌<<<◌}
use goh.Nal.{NalUnit, nal_input_too_large}
use goh.Result.{Result, err, invalid_data, ok, panic}
use goh.AnnexB.{Split, looks_annexb, split_annexb_into}
use goh.Avcc.{split_avcc_into}

pub data PacketFormat : Type 0 where
  annexb avc : PacketFormat

-- `be32`; every call stands behind a test that the four bytes are there.
unfoldable pub be32 : List ℕ → ℕ → ℕ
be32 bytes off =
    bit_or
      (bit_or (bit_or (get_or bytes off 0 <<< 24) (get_or bytes (off + 1) 0 <<< 16))
        (get_or bytes (off + 2) 0 <<< 8))
      (get_or bytes (off + 3) 0)

-- The error, the units and the format. On an early error the format is the zero value.
abbrev pub AutoSplit : Type 0
AutoSplit = Result (Unit {0}) × List NalUnit × PacketFormat

abbrev pub with_format : PacketFormat → Option Split → Option AutoSplit
with_format format none = none
with_format format (some (e, units, scratch)) = some (e, units, format)

abbrev pub bad_packet : Option AutoSplit
bad_packet = some (err invalid_data, [], annexb)

-- `len(data) > 3 && be32(data, 0) > 1 && uint64(be32(data, 0)) <= uint64(len(data))`
abbrev pub starts_with_length : List ℕ → Bool
starts_with_length bytes =
    ltb 3 (length bytes) && (ltb 1 (be32 bytes 0) && leb (be32 bytes 0) (length bytes))

-- `len(data) > 8 && be32(data, 0) == 1 && uint64(be32(data, 5)) > uint64(len(data))`
abbrev pub starts_with_code : List ℕ → Bool
starts_with_code bytes =
    ltb 8 (length bytes) && ((be32 bytes 0 == 1) && ltb (length bytes) (be32 bytes 5))

-- `nals, err := SplitAVCC(data, n); if err != nil && looksAnnexB(data) { ... }`
abbrev pub or_annexb : List ℕ → Option Split → Option AutoSplit
or_annexb bytes none = none
or_annexb bytes (some (ok u, units, scratch)) = some (ok u, units, avc)
or_annexb bytes (some (err e, units, scratch)) =
    if looks_annexb bytes
    then with_format annexb (split_annexb_into bytes)
    else some (err e, units, avc)
or_annexb bytes (some (panic, units, scratch)) = some (panic, units, avc)

-- What stands behind the two branches for four-byte lengths.
unfoldable pub split_configured : List ℕ → ℕ → Option AutoSplit
split_configured bytes size =
    if leb 1 size
    then or_annexb bytes (split_avcc_into bytes size)
    else if looks_annexb bytes
    then with_format annexb (split_annexb_into bytes)
    else if starts_with_length bytes
    then with_format avc (split_avcc_into bytes 4)
    else bad_packet

unfoldable pub split_auto_packet : List ℕ → ℤ → Option AutoSplit
split_auto_packet bytes (negsuc n) = bad_packet
split_auto_packet bytes (pos size) =
    if (length bytes == 0) || (nal_input_too_large bytes || ltb 4 size)
    then bad_packet
    else if (size == 4) && starts_with_code bytes
    then with_format annexb (split_annexb_into bytes)
    else if (size == 4) && starts_with_length bytes
    then with_format avc (split_avcc_into bytes 4)
    else split_configured bytes size
