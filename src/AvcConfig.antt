-- ===== src/AvcConfig.antt =====
-- internal/h264/bitwriter.go and nal.go: the decoder configuration record of AVC (avcC), written
-- and recognised.
pub mod Walk
pub mod Units
pub mod Written
use goh.Base.{
  Bool, List, Option, [], bit_and, bit_or, drop, false, get_or, if◌then◌else◌, leb, length, ltb,
  none, not, some, suc, take, true, zero, ℕ, ◌!=◌, ◌&&◌, ◌++◌, ◌+◌, ◌-◌, ◌==◌, ◌||◌, ◌∷◌,
}
use goh.Base.Int.{pos, ℤ}
use goh.Base.Words.{u8, ◌<<<◌, ◌>>>◌}
use goh.Nal.{
  Appended, NalUnit, NalUnitType, and_then, cut_on_error, nal_input_too_large, nal_pps, nal_sps,
  parse_nal,
}
use goh.Result.{◌>>=◌, ◌>>◌, Result, err, invalid_data, ok, panic, reject}
use goh.IntCheck.{checked_add_int}

-- `validateAVCConfigRawNAL`
unfoldable pub valid_raw : List ℕ → NalUnitType → Bool
valid_raw [] want = false
valid_raw (b ∷ bs) want =
    leb (length (b ∷ bs)) 0xffff && ((bit_and b 0x80 == 0) && (bit_and b 0x1f == want))

-- The loop of `avcDecoderConfigurationRecordCapacity` over one kind of set.
unfoldable pub capacity_of : ℤ → List (List ℕ) → NalUnitType → Result ℤ
capacity_of n [] want = ok n
capacity_of n (raw ∷ raws) want = do
  reject (not (valid_raw raw want)) invalid_data
  n' ← checked_add_int n (pos 2)
  n'' ← checked_add_int n' (pos (length raw))
  capacity_of n'' raws want

unfoldable pub record_capacity : ℤ → List (List ℕ) → List (List ℕ) → Result ℤ
record_capacity base sps_units pps_units = do
  n ← checked_add_int base (pos 6)
  n' ← capacity_of n sps_units nal_sps
  n'' ← checked_add_int n' (pos 1)
  capacity_of n'' pps_units nal_pps

-- `appendAVCConfigRawNAL`: every error is the one sentinel.
unfoldable pub append_raw : List ℕ → List ℕ → NalUnitType → Appended
append_raw dst raw want =
    if not (valid_raw raw want)
    then (err invalid_data, dst)
    else elim (do
      n ← checked_add_int (pos (length dst)) (pos 2)
      checked_add_int n (pos (length raw))) [
        | ok n ↦ (ok tt, dst ++ (u8 (length raw >>> 8) ∷ u8 (length raw) ∷ raw))
        | err e ↦ (err invalid_data, dst)
        | panic ↦ (panic, dst)
      ]

unfoldable pub append_raws : List ℕ → List (List ℕ) → NalUnitType → Appended
append_raws dst [] want = (ok tt, dst)
append_raws dst (raw ∷ raws) want =
    and_then (append_raw dst raw want) (λ d. append_raws d raws want)

-- The count of picture parameter sets, and the sets.
abbrev pub append_pps_units : List ℕ → List (List ℕ) → Appended
append_pps_units dst pps_units = elim (checked_add_int (pos (length dst)) (pos 1)) [
  | ok n ↦ append_raws (dst ++ (u8 (length pps_units) ∷ [])) pps_units nal_pps
  | err e ↦ (err invalid_data, dst)
  | panic ↦ (panic, dst)
]

-- The six bytes in front.
abbrev pub record_head : ℕ → ℕ → ℕ → ℕ → ℕ → List ℕ
record_head profile compatibility level size sps_count =
    0x01
    ∷ profile
    ∷ compatibility
    ∷ level
    ∷ bit_or 0xfc (u8 (size - 1))
    ∷ bit_or 0xe0 (u8 sps_count)
    ∷ []

-- `AppendAVCDecoderConfigurationRecord`; an error behind the head cuts `dst` back.
unfoldable pub append_record : List ℕ → ℕ → ℕ → ℕ → ℕ → List (List ℕ) → List (List ℕ) → Appended
append_record dst profile compatibility level size sps_units pps_units =
    if (ltb size 1 || ltb 4 size)
      || ((length sps_units == 0)
          || (ltb 31 (length sps_units) || ((length pps_units == 0) || ltb 255 (length pps_units))))
    then (err invalid_data, dst)
    else elim (record_capacity (pos (length dst)) sps_units pps_units) [
      | err e ↦ (err invalid_data, dst)
      | panic ↦ (panic, dst)
      | ok n ↦ cut_on_error (length dst) (
          and_then
            (append_raws (dst ++ record_head profile compatibility level size (length sps_units))
              sps_units nal_sps)
            (λ d. append_pps_units d pps_units))
    ]

-- `peekAVCConfigNAL`: the unit at `at` and where the next one stands. The indices lie within the
-- bytes by the tests.
unfoldable pub peek_raw : List ℕ → ℕ → Option (List ℕ × ℕ)
peek_raw bytes at =
    if ltb (length bytes) (at + 2)
    then none
    else let nal_size = bit_or (get_or bytes at 0 <<< 8) (get_or bytes (at + 1) 0) in
      if (nal_size == 0) || ltb (length bytes - (at + 2)) nal_size
      then none
      else some (take nal_size (drop (at + 2) bytes), at + 2 + nal_size)

-- `readAVCConfigNAL`
unfoldable pub read_raw : List ℕ → ℕ → Result (List ℕ × ℕ)
read_raw bytes at =
    if ltb (length bytes) (at + 2)
    then err invalid_data
    else let nal_size = bit_or (get_or bytes at 0 <<< 8) (get_or bytes (at + 1) 0) in
      if (nal_size == 0) || ltb (length bytes - (at + 2)) nal_size
      then err invalid_data
      else ok (take nal_size (drop (at + 2) bytes), at + 2 + nal_size)

-- `raw[0]`, which a unit that was read has.
abbrev pub first_byte : List ℕ → ℕ
first_byte raw = get_or raw 0 0

-- `parseAVCConfigNAL`: a payload that does not unescape is taken as it is.
unfoldable pub parse_config_nal : List ℕ → NalUnitType → Result NalUnit
parse_config_nal [] want = err invalid_data
parse_config_nal (b ∷ bs) want =
    if (bit_and b 0x80 != 0) || (bit_and b 0x1f != want)
    then err invalid_data
    else elim (parse_nal (b ∷ bs)) [
      | ok nal ↦ ok nal
      | err e ↦ ok (record { ref_idc = bit_and (b >>> 5) 3; type = want; raw = b ∷ bs; rbsp = bs })
      | panic ↦ panic
    ]

-- A loop of `IsAVCDecoderConfigurationRecord` over `count` units: where they end, if all are there
-- and have the type.
unfoldable pub walk : ℕ → List ℕ → ℕ → NalUnitType → Option ℕ
walk zero bytes at want = some at
walk (suc count) bytes at want = elim (peek_raw bytes at) [
  | none ↦ none
  | some (raw, at') ↦
      let rest = walk count bytes at' want in
      if bit_and (first_byte raw) 0x9f != want then none else rest
]

-- Behind the sequence parameter sets: the count and the picture parameter sets.
abbrev pub is_record_pps : List ℕ → Option ℕ → Bool
is_record_pps bytes none = false
is_record_pps bytes (some at) =
    if leb (length bytes) at || (get_or bytes at 0 == 0)
    then false
    else elim (walk (get_or bytes at 0) bytes (at + 1) nal_pps) [ none ↦ false | some end ↦ true ]

unfoldable pub is_record : List ℕ → Bool
is_record bytes =
    if (nal_input_too_large bytes || ltb (length bytes) 9)
      || ((get_or bytes 0 0 != 1)
          || ((bit_and (get_or bytes 4 0) 0xfc != 0xfc)
              || (bit_and (get_or bytes 5 0) 0xe0 != 0xe0)))
    then false
    else let sps_count = bit_and (get_or bytes 5 0) 0x1f in
      if sps_count == 0 then false else is_record_pps bytes (walk sps_count bytes 6 nal_sps)
