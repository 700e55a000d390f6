-- ===== src/Nal.antt =====
-- internal/h264/nal.go and the NAL part of bitwriter.go: bytes between access-unit packets and
-- raw payloads. Slices are values here: `rbspScratch` only grows, so a payload cut out of it
-- before it grew further keeps its bytes.
pub mod Escape
pub mod Parse
pub mod Length
use goh.Base.{
  Bool, List, [], bit_and, bit_or, drop, if◌then◌else◌, leb, length, ltb, replicate, set, suc, take,
  zero, ℕ, ◌!=◌, ◌&&◌, ◌*◌, ◌++◌, ◌+◌, ◌-◌, ◌/◌, ◌==◌, ◌^◌, ◌||◌, ◌∷◌,
}
use goh.Base.Int.{ltb_ℤ, pos, pos_part, ℤ}
use goh.Base.Words.{max_u32, u8, ◌<<<◌, ◌>>>◌}
use goh.Result.{Result, ok, err, invalid_data, ◌>>=◌, panic, reject}
use goh.IntCheck.{checked_add_int}

-- `NALUnitType` is the five-bit number of the header.
abbrev pub NalUnitType : Type 0
NalUnitType = ℕ

abbrev pub nal_sps : NalUnitType
nal_sps = 7

abbrev pub nal_pps : NalUnitType
nal_pps = 8

pub record NalUnit : Type 0 where
  pub ref_idc : ℕ
  pub type : NalUnitType
  pub raw : List ℕ
  pub rbsp : List ℕ

-- The loop of `AppendRBSP`: emulation prevention bytes are taken out.
unfoldable pub rbsp_loop : ℕ → List ℕ → List ℕ → Result (List ℕ)
rbsp_loop run dst [] = ok dst
rbsp_loop run dst (b ∷ bs) =
    let skipped = rbsp_loop 0 dst bs in
    let kept = rbsp_loop (if b == 0 then run + 1 else 0) (dst ++ (b ∷ [])) bs in
    if leb 2 run && b == 0x03
    then skipped
    else if leb 2 run && (b == 0x01 || b == 0x02)
    then err invalid_data
    else kept

unfoldable pub append_rbsp : List ℕ → List ℕ → Result (List ℕ)
append_rbsp dst ebsp = rbsp_loop 0 dst ebsp

-- `nalAppendCapacity`, of lengths.
unfoldable pub nal_append_capacity : ℤ → ℤ → ℤ → Result ℤ
nal_append_capacity base prefix rbsp_len =
    if ltb_ℤ base (pos 0) || ltb_ℤ prefix (pos 0) || ltb_ℤ rbsp_len (pos 0)
    then err invalid_data
    else do
      n ← checked_add_int base prefix
      n' ← checked_add_int n rbsp_len
      checked_add_int n' (pos (pos_part rbsp_len / 2))

-- The loop of `AppendEBSP`.
unfoldable pub ebsp_loop : ℕ → List ℕ → List ℕ → List ℕ
ebsp_loop run dst [] = dst
ebsp_loop run dst (b ∷ bs) =
    let stuffed = leb 2 run && leb b 0x03 in
    let dst' = if stuffed then dst ++ (0x03 ∷ []) else dst in
    let run' = if stuffed then 0 else run in
    ebsp_loop (if b == 0 then run' + 1 else 0) (dst' ++ (b ∷ [])) bs

-- A nil slice is the empty list.
unfoldable pub append_ebsp : List ℕ → List ℕ → List ℕ
append_ebsp dst rbsp = elim (nal_append_capacity (pos (length dst)) (pos 0) (pos (length rbsp))) [
  | ok n ↦ ebsp_loop 0 dst rbsp
  | err e ↦ []
  | panic ↦ []
]

-- The error and the slice that an appending function returns.
abbrev pub Appended : Type 0
Appended = Result (Unit {0}) × List ℕ

-- `if err != nil { return dst, err }` behind a call that appends.
abbrev pub and_then : Appended → (List ℕ → Appended) → Appended
and_then (ok u, dst) f = f dst
and_then (err e, dst) f = (err e, dst)
and_then (panic, dst) f = (panic, dst)

-- `if _, err := nalAppendCapacity(len(dst), prefix, len(rbsp)); err != nil { return dst, err }`
abbrev pub with_capacity : List ℕ → ℕ → List ℕ → Appended → Appended
with_capacity dst prefix rbsp rest =
    elim (nal_append_capacity (pos (length dst)) (pos prefix) (pos (length rbsp))) [
      | ok n ↦ rest
      | err e ↦ (err e, dst)
      | panic ↦ (panic, dst)
    ]

unfoldable pub append_nal : List ℕ → ℕ → NalUnitType → List ℕ → Appended
append_nal dst ref_idc type rbsp =
    if ltb 3 ref_idc || ltb 31 type
    then (err invalid_data, dst)
    else with_capacity dst 1 rbsp
        (ok tt, append_ebsp (dst ++ (bit_or (u8 (ref_idc <<< 5)) type ∷ [])) rbsp)

-- `if err != nil { return dst[:start], err }`
abbrev pub cut_on_error : ℕ → Appended → Appended
cut_on_error start (ok u, dst) = (ok u, dst)
cut_on_error start (err e, dst) = (err e, take start dst)
cut_on_error start (panic, dst) = (panic, dst)

unfoldable pub append_annexb_nal : List ℕ → ℕ → NalUnitType → List ℕ → Appended
append_annexb_nal dst ref_idc type rbsp = with_capacity dst 5 rbsp (
    cut_on_error (length dst)
      (append_nal (dst ++ (0x00 ∷ 0x00 ∷ 0x00 ∷ 0x01 ∷ [])) ref_idc type rbsp))

-- `for i := nalLengthSize - 1; i >= 0; i-- { dst[start+i] = byte(nalLen); nalLen >>= 8 }`
unfoldable pub write_length : ℕ → ℕ → ℕ → List ℕ → List ℕ
write_length zero start nal_len dst = dst
write_length (suc i) start nal_len dst =
    write_length i start (nal_len >>> 8) (set dst (start + i) (u8 nal_len))

-- What `AppendAVCNAL` does with the bytes of the NAL unit behind the room for its length.
abbrev pub put_length : ℕ → ℕ → Appended → Appended
put_length size start (ok u, dst) =
    let nal_len = length dst - (start + size) in
    if leb (1 <<< (size * 8)) nal_len
    then (err invalid_data, take start dst)
    else (ok tt, write_length size start nal_len dst)
put_length size start (err e, dst) = (err e, take start dst)
put_length size start (panic, dst) = (panic, dst)

unfoldable pub append_avc_nal : List ℕ → ℕ → ℕ → NalUnitType → List ℕ → Appended
append_avc_nal dst size ref_idc type rbsp =
    if ltb size 1 || ltb 4 size
    then (err invalid_data, dst)
    else elim (checked_add_int (pos (length dst)) (pos size)) [
      | ok n ↦ put_length size (length dst) (append_nal (dst ++ replicate size 0) ref_idc type rbsp)
      | err e ↦ (err invalid_data, dst)
      | panic ↦ (panic, dst)
    ]

-- `parseNALInto`: the unit, and the scratch buffer with the payload behind what it held.
unfoldable pub parse_nal_into : List ℕ → List ℕ → Result (NalUnit × List ℕ)
parse_nal_into [] scratch = err invalid_data
parse_nal_into (header ∷ payload) scratch = do
  _ ← reject (bit_and header 0x80 != 0) invalid_data
  scratch' ← append_rbsp scratch payload
  ok (
    record {
      ref_idc = bit_and (header >>> 5) 3;
      type = bit_and header 0x1f;
      raw = header ∷ payload;
      rbsp = drop (length scratch) scratch';
    },
    scratch',
  )

unfoldable pub parse_nal : List ℕ → Result NalUnit
parse_nal raw = do (nal, scratch) ← parse_nal_into raw []; ok nal

-- `len(data) > maxInt/2 || uint64(len(data)) > uint64(^uint32(0))`
unfoldable pub nal_input_too_large : List ℕ → Bool
nal_input_too_large bytes = ltb ((2 ^ 63 - 1) / 2) (length bytes) || ltb max_u32 (length bytes)
