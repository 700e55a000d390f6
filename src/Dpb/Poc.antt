-- ===== src/Dpb/Poc.antt =====
-- internal/h264/simple_dpb.go: the order counts of a picture, `initPOC`. An `int32` wraps at every
-- operation; the 64-bit sums stay far from their bounds and are exact.
pub mod Nearest
pub mod Counts
use goh.Base.{
  Bool, List, [], if◌then◌else◌, suc, zero, ℕ, ◌!=◌, ◌%◌, ◌&&◌, ◌+◌, ◌-◌, ◌/◌, ◌==◌, ◌∷◌,
}
use goh.Base.Int.{leb_ℤ, ltb_ℤ, neg, neg_part, pos, pos_part, ℤ, ◌*ℤ◌, ◌+ℤ◌, ◌-ℤ◌}
use goh.Base.Words.{wrap, ◌<<<◌}
use goh.Dpb.{
  PocContext, max_int32, min_int32, picture_bottom_field, picture_frame, picture_top_field,
}
use goh.Result.{Result, err, invalid_data, ok}

-- The fields of `SPS` that the order counts depend on.
pub record PocSps : Type 0 where
  pub poc_type : ℕ
  pub log2_max_frame_num : ℕ
  pub log2_max_poc_lsb : ℕ
  pub poc_cycle_length : ℕ
  pub offset_for_ref_frame : List ℤ
  pub offset_for_non_ref_pic : ℤ
  pub offset_for_top_to_bottom_field : ℤ

abbrev pub add_i32 : ℤ → ℤ → ℤ
add_i32 a b = wrap 32 (a +ℤ b)

abbrev pub sub_i32 : ℤ → ℤ → ℤ
sub_i32 a b = wrap 32 (a -ℤ b)

-- `int32(1) << uint32(n)`
abbrev pub one_shifted : ℕ → ℤ
one_shifted n = wrap 32 (pos (1 <<< n))

-- The top and the bottom field.
abbrev pub FieldPocs : Type 0
FieldPocs = ℤ × ℤ

-- `p.frameNumOffset = p.prevFrameNumOffset; if p.frameNum < p.prevFrameNum { ... }`
abbrev pub start_offset : PocSps → PocContext → PocContext
start_offset sps p = record p {
  frame_num_offset =
      if ltb_ℤ p.frame_num p.prev_frame_num
      then add_i32 p.prev_frame_num_offset (one_shifted sps.log2_max_frame_num)
      else p.prev_frame_num_offset;
}

-- `maxPOCLSB/2` truncates towards 0.
abbrev pub half : ℤ → ℤ
half a = if ltb_ℤ a (pos 0) then neg (pos (neg_part a / 2)) else pos (pos_part a / 2)

-- The choice of the high part, from the low part, that of the reference before it and the modulus.
unfoldable pub choose_msb : ℤ → ℤ → ℤ → ℤ → ℤ
choose_msb max_lsb lsb prev_lsb prev_msb =
    if ltb_ℤ lsb prev_lsb && leb_ℤ (half max_lsb) (sub_i32 prev_lsb lsb)
    then add_i32 prev_msb max_lsb
    else if ltb_ℤ prev_lsb lsb && ltb_ℤ (sub_i32 prev_lsb lsb) (half (neg max_lsb))
    then sub_i32 prev_msb max_lsb
    else prev_msb

-- The case of type 0: the context and the counts.
unfoldable pub poc_type_0 : PocSps → ℕ → PocContext → PocContext × FieldPocs
poc_type_0 sps structure p =
    let prev_lsb = if ltb_ℤ p.prev_poc_lsb (pos 0) then p.poc_lsb else p.prev_poc_lsb in
    let msb = choose_msb (one_shifted sps.log2_max_poc_lsb) p.poc_lsb prev_lsb p.prev_poc_msb in
    let top = add_i32 msb p.poc_lsb in
    (
      record p { prev_poc_lsb = prev_lsb; poc_msb = msb },
      (top, if structure == picture_frame then top +ℤ p.delta_poc_bottom else top),
    )

-- The sum of the first `n` offsets.
abbrev pub sum_offsets : ℕ → List ℤ → ℤ
sum_offsets zero offsets = pos 0
sum_offsets (suc n) [] = pos 0
sum_offsets (suc n) (o ∷ os) = o +ℤ sum_offsets n os

-- `expectedPOC` before the offset of a picture that is no reference, for a positive number.
abbrev pub expected_poc : PocSps → ℕ → ℤ
expected_poc sps abs_frame_num =
    let cycles = (abs_frame_num - 1) / sps.poc_cycle_length in
    let in_cycle = (abs_frame_num - 1) % sps.poc_cycle_length in
    (pos cycles *ℤ sum_offsets sps.poc_cycle_length sps.offset_for_ref_frame)
    +ℤ sum_offsets (in_cycle + 1) sps.offset_for_ref_frame

-- The case of type 1.
unfoldable pub poc_type_1 : PocSps → ℕ → ℕ → PocContext → FieldPocs
poc_type_1 sps structure nal_ref_idc p =
    let num = if sps.poc_cycle_length != 0 then add_i32 p.frame_num_offset p.frame_num else pos 0 in
    let abs_frame_num =
      if (nal_ref_idc == 0) && ltb_ℤ (pos 0) num then sub_i32 num (pos 1) else num in
    let expected =
      if ltb_ℤ (pos 0) abs_frame_num then expected_poc sps (pos_part abs_frame_num) else pos 0 in
    let counted = if nal_ref_idc == 0 then expected +ℤ sps.offset_for_non_ref_pic else expected in
    let top = counted +ℤ p.delta_poc_0 in
    let bottom = top +ℤ sps.offset_for_top_to_bottom_field in
    (top, if structure == picture_frame then bottom +ℤ p.delta_poc_1 else bottom)

-- The case of type 2: `2 * (p.frameNumOffset + p.frameNum)` is a product of `int32`.
unfoldable pub poc_type_2 : ℕ → PocContext → FieldPocs
poc_type_2 nal_ref_idc p =
    let num = add_i32 p.frame_num_offset p.frame_num in
    let doubled = add_i32 num num in
    let poc = if nal_ref_idc == 0 then doubled -ℤ pos 1 else doubled in (poc, poc)

abbrev pub fits_i32 : ℤ → Bool
fits_i32 a = leb_ℤ min_int32 a && leb_ℤ a max_int32

-- What stands behind the switch: the counts of the fields that the picture has, and the lesser.
abbrev pub pick_fields : ℕ → FieldPocs → FieldPocs → Result (FieldPocs × ℤ)
pick_fields structure (old_top, old_bottom) (top, bottom) =
    let top' = if structure != picture_bottom_field then top else old_top in
    let bottom' = if structure != picture_top_field then bottom else old_bottom in
    if fits_i32 top && fits_i32 bottom
    then ok ((top', bottom'), if ltb_ℤ bottom' top' then bottom' else top')
    else err invalid_data

-- `initPOC`: the context keeps what was changed before an error.
unfoldable pub init_poc :
    PocSps → ℕ → ℕ → FieldPocs → PocContext → Result (FieldPocs × ℤ) × PocContext
init_poc sps structure nal_ref_idc old p =
    let started = start_offset sps p in
    let (type_0, counts) = poc_type_0 sps structure started in
    if sps.poc_type == 0
    then (pick_fields structure old counts, type_0)
    else if sps.poc_type == 1
    then (pick_fields structure old (poc_type_1 sps structure nal_ref_idc started), started)
    else if sps.poc_type == 2
    then (pick_fields structure old (poc_type_2 nal_ref_idc started), started)
    else (err invalid_data, started)
