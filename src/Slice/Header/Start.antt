-- ===== src/Slice/Header/Start.antt =====
-- internal/h264/slice.go: the first fields of a slice header, to `IDRPicID`.
pub mod Safe
use goh.Base.{
  Bool, List, Option, [], bit_and, false, if◌then◌else◌, leb, ltb, not, true, ℕ, ◌!=◌, ◌&&◌, ◌*◌,
  ◌+◌, ◌-◌, ◌==◌, ◌∷◌,
}
use goh.Base.Words.{u32, ◌<<<◌}
use goh.BitReader.{◌>>=◌, Read, fail, lift, pure, read_bit, read_bits}
use goh.Slice.{PicNums, picture_type_b, picture_type_i, picture_type_p}
use goh.Params.{Pps, Sps, max_pps_count, require_at}
use goh.Result.{Result, err, index, invalid_data}
use goh.Dpb.{picture_frame, picture_top_field}
use goh.Golomb.{read_ue_golomb_31, read_ue_golomb_long}

abbrev pub nal_slice : ℕ
nal_slice = 1

abbrev pub nal_idr_slice : ℕ
nal_idr_slice = 5

abbrev pub picture_type_sp : ℕ
picture_type_sp = 6

abbrev pub picture_type_si : ℕ
picture_type_si = 5

-- `SliceTypeNoS`
abbrev pub without_s : ℕ → ℕ
without_s slice_type = bit_and slice_type 3

abbrev pub golomb_to_picture_type : List ℕ
golomb_to_picture_type =
    picture_type_p ∷ picture_type_b ∷ picture_type_i ∷ picture_type_sp ∷ picture_type_si ∷ []

-- The first fields, up to the parameter sets.
pub record SliceStart : Type 0 where
  pub first_mb_addr : ℕ
  pub slice_type : ℕ
  pub slice_type_fixed : Bool
  pub pps_id : ℕ
  pub pps : Pps

-- A number of the slice type.
unfoldable pub picture_type : ℕ → Result ℕ
picture_type n =
    if ltb 9 n
    then err invalid_data
    else index golomb_to_picture_type (if ltb 4 n then n - 5 else n)

unfoldable pub find_pps : (ℕ → Option Pps) → ℕ → Result Pps
find_pps pps_list id =
    if leb max_pps_count id then err invalid_data else require_at max_pps_count pps_list id

unfoldable pub parse_start : Bool → (ℕ → Option Pps) → Read SliceStart
parse_start idr pps_list = do
  first_mb_addr ← read_ue_golomb_long
  n ← read_ue_golomb_31
  slice_type ← lift (picture_type n)
  if idr && (without_s slice_type != picture_type_i) then fail invalid_data else do
    id ← read_ue_golomb_long
    pps ← lift (find_pps pps_list id)
    pure (record {
      first_mb_addr = first_mb_addr;
      slice_type = slice_type;
      slice_type_fixed = ltb 4 n;
      pps_id = id;
      pps = pps;
    })

-- `FrameNum`, the numbers that the marking is read against, and `IDRPicID`.
pub record SlicePicture : Type 0 where
  pub frame_num : ℕ
  pub nums : PicNums
  pub mb_field_decoding_flag : Bool
  pub idr_pic_id : ℕ

-- `PictureStructure`
unfoldable pub parse_structure : Sps → ℕ → Read ℕ
parse_structure sps slice_type =
    if sps.frame_mbs_only_flag
    then pure picture_frame
    else if not sps.direct_8x8_inference_flag && (slice_type == picture_type_b)
    then fail invalid_data
    else do
      field_pic_flag ← read_bit
      if field_pic_flag == 0
          then pure picture_frame
          else do bottom_field_flag ← read_bit; pure (picture_top_field + bottom_field_flag)

-- `CurrPicNum` and `MaxPicNum`
abbrev pub pic_nums : ℕ → ℕ → ℕ → PicNums
pic_nums log2_max_frame_num frame_num structure = record {
  structure = structure;
  curr_pic_num = if structure == picture_frame then frame_num else u32 (2 * frame_num + 1);
  max_pic_num =
      if structure == picture_frame
      then u32 (1 <<< log2_max_frame_num)
      else u32 (1 <<< (log2_max_frame_num + 1));
}

-- An identifier above 65535 is left out.
unfoldable pub parse_idr_pic_id : Bool → Read ℕ
parse_idr_pic_id false = pure 0
parse_idr_pic_id true = do id ← read_ue_golomb_long; pure (if ltb id 65536 then id else 0)

unfoldable pub parse_picture : Bool → Sps → ℕ → Read SlicePicture
parse_picture idr sps slice_type = do
  frame_num ← read_bits sps.log2_max_frame_num
  structure ← parse_structure sps slice_type
  idr_pic_id ← parse_idr_pic_id idr
  pure (record {
    frame_num = frame_num;
    nums = pic_nums sps.log2_max_frame_num frame_num structure;
    mb_field_decoding_flag = structure != picture_frame;
    idr_pic_id = idr_pic_id;
  })
