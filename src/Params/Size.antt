-- ===== src/Params/Size.antt =====
-- internal/h264/sps.go: the size of the pictures, and `decodeCrop`.
pub mod Safe
use goh.Base.{Bool, if◌then◌else◌, leb, ltb, ℕ, ◌!=◌, ◌*◌, ◌+◌, ◌-◌, ◌==◌, ◌||◌}
use goh.Base.Words.{u32, u64, ◌<<<◌}
use goh.BitReader.{◌>>=◌, Read, fail, pure, read_bit}
use goh.Result.{invalid_data}
use goh.Golomb.{read_ue_golomb_31, read_ue_golomb_long}
use goh.Dpb.{max_dpb_frames}

abbrev pub max_mb_width : ℕ
max_mb_width = 1055

abbrev pub max_mb_height : ℕ
max_mb_height = 1055

pub record Crop : Type 0 where
  pub crop_left : ℕ
  pub crop_right : ℕ
  pub crop_top : ℕ
  pub crop_bottom : ℕ

-- `vsub`, `hsub`
abbrev pub vsub_of : ℕ → ℕ
vsub_of chroma_format_idc = if chroma_format_idc == 1 then 1 else 0

abbrev pub hsub_of : ℕ → ℕ
hsub_of chroma_format_idc = if (chroma_format_idc == 1) || (chroma_format_idc == 2) then 1 else 0

abbrev pub step_x : ℕ → ℕ
step_x chroma_format_idc = 1 <<< hsub_of chroma_format_idc

abbrev pub step_y : ℕ → Bool → ℕ
step_y chroma_format_idc frame_mbs_only_flag =
    (if frame_mbs_only_flag then 1 else 2) <<< vsub_of chroma_format_idc

-- The checks on the four distances, scaled by the steps.
unfoldable pub check_crop : ℕ → ℕ → Crop → Read Crop
check_crop width height c =
    if leb width (u64 (c.crop_left + c.crop_right)) || leb height (u64 (c.crop_top + c.crop_bottom))
    then fail invalid_data
    else pure (record {
      crop_left = u32 c.crop_left;
      crop_right = u32 c.crop_right;
      crop_top = u32 c.crop_top;
      crop_bottom = u32 c.crop_bottom;
    })

-- `decodeCrop`
unfoldable pub decode_crop : ℕ → ℕ → ℕ → Bool → Read Crop
decode_crop mb_width mb_height chroma_format_idc frame_mbs_only_flag = do
  left_units ← read_ue_golomb_long
  right_units ← read_ue_golomb_long
  top_units ← read_ue_golomb_long
  bottom_units ← read_ue_golomb_long
  check_crop (16 * mb_width) (16 * mb_height) (record {
    crop_left = u64 (left_units * step_x chroma_format_idc);
    crop_right = u64 (right_units * step_x chroma_format_idc);
    crop_top = u64 (top_units * step_y chroma_format_idc frame_mbs_only_flag);
    crop_bottom = u64 (bottom_units * step_y chroma_format_idc frame_mbs_only_flag);
  })

pub record SpsSize : Type 0 where
  pub ref_frame_count : ℕ
  pub gaps_in_frame_num_allowed_flag : Bool
  pub mb_width : ℕ
  pub mb_height : ℕ
  pub frame_mbs_only_flag : Bool
  pub mbaff : Bool
  pub direct_8x8_inference_flag : Bool
  pub crop : Bool
  pub distances : Crop

abbrev pub no_crop : Crop
no_crop = record { crop_left = 0; crop_right = 0; crop_top = 0; crop_bottom = 0 }

-- The width and height in macroblocks, as they are sent.
unfoldable pub decode_mb_size : Read (ℕ × ℕ)
decode_mb_size = do
  width_minus_1 ← read_ue_golomb_long
  height_minus_1 ← read_ue_golomb_long
  if leb max_mb_width width_minus_1 || leb max_mb_height height_minus_1
      then fail invalid_data
      else pure (u32 (width_minus_1 + 1), u32 (height_minus_1 + 1))

-- What follows the picture order count, to the flag of the usability information.
unfoldable pub decode_size : ℕ → Read SpsSize
decode_size chroma_format_idc = do
  ref_frame_count ← read_ue_golomb_31
  if ltb max_dpb_frames ref_frame_count then fail invalid_data else do
    gaps ← read_bit
    size ← decode_mb_size
    frame_mbs_only_flag ← read_bit
    let mb_height = size.1 * (2 - frame_mbs_only_flag)
    mbaff ← if frame_mbs_only_flag == 0 then read_bit else pure 0
    direct ← read_bit
    crop ← read_bit
    distances ←
        if crop == 0
        then pure no_crop
        else decode_crop size.0 mb_height chroma_format_idc (frame_mbs_only_flag != 0)
    pure (record {
      ref_frame_count = ref_frame_count;
      gaps_in_frame_num_allowed_flag = gaps != 0;
      mb_width = size.0;
      mb_height = mb_height;
      frame_mbs_only_flag = frame_mbs_only_flag != 0;
      mbaff = mbaff != 0;
      direct_8x8_inference_flag = direct != 0;
      crop = crop != 0;
      distances = distances;
    })
