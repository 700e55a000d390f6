-- ===== src/Params/Sequence.antt =====
-- internal/h264/sps.go: `decodeSPS`, stage by stage, to the usability information, which sets none
-- of the fields that are modelled. The checks of the identifiers and sizes are those of the source.
pub mod Stages
pub mod Safe
use goh.Base.{
  Bool, List, [], bit_or, false, if◌then◌else◌, leb, ltb, not, replicate, suc, true, zero, ℕ, ◌!=◌,
  ◌+◌, ◌==◌, ◌||◌, ◌∷◌,
}
use goh.Base.Int.{ltb_ℤ, pos, pos_part, ℤ, ◌+ℤ◌, ◌==ℤ◌}
use goh.Base.Words.{int32, wrap, ◌<<<◌}
use goh.BitReader.{◌>>=◌, Read, fail, pure, read_bit, read_bits, skip_bits, new_rbsp_bit_reader}
use goh.Params.Scaling.{Matrices, decode_scaling_matrices}
use goh.Params.{Six, max_sps_count, Sps}
use goh.Result.{invalid_data, unsupported, Result, err, ok, panic}
use goh.Golomb.{read_ue_golomb_31}
use goh.Params.Size.{SpsSize, decode_size}
use goh.Params.Order.{SpsOrder, decode_poc}

-- `isHighProfile`
abbrev pub high_profiles : List ℕ
high_profiles = 100 ∷ 110 ∷ 122 ∷ 244 ∷ 44 ∷ 83 ∷ 86 ∷ 118 ∷ 128 ∷ 138 ∷ 144 ∷ []

abbrev pub any_equal : ℕ → List ℕ → Bool
any_equal n [] = false
any_equal n (x ∷ xs) = (n == x) || any_equal n xs

-- `initFlatScalingMatrices`
abbrev pub flat : ℕ → Six
flat n =
    let sixteens = replicate n 16 in
    record {
      list_0 = sixteens;
      list_1 = sixteens;
      list_2 = sixteens;
      list_3 = sixteens;
      list_4 = sixteens;
      list_5 = sixteens;
    }

pub record SpsProfile : Type 0 where
  pub profile_idc : ℕ
  pub constraint_set_flags : ℕ
  pub level_idc : ℕ
  pub sps_id : ℕ

-- The loop over the flags, by those left.
unfoldable pub constraint_flags : ℕ → ℕ → ℕ → Read ℕ
constraint_flags zero i flags = pure flags
constraint_flags (suc rounds) i flags = do
  flag ← read_bit
  constraint_flags rounds (i + 1) (bit_or flags (flag <<< i))

unfoldable pub decode_profile : Read SpsProfile
decode_profile = do
  profile_idc ← read_bits 8
  flags ← constraint_flags 6 0 0
  _ ← skip_bits 2
  level_idc ← read_bits 8
  sps_id ← read_ue_golomb_31
  if leb max_sps_count sps_id
      then fail invalid_data
      else pure (record {
        profile_idc = profile_idc;
        constraint_set_flags = flags;
        level_idc = level_idc;
        sps_id = sps_id;
      })

pub record SpsFormat : Type 0 where
  pub chroma_format_idc : ℕ
  pub bit_depth : ℕ
  pub transform_bypass : Bool
  pub scaling_matrix_present : Bool
  pub matrices : Matrices

abbrev pub flat_matrices : Matrices
flat_matrices = record { mask = 0; scaling_4 = flat 16; scaling_8 = flat 64 }

-- `int32(bitDepth) + 8`
abbrev pub depth_of : ℕ → ℤ
depth_of n = wrap 32 (int32 n +ℤ pos 8)

-- Separate colour planes are not supported.
unfoldable pub decode_planes : ℕ → Read (Unit {0})
decode_planes chroma_format_idc =
    if ltb 3 chroma_format_idc
    then fail unsupported
    else if chroma_format_idc != 3
    then pure tt
    else do flag ← read_bit; if flag == 0 then pure tt else fail unsupported

unfoldable pub decode_depth : Read ℕ
decode_depth = do
  luma ← read_ue_golomb_31
  chroma ← read_ue_golomb_31
  if not (depth_of chroma ==ℤ depth_of luma)
      then fail unsupported
      else if ltb_ℤ (depth_of luma) (pos 8) || ltb_ℤ (pos 14) (depth_of luma)
      then fail invalid_data
      else pure (pos_part (depth_of luma))

-- The fields of the high profiles; what they are elsewhere.
unfoldable pub decode_format : ℕ → Read SpsFormat
decode_format profile_idc =
    if not (any_equal profile_idc high_profiles)
    then pure (record {
      chroma_format_idc = 1;
      bit_depth = 8;
      transform_bypass = false;
      scaling_matrix_present = false;
      matrices = flat_matrices;
    })
    else do
      chroma_format_idc ← read_ue_golomb_31
      _ ← decode_planes chroma_format_idc
      bit_depth ← decode_depth
      transform_bypass ← read_bit
      present ← read_bit
      matrices ←
          if present == 0
          then pure flat_matrices
          else decode_scaling_matrices false chroma_format_idc (flat 16) (flat 64) true true true
              (flat 16) (flat 64)
      pure (record {
        chroma_format_idc = chroma_format_idc;
        bit_depth = bit_depth;
        transform_bypass = transform_bypass != 0;
        scaling_matrix_present = present != 0;
        matrices = matrices;
      })

-- The fields of `SPS` from the parts.
abbrev pub sps_of : SpsProfile → SpsFormat → ℕ → SpsOrder → SpsSize → Sps
sps_of profile format log2_max_frame_num order size = record {
  sps_id = profile.sps_id;
  level_idc = profile.level_idc;
  offset_for_non_ref_pic = order.non_ref;
  offset_for_top_to_bottom_field = order.top_to_bottom;
  offset_for_ref_frame = order.ref_frame;
  ref_frame_count = size.ref_frame_count;
  gaps_in_frame_num_allowed_flag = size.gaps_in_frame_num_allowed_flag;
  mb_width = size.mb_width;
  mb_height = size.mb_height;
  mbaff = size.mbaff;
  crop = size.crop;
  crop_left = size.distances.crop_left;
  crop_right = size.distances.crop_right;
  crop_top = size.distances.crop_top;
  crop_bottom = size.distances.crop_bottom;
  scaling_matrix_present_mask = format.matrices.mask;
  profile_idc = profile.profile_idc;
  constraint_set_flags = profile.constraint_set_flags;
  chroma_format_idc = format.chroma_format_idc;
  transform_bypass = format.transform_bypass;
  log2_max_frame_num = log2_max_frame_num;
  poc_type = order.poc_type;
  log2_max_poc_lsb = order.log2_max_poc_lsb;
  delta_pic_order_always_zero_flag = order.always_zero;
  frame_mbs_only_flag = size.frame_mbs_only_flag;
  direct_8x8_inference_flag = size.direct_8x8_inference_flag;
  bit_depth_luma = format.bit_depth;
  scaling_matrix_present = format.scaling_matrix_present;
  scaling_matrix_4 = format.matrices.scaling_4;
  scaling_matrix_8 = format.matrices.scaling_8;
}

-- The number of bits of a frame number.
unfoldable pub decode_log2_max_frame_num : Read ℕ
decode_log2_max_frame_num = do
  minus_4 ← read_ue_golomb_31
  if ltb 12 minus_4 then fail invalid_data else pure (minus_4 + 4)

-- `decodeSPS`, to the usability information.
unfoldable pub decode_sps_fields : Read Sps
decode_sps_fields = do
  profile ← decode_profile
  format ← decode_format profile.profile_idc
  log2_max_frame_num ← decode_log2_max_frame_num
  order ← decode_poc
  size ← decode_size format.chroma_format_idc
  pure (sps_of profile format log2_max_frame_num order size)

-- `decodeSPS` of a payload, to the usability information.
unfoldable pub decode_sps_from : List ℕ → Result Sps
decode_sps_from rbsp = elim (new_rbsp_bit_reader rbsp) [
  | err e ↦ err e
  | panic ↦ panic
  | ok gb ↦ (decode_sps_fields gb).0
]
