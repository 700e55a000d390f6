-- ===== src/Tests/Sets.antt =====
-- Runs and results for internal/h264/sps.go and pps.go.
use goh.Base.{
  Bool, List, Option, [], arith, false, get_or, if◌then◌else◌, none, refl, replicate, some, true, ℕ,
  ◌==◌, ◌∷◌, ◌≡◌, ◌≤◌,
}
use goh.Base.Int.{pos, ◌+ℤ◌, ◌-ℤ◌}
use goh.Slice.Header.Start.Safe.{AllPps}
use goh.Params.Decode.Stages.{AllSps}
use goh.Params.Size.Safe.{IsAligned, IsCrop, decode_crop-Reads}
use goh.Params.Dequant.Buffers.{IsBuffers, init_dequant_tables-IsBuffer}
use goh.Params.Scaling.Safe.{IsMatrices, decode_scaling_matrices-Reads}
use goh.Params.Valid.{IsPps, IsQpTable, IsSps}
use goh.Params.Decode.Safe.{IsResult, decode_pps-IsPps}
use goh.Params.{Pps, Present, Sps}
use goh.BitReader.Safe.{Reads, Yields}
use goh.Params.Decode.{
  any_left, decode_body, decode_chroma_offset, decode_ids, decode_pps, decode_qp, decode_ref_count,
  decode_slice_groups, decode_tail, find_sps, more_rbsp_data_in_pps, read_flag, with_buffers,
}
use goh.BitReader.{
  bits_left, new_rbsp_bit_reader, rbsp_bit_length, rbsp_length_at, read_bit, read_bits,
  read_bits_loop, skip_bits, trailing_zeros_8, trim_zeros,
}
use goh.Params.Dequant.{
  buffer_of, init_dequant_4, init_dequant_tables, row_4, row_4_loop, table_loop,
}
use goh.Params.Tables.{build_qp_table, chroma_qp, clip_int32, qp_table_loop}
use goh.Params.Sequence.{
  constraint_flags, decode_format, decode_log2_max_frame_num, decode_profile, decode_sps_fields,
  decode_sps_from, flat,
}
use goh.Params.Size.{decode_crop, decode_mb_size, decode_size}
use goh.Params.Order.{decode_poc}
use goh.Params.Scaling.{decode_scaling_matrices}
use goh.Params.Sequence.Safe.{decode_sps_from-IsDecodedSps, IsDecodedSps}
use goh.Result.{err, ok, panic}
use goh.Params.Sequence.Stages.{flat-IsSix}
use goh.Golomb.{
  read_se_golomb_long, read_ue_golomb_31, read_ue_golomb_long, se_of_code, ue_loop, ue_suffix,
}
use goh.Params.Dequant.Safe.{replicate-All}

-- 176 x 144 pictures, baseline profile.
abbrev sps_bytes : List ℕ
sps_bytes = 66 ∷ 192 ∷ 30 ∷ 0xda ∷ 0x0b ∷ 0x13 ∷ 0x90 ∷ []

abbrev pub qcif : Sps
qcif = record {
  sps_id = 0;
  level_idc = 30;
  offset_for_non_ref_pic = pos 0;
  offset_for_top_to_bottom_field = pos 0;
  offset_for_ref_frame = [];
  ref_frame_count = 1;
  gaps_in_frame_num_allowed_flag = false;
  mb_width = 11;
  mb_height = 9;
  mbaff = false;
  crop = false;
  crop_left = 0;
  crop_right = 0;
  crop_top = 0;
  crop_bottom = 0;
  scaling_matrix_present_mask = 0;
  profile_idc = 66;
  constraint_set_flags = 3;
  chroma_format_idc = 1;
  transform_bypass = false;
  log2_max_frame_num = 4;
  poc_type = 2;
  log2_max_poc_lsb = 0;
  delta_pic_order_always_zero_flag = false;
  frame_mbs_only_flag = true;
  direct_8x8_inference_flag = true;
  bit_depth_luma = 8;
  scaling_matrix_present = false;
  scaling_matrix_4 = flat 16;
  scaling_matrix_8 = flat 64;
}

sps_decodes : decode_sps_from sps_bytes ≡ ok qcif
unfolding decode_sps_from decode_sps_fields decode_profile constraint_flags decode_format
    decode_log2_max_frame_num decode_poc decode_size decode_mb_size read_ue_golomb_31
    read_ue_golomb_long ue_loop ue_suffix read_bits read_bits_loop read_bit bits_left skip_bits
    new_rbsp_bit_reader rbsp_bit_length rbsp_length_at trim_zeros trailing_zeros_8
sps_decodes = refl

decode_sps_from-IsDecodedSps_example : Yields IsDecodedSps (decode_sps_from sps_bytes)
decode_sps_from-IsDecodedSps_example = decode_sps_from-IsDecodedSps sps_bytes

qcif-IsSps : IsSps qcif
qcif-IsSps = record {
  id_below = omega arith;
  ref_frames = omega arith;
  cycle_fits = omega arith;
  crop_width = omega arith;
  crop_height = omega arith;
  size_most = (omega arith, omega arith);
  frame_num_bits = omega arith;
  poc_lsb_bits = omega arith;
  depth_least = omega arith;
  depth_most = omega arith;
  scaling_4 = flat-IsSix 16;
  scaling_8 = flat-IsSix 64;
}

-- One set, under the identifier 0.
abbrev pub sps_list : ℕ → Option Sps
sps_list id = if id == 0 then some qcif else none

pub sps_list-AllSps : AllSps sps_list
sps_list-AllSps id = by (id == 0)
  where
    by : (test : Bool) → Present IsSps (if test then some qcif else none)
    by true = qcif-IsSps
    by false = tt

abbrev pub pps_bytes : List ℕ
pps_bytes = 0xce ∷ 0x38 ∷ 0x80 ∷ []

decode_pps-IsPps_example : Yields IsResult (decode_pps pps_bytes sps_list)
decode_pps-IsPps_example = decode_pps-IsPps pps_bytes sps_list sps_list-AllSps

abbrev pub plain_pps : Pps
plain_pps = record {
  pps_id = 0;
  sps_id = 0;
  sps = qcif;
  cabac = false;
  pic_order_present = false;
  ref_count_0 = 1;
  ref_count_1 = 1;
  weighted_pred = false;
  weighted_bipred_idc = 0;
  init_qp = pos 26;
  init_qs = pos 26;
  chroma_qp_index_offset_0 = pos 0;
  chroma_qp_index_offset_1 = pos 0;
  deblocking_filter_parameters_present = false;
  constrained_intra_pred = false;
  redundant_pic_cnt_present = false;
  transform_8x8_mode = false;
  pic_scaling_matrix_present_flag = false;
  pic_scaling_matrix_present_mask = 0;
  scaling_matrix_4 = flat 16;
  scaling_matrix_8 = flat 64;
  chroma_qp_table_0 = replicate 88 20;
  chroma_qp_table_1 = replicate 88 20;
  chroma_qp_diff = false;
}

plain_table-IsQpTable : IsQpTable 8 (replicate 88 20)
plain_table-IsQpTable = (refl, replicate-All (λ q. q ≤ 51) 88 20 (omega arith))

plain_pps-IsPps : IsPps plain_pps
plain_pps-IsPps = record {
  sps_valid = qcif-IsSps;
  counts_0 = (omega arith, omega arith);
  counts_1 = (omega arith, omega arith);
  table_0 = plain_table-IsQpTable;
  table_1 = plain_table-IsQpTable;
  offset_0 = (omega arith, omega arith);
  offset_1 = (omega arith, omega arith);
  scaling_4 = flat-IsSix 16;
  scaling_8 = flat-IsSix 64;
}

init_dequant_tables-IsBuffer_example : Yields IsBuffers (init_dequant_tables plain_pps)
init_dequant_tables-IsBuffer_example = init_dequant_tables-IsBuffer plain_pps plain_pps-IsPps

abbrev pub pps_list : ℕ → Option Pps
pps_list id = if id == 0 then some plain_pps else none

pub pps_list-AllPps : AllPps pps_list
pps_list-AllPps id = by (id == 0)
  where
    by : (test : Bool) → Present IsPps (if test then some plain_pps else none)
    by true = plain_pps-IsPps
    by false = tt

decode_scaling_matrices-Reads_example :
    Reads IsMatrices
      (decode_scaling_matrices false 1 (flat 16) (flat 64) true true true (flat 16) (flat 64))
decode_scaling_matrices-Reads_example =
    decode_scaling_matrices-Reads false 1 (flat 16) (flat 64) true true true (flat 16) (flat 64)
      (flat-IsSix 16) (flat-IsSix 64) (flat-IsSix 16) (flat-IsSix 64)

decode_crop-Reads_example :
    Reads (λ d. IsCrop 11 9 d × IsAligned 1 true d) (decode_crop 11 9 1 true)
decode_crop-Reads_example = decode_crop-Reads 11 9 1 true (omega arith) (omega arith)

pps_decodes :
    elim (decode_pps pps_bytes sps_list) as (λ x. ℕ) [
      | ok p ↦ get_or p.0.chroma_qp_table_0 30 0
      | err e ↦ 99
      | panic ↦ 99
    ]
    ≡ 29
unfolding decode_pps decode_ids find_sps decode_body read_flag decode_slice_groups decode_ref_count
    decode_qp decode_chroma_offset decode_tail more_rbsp_data_in_pps any_left build_qp_table
    qp_table_loop chroma_qp clip_int32 with_buffers init_dequant_tables init_dequant_4 buffer_of
    table_loop row_4 row_4_loop ◌+ℤ◌ ◌-ℤ◌ read_ue_golomb_31 read_ue_golomb_long read_se_golomb_long
    se_of_code ue_loop ue_suffix read_bits read_bits_loop read_bit bits_left new_rbsp_bit_reader
    rbsp_bit_length rbsp_length_at trim_zeros trailing_zeros_8
pps_decodes = refl
