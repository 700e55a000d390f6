-- ===== src/Params/Valid.antt =====
-- internal/h264/sps.go and pps.go: parameter sets whose fields are in range.
-- A list of `n` factors: none is zero and each is a byte.
use goh.Base.{All, List, length, ℕ, ◌*◌, ◌+◌, ◌<◌, ◌≡◌, ◌≤◌}
use goh.Base.Int.{neg_part, pos_part, ℤ}
use goh.Params.{Pps, Six, Sps, max_qp, qp_max_num, max_sps_count}

abbrev pub IsFactor : ℕ → Type 0
IsFactor x = (1 ≤ x) × (x ≤ 255)

abbrev pub IsFactors : ℕ → List ℕ → Type 0
IsFactors n xs = (length xs ≡ n) × All IsFactor xs

pub record IsSix (n : ℕ) (s : Six) : Type 0 where
  pub fits_0 : IsFactors n s.list_0
  pub fits_1 : IsFactors n s.list_1
  pub fits_2 : IsFactors n s.list_2
  pub fits_3 : IsFactors n s.list_3
  pub fits_4 : IsFactors n s.list_4
  pub fits_5 : IsFactors n s.list_5

-- A table of chroma QPs that are in range.
abbrev pub IsQpTable : ℕ → List ℕ → Type 0
IsQpTable depth table = (length table ≡ qp_max_num + 1) × All (λ q. q ≤ max_qp depth) table

abbrev pub IsChromaOffset : ℤ → Type 0
IsChromaOffset z = (pos_part z ≤ 12) × (neg_part z ≤ 12)

-- What decoding a sequence parameter set checks; the picture is not empty once it is cropped.
pub record IsSps (sps : Sps) : Type 0 where
  pub id_below : sps.sps_id < max_sps_count
  pub ref_frames : sps.ref_frame_count ≤ 16
  pub cycle_fits : length sps.offset_for_ref_frame ≤ 255
  pub crop_width : sps.crop_left + sps.crop_right < 16 * sps.mb_width
  pub crop_height : sps.crop_top + sps.crop_bottom < 16 * sps.mb_height
  pub size_most : (sps.mb_width ≤ 1055) × (sps.mb_height ≤ 2 * 1055)
  pub frame_num_bits : sps.log2_max_frame_num ≤ 16
  pub poc_lsb_bits : sps.log2_max_poc_lsb ≤ 16
  pub depth_least : 8 ≤ sps.bit_depth_luma
  pub depth_most : sps.bit_depth_luma ≤ 14
  pub scaling_4 : IsSix 16 sps.scaling_matrix_4
  pub scaling_8 : IsSix 64 sps.scaling_matrix_8

-- What decoding a picture parameter set checks, and a slice header relies on.
pub record IsPps (pps : Pps) : Type 0 where
  pub sps_valid : IsSps pps.sps
  pub counts_0 : (1 ≤ pps.ref_count_0) × (pps.ref_count_0 ≤ 32)
  pub counts_1 : (1 ≤ pps.ref_count_1) × (pps.ref_count_1 ≤ 32)
  pub table_0 : IsQpTable pps.sps.bit_depth_luma pps.chroma_qp_table_0
  pub table_1 : IsQpTable pps.sps.bit_depth_luma pps.chroma_qp_table_1
  pub offset_0 : IsChromaOffset pps.chroma_qp_index_offset_0
  pub offset_1 : IsChromaOffset pps.chroma_qp_index_offset_1
  pub scaling_4 : IsSix 16 pps.scaling_matrix_4
  pub scaling_8 : IsSix 64 pps.scaling_matrix_8
