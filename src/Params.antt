-- ===== src/Params.antt =====
-- internal/h264/sps.go and pps.go: the parameter sets and what is shared by their
-- decoders. A field that is never negative is a ℕ, a flag a
-- Bool.
pub mod Valid
pub mod Tables
pub mod Scaling
pub mod Size
pub mod Order
pub mod Sequence
pub mod Dequant
pub mod Decode
pub mod Store
use goh.Base.{
  Bool, List, Option, if◌then◌else◌, ltb, lt→ltb, none, refl, some, ℕ, ◌*◌, ◌+◌, ◌<◌, ◌≡◌,
}
use goh.Base.Int.{ℤ}
use goh.Result.{Result, err, invalid_data, ok, panic}
use goh.BitReader.Safe.{Yields}

abbrev pub max_sps_count : ℕ
max_sps_count = 32

abbrev pub max_pps_count : ℕ
max_pps_count = 256

abbrev pub qp_max_num : ℕ
qp_max_num = 51 + 6 * 6

-- `if list[id] == nil { return nil, ErrInvalidData }`
abbrev pub require : {A : Type 0} → Option A → Result A
require none = err invalid_data
require (some x) = ok x

-- `require` of `list[id]`, where the array has `size` places; outside them Go panics.
abbrev pub require_at : {A : Type 0} → ℕ → (ℕ → Option A) → ℕ → Result A
require_at size list id = if ltb id size then require (list id) else panic

-- `51 + 6*(depth-8)`
abbrev pub max_qp : ℕ → ℕ
max_qp depth = 3 + 6 * depth

-- The lists of `ScalingMatrix4` or `ScalingMatrix8`.
pub record Six : Type 0 where
  pub list_0 : List ℕ
  pub list_1 : List ℕ
  pub list_2 : List ℕ
  pub list_3 : List ℕ
  pub list_4 : List ℕ
  pub list_5 : List ℕ

-- `SPS`, without the usability information; luma and chroma have one bit depth.
pub record Sps : Type 0 where
  pub sps_id : ℕ
  pub level_idc : ℕ
  pub offset_for_non_ref_pic : ℤ
  pub offset_for_top_to_bottom_field : ℤ
  pub offset_for_ref_frame : List ℤ
  pub ref_frame_count : ℕ
  pub gaps_in_frame_num_allowed_flag : Bool
  pub mb_width : ℕ
  pub mb_height : ℕ
  pub mbaff : Bool
  pub crop : Bool
  pub crop_left : ℕ
  pub crop_right : ℕ
  pub crop_top : ℕ
  pub crop_bottom : ℕ
  pub scaling_matrix_present_mask : ℕ
  pub profile_idc : ℕ
  pub constraint_set_flags : ℕ
  pub chroma_format_idc : ℕ
  pub transform_bypass : Bool
  pub log2_max_frame_num : ℕ
  pub poc_type : ℕ
  pub log2_max_poc_lsb : ℕ
  pub delta_pic_order_always_zero_flag : Bool
  pub frame_mbs_only_flag : Bool
  pub direct_8x8_inference_flag : Bool
  pub bit_depth_luma : ℕ
  pub scaling_matrix_present : Bool
  pub scaling_matrix_4 : Six
  pub scaling_matrix_8 : Six

-- `PPS`; the two offsets and tables of the chroma QP are two fields each.
pub record Pps : Type 0 where
  pub pps_id : ℕ
  pub sps_id : ℕ
  pub sps : Sps
  pub cabac : Bool
  pub pic_order_present : Bool
  pub ref_count_0 : ℕ
  pub ref_count_1 : ℕ
  pub weighted_pred : Bool
  pub weighted_bipred_idc : ℕ
  pub init_qp : ℤ
  pub init_qs : ℤ
  pub chroma_qp_index_offset_0 : ℤ
  pub chroma_qp_index_offset_1 : ℤ
  pub deblocking_filter_parameters_present : Bool
  pub constrained_intra_pred : Bool
  pub redundant_pic_cnt_present : Bool
  pub transform_8x8_mode : Bool
  pub pic_scaling_matrix_present_flag : Bool
  pub pic_scaling_matrix_present_mask : ℕ
  pub scaling_matrix_4 : Six
  pub scaling_matrix_8 : Six
  pub chroma_qp_table_0 : List ℕ
  pub chroma_qp_table_1 : List ℕ
  pub chroma_qp_diff : Bool

-- A parameter set that is there is valid.
abbrev pub Present : {A : Type 0} → (A → Type 0) → Option A → Type 0
Present P none = Unit
Present P (some x) = P x

pub require-Yields :
    {A : Type 0} (P : A → Type 0) (o : Option A) → Present P o → Yields P (require o)
require-Yields P none h = tt
require-Yields P (some x) h = h

pub require_at-Yields :
    {A : Type 0} (P : A → Type 0) (size : ℕ) (list : ℕ → Option A) (id : ℕ)
    → id < size
    → Present P (list id)
    → Yields (λ x. (id < size) × (list id ≡ some x) × P x) (require_at size list id)
require_at-Yields {A = A} P size list id h k =
    rw (lt→ltb id size h) (require-Yields _ (list id) (by (list id) refl k))
  where
    by :
        (o : Option A)
        → list id ≡ o
        → Present P o
        → Present (λ x. (id < size) × (list id ≡ some x) × P x) o
    by none e k = tt
    by (some x) e k = (h, e, k)
