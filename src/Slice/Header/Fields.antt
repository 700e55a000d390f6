-- ===== src/Slice/Header/Fields.antt =====
-- internal/h264/slice.go: the order of the pictures and the lists of references.
pub mod Safe
use goh.Base.{Bool, List, [], false, if◌then◌else◌, not, ℕ, ◌!=◌, ◌&&◌, ◌==◌, ◌||◌}
use goh.Base.Int.{pos, ℤ}
use goh.BitReader.{◌>>=◌, Read, pure, read_bit, read_bits}
use goh.Dpb.{Mmco, picture_frame}
use goh.Slice.{
  PicNums, RefCounts, decode_ref_pic_list_reordering, decode_ref_pic_marking, parse_ref_count,
  picture_type_b, picture_type_i, picture_type_p,
}
use goh.Params.{Pps}
use goh.Dpb.RefMods.{RefModification}
use goh.Slice.Weights.{WeightTable, no_weights, pred_weight_table, table_of}
use goh.Golomb.{read_se_golomb_long, read_ue_golomb_long}

-- The fields of the picture order count, and the two that follow them.
pub record SliceOrder : Type 0 where
  pub poc_lsb : ℕ
  pub delta_poc_bottom : ℤ
  pub delta_poc_0 : ℤ
  pub delta_poc_1 : ℤ
  pub redundant_pic_count : ℕ
  pub direct_spatial_mv_pred : ℕ

-- A field that is read where the test holds, and else stays zero.
abbrev pub se_if : Bool → Read ℤ
se_if test = if test then read_se_golomb_long else pure (pos 0)

unfoldable pub parse_order : Pps → ℕ → ℕ → Read SliceOrder
parse_order pps kind structure = do
  let in_frame = pps.pic_order_present && (structure == picture_frame)
  let by_cycle = (pps.sps.poc_type == 1) && not pps.sps.delta_pic_order_always_zero_flag
  poc_lsb ← if pps.sps.poc_type == 0 then read_bits pps.sps.log2_max_poc_lsb else pure 0
  delta_poc_bottom ← se_if ((pps.sps.poc_type == 0) && in_frame)
  delta_poc_0 ← se_if by_cycle
  delta_poc_1 ← se_if (by_cycle && in_frame)
  redundant ← if pps.redundant_pic_cnt_present then read_ue_golomb_long else pure 0
  direct ← if kind == picture_type_b then read_bit else pure 0
  pure (record {
    poc_lsb = poc_lsb;
    delta_poc_bottom = delta_poc_bottom;
    delta_poc_0 = delta_poc_0;
    delta_poc_1 = delta_poc_1;
    redundant_pic_count = redundant;
    direct_spatial_mv_pred = direct;
  })

-- The lists of references: their lengths, changes, weights and marking.
pub record SliceRefs : Type 0 where
  pub counts : RefCounts
  pub mods : List RefModification × List RefModification
  pub weights : WeightTable
  pub explicit_ref_marking : Bool
  pub mmco : List Mmco

-- Whether the header sends weights.
abbrev pub sends_weights : Pps → ℕ → Bool
sends_weights pps kind =
    (pps.weighted_pred && (kind == picture_type_p))
    || ((pps.weighted_bipred_idc == 1) && (kind == picture_type_b))

unfoldable pub parse_refs : Bool → ℕ → Pps → ℕ → PicNums → Read SliceRefs
parse_refs idr ref_idc pps kind nums = do
  counts ← parse_ref_count pps.ref_count_0 pps.ref_count_1 kind nums.structure
  mods ← if kind == picture_type_i then pure ([], []) else decode_ref_pic_list_reordering counts
  weights ←
      if sends_weights pps kind
      then pred_weight_table (pps.sps.chroma_format_idc != 0) kind nums.structure counts
      else pure (table_of 0 0 no_weights no_weights)
  marking ← if ref_idc == 0 then pure (false, []) else decode_ref_pic_marking idr nums
  pure (record {
    counts = counts;
    mods = mods;
    weights = weights;
    explicit_ref_marking = marking.0;
    mmco = marking.1;
  })
