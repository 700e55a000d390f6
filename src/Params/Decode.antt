-- ===== src/Params/Decode.antt =====
-- internal/h264/pps.go: `DecodePPS`, stage by stage.
pub mod Stages
pub mod Safe
use goh.Base.{
  Bool, List, Option, bit_and, false, if◌then◌else◌, leb, ltb, not, ℕ, ◌!=◌, ◌&&◌, ◌*◌, ◌+◌, ◌-◌,
  ◌==◌, ◌^◌, ◌||◌,
}
use goh.Base.Int.{ltb_ℤ, negsuc, pos, ℤ, ◌+ℤ◌, ◌-ℤ◌, ◌==ℤ◌}
use goh.Base.Words.{u32, wrap}
use goh.BitReader.{
  ◌>>=◌, Read, bits_left, fail, lift, new_rbsp_bit_reader, pure, read_bit, read_bits, resume,
}
use goh.Params.Scaling.{Matrices, decode_scaling_matrices}
use goh.Params.{Pps, Sps, max_pps_count, max_sps_count, require_at}
use goh.Result.{Result, err, invalid_data, ok, panic, unsupported}
use goh.Params.Tables.{build_qp_table}
use goh.Golomb.{read_se_golomb_long, read_ue_golomb_31, read_ue_golomb_long}
use goh.Params.Dequant.{Buffer, init_dequant_tables}

unfoldable pub read_flag : Read Bool
read_flag = do flag ← read_bit; pure (flag != 0)

-- The parameter set of the sequence, and the identifiers.
pub record PpsIds : Type 0 where
  pub pps_id : ℕ
  pub sps_id : ℕ
  pub sps : Sps

unfoldable pub find_sps : (ℕ → Option Sps) → ℕ → Result Sps
find_sps sps_list id =
    if leb max_sps_count id then err invalid_data else require_at max_sps_count sps_list id

unfoldable pub decode_ids : (ℕ → Option Sps) → Read PpsIds
decode_ids sps_list = do
  pps_id ← read_ue_golomb_long
  if leb max_pps_count pps_id then fail invalid_data else do
    sps_id ← read_ue_golomb_31
    sps ← lift (find_sps sps_list sps_id)
    if ltb 14 sps.bit_depth_luma
        then fail invalid_data
        else if (sps.bit_depth_luma == 11) || (sps.bit_depth_luma == 13)
        then fail unsupported
        else pure (record { pps_id = pps_id; sps_id = sps_id; sps = sps })

-- A count of references, of the two.
unfoldable pub decode_ref_count : Read ℕ
decode_ref_count = do
  minus_1 ← read_ue_golomb_long
  let count = u32 (minus_1 + 1)
  if ltb 31 (u32 (count + (2 ^ 32 - 1))) then fail invalid_data else pure count

-- Groups of slices are not supported.
unfoldable pub decode_slice_groups : Read (Unit {0})
decode_slice_groups = do
  minus_1 ← read_ue_golomb_long
  if ltb 1 (u32 (minus_1 + 1)) then (do _ ← read_ue_golomb_long; fail unsupported) else pure tt

-- `delta + 26 + qpBDOffset`, an int32.
unfoldable pub decode_qp : ℕ → Read ℤ
decode_qp depth = do
  delta ← read_se_golomb_long
  pure (wrap 32 ((delta +ℤ pos 26) +ℤ (pos (6 * depth) -ℤ pos 48)))

unfoldable pub decode_chroma_offset : Read ℤ
decode_chroma_offset = do
  offset ← read_se_golomb_long
  if ltb_ℤ offset (negsuc 11) || ltb_ℤ (pos 12) offset then fail invalid_data else pure offset

-- `moreRBSPDataInPPS`
unfoldable pub more_rbsp_data_in_pps : Sps → Bool
more_rbsp_data_in_pps sps = not (
    ((sps.profile_idc == 66) || ((sps.profile_idc == 77) || (sps.profile_idc == 88)))
    && (bit_and sps.constraint_set_flags 7 != 0))

-- What may stand at the end: the transform, the lists and the second offset.
pub record PpsTail : Type 0 where
  pub transform_8x8_mode : Bool
  pub present_flag : Bool
  pub matrices : Matrices
  pub offset_1 : ℤ

-- `gb.bitsLeft() > 0`
unfoldable pub any_left : Read Bool
any_left r = (ok (ltb_ℤ (pos 0) (bits_left r)), r)

-- The call of `decodeScalingMatrices`, where the flag is set.
abbrev pub decode_pps_matrices : Sps → Bool → Bool → Read Matrices
decode_pps_matrices sps transform_8x8_mode present_flag =
    decode_scaling_matrices sps.scaling_matrix_present sps.chroma_format_idc sps.scaling_matrix_4
      sps.scaling_matrix_8 false transform_8x8_mode present_flag sps.scaling_matrix_4
      sps.scaling_matrix_8

unfoldable pub decode_tail : Sps → ℤ → Read PpsTail
decode_tail sps offset_0 = do
  more ← any_left
  if more && more_rbsp_data_in_pps sps
      then (do
        transform_8x8_mode ← read_flag
        present_flag ← read_flag
        matrices ← decode_pps_matrices sps transform_8x8_mode present_flag
        offset_1 ← decode_chroma_offset
        pure (record {
          transform_8x8_mode = transform_8x8_mode;
          present_flag = present_flag;
          matrices = matrices;
          offset_1 = offset_1;
        }))
      else pure (record {
        transform_8x8_mode = false;
        present_flag = false;
        matrices = record {
          mask = 0;
          scaling_4 = sps.scaling_matrix_4;
          scaling_8 = sps.scaling_matrix_8;
        };
        offset_1 = offset_0;
      })

-- What follows the identifiers.
unfoldable pub decode_body : PpsIds → Read Pps
decode_body ids = do
  cabac ← read_flag
  pic_order_present ← read_flag
  _ ← decode_slice_groups
  ref_count_0 ← decode_ref_count
  ref_count_1 ← decode_ref_count
  weighted_pred ← read_flag
  weighted_bipred_idc ← read_bits 2
  init_qp ← decode_qp ids.sps.bit_depth_luma
  init_qs ← decode_qp ids.sps.bit_depth_luma
  offset_0 ← decode_chroma_offset
  deblocking ← read_flag
  constrained ← read_flag
  redundant ← read_flag
  tail ← decode_tail ids.sps offset_0
  table_0 ← lift (build_qp_table offset_0 ids.sps.bit_depth_luma)
  table_1 ← lift (build_qp_table tail.offset_1 ids.sps.bit_depth_luma)
  pure (record {
    pps_id = ids.pps_id;
    sps_id = ids.sps_id;
    sps = ids.sps;
    cabac = cabac;
    pic_order_present = pic_order_present;
    ref_count_0 = ref_count_0;
    ref_count_1 = ref_count_1;
    weighted_pred = weighted_pred;
    weighted_bipred_idc = weighted_bipred_idc;
    init_qp = init_qp;
    init_qs = init_qs;
    chroma_qp_index_offset_0 = offset_0;
    chroma_qp_index_offset_1 = tail.offset_1;
    deblocking_filter_parameters_present = deblocking;
    constrained_intra_pred = constrained;
    redundant_pic_cnt_present = redundant;
    transform_8x8_mode = tail.transform_8x8_mode;
    pic_scaling_matrix_present_flag = tail.present_flag;
    pic_scaling_matrix_present_mask = tail.matrices.mask;
    scaling_matrix_4 = tail.matrices.scaling_4;
    scaling_matrix_8 = tail.matrices.scaling_8;
    chroma_qp_table_0 = table_0;
    chroma_qp_table_1 = table_1;
    chroma_qp_diff = not (offset_0 ==ℤ tail.offset_1);
  })

-- The set with its buffers.
unfoldable pub with_buffers : Result Pps → Result (Pps × (Buffer × Buffer))
with_buffers (ok pps) = elim (init_dequant_tables pps) [
  | ok b ↦ ok (pps, b)
  | err e ↦ err e
  | panic ↦ panic
]
with_buffers (err e) = err e
with_buffers panic = panic

-- `DecodePPS`
unfoldable pub decode_pps : List ℕ → (ℕ → Option Sps) → Result (Pps × (Buffer × Buffer))
decode_pps rbsp sps_list = elim (new_rbsp_bit_reader rbsp) [
  | err e ↦ err e
  | panic ↦ panic
  | ok gb ↦ with_buffers (resume (decode_ids sps_list gb) decode_body).0
]
