-- ===== src/Slice/Header/Quant.antt =====
-- internal/h264/slice.go: the quantiser and the deblocking filter of a slice header.
pub mod Safe
use goh.Base.{Bool, bit_xor, if◌then◌else◌, ltb, not, ℕ, ◌!=◌, ◌&&◌, ◌==◌, ◌||◌}
use goh.Base.Int.{ltb_ℤ, negsuc, pos, pos_part, ℤ, ◌*ℤ◌, ◌+ℤ◌}
use goh.Base.Words.{wrap}
use goh.BitReader.{◌>>=◌, Read, fail, lift, pure, read_bit}
use goh.Params.{Pps, max_qp}
use goh.Result.{Result, err, index, invalid_data, ok}
use goh.Slice.{picture_type_i}
use goh.Slice.Header.Start.{picture_type_si, picture_type_sp, without_s}
use goh.Golomb.{read_se_golomb_long, read_ue_golomb_31}
use goh.Slice.Header.Fields.{se_if}

pub record SliceQuant : Type 0 where
  pub cabac_init_idc : ℕ
  pub qscale : ℕ
  pub chroma_qp_0 : ℕ
  pub chroma_qp_1 : ℕ
  pub sp_for_switch_flag : ℕ
  pub slice_qs_delta : ℤ

unfoldable pub parse_cabac_init_idc : Pps → ℕ → Read ℕ
parse_cabac_init_idc pps kind =
    if (kind != picture_type_i) && pps.cabac
    then (do
      cabac_init_idc ← read_ue_golomb_31
      if ltb 2 cabac_init_idc then fail invalid_data else pure cabac_init_idc)
    else pure 0

-- `QScale`, of `SliceQPDelta`; the sum is an int32.
unfoldable pub qscale_of : Pps → ℤ → Result ℕ
qscale_of pps delta =
    let qscale = wrap 32 (pps.init_qp +ℤ delta) in
    if ltb_ℤ qscale (pos 0) || ltb_ℤ (pos (max_qp pps.sps.bit_depth_luma)) qscale
    then err invalid_data
    else ok (pos_part qscale)

unfoldable pub parse_quant : Pps → ℕ → Read SliceQuant
parse_quant pps slice_type = do
  cabac_init_idc ← parse_cabac_init_idc pps (without_s slice_type)
  slice_qp_delta ← read_se_golomb_long
  qscale ← lift (qscale_of pps slice_qp_delta)
  chroma_qp_0 ← lift (index pps.chroma_qp_table_0 qscale)
  chroma_qp_1 ← lift (index pps.chroma_qp_table_1 qscale)
  switching ← if slice_type == picture_type_sp then read_bit else pure 0
  slice_qs_delta ← se_if ((slice_type == picture_type_sp) || (slice_type == picture_type_si))
  pure (record {
    cabac_init_idc = cabac_init_idc;
    qscale = qscale;
    chroma_qp_0 = chroma_qp_0;
    chroma_qp_1 = chroma_qp_1;
    sp_for_switch_flag = switching;
    slice_qs_delta = slice_qs_delta;
  })

pub record SliceDeblocking : Type 0 where
  pub deblocking_filter : ℕ
  pub slice_alpha_c0_offset : ℤ
  pub slice_beta_offset : ℤ

-- `v > 6 || v < -6`
abbrev pub bad_offset : ℤ → Bool
bad_offset v = ltb_ℤ (pos 6) v || ltb_ℤ v (negsuc 5)

-- `alpha` and `beta`, doubled.
unfoldable pub parse_offsets : ℕ → Read SliceDeblocking
parse_offsets filter = do
  alpha ← read_se_golomb_long
  beta ← read_se_golomb_long
  if bad_offset alpha || bad_offset beta
      then fail invalid_data
      else pure (record {
        deblocking_filter = filter;
        slice_alpha_c0_offset = alpha *ℤ pos 2;
        slice_beta_offset = beta *ℤ pos 2;
      })

unfoldable pub parse_deblocking : Pps → Read SliceDeblocking
parse_deblocking pps =
    let plain : ℕ → SliceDeblocking = λ filter. record {
      deblocking_filter = filter;
      slice_alpha_c0_offset = pos 0;
      slice_beta_offset = pos 0;
    } in
    if not pps.deblocking_filter_parameters_present then pure (plain 1) else do
      disable_idc ← read_ue_golomb_31
      if ltb 2 disable_idc then fail invalid_data else do
        let filter = if ltb disable_idc 2 then bit_xor disable_idc 1 else disable_idc
        if filter == 0 then pure (plain 0) else parse_offsets filter
