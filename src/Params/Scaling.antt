-- ===== src/Params/Scaling.antt =====
-- internal/h264/sps.go: the lists of scaling factors, `decodeScalingList` and
-- `decodeScalingMatrices`. A list that is decoded is returned with the mask.
pub mod Factors
pub mod Safe
use goh.Base.{
  Bool, List, bit_or, drop, if◌then◌else◌, length, not, suc, take, zero, ℕ, ◌!=◌, ◌%◌, ◌&&◌, ◌++◌,
  ◌+◌, ◌==◌, ◌^◌, ◌||◌,
}
use goh.Base.Int.{ltb_ℤ, negsuc, pos, ◌+ℤ◌}
use goh.Base.Words.{pattern_of, u8, ◌<<<◌}
use goh.BitReader.{◌>>=◌, Read, fail, lift, pure, read_bit}
use goh.Params.{Six}
use goh.Params.Tables.{
  default_scaling_4_inter, default_scaling_4_intra, default_scaling_8_inter,
  default_scaling_8_intra, store, zigzag_direct, zigzag_scan,
}
use goh.Result.{index, invalid_data}
use goh.Golomb.{read_se_golomb_long}

-- `copy(dst, src)`
abbrev pub copy : List ℕ → List ℕ → List ℕ
copy dst src = take (length dst) src ++ drop (length src) dst

-- The next_scale factor, after `last`; once it is zero none is read.
unfoldable pub next_factor : ℕ → ℕ → Read ℕ
next_factor last next_scale = if next_scale == 0 then pure 0 else do
  delta ← read_se_golomb_long
  if ltb_ℤ delta (negsuc 127) || ltb_ℤ (pos 127) delta
      then fail invalid_data
      else pure (pattern_of 8 (pos last +ℤ delta))

-- The loop over the factors, by those left.
unfoldable pub scaling_loop : ℕ → ℕ → ℕ → ℕ → List ℕ → List ℕ → List ℕ → Read (List ℕ)
scaling_loop zero i last next_scale scan jvt_list factors = pure factors
scaling_loop (suc rounds) i last next_scale scan jvt_list factors = do
  next_scale' ← next_factor last next_scale
  if (i == 0) && (next_scale' == 0) then pure (copy factors jvt_list) else do
    let last' = if next_scale' == 0 then last else next_scale'
    place ← lift (index scan i)
    factors' ← lift (store factors place (u8 last'))
    scaling_loop rounds (i + 1) last' next_scale' scan jvt_list factors'

-- `decodeScalingList`: the mask and the factors after it.
unfoldable pub decode_scaling_list : ℕ → ℕ → List ℕ → List ℕ → List ℕ → Read (ℕ × List ℕ)
decode_scaling_list mask position factors jvt_list fallback_list = do
  present ← read_bit
  let mask' = bit_or mask ((present <<< position) % 2 ^ 16)
  if present == 0 then pure (mask', copy factors fallback_list) else do
    let scan = if length factors == 16 then zigzag_scan else zigzag_direct
    factors' ← scaling_loop (length factors) 0 8 8 scan jvt_list factors
    pure (mask', factors')

-- The six 4x4 lists.
unfoldable pub decode_scaling_4 : List ℕ → List ℕ → Six → Read (ℕ × Six)
decode_scaling_4 intra inter s = do
  p_0 ← decode_scaling_list 0 0 s.list_0 default_scaling_4_intra intra
  p_1 ← decode_scaling_list p_0.0 1 s.list_1 default_scaling_4_intra p_0.1
  p_2 ← decode_scaling_list p_1.0 2 s.list_2 default_scaling_4_intra p_1.1
  p_3 ← decode_scaling_list p_2.0 3 s.list_3 default_scaling_4_inter inter
  p_4 ← decode_scaling_list p_3.0 4 s.list_4 default_scaling_4_inter p_3.1
  p_5 ← decode_scaling_list p_4.0 5 s.list_5 default_scaling_4_inter p_4.1
  pure (
    p_5.0,
    record {
      list_0 = p_0.1;
      list_1 = p_1.1;
      list_2 = p_2.1;
      list_3 = p_3.1;
      list_4 = p_4.1;
      list_5 = p_5.1;
    },
  )

-- The 8x8 lists: two, and all six where chroma has the size of luma.
unfoldable pub decode_scaling_8 : ℕ → ℕ → List ℕ → List ℕ → Six → Read (ℕ × Six)
decode_scaling_8 chroma_format_idc mask intra inter s = do
  p_6 ← decode_scaling_list mask 6 s.list_0 default_scaling_8_intra intra
  p_7 ← decode_scaling_list p_6.0 7 s.list_3 default_scaling_8_inter inter
  if chroma_format_idc != 3 then pure (p_7.0, record s { list_0 = p_6.1; list_3 = p_7.1 }) else do
    p_8 ← decode_scaling_list p_7.0 8 s.list_1 default_scaling_8_intra p_6.1
    p_9 ← decode_scaling_list p_8.0 9 s.list_4 default_scaling_8_inter p_7.1
    p_10 ← decode_scaling_list p_9.0 10 s.list_2 default_scaling_8_intra p_8.1
    p_11 ← decode_scaling_list p_10.0 11 s.list_5 default_scaling_8_inter p_9.1
    pure (
      p_11.0,
      record {
        list_0 = p_6.1;
        list_1 = p_8.1;
        list_2 = p_10.1;
        list_3 = p_7.1;
        list_4 = p_9.1;
        list_5 = p_11.1;
      },
    )

-- `mask`, `scaling4` and `scaling8`
pub record Matrices : Type 0 where
  pub mask : ℕ
  pub scaling_4 : Six
  pub scaling_8 : Six

-- `decodeScalingMatrices`: `present` is `ScalingMatrixPresent` of `sps`, false where that is nil, and
-- `sps_4` and `sps_8` its lists.
unfoldable pub decode_scaling_matrices :
    Bool → ℕ → Six → Six → Bool → Bool → Bool → Six → Six → Read Matrices
decode_scaling_matrices present chroma_format_idc sps_4 sps_8 is_sps include_8x8 present_flag
      scaling_4 scaling_8 =
    if not present_flag
    then pure (record { mask = 0; scaling_4 = scaling_4; scaling_8 = scaling_8 })
    else do
      let fallback_sps = not is_sps && present
      four ←
          decode_scaling_4 (if fallback_sps then sps_4.list_0 else default_scaling_4_intra)
            (if fallback_sps then sps_4.list_3 else default_scaling_4_inter) scaling_4
      eight ←
          if not is_sps && not include_8x8
          then pure (four.0, scaling_8)
          else decode_scaling_8 chroma_format_idc four.0
              (if fallback_sps then sps_8.list_0 else default_scaling_8_intra)
              (if fallback_sps then sps_8.list_3 else default_scaling_8_inter) scaling_8
      pure (record { mask = eight.0; scaling_4 = four.1; scaling_8 = eight.1 })
