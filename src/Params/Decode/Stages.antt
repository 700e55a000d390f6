-- ===== src/Params/Decode/Stages.antt =====
-- internal/h264/pps.go: the stages of `DecodePPS`.
use goh.Base.{
  List, Option, arith, false, leb, ltb, refl, some, ℕ, ◌!=◌, ◌&&◌, ◌+◌, ◌-◌, ◌<◌, ◌==◌, ◌^◌, ◌||◌,
  ◌≡◌, ◌≤◌,
}
use goh.Base.Int.{ltb_ℤ, negsuc, pos, ℤ}
use goh.Base.Words.{u32}
use goh.BitReader.{◌>>=◌, lift, pure}
use goh.Params.Valid.{IsChromaOffset, IsSps, IsPps, IsQpTable}
use goh.Params.Scaling.Safe.{IsMatrices, decode_scaling_matrices-Reads}
use goh.Golomb.Safe.{
  IsSe, IsUe, read_se_golomb_long-Reads, read_ue_golomb_31-Reads, read_ue_golomb_long-Reads,
}
use goh.Params.Decode.{
  PpsIds, PpsTail, any_left, decode_chroma_offset, decode_ids, decode_qp, decode_ref_count,
  decode_slice_groups, decode_tail, find_sps, more_rbsp_data_in_pps, read_flag, decode_body,
}
use goh.Params.{Present, Sps, max_pps_count, max_sps_count, Pps, require_at-Yields}
use goh.BitReader.Safe.{
  Reads, Reads-bind, Reads-fail, Reads-if, Reads-pure, Yields, Yields-if, lift-Reads,
  read_bit-Reads, read_bits-Reads,
}
use goh.Result.{invalid_data, unsupported}
use goh.Params.Tables.{build_qp_table}
use goh.Params.Tables.Range.{build_qp_table-Yields}

read_flag-Reads : Reads (λ b. Unit {0}) read_flag
unfolding read_flag
read_flag-Reads = Reads-bind (λ b. b < 2) _ read_bit-Reads (λ flag h. Reads-pure _ (flag != 0) tt)

abbrev pub AllSps : (ℕ → Option Sps) → Type 0
AllSps sps_list = (id : ℕ) → Present IsSps (sps_list id)

-- The identifiers are those of the two lists.
pub record IsIds (ids : PpsIds) : Type 0 where
  pub pps_id_below : ids.pps_id < max_pps_count
  pub sps_id_below : ids.sps_id < max_sps_count
  pub sps_valid : IsSps ids.sps

-- A valid set with the identifiers that were read.
pub record IsDecoded (ids : PpsIds) (pps : Pps) : Type 0 where
  pub same_ids : (pps.pps_id ≡ ids.pps_id) × (pps.sps_id ≡ ids.sps_id)
  pub valid : IsPps pps

find_sps-Yields :
    (sps_list : ℕ → Option Sps) (id : ℕ)
    → AllSps sps_list
    → Yields
        (λ sps. (id < max_sps_count) × (sps_list id ≡ some sps) × IsSps sps)
        (find_sps sps_list id)
unfolding find_sps
find_sps-Yields sps_list id h =
    Yields-if _ (leb max_sps_count id) _ _ (λ e. tt)
      (λ e. require_at-Yields IsSps max_sps_count sps_list id (ground (arith, e)) (h id))

pub decode_ids-Reads :
    (sps_list : ℕ → Option Sps) → AllSps sps_list → Reads IsIds (decode_ids sps_list)
unfolding decode_ids
decode_ids-Reads sps_list h = Reads-bind IsUe _ read_ue_golomb_long-Reads (λ pps_id hp.
    Reads-if _ (leb max_pps_count pps_id) (λ e. Reads-fail _ invalid_data)
      (λ below. Reads-bind IsUe _ read_ue_golomb_31-Reads (λ sps_id hs.
        Reads-bind (λ sps. (sps_id < max_sps_count) × (sps_list sps_id ≡ some sps) × IsSps sps) _
          (lift-Reads _ _ (find_sps-Yields sps_list sps_id h))
          (λ sps v.
            Reads-if _ (ltb 14 sps.bit_depth_luma) (λ e. Reads-fail _ invalid_data)
              (λ e.
                Reads-if _ ((sps.bit_depth_luma == 11) || (sps.bit_depth_luma == 13))
                  (λ e. Reads-fail _ unsupported)
                  (λ e.
                    Reads-pure _ (record { pps_id = pps_id; sps_id = sps_id; sps = sps })
                      (record {
                        pps_id_below = ground (arith, below);
                        sps_id_below = v.0;
                        sps_valid = v.2;
                      })))))))

decode_ref_count-Reads : Reads (λ n. (1 ≤ n) × (n ≤ 32)) decode_ref_count
unfolding decode_ref_count
decode_ref_count-Reads = Reads-bind IsUe _ read_ue_golomb_long-Reads (λ n h.
    Reads-if _ (ltb 31 (u32 (u32 (n + 1) + (2 ^ 32 - 1)))) (λ e. Reads-fail _ invalid_data)
      (λ e. Reads-pure _ (u32 (n + 1)) (ground (arith, e, h), ground (arith, e, h))))

decode_slice_groups-Reads : Reads (λ u. Unit {0}) decode_slice_groups
unfolding decode_slice_groups
decode_slice_groups-Reads = Reads-bind IsUe _ read_ue_golomb_long-Reads (λ n h.
    Reads-if _ (ltb 1 (u32 (n + 1)))
      (λ e. Reads-bind IsUe _ read_ue_golomb_long-Reads (λ t k. Reads-fail _ unsupported))
      (λ e. Reads-pure _ tt tt))

decode_qp-Reads : (depth : ℕ) → Reads (λ z. Unit {0}) (decode_qp depth)
unfolding decode_qp
decode_qp-Reads depth = Reads-bind IsSe _ read_se_golomb_long-Reads (λ delta h. Reads-pure _ _ tt)

decode_chroma_offset-Reads : Reads IsChromaOffset decode_chroma_offset
unfolding decode_chroma_offset
decode_chroma_offset-Reads = Reads-bind IsSe _ read_se_golomb_long-Reads (λ z h.
    Reads-if _ (ltb_ℤ z (negsuc 11) || ltb_ℤ (pos 12) z) (λ e. Reads-fail _ invalid_data)
      (λ e. Reads-pure _ z (ground (arith, e), ground (arith, e))))

IsTail : PpsTail → Type 0
IsTail t = IsMatrices t.matrices × IsChromaOffset t.offset_1

any_left-Reads : Reads (λ b. Unit {0}) any_left
unfolding any_left
any_left-Reads = record { run = λ r v. (tt, v) }

decode_tail-Reads :
    (sps : Sps) (offset_0 : ℤ)
    → IsSps sps
    → IsChromaOffset offset_0
    → Reads IsTail (decode_tail sps offset_0)
unfolding decode_tail IsTail
decode_tail-Reads sps offset_0 v h =
    Reads-bind (λ b. Unit {0}) _ any_left-Reads
      (λ more u.
        Reads-if _ (more && more_rbsp_data_in_pps sps)
          (λ e.
            Reads-bind (λ b. Unit {0}) _ read_flag-Reads
              (λ transform t.
                Reads-bind (λ b. Unit {0}) _ read_flag-Reads
                  (λ present p.
                    Reads-bind IsMatrices _
                      (decode_scaling_matrices-Reads sps.scaling_matrix_present
                        sps.chroma_format_idc sps.scaling_matrix_4 sps.scaling_matrix_8 false
                        transform present sps.scaling_matrix_4 sps.scaling_matrix_8 v.scaling_4
                        v.scaling_8 v.scaling_4 v.scaling_8)
                      (λ matrices hm.
                        Reads-bind IsChromaOffset _ decode_chroma_offset-Reads
                          (λ offset_1 ho. Reads-pure _ _ (hm, ho))))))
          (λ e. Reads-pure _ _ ((v.scaling_4, v.scaling_8), h)))

-- The two tables, and what is made of them.
with_tables :
    {A : Type 0} (P : A → Type 0) (sps : Sps) (offset_0 offset_1 : ℤ) {f : List ℕ → List ℕ → A}
    → IsSps sps
    → ((table_0 table_1 : List ℕ)
        → IsQpTable sps.bit_depth_luma table_0
        → IsQpTable sps.bit_depth_luma table_1
        → P (f table_0 table_1))
    → Reads P (do
      table_0 ← lift (build_qp_table offset_0 sps.bit_depth_luma)
      table_1 ← lift (build_qp_table offset_1 sps.bit_depth_luma)
      pure (f table_0 table_1))
with_tables P sps offset_0 offset_1 {f} v k =
    Reads-bind _ _
      (lift-Reads _ _
        (build_qp_table-Yields offset_0 sps.bit_depth_luma v.depth_least v.depth_most))
      (λ table_0 q_0.
        Reads-bind _ _
          (lift-Reads _ _
            (build_qp_table-Yields offset_1 sps.bit_depth_luma v.depth_least v.depth_most))
          (λ table_1 q_1. Reads-pure P (f table_0 table_1) (k table_0 table_1 q_0 q_1)))

pub decode_body-Reads : (ids : PpsIds) → IsIds ids → Reads (IsDecoded ids) (decode_body ids)
unfolding decode_body IsTail
decode_body-Reads ids v = Reads-bind _ _ read_flag-Reads (λ cabac t.
    Reads-bind _ _ read_flag-Reads (λ order t. Reads-bind _ _ decode_slice_groups-Reads (λ u t.
      Reads-bind _ _ decode_ref_count-Reads (λ count_0 c_0.
        Reads-bind _ _ decode_ref_count-Reads (λ count_1 c_1.
          Reads-bind _ _ read_flag-Reads (λ weighted t.
            Reads-bind _ _ (read_bits-Reads 2 (omega arith)) (λ bipred b.
              Reads-bind _ _ (decode_qp-Reads ids.sps.bit_depth_luma) (λ init_qp t.
                Reads-bind _ _ (decode_qp-Reads ids.sps.bit_depth_luma) (λ init_qs t.
                  Reads-bind _ _ decode_chroma_offset-Reads (λ offset_0 o_0.
                    Reads-bind _ _ read_flag-Reads (λ deblocking t.
                      Reads-bind _ _ read_flag-Reads (λ constrained t.
                        Reads-bind _ _ read_flag-Reads (λ redundant t.
                          Reads-bind IsTail _ (decode_tail-Reads ids.sps offset_0 v.sps_valid o_0)
                            (λ tail h.
                              with_tables _ ids.sps offset_0 tail.offset_1 v.sps_valid
                                (λ table_0 table_1 q_0 q_1. record {
                                  same_ids = (refl, refl);
                                  valid = record {
                                    sps_valid = v.sps_valid;
                                    counts_0 = c_0;
                                    counts_1 = c_1;
                                    table_0 = q_0;
                                    table_1 = q_1;
                                    offset_0 = o_0;
                                    offset_1 = h.1;
                                    scaling_4 = h.0.0;
                                    scaling_8 = h.0.1;
                                  };
                                })))))))))))))))
