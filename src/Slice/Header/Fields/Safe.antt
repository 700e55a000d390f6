-- ===== src/Slice/Header/Fields/Safe.antt =====
-- internal/h264/slice.go: the range of the fields that `parse_order` and `parse_refs` read.
use goh.Base.{Bool, [], arith, false, if◌then◌else◌, not, ℕ, ◌!=◌, ◌&&◌, ◌<◌, ◌==◌, ◌^◌, ◌≤◌}
use goh.Base.Int.{pos}
use goh.Slice.Counts.{IsCounts, limit_of, parse_ref_count-Reads}
use goh.Slice.Weights.Range.{no_weights-IsListWeights, pred_weight_table-Reads, IsWeightTable}
use goh.Slice.Marking.{IsMarking, decode_ref_pic_marking-Reads}
use goh.Slice.Reordering.{IsMods, decode_ref_pic_list_reordering-Reads}
use goh.Golomb.Safe.{IsSe, IsUe, read_se_golomb_long-Reads, read_ue_golomb_long-Reads}
use goh.BitReader.Safe.{
  Reads, Reads-bind, Reads-if, Reads-pure, Reads-weaken, read_bit-Reads, read_bits-Reads,
}
use goh.Slice.Header.Fields.{SliceOrder, SliceRefs, parse_order, se_if, parse_refs, sends_weights}
use goh.Slice.{
  max_mmco_count, picture_type_b, PicNums, RefCounts, decode_ref_pic_list_reordering,
  decode_ref_pic_marking, picture_type_i,
}
use native.Mathlib.Nat.{pow-le-pow_right}
use goh.BitReader.{pure, read_bits}
use goh.Slice.Weights.{no_weights, pred_weight_table, table_of}
use goh.Dpb.{picture_frame}
use goh.Params.Valid.{IsPps, IsSps}
use goh.Params.{Pps, Sps}

pub record IsOrder (sps : Sps) (o : SliceOrder) : Type 0 where
  pub lsb_below : o.poc_lsb < 2 ^ 16
  pub bottom_fits : IsSe o.delta_poc_bottom
  pub delta_0_fits : IsSe o.delta_poc_0
  pub delta_1_fits : IsSe o.delta_poc_1
  pub redundant_fits : IsUe o.redundant_pic_count
  pub direct_below : o.direct_spatial_mv_pred < 2

pub se_if-Reads : (test : Bool) → Reads IsSe (se_if test)
se_if-Reads test =
    Reads-if _ test (λ e. read_se_golomb_long-Reads)
      (λ e. Reads-pure _ (pos 0) (omega arith, omega arith))

lsb-Reads :
    (test : Bool) (n : ℕ) → n ≤ 16 → Reads (λ x. x < 2 ^ 16) (if test then read_bits n else pure 0)
lsb-Reads test n h =
    Reads-if _ test
      (λ e.
        Reads-weaken (λ x. x < 2 ^ n) _ (read_bits-Reads n (omega (arith, h)))
          (λ x below.
            let most : 2 ^ n ≤ 2 ^ 16 = pow-le-pow_right {n = 2} (omega arith) h in
            omega (arith, below, most)))
      (λ e. Reads-pure _ 0 (omega arith))

pub parse_order-Reads :
    (pps : Pps) (kind structure : ℕ)
    → IsSps pps.sps
    → Reads (IsOrder pps.sps) (parse_order pps kind structure)
unfolding parse_order
parse_order-Reads pps kind structure v =
    Reads-bind (λ x. x < 2 ^ 16) _
      (lsb-Reads (pps.sps.poc_type == 0) pps.sps.log2_max_poc_lsb v.poc_lsb_bits)
      (λ lsb hl.
        Reads-bind IsSe _
          (se_if-Reads
            ((pps.sps.poc_type == 0) && (pps.pic_order_present && (structure == picture_frame))))
          (λ bottom hb.
            Reads-bind IsSe _
              (se_if-Reads
                ((pps.sps.poc_type == 1) && not pps.sps.delta_pic_order_always_zero_flag))
              (λ delta_0 h_0.
                Reads-bind IsSe _
                  (se_if-Reads (
                    ((pps.sps.poc_type == 1) && not pps.sps.delta_pic_order_always_zero_flag)
                    && (pps.pic_order_present && (structure == picture_frame))))
                  (λ delta_1 h_1.
                    Reads-bind IsUe _
                      (Reads-if _ pps.redundant_pic_cnt_present (λ e. read_ue_golomb_long-Reads)
                        (λ e. Reads-pure _ 0 (omega arith)))
                      (λ redundant hr.
                        Reads-bind (λ b. b < 2) _
                          (Reads-if _ (kind == picture_type_b) (λ e. read_bit-Reads)
                            (λ e. Reads-pure _ 0 (omega arith)))
                          (λ direct hd. Reads-pure _ _ (record {
                            lsb_below = hl;
                            bottom_fits = hb;
                            delta_0_fits = h_0;
                            delta_1_fits = h_1;
                            redundant_fits = hr;
                            direct_below = hd;
                          })))))))

-- The counts, the changes, the places and values of the weights, and the marking are in range.
pub record IsRefs (kind structure : ℕ) (s : SliceRefs) : Type 0 where
  pub counts_fit : IsCounts kind (limit_of structure) s.counts
  pub mods_fit : IsMods s.counts.count_0 s.mods.0 × IsMods s.counts.count_1 s.mods.1
  pub weights_fit : IsWeightTable s.weights
  pub marking_fits : IsMarking structure max_mmco_count s.mmco

pub parse_refs-Reads :
    (idr : Bool) (ref_idc : ℕ) (pps : Pps) (kind : ℕ) (nums : PicNums)
    → IsPps pps
    → Reads (IsRefs kind nums.structure) (parse_refs idr ref_idc pps kind nums)
unfolding parse_refs
parse_refs-Reads idr ref_idc pps kind nums v =
    Reads-bind (IsCounts kind (limit_of nums.structure)) _
      (parse_ref_count-Reads pps.ref_count_0 pps.ref_count_1 kind nums.structure
        (omega (arith, v.counts_0.1)) (omega (arith, v.counts_1.1)))
      (λ c hc.
        Reads-bind (λ m. IsMods c.count_0 m.0 × IsMods c.count_1 m.1) _ (mods_part c)
          (λ mods hm. Reads-bind IsWeightTable _ (weights_part c hc) (λ w hw.
            Reads-bind (λ m. IsMarking nums.structure max_mmco_count m.1) _ marking_part
              (λ m k.
                Reads-pure _ _ (record {
                  counts_fit = hc;
                  mods_fit = hm;
                  weights_fit = hw;
                  marking_fits = k;
                })))))
  where
    nothing : (count : ℕ) → IsMods count []
    nothing count = record { fits = omega arith; few = omega arith; known = tt }

    mods_part :
        (c : RefCounts)
        → Reads
            (λ m. IsMods c.count_0 m.0 × IsMods c.count_1 m.1)
            (if kind == picture_type_i then pure ([], []) else decode_ref_pic_list_reordering c)
    mods_part c =
        Reads-if _ (kind == picture_type_i)
          (λ e. Reads-pure _ ([], []) (nothing c.count_0, nothing c.count_1))
          (λ e. decode_ref_pic_list_reordering-Reads c)

    weights_part :
        (c : RefCounts)
        → IsCounts kind (limit_of nums.structure) c
        → Reads IsWeightTable (
            if sends_weights pps kind
            then pred_weight_table (pps.sps.chroma_format_idc != 0) kind nums.structure c
            else pure (table_of 0 0 no_weights no_weights))
    weights_part c hc =
        Reads-if _ (sends_weights pps kind)
          (λ e. pred_weight_table-Reads (pps.sps.chroma_format_idc != 0) kind nums.structure c hc)
          (λ e. Reads-pure _ (table_of 0 0 no_weights no_weights) (record {
            luma_most = omega arith;
            chroma_most = omega arith;
            list_0_fits = no_weights-IsListWeights;
            list_1_fits = no_weights-IsListWeights;
          }))

    marking_part :
        Reads
          (λ m. IsMarking nums.structure max_mmco_count m.1)
          (if ref_idc == 0 then pure (false, []) else decode_ref_pic_marking idr nums)
    marking_part =
        Reads-if _ (ref_idc == 0) (λ e. Reads-pure _ (false, []) (omega arith, tt))
          (λ e. decode_ref_pic_marking-Reads idr nums)
