-- ===== src/Slice/Header/Quant/Safe.antt =====
-- internal/h264/slice.go: the range of the quantiser and of the deblocking filter.
use goh.Base.{
  All, List, [], arith, bit_xor, false, if◌then◌else◌, length, ltb, not, refl, suc, zero, ℕ, ◌!=◌,
  ◌&&◌, ◌<◌, ◌==◌, ◌||◌, ◌∷◌, ◌≡◌, ◌≤◌,
}
use goh.Base.Int.{ltb_ℤ, neg_part, negsuc, pos, pos_part, ℤ, ◌*ℤ◌, ◌+ℤ◌}
use goh.Base.Words.{wrap}
use goh.Golomb.Safe.{IsSe, IsUe, read_se_golomb_long-Reads, read_ue_golomb_31-Reads}
use goh.BitReader.Safe.{
  Reads, Reads-bind, Reads-fail, Reads-if, Reads-pure, Yields, Yields-if, lift-Reads,
  read_bit-Reads,
}
use goh.Slice.Header.Quant.{
  SliceDeblocking, SliceQuant, bad_offset, parse_cabac_init_idc, parse_deblocking, parse_offsets,
  parse_quant, qscale_of,
}
use goh.Result.{err, index, invalid_data, ok}
use goh.Slice.{picture_type_i}
use goh.Slice.Header.Start.{picture_type_sp, without_s, picture_type_si}
use goh.Slice.Header.Fields.Safe.{se_if-Reads}
use goh.Params.Valid.{IsPps}
use goh.Params.{Pps, max_qp}

pub record IsQuant (pps : Pps) (q : SliceQuant) : Type 0 where
  pub cabac_init_idc_most : q.cabac_init_idc ≤ 2
  pub qscale_most : q.qscale ≤ max_qp pps.sps.bit_depth_luma
  pub chroma_0 :
      (index pps.chroma_qp_table_0 q.qscale ≡ ok q.chroma_qp_0)
      × (q.chroma_qp_0 ≤ max_qp pps.sps.bit_depth_luma)
  pub chroma_1 :
      (index pps.chroma_qp_table_1 q.qscale ≡ ok q.chroma_qp_1)
      × (q.chroma_qp_1 ≤ max_qp pps.sps.bit_depth_luma)
  pub switching_below : q.sp_for_switch_flag < 2
  pub qs_delta_fits : IsSe q.slice_qs_delta

parse_cabac_init_idc-Reads :
    (pps : Pps) (kind : ℕ) → Reads (λ n. n ≤ 2) (parse_cabac_init_idc pps kind)
unfolding parse_cabac_init_idc
parse_cabac_init_idc-Reads pps kind =
    Reads-if _ ((kind != picture_type_i) && pps.cabac)
      (λ e. Reads-bind IsUe _ read_ue_golomb_31-Reads (λ n h.
        Reads-if _ (ltb 2 n) (λ bad. Reads-fail _ invalid_data)
          (λ good. Reads-pure _ n (ground (arith, good)))))
      (λ e. Reads-pure _ 0 (omega arith))

qscale_of-Yields :
    (pps : Pps) (delta : ℤ) → Yields (λ q. q ≤ max_qp pps.sps.bit_depth_luma) (qscale_of pps delta)
unfolding qscale_of
qscale_of-Yields pps delta = in_range (wrap 32 (pps.init_qp +ℤ delta))
  where
    in_range :
        (q : ℤ)
        → Yields
            (λ q. q ≤ max_qp pps.sps.bit_depth_luma)
            (if ltb_ℤ q (pos 0) || ltb_ℤ (pos (max_qp pps.sps.bit_depth_luma)) q
              then err invalid_data
              else ok (pos_part q))
    in_range q =
        Yields-if _ (ltb_ℤ q (pos 0) || ltb_ℤ (pos (max_qp pps.sps.bit_depth_luma)) q) _ _ (λ e. tt)
          (λ e. ground (arith, e))

-- The entry of a table, and its range.
index-At :
    (top : ℕ) (xs : List ℕ) (i : ℕ)
    → i < length xs
    → All (λ x. x ≤ top) xs
    → Yields (λ x. (index xs i ≡ ok x) × (x ≤ top)) (index xs i)
index-At top [] i h k = absurd (omega (arith, h))
index-At top (x ∷ xs) zero h k = (refl, k.0)
index-At top (x ∷ xs) (suc i) h k = index-At top xs i (omega (arith, h)) k.1

pub parse_quant-Reads :
    (pps : Pps) (slice_type : ℕ) → IsPps pps → Reads (IsQuant pps) (parse_quant pps slice_type)
unfolding parse_quant
parse_quant-Reads pps slice_type v =
    Reads-bind (λ n. n ≤ 2) _ (parse_cabac_init_idc-Reads pps (without_s slice_type))
      (λ idc hi. Reads-bind IsSe _ read_se_golomb_long-Reads (λ delta hd.
        Reads-bind (λ q. q ≤ max_qp pps.sps.bit_depth_luma) _
          (lift-Reads _ _ (qscale_of-Yields pps delta))
          (λ q hq.
            Reads-bind
              (λ x. (index pps.chroma_qp_table_0 q ≡ ok x) × (x ≤ max_qp pps.sps.bit_depth_luma)) _
              (lift-Reads _ _ (
                index-At (max_qp pps.sps.bit_depth_luma) pps.chroma_qp_table_0 q
                  (omega (arith, hq, v.table_0.0, v.sps_valid.depth_most)) v.table_0.1))
              (λ c_0 h_0.
                Reads-bind
                  (λ x.
                    (index pps.chroma_qp_table_1 q ≡ ok x) × (x ≤ max_qp pps.sps.bit_depth_luma))
                  _
                  (lift-Reads _ _ (
                    index-At (max_qp pps.sps.bit_depth_luma) pps.chroma_qp_table_1 q
                      (omega (arith, hq, v.table_1.0, v.sps_valid.depth_most)) v.table_1.1))
                  (λ c_1 h_1.
                    Reads-bind (λ b. b < 2) _
                      (Reads-if _ (slice_type == picture_type_sp) (λ e. read_bit-Reads)
                        (λ e. Reads-pure _ 0 (omega arith)))
                      (λ b hb.
                        Reads-bind IsSe _
                          (se_if-Reads
                            ((slice_type == picture_type_sp) || (slice_type == picture_type_si)))
                          (λ qs hs. Reads-pure _ _ (record {
                            cabac_init_idc_most = hi;
                            qscale_most = hq;
                            chroma_0 = h_0;
                            chroma_1 = h_1;
                            switching_below = hb;
                            qs_delta_fits = hs;
                          }))))))))

abbrev pub IsOffset : ℤ → Type 0
IsOffset z = (pos_part z ≤ 12) × (neg_part z ≤ 12)

pub record IsDeblocking (d : SliceDeblocking) : Type 0 where
  pub filter_most : d.deblocking_filter ≤ 2
  pub alpha_fits : IsOffset d.slice_alpha_c0_offset
  pub beta_fits : IsOffset d.slice_beta_offset

double-IsOffset : (z : ℤ) → bad_offset z ≡ false → IsOffset (z *ℤ pos 2)
unfolding ◌*ℤ◌
double-IsOffset (pos n) h = ground (arith, h)
double-IsOffset (negsuc n) h = ground (arith, h)

parse_offsets-Reads : (filter : ℕ) → filter ≤ 2 → Reads IsDeblocking (parse_offsets filter)
unfolding parse_offsets
parse_offsets-Reads filter h = Reads-bind IsSe _ read_se_golomb_long-Reads (λ alpha ha.
    Reads-bind IsSe _ read_se_golomb_long-Reads (λ beta hb.
      Reads-if _ (bad_offset alpha || bad_offset beta) (λ e. Reads-fail _ invalid_data)
        (λ e. Reads-pure _ _ (record {
          filter_most = h;
          alpha_fits = double-IsOffset alpha (ground (arith, e));
          beta_fits = double-IsOffset beta (ground (arith, e));
        }))))

plain-IsDeblocking :
    (filter : ℕ)
    → filter ≤ 2
    → IsDeblocking (record {
      deblocking_filter = filter;
      slice_alpha_c0_offset = pos 0;
      slice_beta_offset = pos 0;
    })
plain-IsDeblocking filter h = record {
  filter_most = h;
  alpha_fits = (omega arith, omega arith);
  beta_fits = (omega arith, omega arith);
}

filter_most : (n : ℕ) → n ≤ 2 → (if ltb n 2 then bit_xor n 1 else n) ≤ 2
filter_most zero h = omega arith
filter_most (suc zero) h = omega arith
filter_most (suc (suc zero)) h = omega arith
filter_most (suc (suc (suc n))) h = absurd (omega (arith, h))

pub parse_deblocking-Reads : (pps : Pps) → Reads IsDeblocking (parse_deblocking pps)
unfolding parse_deblocking
parse_deblocking-Reads pps =
    Reads-if _ (not pps.deblocking_filter_parameters_present)
      (λ e. Reads-pure _ _ (plain-IsDeblocking 1 (omega arith)))
      (λ e. Reads-bind IsUe _ read_ue_golomb_31-Reads (λ n h.
        Reads-if _ (ltb 2 n) (λ bad. Reads-fail _ invalid_data)
          (λ good.
            let most = filter_most n (ground (arith, good)) in
            Reads-if _ ((if ltb n 2 then bit_xor n 1 else n) == 0)
              (λ z. Reads-pure _ _ (plain-IsDeblocking 0 (omega arith)))
              (λ z. parse_offsets-Reads (if ltb n 2 then bit_xor n 1 else n) most))))
