-- ===== src/Params/Sequence/Stages.antt =====
-- internal/h264/sps.go: the range of the fields of the stages of `decodeSPS`.
use goh.Base.{
  All, [], ap, arith, bit_or, false, if◌then◌else◌, inl, inr, leb, length, length-replicate, ltb,
  not, refl, replicate, suc, true, zero, ℕ, ◌!=◌, ◌+◌, ◌<◌, ◌==◌, ◌||◌, ◌∷◌, ◌≡◌, ◌≤◌, ◌⊎◌,
}
use goh.Base.Int.{ltb_ℤ, pos, pos_part, ℤ, ◌==ℤ◌}
use goh.Base.Words.{◌<<<◌}
use goh.Params.Valid.{IsFactor, IsFactors, IsSix}
use goh.Params.Scaling.Safe.{IsMatrices, decode_scaling_matrices-Reads}
use goh.Golomb.Safe.{
  IsSe, IsUe, read_se_golomb_long-Reads, read_ue_golomb_31-Reads, read_ue_golomb_long-Reads,
}
use goh.BitReader.Safe.{
  Reads, Reads-bind, Reads-fail, Reads-if, Reads-pure, read_bit-Reads, read_bits-Reads,
  skip_bits-Reads,
}
use goh.BitReader.{fail, pure}
use goh.Result.{invalid_data, unsupported}
use goh.Params.{max_sps_count}
use goh.Params.Sequence.{
  SpsFormat, any_equal, constraint_flags, decode_depth, decode_format, decode_log2_max_frame_num,
  decode_planes, decode_profile, depth_of, flat, flat_matrices, high_profiles, SpsProfile,
}
use goh.Params.Order.{SpsOrder, cycle_loop, decode_cycle, decode_poc, plain_order}

constraint_flags-Reads :
    (rounds i flags : ℕ) → Reads (λ f. Unit {0}) (constraint_flags rounds i flags)
unfolding constraint_flags
constraint_flags-Reads zero i flags = Reads-pure _ flags tt
constraint_flags-Reads (suc rounds) i flags =
    Reads-bind _ _ read_bit-Reads
      (λ flag h. constraint_flags-Reads rounds (i + 1) (bit_or flags (flag <<< i)))

-- The two numbers are bytes, and the identifier is below the bound.
pub record IsProfile (p : SpsProfile) : Type 0 where
  pub profile_below : p.profile_idc < 256
  pub level_below : p.level_idc < 256
  pub id_below : p.sps_id < max_sps_count

pub decode_profile-Reads : Reads IsProfile decode_profile
unfolding decode_profile
decode_profile-Reads = Reads-bind _ _ (read_bits-Reads 8 (omega arith)) (λ profile p.
    Reads-bind _ _ (constraint_flags-Reads 6 0 0) (λ flags f.
      Reads-bind (λ u. Unit {0}) _ (skip_bits-Reads 2 (omega arith))
        (λ u s. Reads-bind _ _ (read_bits-Reads 8 (omega arith)) (λ level l.
          Reads-bind _ _ read_ue_golomb_31-Reads (λ id h.
            Reads-if _ (leb max_sps_count id) (λ e. Reads-fail _ invalid_data)
              (λ e. Reads-pure _ _ (record {
                profile_below = omega (arith, p);
                level_below = omega (arith, l);
                id_below = ground (arith, e);
              })))))))

-- The chroma format and the depth are ones that are known, and the lists are valid.
pub record IsFormat (f : SpsFormat) : Type 0 where
  pub chroma_most : f.chroma_format_idc ≤ 3
  pub depth_least : 8 ≤ f.bit_depth
  pub depth_most : f.bit_depth ≤ 14
  pub lists : IsMatrices f.matrices

sixteens : (n : ℕ) → All IsFactor (replicate n 16)
sixteens zero = tt
sixteens (suc n) = ((omega arith, omega arith), sixteens n)

pub flat-IsSix : (n : ℕ) → IsSix n (flat n)
flat-IsSix n =
    let fits : IsFactors n (replicate n 16) = (length-replicate n 16, sixteens n) in
    record {
      fits_0 = fits;
      fits_1 = fits;
      fits_2 = fits;
      fits_3 = fits;
      fits_4 = fits;
      fits_5 = fits;
    }

decode_planes-Reads : (c : ℕ) → Reads (λ u. c ≤ 3) (decode_planes c)
unfolding decode_planes
decode_planes-Reads c =
    Reads-if _ (ltb 3 c) (λ e. Reads-fail _ unsupported)
      (λ e.
        let most : c ≤ 3 = ground (arith, e) in
        Reads-if _ (c != 3) (λ z. Reads-pure _ tt most)
          (λ z. Reads-bind _ _ read_bit-Reads (λ b h.
            Reads-if _ (b == 0) (λ y. Reads-pure _ tt most) (λ y. Reads-fail _ unsupported))))

decode_depth-Reads : Reads (λ d. (8 ≤ d) × (d ≤ 14)) decode_depth
unfolding decode_depth
decode_depth-Reads = Reads-bind IsUe _ read_ue_golomb_31-Reads (λ luma hl.
    Reads-bind IsUe _ read_ue_golomb_31-Reads (λ chroma hc.
      Reads-if _ (not (depth_of chroma ==ℤ depth_of luma)) (λ e. Reads-fail _ unsupported)
        (λ e. in_range (depth_of luma))))
  where
    in_range :
        (d : ℤ)
        → Reads
            (λ d. (8 ≤ d) × (d ≤ 14))
            (if ltb_ℤ d (pos 8) || ltb_ℤ (pos 14) d then fail invalid_data else pure (pos_part d))
    in_range d =
        Reads-if _ (ltb_ℤ d (pos 8) || ltb_ℤ (pos 14) d) (λ e. Reads-fail _ invalid_data)
          (λ e. Reads-pure _ (pos_part d) (ground (arith, e), ground (arith, e)))

pub decode_format-Reads : (profile_idc : ℕ) → Reads IsFormat (decode_format profile_idc)
unfolding decode_format
decode_format-Reads profile_idc =
    Reads-if _ (not (any_equal profile_idc high_profiles))
      (λ e. Reads-pure _ _ (record {
        chroma_most = omega arith;
        depth_least = omega arith;
        depth_most = omega arith;
        lists = (flat-IsSix 16, flat-IsSix 64);
      }))
      (λ e. Reads-bind _ _ read_ue_golomb_31-Reads (λ c hc.
        Reads-bind (λ u. c ≤ 3) _ (decode_planes-Reads c)
          (λ u p.
            Reads-bind (λ d. (8 ≤ d) × (d ≤ 14)) _ decode_depth-Reads
              (λ depth hd. Reads-bind _ _ read_bit-Reads (λ bypass b.
                Reads-bind _ _ read_bit-Reads (λ present h.
                  Reads-bind IsMatrices _
                    (Reads-if _ (present == 0)
                      (λ z. Reads-pure _ flat_matrices (flat-IsSix 16, flat-IsSix 64))
                      (λ z.
                        decode_scaling_matrices-Reads false c (flat 16) (flat 64) true true true
                          (flat 16) (flat 64) (flat-IsSix 16) (flat-IsSix 64) (flat-IsSix 16)
                          (flat-IsSix 64)))
                    (λ matrices hm. Reads-pure _ _ (record {
                      chroma_most = p;
                      depth_least = hd.0;
                      depth_most = hd.1;
                      lists = hm;
                    }))))))))

pub record IsCycle (o : SpsOrder) : Type 0 where
  pub type_most : o.poc_type ≤ 2
  pub lsb_least : (1 ≤ o.poc_type) ⊎ (4 ≤ o.log2_max_poc_lsb)
  pub non_ref_fits : IsSe o.non_ref
  pub top_to_bottom_fits : IsSe o.top_to_bottom
  pub offsets_fit : All IsSe o.ref_frame
  pub lsb_most : o.log2_max_poc_lsb ≤ 16
  pub cycle_most : length o.ref_frame ≤ 255

cycle_loop-Reads : (n : ℕ) → Reads (λ xs. (length xs ≡ n) × All IsSe xs) (cycle_loop n)
unfolding cycle_loop
cycle_loop-Reads zero = Reads-pure _ [] (refl, tt)
cycle_loop-Reads (suc n) = Reads-bind IsSe _ read_se_golomb_long-Reads (λ offset h.
    Reads-bind (λ xs. (length xs ≡ n) × All IsSe xs) _ (cycle_loop-Reads n)
      (λ rest e. Reads-pure _ (offset ∷ rest) (ap suc e.0, (h, e.1))))

plain_order-IsCycle :
    (poc_type log2 : ℕ)
    → poc_type ≤ 2
    → (1 ≤ poc_type) ⊎ (4 ≤ log2)
    → log2 ≤ 16
    → IsCycle (plain_order poc_type log2)
plain_order-IsCycle poc_type log2 t l h = record {
  type_most = t;
  lsb_least = l;
  non_ref_fits = (omega arith, omega arith);
  top_to_bottom_fits = (omega arith, omega arith);
  offsets_fit = tt;
  lsb_most = h;
  cycle_most = omega arith;
}

decode_cycle-Reads : Reads IsCycle decode_cycle
unfolding decode_cycle
decode_cycle-Reads = Reads-bind _ _ read_bit-Reads (λ flag f.
    Reads-bind IsSe _ read_se_golomb_long-Reads (λ non_ref n.
      Reads-bind IsSe _ read_se_golomb_long-Reads (λ top t.
        Reads-bind _ _ read_ue_golomb_long-Reads (λ count h.
          Reads-if _ (leb 256 count) (λ e. Reads-fail _ invalid_data)
            (λ e.
              Reads-bind (λ xs. (length xs ≡ count) × All IsSe xs) _ (cycle_loop-Reads count)
                (λ xs k. Reads-pure _ _ (record {
                  type_most = omega arith;
                  lsb_least = inl (omega arith);
                  non_ref_fits = n;
                  top_to_bottom_fits = t;
                  offsets_fit = k.1;
                  lsb_most = omega arith;
                  cycle_most = ground (arith, e, k.0);
                })))))))

pub decode_poc-Reads : Reads IsCycle decode_poc
unfolding decode_poc
decode_poc-Reads = Reads-bind _ _ read_ue_golomb_31-Reads (λ poc_type h.
    Reads-if _ (poc_type == 0)
      (λ z. Reads-bind _ _ read_ue_golomb_31-Reads (λ t k.
        Reads-if _ (ltb 12 t) (λ e. Reads-fail _ invalid_data)
          (λ e.
            Reads-pure _ _ (
              plain_order-IsCycle 0 (t + 4) (omega arith) (inr (omega arith))
                (ground (arith, e))))))
      (λ z.
        Reads-if _ (poc_type == 1) (λ o. decode_cycle-Reads)
          (λ o.
            Reads-if _ (poc_type == 2)
              (λ w.
                Reads-pure _ _
                  (plain_order-IsCycle 2 0 (omega arith) (inl (omega arith)) (omega arith)))
              (λ w. Reads-fail _ invalid_data))))

pub decode_log2_max_frame_num-Reads : Reads (λ n. (4 ≤ n) × (n ≤ 16)) decode_log2_max_frame_num
unfolding decode_log2_max_frame_num
decode_log2_max_frame_num-Reads = Reads-bind _ _ read_ue_golomb_31-Reads (λ n h.
    Reads-if _ (ltb 12 n) (λ e. Reads-fail _ invalid_data)
      (λ e. Reads-pure _ (n + 4) (omega arith, ground (arith, e))))
