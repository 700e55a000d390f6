-- ===== src/Slice/Header/Start/Safe.antt =====
-- internal/h264/slice.go: the range of the first fields of a slice header.
use goh.Base.{
  Bool, Option, ap, arith, false, if◌then◌else◌, inl, inr, leb, ltb, not, refl, some, suc, true,
  zero, ℕ, ◌!=◌, ◌&&◌, ◌*◌, ◌+◌, ◌-◌, ◌<◌, ◌==◌, ◌^◌, ◌∙◌, ◌≡◌, ◌≤◌, ◌⊎◌,
}
use goh.BitReader.Safe.{
  Yields-if, Reads, Reads-bind, Reads-fail, Reads-if, Reads-pure, lift-Reads, read_bit-Reads,
  Yields, read_bits-Reads,
}
use goh.Golomb.Safe.{IsUe, read_ue_golomb_31-Reads, read_ue_golomb_long-Reads}
use goh.Slice.Header.Start.{
  SlicePicture, SliceStart, find_pps, golomb_to_picture_type, parse_idr_pic_id, parse_start,
  parse_structure, pic_nums, picture_type, without_s, parse_picture,
}
use goh.Result.{index, invalid_data}
use goh.Dpb.{picture_frame, picture_top_field}
use goh.Slice.{picture_type_b, picture_type_i}
use native.Mathlib.Nat.{pow-le-pow_right, pow-succ'}
use goh.Params.Valid.{IsPps, IsSps}
use goh.Params.{Pps, Present, Sps, max_pps_count, require_at-Yields}

-- `I`, `P`, `B`, `SI` or `SP`
abbrev pub IsSliceType : ℕ → Type 0
IsSliceType t = ((1 ≤ t) × (t ≤ 3)) ⊎ ((5 ≤ t) × (t ≤ 6))

-- The address is an Exp-Golomb number, the type is known, an IDR slice is intra, and the parameter
-- set is a valid one, which the list holds under the identifier.
pub record IsStart (idr : Bool) (pps_list : ℕ → Option Pps) (s : SliceStart) : Type 0 where
  pub first_mb_fits : IsUe s.first_mb_addr
  pub type_known : IsSliceType s.slice_type
  pub idr_intra : (idr ≡ false) ⊎ (without_s s.slice_type ≡ picture_type_i)
  pub pps_id_below : s.pps_id < max_pps_count
  pub pps_named : pps_list s.pps_id ≡ some s.pps
  pub pps_valid : IsPps s.pps

-- The parameter sets that a list holds.
abbrev pub AllPps : (ℕ → Option Pps) → Type 0
AllPps pps_list = (id : ℕ) → Present IsPps (pps_list id)

picture_type-Yields : (n : ℕ) → Yields IsSliceType (picture_type n)
unfolding picture_type
picture_type-Yields n =
    Yields-if _ (ltb 9 n) _ _ (λ e. tt)
      (λ e. known (if ltb 4 n then n - 5 else n) (ground (arith, e)))
  where
    known : (k : ℕ) → k < 5 → Yields IsSliceType (index golomb_to_picture_type k)
    known zero h = inl (omega arith, omega arith)
    known (suc zero) h = inl (omega arith, omega arith)
    known (suc (suc zero)) h = inl (omega arith, omega arith)
    known (suc (suc (suc zero))) h = inr (omega arith, omega arith)
    known (suc (suc (suc (suc zero)))) h = inr (omega arith, omega arith)
    known (suc (suc (suc (suc (suc k))))) h = absurd (omega (arith, h))

find_pps-Yields :
    (pps_list : ℕ → Option Pps) (id : ℕ)
    → AllPps pps_list
    → Yields
        (λ pps. (id < max_pps_count) × (pps_list id ≡ some pps) × IsPps pps)
        (find_pps pps_list id)
unfolding find_pps
find_pps-Yields pps_list id h =
    Yields-if _ (leb max_pps_count id) _ _ (λ e. tt)
      (λ e. require_at-Yields IsPps max_pps_count pps_list id (ground (arith, e)) (h id))

pub parse_start-Reads :
    (idr : Bool) (pps_list : ℕ → Option Pps)
    → AllPps pps_list
    → Reads (IsStart idr pps_list) (parse_start idr pps_list)
unfolding parse_start
parse_start-Reads idr pps_list h = Reads-bind IsUe _ read_ue_golomb_long-Reads (λ mb hm.
    Reads-bind IsUe _ read_ue_golomb_31-Reads (λ n hn.
      Reads-bind IsSliceType _ (lift-Reads _ _ (picture_type-Yields n)) (λ t ht.
        Reads-if _ (idr && (without_s t != picture_type_i)) (λ e. Reads-fail _ invalid_data)
          (λ e. Reads-bind IsUe _ read_ue_golomb_long-Reads (λ id hi.
            Reads-bind (λ pps. (id < max_pps_count) × (pps_list id ≡ some pps) × IsPps pps) _
              (lift-Reads _ _ (find_pps-Yields pps_list id h))
              (λ pps hp. Reads-pure _ _ (record {
                first_mb_fits = hm;
                type_known = ht;
                idr_intra = ground (arith, e);
                pps_id_below = hp.0;
                pps_named = hp.1;
                pps_valid = hp.2;
              })))))))

abbrev pub IsStructure : ℕ → Type 0
IsStructure s = (1 ≤ s) × (s ≤ 3)

-- A field is read only where the sequence has fields; the number of a picture is below its bound.
pub record IsPicture (sps : Sps) (p : SlicePicture) : Type 0 where
  pub frame_num_below : p.frame_num < 2 ^ sps.log2_max_frame_num
  pub structure_known : IsStructure p.nums.structure
  pub frames_only : (sps.frame_mbs_only_flag ≡ false) ⊎ (p.nums.structure ≡ picture_frame)
  pub num_below : p.nums.curr_pic_num < p.nums.max_pic_num
  pub idr_pic_id_below : p.idr_pic_id < 65536

parse_structure-Reads :
    (sps : Sps) (slice_type : ℕ)
    → Reads
        (λ s. IsStructure s × ((sps.frame_mbs_only_flag ≡ false) ⊎ (s ≡ picture_frame)))
        (parse_structure sps slice_type)
unfolding parse_structure
parse_structure-Reads sps slice_type =
    Reads-if _ sps.frame_mbs_only_flag
      (λ e. Reads-pure _ picture_frame ((omega arith, omega arith), inr refl))
      (λ frames.
        Reads-if _ (not sps.direct_8x8_inference_flag && (slice_type == picture_type_b))
          (λ e. Reads-fail _ invalid_data)
          (λ e.
            Reads-bind (λ b. b < 2) _ read_bit-Reads
              (λ field hf.
                Reads-if _ (field == 0)
                  (λ z. Reads-pure _ picture_frame ((omega arith, omega arith), inl frames))
                  (λ z.
                    Reads-bind (λ b. b < 2) _ read_bit-Reads
                      (λ bottom hb.
                        Reads-pure _ (picture_top_field + bottom)
                          ((omega arith, omega arith), inl frames))))))

parse_idr_pic_id-Reads : (idr : Bool) → Reads (λ n. n < 65536) (parse_idr_pic_id idr)
unfolding parse_idr_pic_id
parse_idr_pic_id-Reads false = Reads-pure _ 0 (omega arith)
parse_idr_pic_id-Reads true =
    Reads-bind IsUe _ read_ue_golomb_long-Reads
      (λ id h. Reads-pure _ (if ltb id 65536 then id else 0) (ground arith))

pow_suc : (log : ℕ) → 2 ^ (log + 1) ≡ 2 * 2 ^ log
pow_suc log = ap (λ n. 2 ^ n) (add_one log) ∙ pow-succ' 2 log
  where
    add_one : (n : ℕ) → n + 1 ≡ suc n
    add_one n = omega arith

curr_below :
    (log frame_num structure : ℕ)
    → log ≤ 16
    → frame_num < 2 ^ log
    → (pic_nums log frame_num structure).curr_pic_num
      < (pic_nums log frame_num structure).max_pic_num
curr_below log frame_num structure h k =
    let most : 2 ^ log ≤ 2 ^ 16 = pow-le-pow_right {n = 2} (omega arith) h in
    ground (arith, most, pow_suc log, k)

pub parse_picture-Reads :
    (idr : Bool) (sps : Sps) (slice_type : ℕ)
    → IsSps sps
    → Reads (IsPicture sps) (parse_picture idr sps slice_type)
unfolding parse_picture
parse_picture-Reads idr sps slice_type v =
    Reads-bind (λ x. x < 2 ^ sps.log2_max_frame_num) _
      (read_bits-Reads sps.log2_max_frame_num (omega (arith, v.frame_num_bits)))
      (λ frame_num below.
        Reads-bind (λ s. IsStructure s × ((sps.frame_mbs_only_flag ≡ false) ⊎ (s ≡ picture_frame)))
          _ (parse_structure-Reads sps slice_type)
          (λ structure hs.
            Reads-bind (λ n. n < 65536) _ (parse_idr_pic_id-Reads idr)
              (λ id hi. Reads-pure _ _ (record {
                frame_num_below = below;
                structure_known = hs.0;
                frames_only = hs.1;
                num_below =
                    curr_below sps.log2_max_frame_num frame_num structure v.frame_num_bits below;
                idr_pic_id_below = hi;
              }))))
