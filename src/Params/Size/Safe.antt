-- ===== src/Params/Size/Safe.antt =====
-- internal/h264/sps.go: what the size and the cropping of a sequence satisfy.
use goh.Base.{
  Bool, arith, false, if◌then◌else◌, inl, inr, leb, ltb, refl, suc, sym, true, zero, ℕ, ◌!=◌, ◌%◌,
  ◌*◌, ◌+◌, ◌-◌, ◌<◌, ◌==◌, ◌^◌, ◌||◌, ◌≡◌, ◌≤◌, ◌⊎◌,
}
use goh.Base.Words.{u32, u64, ◌<<<◌}
use goh.Params.Size.{
  Crop, check_crop, decode_mb_size, max_mb_height, max_mb_width, SpsSize, decode_crop, decode_size,
  no_crop, step_x, step_y,
}
use goh.Golomb.Safe.{IsUe, read_ue_golomb_long-Reads, read_ue_golomb_31-Reads}
use goh.BitReader.Safe.{
  Reads, Reads-bind, Reads-fail, Reads-if, Reads-pure, Reads-weaken, read_bit-Reads,
}
use goh.Result.{invalid_data}
use goh.BitReader.{pure}
use mathlib.Core.Path.{subst}
use goh.Dpb.{max_dpb_frames}

-- The picture that is left is not empty.
abbrev pub IsCrop : ℕ → ℕ → Crop → Type 0
IsCrop mb_width mb_height c =
    (c.crop_left + c.crop_right < 16 * mb_width) × (c.crop_top + c.crop_bottom < 16 * mb_height)

-- What a distance times its step may be: it does not wrap.
abbrev pub IsDistance : ℕ → Type 0
IsDistance n = n < 2 ^ 34

check_crop-Reads :
    (mb_width mb_height : ℕ) (c : Crop)
    → mb_width ≤ 1055
    → mb_height ≤ 2 * 1055
    → IsDistance c.crop_left × IsDistance c.crop_right
    → IsDistance c.crop_top × IsDistance c.crop_bottom
    → Reads
        (λ d. IsCrop mb_width mb_height d × (d ≡ c))
        (check_crop (16 * mb_width) (16 * mb_height) c)
unfolding check_crop
check_crop-Reads mb_width mb_height c w h across down =
    Reads-if _
      (leb (16 * mb_width) (u64 (c.crop_left + c.crop_right))
        || leb (16 * mb_height) (u64 (c.crop_top + c.crop_bottom)))
      (λ e. Reads-fail _ invalid_data)
      (λ e. kept (ground (arith, e, across)) (ground (arith, e, down)))
  where
    exact : (n m size : ℕ) → n + m < 16 * size → size ≤ 2 * 1055 → u32 n ≡ n
    exact n m size fits most = omega (arith, fits, most)

    kept :
        c.crop_left + c.crop_right < 16 * mb_width
        → c.crop_top + c.crop_bottom < 16 * mb_height
        → Reads
            (λ d. IsCrop mb_width mb_height d × (d ≡ c))
            (pure (record {
              crop_left = u32 c.crop_left;
              crop_right = u32 c.crop_right;
              crop_top = u32 c.crop_top;
              crop_bottom = u32 c.crop_bottom;
            }))
    kept x y =
        rw
          (
            exact c.crop_left c.crop_right mb_width x (omega (arith, w)),
            exact c.crop_right c.crop_left mb_width (omega (arith, x)) (omega (arith, w)),
            exact c.crop_top c.crop_bottom mb_height y h,
            exact c.crop_bottom c.crop_top mb_height (omega (arith, y)) h,
          )
          (Reads-pure _ c ((x, y), refl))

-- The distances are whole steps of the chroma samples and of the fields.
abbrev pub IsAligned : ℕ → Bool → Crop → Type 0
IsAligned chroma_format_idc frame_mbs_only_flag c =
    ((c.crop_left % step_x chroma_format_idc ≡ 0) × (c.crop_right % step_x chroma_format_idc ≡ 0))
    × ((c.crop_top % step_y chroma_format_idc frame_mbs_only_flag ≡ 0)
        × (c.crop_bottom % step_y chroma_format_idc frame_mbs_only_flag ≡ 0))

-- A distance of whole steps does not wrap.
record IsWhole (step n : ℕ) : Type 0 where
  distance : IsDistance n
  whole : n % step ≡ 0

u64-IsWhole :
    (units step : ℕ)
    → IsUe units
    → (step ≡ 1) ⊎ ((step ≡ 2) ⊎ (step ≡ 4))
    → IsWhole step (u64 (units * step))
u64-IsWhole units step h (inl e) =
    rw e (record { distance = omega (arith, h); whole = omega (arith, h) })
u64-IsWhole units step h (inr (inl e)) =
    rw e (record { distance = omega (arith, h); whole = omega (arith, h) })
u64-IsWhole units step h (inr (inr e)) =
    rw e (record { distance = omega (arith, h); whole = omega (arith, h) })

step_x-cases : (c : ℕ) → (step_x c ≡ 1) ⊎ ((step_x c ≡ 2) ⊎ (step_x c ≡ 4))
step_x-cases c = by ((c == 1) || (c == 2))
  where
    by :
        (test : Bool)
        → (1 <<< (if test then 1 else 0) ≡ 1)
          ⊎ ((1 <<< (if test then 1 else 0) ≡ 2) ⊎ (1 <<< (if test then 1 else 0) ≡ 4))
    by true = inr (inl refl)
    by false = inl refl

step_y-cases : (c : ℕ) (f : Bool) → (step_y c f ≡ 1) ⊎ ((step_y c f ≡ 2) ⊎ (step_y c f ≡ 4))
step_y-cases c f = by f (c == 1)
  where
    by :
        (only test : Bool)
        → ((if only then 1 else 2) <<< (if test then 1 else 0) ≡ 1)
          ⊎ (((if only then 1 else 2) <<< (if test then 1 else 0) ≡ 2)
              ⊎ ((if only then 1 else 2) <<< (if test then 1 else 0) ≡ 4))
    by true true = inr (inl refl)
    by true false = inl refl
    by false true = inr (inr refl)
    by false false = inr (inl refl)

-- For a size that the decoder admits, decoding the cropping never panics; on success the picture that
-- is left is not empty and the distances are whole steps.
pub decode_crop-Reads :
    (mb_width mb_height chroma_format_idc : ℕ) (frame_mbs_only_flag : Bool)
    → mb_width ≤ 1055
    → mb_height ≤ 2 * 1055
    → Reads
        (λ d. IsCrop mb_width mb_height d × IsAligned chroma_format_idc frame_mbs_only_flag d)
        (decode_crop mb_width mb_height chroma_format_idc frame_mbs_only_flag)
unfolding decode_crop
decode_crop-Reads mb_width mb_height c f w h = Reads-bind IsUe _ read_ue_golomb_long-Reads (λ l hl.
    Reads-bind IsUe _ read_ue_golomb_long-Reads (λ r hr.
      Reads-bind IsUe _ read_ue_golomb_long-Reads (λ t ht.
        Reads-bind IsUe _ read_ue_golomb_long-Reads (λ b hb.
          let x_l = u64-IsWhole l (step_x c) hl (step_x-cases c) in
          let x_r = u64-IsWhole r (step_x c) hr (step_x-cases c) in
          let y_t = u64-IsWhole t (step_y c f) ht (step_y-cases c f) in
          let y_b = u64-IsWhole b (step_y c f) hb (step_y-cases c f) in
          Reads-weaken _ _
            (check_crop-Reads mb_width mb_height _ w h (x_l.distance, x_r.distance)
              (y_t.distance, y_b.distance))
            (λ d p. (
              p.0,
              subst (IsAligned c f) (sym p.1) ((x_l.whole, x_r.whole), (y_t.whole, y_b.whole)),
            ))))))

pub decode_mb_size-Reads :
    Reads (λ s. (s.0 ≤ 1055) × ((1 ≤ s.0) × ((s.1 ≤ 1055) × (1 ≤ s.1)))) decode_mb_size
unfolding decode_mb_size
decode_mb_size-Reads = Reads-bind IsUe _ read_ue_golomb_long-Reads (λ w hw.
    Reads-bind IsUe _ read_ue_golomb_long-Reads (λ h hh.
      Reads-if _ (leb max_mb_width w || leb max_mb_height h) (λ e. Reads-fail _ invalid_data)
        (λ e.
          Reads-pure _ (u32 (w + 1), u32 (h + 1))
            (ground (arith, e), (omega arith, (ground (arith, e), omega arith))))))

-- The size is that of the macroblocks, and what is cropped leaves a picture.
pub record IsSize (s : SpsSize) : Type 0 where
  pub ref_frames : s.ref_frame_count ≤ 16
  pub width_most : s.mb_width ≤ 1055
  pub height_most : s.mb_height ≤ 2 * 1055
  pub cropped : IsCrop s.mb_width s.mb_height s.distances

pub decode_size-Reads : (c : ℕ) → Reads IsSize (decode_size c)
unfolding decode_size
decode_size-Reads c = Reads-bind IsUe _ read_ue_golomb_31-Reads (λ count hc.
    Reads-if _ (ltb max_dpb_frames count) (λ e. Reads-fail _ invalid_data)
      (λ few. Reads-bind _ _ read_bit-Reads (λ gaps g.
        Reads-bind _ _ decode_mb_size-Reads (λ size hs. Reads-bind _ _ read_bit-Reads (λ only o.
          Reads-bind (λ b. b < 2) _
            (Reads-if _ (only == 0) (λ e. read_bit-Reads) (λ e. Reads-pure _ 0 (omega arith)))
            (λ mbaff m. Reads-bind _ _ read_bit-Reads (λ direct d.
              Reads-bind _ _ read_bit-Reads (λ crop k.
                let tall = height size.1 only o hs.1.1.0 hs.1.1.1 in
                Reads-bind (IsCrop size.0 (size.1 * (2 - only))) _
                  (Reads-if _ (crop == 0)
                    (λ e. Reads-pure _ no_crop (omega (arith, hs.1.0), omega (arith, tall.0)))
                    (λ e.
                      Reads-weaken _ _
                        (decode_crop-Reads size.0 (size.1 * (2 - only)) c (only != 0) hs.0 tall.1)
                        (λ d p. p.0)))
                  (λ distances v. Reads-pure _ _ (record {
                    ref_frames = ground (arith, few);
                    width_most = hs.0;
                    height_most = tall.1;
                    cropped = v;
                  }))))))))))
  where
    height :
        (h only : ℕ)
        → only < 2
        → h ≤ 1055
        → 1 ≤ h
        → (1 ≤ h * (2 - only)) × (h * (2 - only) ≤ 2 * 1055)
    height h zero o m l = (omega (arith, l), omega (arith, m))
    height h (suc zero) o m l = (omega (arith, l), omega (arith, m))
    height h (suc (suc n)) o m l = absurd (omega (arith, o))
