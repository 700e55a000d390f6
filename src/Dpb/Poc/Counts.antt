-- ===== src/Dpb/Poc/Counts.antt =====
-- internal/h264/simple_dpb.go: `initPOC` for a picture of order count type 0.
use goh.Base.{
  Bool, ap, arith, false, if◌then◌else◌, refl, suc, true, ℕ, ◌!=◌, ◌*◌, ◌<◌, ◌==◌, ◌^◌, ◌∙◌, ◌≡◌,
  ◌≤◌,
}
use goh.Base.Int.{ltb_ℤ, neg_part, pos, pos_part, ℤ, ◌+ℤ◌}
use goh.Base.Words.{wrap}
use goh.Dpb.Poc.{
  add_i32, choose_msb, PocSps, one_shifted, poc_type_0, FieldPocs, fits_i32, init_poc, start_offset,
  pick_fields,
}
use goh.Dpb.Poc.Nearest.{Far, IsNearest, choose_msb-IsNearest}
use goh.Base.Sums.{wrap-Small, add_parts, one_sign}
use goh.Dpb.{PocContext, picture_frame, picture_bottom_field, picture_top_field}
use native.Mathlib.Nat.{pow-le-pow_right, one-le-pow}
use goh.Result.{ok}

one_shifted-double : (j : ℕ) → j ≤ 15 → one_shifted (suc j) ≡ pos (2 * 2 ^ j)
one_shifted-double j small =
    let bound : 2 ^ j ≤ 2 ^ 15 = pow-le-pow_right (omega arith) small in
    let e : (2 ^ suc j) ≡ 2 * 2 ^ j = omega arith in
    ap (λ n. wrap 32 (pos (1 * n))) e
    ∙ wrap-Small (pos (1 * (2 * 2 ^ j))) (record { above = omega arith; below = omega arith })
    ∙ ap pos (omega arith)

-- The context of a picture of type 0 behind a reference picture, with the low parts `a` and `b`.
pub record IsBehind (j a b : ℕ) (sps : PocSps) (p : PocContext) : Type 0 where
  pub kind : sps.poc_type ≡ 0
  pub bits : sps.log2_max_poc_lsb ≡ suc j
  pub few : j ≤ 15
  pub lsb : p.poc_lsb ≡ pos a
  pub prev_lsb : p.prev_poc_lsb ≡ pos b
  pub in_range : (a < 2 * 2 ^ j) × (b < 2 * 2 ^ j)
  pub far : Far p.prev_poc_msb
  pub near_bottom : (pos_part p.delta_poc_bottom < 2 ^ 29) × (neg_part p.delta_poc_bottom < 2 ^ 29)

top_exact :
    (h a b : ℕ) (q r : ℤ)
    → h ≤ 2 ^ 15
    → a < 2 * h
    → b < 2 * h
    → Far q
    → IsNearest h a b q r
    → add_i32 r (pos a) ≡ r +ℤ pos a
top_exact h a b q r small ha hb far near = wrap-Small (r +ℤ pos a) (record {
  above =
      ground (arith, add_parts r (pos a), one_sign (r +ℤ pos a), one_sign r, near.above, far.over);
  below =
      ground (arith, add_parts r (pos a), one_sign (r +ℤ pos a), one_sign r, near.below, far.under);
})

module _ (j a b : ℕ) (sps : PocSps) (p : PocContext) (h : IsBehind j a b sps p) where
  bound : 2 ^ j ≤ 2 ^ 15
  bound = pow-le-pow_right (omega arith) h.few

  nearest :
      IsNearest
        (2 ^ j)
        a
        b
        p.prev_poc_msb
        (choose_msb (pos (2 * 2 ^ j)) (pos a) (pos b) p.prev_poc_msb)
  nearest =
      choose_msb-IsNearest (2 ^ j) a b p.prev_poc_msb (one-le-pow j 2 (omega arith)) bound
        h.in_range.0 h.in_range.1 h.far

  not_negative : ltb_ℤ (pos b) (pos 0) ≡ false
  not_negative = ground arith

  type_0 :
      (structure : ℕ)
      → (msb : ℤ) × IsNearest (2 ^ j) a b p.prev_poc_msb msb
        × (poc_type_0 sps structure p ≡ (
          record p { poc_msb = msb },
          (
            msb +ℤ pos a,
            if structure == picture_frame then msb +ℤ pos a +ℤ p.delta_poc_bottom else msb +ℤ pos a,
          ),
        ))
  unfolding poc_type_0
  type_0 structure = (
    choose_msb (pos (2 * 2 ^ j)) (pos a) (pos b) p.prev_poc_msb,
    nearest,
    rw
        (
          h.bits,
          h.prev_lsb,
          h.lsb,
          not_negative,
          one_shifted-double j h.few,
          top_exact (2 ^ j) a b p.prev_poc_msb _ bound h.in_range.0 h.in_range.1 h.far nearest,
        )
        refl,
  )

-- The counts are in range.
module _ (j a b : ℕ) (sps : PocSps) (p : PocContext) (h : IsBehind j a b sps p) (msb : ℤ)
    (near : IsNearest (2 ^ j) a b p.prev_poc_msb msb) where
  top_fits : fits_i32 (msb +ℤ pos a) ≡ true
  top_fits = ground (
    arith,
    pow-le-pow_right {n = 2} (omega arith) h.few,
    h.in_range,
    add_parts msb (pos a),
    one_sign (msb +ℤ pos a),
    one_sign msb,
    near.above,
    near.below,
    h.far.over,
    h.far.under,
  )

  bottom_fits : fits_i32 (msb +ℤ pos a +ℤ p.delta_poc_bottom) ≡ true
  bottom_fits = ground (
    arith,
    pow-le-pow_right {n = 2} (omega arith) h.few,
    h.in_range,
    h.near_bottom,
    add_parts msb (pos a),
    add_parts (msb +ℤ pos a) p.delta_poc_bottom,
    one_sign (msb +ℤ pos a +ℤ p.delta_poc_bottom),
    one_sign msb,
    near.above,
    near.below,
    h.far.over,
    h.far.under,
  )

fits-if :
    (test : Bool) (x y : ℤ)
    → fits_i32 x ≡ true
    → fits_i32 y ≡ true
    → fits_i32 (if test then x else y) ≡ true
fits-if true x y hx hy = hx
fits-if false x y hx hy = hy

init_poc-type_0 :
    (structure nal_ref_idc : ℕ) (old : FieldPocs) (sps : PocSps) (p : PocContext)
    → (sps.poc_type == 0) ≡ true
    → init_poc sps structure nal_ref_idc old p ≡ (
      pick_fields structure old (poc_type_0 sps structure (start_offset sps p)).1,
      (poc_type_0 sps structure (start_offset sps p)).0,
    )
unfolding init_poc
init_poc-type_0 structure nal_ref_idc old sps p e = rw e refl

pick_fields-ok :
    (structure : ℕ) (old : FieldPocs) (top bottom : ℤ)
    → fits_i32 top ≡ true
    → fits_i32 bottom ≡ true
    → (counts : FieldPocs) × (least : ℤ) × (pick_fields structure old (top, bottom)
        ≡ ok (counts, least))
      × (counts.0 ≡ (if structure != picture_bottom_field then top else old.0))
      × (counts.1 ≡ (if structure != picture_top_field then bottom else old.1))
pick_fields-ok structure old top bottom ht hb = rw (ht, hb) (_, _, refl, refl, refl)

-- For a picture of order count type 0, initPOC succeeds: the counts are the chosen high part, kept
-- in the context, and the low part, the bottom field of a frame further by its difference, and a
-- field that the picture does not have keeps its count. Of the high part before and its two
-- neighbours, this high part is the one which puts the count above that of the reference before
-- it by at most half the modulus, and below it by less. The low parts are below the modulus, which
-- has 1 to 16 bits, the high part before is less than 2 ^ 30 away from 0, and the difference of the
-- bottom field less than 2 ^ 29.
pub init_poc-IsNearest :
    (j a b structure nal_ref_idc : ℕ) (old : FieldPocs) (sps : PocSps) (p : PocContext)
    → IsBehind j a b sps p
    → (msb : ℤ) × (counts : FieldPocs) × (least : ℤ) × IsNearest (2 ^ j) a b p.prev_poc_msb msb
      × ((init_poc sps structure nal_ref_idc old p).0 ≡ ok (counts, least))
      × ((init_poc sps structure nal_ref_idc old p).1.poc_msb ≡ msb)
      × (counts.0 ≡ (if structure != picture_bottom_field then msb +ℤ pos a else old.0))
      × (counts.1 ≡ (
          if structure != picture_top_field
          then (if structure == picture_frame
              then msb +ℤ pos a +ℤ p.delta_poc_bottom
              else msb +ℤ pos a)
          else old.1))
init_poc-IsNearest j a b structure nal_ref_idc old sps p h =
    let started : IsBehind j a b sps (start_offset sps p) = record {
      kind = h.kind;
      bits = h.bits;
      few = h.few;
      lsb = h.lsb;
      prev_lsb = h.prev_lsb;
      in_range = h.in_range;
      far = h.far;
      near_bottom = h.near_bottom;
    } in
    let (msb, near, e) = type_0 j a b sps (start_offset sps p) started structure in
    let (counts, least, picked, top, bottom) =
      pick_fields-ok structure old (msb +ℤ pos a)
        (if structure == picture_frame then msb +ℤ pos a +ℤ p.delta_poc_bottom else msb +ℤ pos a)
        (top_fits j a b sps p h msb near)
        (fits-if (structure == picture_frame) _ _ (bottom_fits j a b sps p h msb near)
          (top_fits j a b sps p h msb near)) in
    let run =
      init_poc-type_0 structure nal_ref_idc old sps p (ground (arith, h.kind))
      ∙ ap (λ t. (pick_fields structure old t.1, t.0)) e in
    (msb, counts, least, near, ap (λ r. r.0) run ∙ picked, ap (λ r. r.1.poc_msb) run, top, bottom)
