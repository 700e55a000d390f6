-- ===== src/Dpb/Marking/Window.antt =====
-- internal/h264/simple_dpb.go: how many references the sliding window leaves.
use goh.Base.{
  Bool, List, [], arith, false, if◌then◌else◌, inl, inr, leb, length, ltb, refl, true, ℕ, ◌!=◌,
  ◌&&◌, ◌+◌, ◌-◌, ◌<◌, ◌==◌, ◌∷◌, ◌≡◌, ◌≢◌, ◌≤◌, ◌⊎◌,
}
use goh.Dpb.Marking.{
  finish_frame_poc, limit_if_ok, limit_refs, mark_decoded_frame, mark_reference, mark_refs,
  max_refs_of, assign_current, second_field_ref, slide_window, mark_if_applied,
}
use goh.Dpb.{Dpb, FrameId, SliceHeader, max_short_refs, picture_frame, update_frame, Mmco}
use goh.Result.{Result, err, ok, panic}
use goh.Dpb.Refs.{
  frame_is_long, frame_is_short, ref_count, remove_short_at_index, set_frame_ref_mask,
}
use goh.Dpb.Control.{apply_mmco, unapplied}
use goh.BitReader.Reads.{room}
use goh.Dpb.Marking.Counts.{
  ref_count-gaps, ref_count-remove_short_at_index, ref_count-remove_short_by_frame_num,
}

-- There is room for one more, or a short-term reference that can go.
abbrev pub HasRoom : ℕ → Dpb → Type 0
HasRoom m d = (ref_count d ≤ m) × ((1 ≤ length d.short) ⊎ (ref_count d < m))

slide_window-ref_count :
    (sh : SliceHeader) (m : ℕ) (d : Dpb)
    → sh.explicit_ref_marking ≡ false
    → HasRoom m d
    → ref_count (slide_window sh false m d) + 1 ≤ m
unfolding slide_window
slide_window-ref_count sh m d plain h = rw plain (
    by ((length d.short != 0) && leb m (ref_count d)) (λ e. ground (arith, e))
      (λ e. ground (arith, e, h)))
  where
    by :
        (slides : Bool)
        → (slides ≡ true → 1 ≤ length d.short)
        → (slides ≡ false → ref_count d < m)
        → ref_count (if slides then remove_short_at_index (length d.short - 1) d else d) + 1 ≤ m
    by true there spare = omega (
      arith,
      h.0,
      ref_count-remove_short_at_index (length d.short - 1) d (omega (arith, there refl)),
    )
    by false there spare = omega (arith, spare refl)

-- A call that succeeds, and the bound it leaves.
abbrev pub Fits : ℕ → Result (Unit {0}) × Dpb → Type 0
Fits m r = (r.0 ≡ ok tt) × (ref_count r.1 ≤ m)

assign_current-Fits :
    (f : FrameId) (sh : SliceHeader) (m : ℕ) (d : Dpb)
    → ref_count d + 1 ≤ m
    → Fits m (assign_current f sh false d)
unfolding assign_current set_frame_ref_mask ref_count
assign_current-Fits f sh m d h =
    (refl, omega (arith, h, ref_count-remove_short_by_frame_num (d.frames f).frame_num d))

limit_refs-Fits :
    (f : FrameId) (sh : SliceHeader) (m : ℕ) (d : Dpb)
    → ref_count d ≤ m
    → Fits m (limit_refs f sh m d)
unfolding limit_refs
limit_refs-Fits f sh m d h =
    let few : ltb m (ref_count d) ≡ false = ground (arith, h) in
    rw few (refl, omega (arith, h, ref_count-gaps (d.frames f).frame_num sh d))

limit_if_ok-Fits :
    (f : FrameId) (sh : SliceHeader) (m : ℕ) (r : Result (Unit {0}) × Dpb)
    → Fits m r
    → Fits m (limit_if_ok f sh m r)
limit_if_ok-Fits f sh m (ok u, d) h = limit_refs-Fits f sh m d h.1
limit_if_ok-Fits f sh m (err e, d) h = cc (h.0)
limit_if_ok-Fits f sh m (panic, d) h = cc (h.0)

mark_reference-Fits :
    (f : FrameId) (sh : SliceHeader) (nal_ref_idc : ℕ) (d : Dpb)
    → nal_ref_idc ≢ 0
    → sh.explicit_ref_marking ≡ false
    → max_refs_of sh ≤ max_short_refs
    → HasRoom (max_refs_of sh) d
    → Fits (max_refs_of sh) (mark_reference f sh nal_ref_idc false unapplied d)
unfolding mark_reference
mark_reference-Fits f sh nal_ref_idc d reference plain few room =
    let is_reference : (nal_ref_idc == 0) ≡ false = ground (arith, reference) in
    let known : ltb max_short_refs (max_refs_of sh) ≡ false = ground (arith, few) in
    rw (is_reference, known)
      (limit_if_ok-Fits f sh (max_refs_of sh) _ (
        assign_current-Fits f sh (max_refs_of sh) _
          (slide_window-ref_count sh (max_refs_of sh) d plain room)))

-- What the sliding window marks: a frame, or a field of a frame that is no reference yet.
pub record IsWindowed (f : FrameId) (sh : SliceHeader) (d : Dpb) : Type 0 where
  pub no_idr : sh.idr ≡ false
  pub no_operations : sh.mmco ≡ []
  pub not_explicit : sh.explicit_ref_marking ≡ false
  pub not_second :
      (sh.picture_structure ≡ picture_frame)
      ⊎ ((frame_is_short f d ≡ false) × (frame_is_long f d ≡ false))

mark_refs-Fits :
    (f : FrameId) (sh : SliceHeader) (nal_ref_idc : ℕ) (d : Dpb)
    → nal_ref_idc ≢ 0
    → IsWindowed f sh d
    → max_refs_of sh ≤ max_short_refs
    → HasRoom (max_refs_of sh) d
    → Fits (max_refs_of sh) (mark_refs f sh nal_ref_idc d)
unfolding mark_refs apply_mmco
mark_refs-Fits f sh nal_ref_idc d reference w few room =
    chosen sh.idr w.no_idr _ _
      (marked sh.mmco (second_field_ref f sh d) w.no_operations (first w.not_second))
  where
    chosen :
        (b : Bool)
        → b ≡ false
        → (x y : Result (Unit {0}) × Dpb) → Fits (max_refs_of sh) y
        → Fits (max_refs_of sh) (if b then x else y)
    chosen true e x y k = cc e
    chosen false e x y k = k

    marked :
        (ms : List Mmco) (second : Bool)
        → ms ≡ []
        → second ≡ false
        → Fits
            (max_refs_of sh)
            (mark_if_applied f sh nal_ref_idc second (apply_mmco f sh ms unapplied d))
    marked [] false e e' = mark_reference-Fits f sh nal_ref_idc d reference w.not_explicit few room
    marked [] true e e' = cc e'
    marked (m ∷ ms) second e e' = cc e

    first :
        (sh.picture_structure ≡ picture_frame)
          ⊎ ((frame_is_short f d ≡ false) × (frame_is_long f d ≡ false))
        → second_field_ref f sh d ≡ false
    first (inl e) = ground (arith, e)
    first (inr (no_short, no_long)) =
        rw (no_short, no_long) (neither (sh.picture_structure != picture_frame))
      where
        neither : (b : Bool) → (b && false) ≡ false
        neither true = refl
        neither false = refl

-- A reference picture that is no IDR picture, is a frame or a field of a frame that is no reference
-- yet, and whose header has neither explicit marking nor marking operations, is marked by the
-- sliding window: where at most maxRefs references (the greater of RefFrameCount and 1, at most 16)
-- are held, and one of them is short-term or there are fewer, markDecodedFrame succeeds and leaves
-- at most maxRefs references, the new one counted.
pub mark_decoded_frame-ref_count :
    (f : FrameId) (sh : SliceHeader) (nal_ref_idc : ℕ) (d : Dpb)
    → nal_ref_idc ≢ 0
    → IsWindowed f sh d
    → max_refs_of sh ≤ max_short_refs
    → HasRoom (max_refs_of sh) d
    → Fits (max_refs_of sh) (mark_decoded_frame f sh nal_ref_idc d)
unfolding mark_decoded_frame finish_frame_poc ref_count frame_is_short frame_is_long
mark_decoded_frame-ref_count f sh nal_ref_idc d reference w few room =
    mark_refs-Fits f sh nal_ref_idc
      (update_frame f (λ frame. record frame { frame_num = sh.frame_num }) d) reference
      (record {
        no_idr = w.no_idr;
        no_operations = w.no_operations;
        not_explicit = w.not_explicit;
        not_second = w.not_second;
      })
      few room
