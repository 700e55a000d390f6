-- ===== src/Dpb/Marking/Numbers.antt =====
-- internal/h264/simple_dpb.go: the steps of `markDecodedFrame` and the frame numbers of the
-- short-term references.
use goh.Base.{
  Bool, Option-cases, arith, bit_or, false, get_elem?, if◌then◌else◌, inl, inr, ltb, refl, some,
  sym, true, ℕ, ◌==◌, ◌||◌, ◌∙◌, ◌∷◌, ◌≡◌,
}
use goh.Dpb.Marking.Distinct.{
  IsDistinct, NoNum, no_first_place, remove_first_place, IsDistinct-Shrinks, IsDistinct-Shrunk,
  IsMarkable, take_num-IsDistinct,
}
use goh.Dpb.{FrameId, Dpb, SliceHeader, max_short_refs, update_frame, Frame}
use goh.Dpb.Refs.{
  clear_frame_ref_mask_if_unreferenced, first_place, frame_is_long, frame_is_short, has_frame_num,
  remove_at, remove_short_at_index, remove_short_by_frame_num, set_frame_ref_mask, frame_ref_mask,
  is_at, ref_count, reset_refs, simple_reference_mask,
}
use goh.Dpb.Marking.{
  assign_current, drop_one, finish_frame_poc, limit_if_ok, limit_refs, mark_decoded_frame,
  mark_if_applied, mark_reference, mark_refs, max_refs_of, note_reset, second_field_ref,
  slide_window,
}
use goh.Result.{Result, err, ok, panic}
use goh.Dpb.Marking.Shrinks.{
  Shrinks, Shrinks-trans, emptied, remove_short_by_frame_num-Shrinks, set_frame_ref_mask-Shrinks,
}
use goh.Dpb.Marking.Operations.{
  apply_mmco-Shrinks, drop_one-Shrinks, remove_invalid_gap_short_refs-Shrinks, slide_window-Shrinks,
}
use mathlib.Core.Path.{subst}
use goh.Dpb.Control.{Applied, unapplied, apply_mmco}
use goh.Dpb.Marking.Resets.{AppliedCleared, Cleared, IsDistinct-cleared, apply_mmco-AppliedCleared}

clear-short : (f : FrameId) (d : Dpb) → (clear_frame_ref_mask_if_unreferenced f d).short ≡ d.short
unfolding clear_frame_ref_mask_if_unreferenced set_frame_ref_mask
clear-short f d = by (frame_is_short f d || frame_is_long f d)
  where
    by : (b : Bool) → (if b then d else set_frame_ref_mask f 0 d).short ≡ d.short
    by true = refl
    by false = refl

pub remove_short_at_index-short :
    (i : ℕ) (f : FrameId) (d : Dpb)
    → get_elem? d.short i ≡ some f
    → (remove_short_at_index i d).short ≡ remove_at i d.short
unfolding remove_short_at_index
remove_short_at_index-short i f d e =
    rw (e, remove_short_at_index) (clear-short f (record d { short = remove_at i d.short }))

remove_short_by_frame_num-NoNum :
    (num : ℕ) (d : Dpb)
    → IsDistinct d.frames d.short
    → NoNum d.frames num (remove_short_by_frame_num num d).short
unfolding remove_short_by_frame_num
remove_short_by_frame_num-NoNum num d h =
    elim (Option-cases (first_place (has_frame_num d num) 0 d.short)) [
      | inl e ↦ rw (e, remove_short_by_frame_num) (no_first_place d num 0 d.short e)
      | inr ((j, f), e) ↦
          let (k, place, none_left, there) = remove_first_place d num 0 d.short j f h e in
          let j_k : j ≡ k = omega (arith, place) in
          let short_now : (clear_frame_ref_mask_if_unreferenced f (remove_short_at_index j d)).short
              ≡ remove_at k d.short =
            clear-short f (remove_short_at_index j d)
            ∙ rw j_k (remove_short_at_index-short k f d there) in
          rw (e, remove_short_by_frame_num) (rw short_now none_left)
    ]

-- The frame is put in front, where no other has its number.
front-IsDistinct :
    (f : FrameId) (d : Dpb)
    → IsDistinct d.frames d.short
    → IsDistinct d.frames (f ∷ (remove_short_by_frame_num (d.frames f).frame_num d).short)
front-IsDistinct f d h = (
  remove_short_by_frame_num-NoNum (d.frames f).frame_num d h,
  IsDistinct-Shrunk d.frames (remove_short_by_frame_num-Shrinks (d.frames f).frame_num d).shorter h,
)

-- The buffer that a call returns.
abbrev Stays : Result (Unit {0}) × Dpb → Type 0
Stays r = IsDistinct r.1.frames r.1.short

Stays-if :
    (b : Bool) (x y : Result (Unit {0}) × Dpb) → Stays x → Stays y → Stays (if b then x else y)
Stays-if true x y s t = s
Stays-if false x y s t = t

assign_current-Stays :
    (f : FrameId) (sh : SliceHeader) (second : Bool) (d : Dpb)
    → IsDistinct d.frames d.short
    → Stays (assign_current f sh second d)
unfolding assign_current
assign_current-Stays f sh true d h =
    let mask = bit_or (frame_ref_mask f d) sh.picture_structure in
    let merged = IsDistinct-Shrinks (set_frame_ref_mask-Shrinks f mask d) h in
    Stays-if (is_at f (get_elem? d.short 0)) _ _ merged (Stays-if (frame_is_long f d) _ _ h merged)
assign_current-Stays f sh false d h =
    let taken = remove_short_by_frame_num (d.frames f).frame_num d in
    let mask = simple_reference_mask sh.picture_structure in
    let pushed : Dpb = record taken { short = f ∷ taken.short } in
    let kept = remove_short_by_frame_num-Shrinks (d.frames f).frame_num d in
    IsDistinct-Shrinks (set_frame_ref_mask-Shrinks f mask pushed) (
      subst (λ (frames : FrameId → Frame). IsDistinct frames (f ∷ taken.short)) (sym kept.kept)
        (front-IsDistinct f d h))

limit_refs-Stays :
    (f : FrameId) (sh : SliceHeader) (max_refs : ℕ) (d : Dpb)
    → IsDistinct d.frames d.short
    → Stays (limit_refs f sh max_refs d)
unfolding limit_refs
limit_refs-Stays f sh max_refs d h =
    let num = (d.frames f).frame_num in
    let gaps = remove_invalid_gap_short_refs-Shrinks num sh in
    Stays-if (ltb max_refs (ref_count d)) _ _
      (IsDistinct-Shrinks (Shrinks-trans (drop_one-Shrinks d) (gaps (drop_one d))) h)
      (IsDistinct-Shrinks (gaps d) h)

limit_if_ok-Stays :
    (f : FrameId) (sh : SliceHeader) (max_refs : ℕ) (r : Result (Unit {0}) × Dpb)
    → Stays r
    → Stays (limit_if_ok f sh max_refs r)
limit_if_ok-Stays f sh max_refs (ok u, d) h = limit_refs-Stays f sh max_refs d h
limit_if_ok-Stays f sh max_refs (err e, d) h = h
limit_if_ok-Stays f sh max_refs (panic, d) h = h

mark_reference-Stays :
    (f : FrameId) (sh : SliceHeader) (nal_ref_idc : ℕ) (second : Bool) (a : Applied) (d : Dpb)
    → IsDistinct d.frames d.short
    → Stays (mark_reference f sh nal_ref_idc second a d)
unfolding mark_reference
mark_reference-Stays f sh nal_ref_idc second a d h =
    let slid = slide_window sh second (max_refs_of sh) d in
    let after = IsDistinct-Shrinks (slide_window-Shrinks sh second (max_refs_of sh) d) h in
    Stays-if (nal_ref_idc == 0) _ _ h (
      Stays-if (ltb max_short_refs (max_refs_of sh)) _ _ h (
        limit_if_ok-Stays f sh (max_refs_of sh) _ (
          Stays-if a.current_ref_assigned _ _ after (assign_current-Stays f sh second slid after))))

note_reset-IsDistinct :
    (f : FrameId) (a : Applied) (d : Dpb)
    → Cleared a d
    → IsDistinct d.frames d.short
    → IsDistinct (note_reset f a.reset_frame_num d).frames (note_reset f a.reset_frame_num d).short
note_reset-IsDistinct f a d (inl unset) h = rw (unset, note_reset) h
note_reset-IsDistinct f a d (inr none_left) h = by a.reset_frame_num
  where
    by : (b : Bool) → IsDistinct (note_reset f b d).frames (note_reset f b d).short
    by true = IsDistinct-cleared (note_reset f true d).frames d.short none_left
    by false = h

mark_if_applied-Stays :
    (f : FrameId) (sh : SliceHeader) (nal_ref_idc : ℕ) (second : Bool) (r : Result Applied × Dpb)
    → AppliedCleared r
    → IsDistinct r.1.frames r.1.short
    → Stays (mark_if_applied f sh nal_ref_idc second r)
mark_if_applied-Stays f sh nal_ref_idc second (ok a, d) c h =
    mark_reference-Stays f sh nal_ref_idc second a (note_reset f a.reset_frame_num d)
      (note_reset-IsDistinct f a d c h)
mark_if_applied-Stays f sh nal_ref_idc second (err e, d) c h = h
mark_if_applied-Stays f sh nal_ref_idc second (panic, d) c h = h

reset_refs-Shrinks : (d : Dpb) → Shrinks d (reset_refs d)
unfolding reset_refs
reset_refs-Shrinks d = record { kept = refl; shorter = emptied }

mark_refs-Stays :
    (f : FrameId) (sh : SliceHeader) (nal_ref_idc : ℕ) (d : Dpb)
    → IsDistinct d.frames d.short
    → Stays (mark_refs f sh nal_ref_idc d)
unfolding mark_refs
mark_refs-Stays f sh nal_ref_idc d h =
    let applied = λ (x : Dpb). apply_mmco f sh sh.mmco unapplied x in
    let cleared = λ (x : Dpb). apply_mmco-AppliedCleared f sh sh.mmco unapplied x (inl refl) in
    let shrinks = λ (x : Dpb). apply_mmco-Shrinks f sh sh.mmco unapplied x in
    Stays-if sh.idr _ _
      (mark_if_applied-Stays f sh nal_ref_idc false (applied (reset_refs d))
        (cleared (reset_refs d))
        (IsDistinct-Shrinks (Shrinks-trans (reset_refs-Shrinks d) (shrinks (reset_refs d))) h))
      (mark_if_applied-Stays f sh nal_ref_idc (second_field_ref f sh d) (applied d) (cleared d)
        (IsDistinct-Shrinks (shrinks d) h))

-- markDecodedFrame keeps the frame numbers of the short-term references distinct, whatever the
-- slice header asks for and whatever it returns, if they were, and the frame was none of them or
-- had the frame number of the header, as the frame of a second field has.
pub mark_decoded_frame-IsDistinct :
    (f : FrameId) (sh : SliceHeader) (nal_ref_idc : ℕ) (d : Dpb)
    → IsMarkable f sh d
    → IsDistinct
        (mark_decoded_frame f sh nal_ref_idc d).1.frames
        (mark_decoded_frame f sh nal_ref_idc d).1.short
unfolding mark_decoded_frame finish_frame_poc
mark_decoded_frame-IsDistinct f sh nal_ref_idc d h =
    mark_refs-Stays f sh nal_ref_idc
      (update_frame f (λ frame. record frame { frame_num = sh.frame_num }) d)
      (take_num-IsDistinct f sh d h)
