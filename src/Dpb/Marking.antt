-- ===== src/Dpb/Marking.antt =====
-- internal/h264/simple_dpb.go: reference marking of a decoded picture, with the sliding window. A call
-- returns its result and the buffer, which keeps what was done before an error.
pub mod Shrinks
pub mod Operations
pub mod Distinct
pub mod Resets
pub mod Numbers
pub mod Counts
pub mod Window
use goh.Base.{
  Bool, bit_or, false, get_elem?, if◌then◌else◌, leb, length, ltb, not, true, ℕ, ◌!=◌, ◌&&◌, ◌-◌,
  ◌==◌, ◌||◌, ◌∷◌,
}
use goh.Dpb.{Dpb, FrameId, SliceHeader, max_short_refs, picture_frame, update_frame}
use goh.Dpb.Refs.{
  frame_ref_mask, is_at, remove_short_at_index, remove_short_by_frame_num, set_frame_ref_mask,
  simple_reference_mask, count_long, frame_is_long, frame_is_short, ref_count, remove_first_long,
  remove_invalid_gap_short_refs, reset_refs,
}
use goh.Result.{Result, err, invalid_data, ok, panic, unsupported}
use goh.Dpb.Control.{Applied, apply_mmco, unapplied}

-- `if resetFrameNum { frame.frameNum = 0; frame.mmcoReset = true }`
abbrev pub note_reset : FrameId → Bool → Dpb → Dpb
note_reset f false d = d
note_reset f true d = update_frame f (λ frame. record frame { frame_num = 0; mmco_reset = true }) d

-- `d.short = append(d.short, nil); copy(d.short[1:], ...); d.short[0] = frame`, with its mask.
abbrev pub push_short : FrameId → ℕ → Dpb → Dpb
push_short f mask d = set_frame_ref_mask f mask (record d { short = f ∷ d.short })

-- `if !currentRefAssigned { ... }`
unfoldable pub assign_current : FrameId → SliceHeader → Bool → Dpb → Result (Unit {0}) × Dpb
assign_current f sh second d =
    let merged = set_frame_ref_mask f (bit_or (frame_ref_mask f d) sh.picture_structure) d in
    if second
    then (if is_at f (get_elem? d.short 0)
        then (ok tt, merged)
        else if frame_is_long f d
        then (err invalid_data, d)
        else (ok tt, merged))
    else (
      ok tt,
      push_short f (simple_reference_mask sh.picture_structure)
          (remove_short_by_frame_num (d.frames f).frame_num d),
    )

-- `if d.longCount() != 0 && len(d.short) == 0 { ... } else if len(d.short) != 0 { ... }`
unfoldable pub drop_one : Dpb → Dpb
drop_one d =
    if (count_long d.long != 0) && (length d.short == 0)
    then remove_first_long d
    else if length d.short != 0
    then remove_short_at_index (length d.short - 1) d
    else d

-- The end of `markDecodedFrame`: a buffer with too many references loses one, and is an error.
unfoldable pub limit_refs : FrameId → SliceHeader → ℕ → Dpb → Result (Unit {0}) × Dpb
limit_refs f sh max_refs d =
    let num = (d.frames f).frame_num in
    if ltb max_refs (ref_count d)
    then (err invalid_data, remove_invalid_gap_short_refs num sh (drop_one d))
    else (ok tt, remove_invalid_gap_short_refs num sh d)

abbrev pub limit_if_ok :
    FrameId → SliceHeader → ℕ → Result (Unit {0}) × Dpb → Result (Unit {0}) × Dpb
limit_if_ok f sh max_refs (ok u, d) = limit_refs f sh max_refs d
limit_if_ok f sh max_refs (err e, d) = (err e, d)
limit_if_ok f sh max_refs (panic, d) = (panic, d)

-- `maxRefs`
abbrev pub max_refs_of : SliceHeader → ℕ
max_refs_of sh = if ltb sh.ref_frame_count 1 then 1 else sh.ref_frame_count

-- The sliding window: the oldest short-term reference goes, if the buffer is full.
unfoldable pub slide_window : SliceHeader → Bool → ℕ → Dpb → Dpb
slide_window sh second max_refs d =
    if not sh.explicit_ref_marking
      && (not second && ((length d.short != 0) && leb max_refs (ref_count d)))
    then remove_short_at_index (length d.short - 1) d
    else d

-- `markDecodedFrame` from the test for a picture that is no reference on.
unfoldable pub mark_reference :
    FrameId → SliceHeader → ℕ → Bool → Applied → Dpb → Result (Unit {0}) × Dpb
mark_reference f sh nal_ref_idc second a d =
    if nal_ref_idc == 0
    then (ok tt, d)
    else if ltb max_short_refs (max_refs_of sh)
    then (err unsupported, d)
    else let slid = slide_window sh second (max_refs_of sh) d in
      limit_if_ok f sh (max_refs_of sh)
        (if a.current_ref_assigned then (ok tt, slid) else assign_current f sh second slid)

abbrev pub mark_if_applied :
    FrameId → SliceHeader → ℕ → Bool → Result Applied × Dpb → Result (Unit {0}) × Dpb
mark_if_applied f sh nal_ref_idc second (ok a, d) =
    mark_reference f sh nal_ref_idc second a (note_reset f a.reset_frame_num d)
mark_if_applied f sh nal_ref_idc second (err e, d) = (err e, d)
mark_if_applied f sh nal_ref_idc second (panic, d) = (panic, d)

-- `secondFieldRef`, before it is put out for an IDR picture.
abbrev pub second_field_ref : FrameId → SliceHeader → Dpb → Bool
second_field_ref f sh d =
    (sh.picture_structure != picture_frame)
    && ((frame_is_short f d || frame_is_long f d) && (frame_ref_mask f d != 0))

unfoldable pub mark_refs : FrameId → SliceHeader → ℕ → Dpb → Result (Unit {0}) × Dpb
mark_refs f sh nal_ref_idc d =
    if sh.idr
    then mark_if_applied f sh nal_ref_idc false (apply_mmco f sh sh.mmco unapplied (reset_refs d))
    else mark_if_applied f sh nal_ref_idc (second_field_ref f sh d)
        (apply_mmco f sh sh.mmco unapplied d)

unfoldable pub finish_frame_poc : ℕ → Dpb → Dpb
finish_frame_poc nal_ref_idc d =
    let kept =
      if nal_ref_idc == 0
      then d.poc
      else record d.poc { prev_poc_msb = d.poc.poc_msb; prev_poc_lsb = d.poc.poc_lsb } in
    record d {
      poc = record kept {
        prev_frame_num_offset = d.poc.frame_num_offset;
        prev_frame_num = d.poc.frame_num;
      };
    }

-- The deferred call runs on every return.
unfoldable pub mark_decoded_frame : FrameId → SliceHeader → ℕ → Dpb → Result (Unit {0}) × Dpb
mark_decoded_frame f sh nal_ref_idc d =
    let (result, d') =
      mark_refs f sh nal_ref_idc
        (update_frame f (λ frame. record frame { frame_num = sh.frame_num }) d) in
    (result, finish_frame_poc nal_ref_idc d')

-- `markFrameNumGapFrame`
unfoldable pub mark_gap_frame : FrameId → SliceHeader → Dpb → Result (Unit {0}) × Dpb
mark_gap_frame f sh d =
    if ltb max_short_refs (max_refs_of sh)
    then (err unsupported, d)
    else let slid =
        if (length d.short != 0) && leb (max_refs_of sh) (ref_count d)
        then remove_short_at_index (length d.short - 1) d
        else d in
      let num = (d.frames f).frame_num in
      let pushed = push_short f picture_frame (remove_short_by_frame_num num slid) in
      let limited = if ltb (max_refs_of sh) (ref_count pushed) then drop_one pushed else pushed in
      (ok tt, remove_invalid_gap_short_refs num sh limited)
