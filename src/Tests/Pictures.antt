-- ===== src/Tests/Pictures.antt =====
-- A buffer with two short-term references and two waiting pictures.
use goh.Base.{
  All, List, [], arith, false, if◌then◌else◌, inl, inr, length, none, refl, replicate, some, true,
  ℕ, ◌*◌, ◌++◌, ◌-◌, ◌==◌, ◌∷◌, ◌≡◌, ◌⊎◌,
}
use goh.Base.Int.{negsuc, pos, ℤ, ◌+ℤ◌, ◌-ℤ◌}
use goh.Dpb.Marking.Distinct.{IsMarkable, IsDistinct}
use goh.Dpb.{Dpb, Frame, FrameId, PocContext, SliceHeader, min_int32}
use goh.Dpb.Output.Flush.{IsSorted, count}
use goh.Dpb.Marking.{
  assign_current, mark_decoded_frame, mark_reference, mark_refs, max_refs_of, slide_window,
  finish_frame_poc, limit_refs,
}
use goh.Dpb.Output.{drain_output_frames}
use goh.Dpb.Output.Sorted.{drain_output_frames-IsSorted}
use goh.Dpb.Marking.Numbers.{mark_decoded_frame-IsDistinct}
use goh.Dpb.Marking.Window.{Fits, mark_decoded_frame-ref_count}
use goh.Result.{ok}
use goh.Dpb.Refs.{
  ref_count, clear_frame_ref_mask_if_unreferenced, frame_is_long, frame_is_short, invalid_gap_loop,
  remove_invalid_gap_short_refs, remove_short_at_index, remove_short_by_frame_num,
  set_frame_ref_mask, default_mask, find_short_by_frame_num_and_structure,
  frame_has_reference_structure, frame_ref_mask, pic_num_extract,
}
use goh.Dpb.Control.{apply_mmco}
use goh.Dpb.Poc.{FieldPocs, PocSps, choose_msb, init_poc, poc_type_0}
use goh.Dpb.Poc.Counts.{IsBehind, init_poc-IsNearest}
use goh.Dpb.Poc.Nearest.{IsNearest}
use goh.Dpb.RefLists.Descending.{Among, Covered, Descends, Exceeds}
use goh.Dpb.RefLists.Endless.{HasLeast, sorted_loop_endless}
use goh.Dpb.RefLists.Ordered.{IsUsual, add_sorted_short_refs-Descends}
use goh.Dpb.RefLists.{add_sorted_short_refs, nearest_from, sorted_loop}
use goh.Dpb.RefMods.Named.{IsFramed, named}
use goh.Dpb.RefMods.{
  ListHeader, RefEntry, apply_ref_modifications, entry_of, frame_current_poc, modification,
  short_target,
}
use goh.Dpb.RefMods.Applied.{apply_ref_modifications-named}

abbrev pub frame_of : ℕ → Frame
frame_of f = record {
  frame_num = f;
  top_poc = pos (2 * (10 - f));
  bottom_poc = pos (2 * (10 - f));
  poc = pos (2 * (10 - f));
  idr_key_frame = false;
  mmco_reset = false;
  recovered = 1;
  invalid_gap = false;
}

abbrev pub at_start : PocContext
at_start = record {
  poc_lsb = pos 0;
  poc_msb = pos 0;
  delta_poc_bottom = pos 0;
  delta_poc_0 = pos 0;
  delta_poc_1 = pos 0;
  frame_num = pos 0;
  prev_poc_msb = pos 0;
  prev_poc_lsb = pos 0;
  frame_num_offset = pos 0;
  prev_frame_num_offset = pos 0;
  prev_frame_num = pos 0;
}

abbrev pub two_refs : Dpb
two_refs = record {
  frames = frame_of;
  short = 2 ∷ 1 ∷ [];
  long = replicate 16 none;
  ref_mask = λ f. none;
  poc = at_start;
  delayed = 1 ∷ 2 ∷ [];
  has_b_frames = 0;
  last_pocs = replicate 16 (pos 0);
  last_pocs_init = false;
  next_outputed_poc = pos 0;
  next_outputed_valid = false;
  frame_recovered = 0;
}

abbrev pub third_picture : SliceHeader
third_picture = record {
  idr = false;
  picture_structure = 3;
  frame_num = 3;
  slice_is_b = false;
  explicit_ref_marking = false;
  mmco = [];
  ref_frame_count = 2;
  log2_max_frame_num = 4;
  bitstream_restriction = false;
  num_reorder_frames = pos 0;
}

-- The window slides.
slides :
    ((mark_decoded_frame 3 third_picture 1 two_refs).0 ≡ ok tt)
    × ((mark_decoded_frame 3 third_picture 1 two_refs).1.short ≡ 3 ∷ 2 ∷ [])
unfolding mark_decoded_frame mark_refs mark_reference apply_mmco slide_window assign_current
    limit_refs ref_count set_frame_ref_mask remove_short_by_frame_num remove_short_at_index
    clear_frame_ref_mask_if_unreferenced frame_is_short frame_is_long finish_frame_poc
    remove_invalid_gap_short_refs invalid_gap_loop
slides = (refl, refl)

two_refs-IsMarkable : IsMarkable 3 third_picture two_refs
two_refs-IsMarkable = record {
  distinct = ((omega arith, tt), (tt, tt));
  new_or_numbered = inl (omega arith, (omega arith, tt));
}

mark_decoded_frame-IsDistinct_example :
    IsDistinct
      (mark_decoded_frame 3 third_picture 1 two_refs).1.frames
      (mark_decoded_frame 3 third_picture 1 two_refs).1.short
mark_decoded_frame-IsDistinct_example =
    mark_decoded_frame-IsDistinct 3 third_picture 1 two_refs two_refs-IsMarkable

-- The second field of the newest reference joins its frame.
abbrev second_field : SliceHeader
second_field = record third_picture { picture_structure = 2; frame_num = 2 }

joins :
    ((mark_decoded_frame 2 second_field 1 two_refs).0 ≡ ok tt)
    × ((mark_decoded_frame 2 second_field 1 two_refs).1.short ≡ 2 ∷ 1 ∷ [])
unfolding mark_decoded_frame mark_refs mark_reference apply_mmco slide_window assign_current
    limit_refs ref_count set_frame_ref_mask remove_short_by_frame_num remove_short_at_index
    clear_frame_ref_mask_if_unreferenced frame_is_short frame_is_long finish_frame_poc
    remove_invalid_gap_short_refs invalid_gap_loop frame_ref_mask default_mask
joins = (refl, refl)

joined-IsDistinct :
    IsDistinct
      (mark_decoded_frame 2 second_field 1 two_refs).1.frames
      (mark_decoded_frame 2 second_field 1 two_refs).1.short
joined-IsDistinct =
    mark_decoded_frame-IsDistinct 2 second_field 1 two_refs
      (record { distinct = ((omega arith, tt), (tt, tt)); new_or_numbered = inr refl })

mark_decoded_frame-ref_count_example :
    Fits (max_refs_of third_picture) (mark_decoded_frame 3 third_picture 1 two_refs)
unfolding ref_count
mark_decoded_frame-ref_count_example =
    mark_decoded_frame-ref_count 3 third_picture 1 two_refs (omega arith)
      (record { no_idr = refl; no_operations = refl; not_explicit = refl; not_second = inl refl })
      (omega arith) (omega arith, inl (omega arith))

drain_output_frames-IsSorted_example :
    (shown : List FrameId) × (after : Dpb) × (drain_output_frames true two_refs
      ≡ some (ok shown, after))
    × (after.delayed ≡ [])
    × IsSorted frame_of shown
    × ((g : FrameId) → count g shown ≡ count g two_refs.delayed)
drain_output_frames-IsSorted_example =
    drain_output_frames-IsSorted two_refs (refl, (refl, tt)) (omega arith, (omega arith, tt))

abbrev small_sps : PocSps
small_sps = record {
  poc_type = 0;
  log2_max_frame_num = 4;
  log2_max_poc_lsb = 4;
  poc_cycle_length = 0;
  offset_for_ref_frame = [];
  offset_for_non_ref_pic = pos 0;
  offset_for_top_to_bottom_field = pos 0;
}

-- The low part is 1 where it was 15, of 16.
abbrev wrapped : PocContext
wrapped = record at_start { poc_lsb = pos 1; prev_poc_msb = negsuc 31; prev_poc_lsb = pos 15 }

wrapped-IsBehind : IsBehind 3 1 15 small_sps wrapped
wrapped-IsBehind = record {
  kind = refl;
  bits = refl;
  few = omega arith;
  lsb = refl;
  prev_lsb = refl;
  in_range = (omega arith, omega arith);
  far = record { over = omega arith; under = omega arith };
  near_bottom = (omega arith, omega arith);
}

wrapped_counts :
    (init_poc small_sps 3 1 (pos 0, pos 0) wrapped).0 ≡ ok ((negsuc 14, negsuc 14), negsuc 14)
unfolding init_poc poc_type_0 choose_msb ◌+ℤ◌ ◌-ℤ◌
wrapped_counts = refl

init_poc-IsNearest_example :
    (msb : ℤ) × (counts : FieldPocs) × (least : ℤ) × IsNearest 8 1 15 (negsuc 31) msb
    × ((init_poc small_sps 3 1 (pos 0, pos 0) wrapped).0 ≡ ok (counts, least))
    × ((init_poc small_sps 3 1 (pos 0, pos 0) wrapped).1.poc_msb ≡ msb)
    × (counts.0 ≡ msb +ℤ pos 1)
    × (counts.1 ≡ msb +ℤ pos 1 +ℤ pos 0)
init_poc-IsNearest_example =
    init_poc-IsNearest 3 1 15 3 1 (pos 0, pos 0) small_sps wrapped wrapped-IsBehind

usual : IsUsual two_refs
usual = ((omega arith, (omega arith, tt)), (omega arith, (omega arith, tt)))

in_order : add_sorted_short_refs two_refs true (pos 17) [] ≡ some (2 ∷ [])
unfolding add_sorted_short_refs sorted_loop nearest_from ◌-ℤ◌
in_order = refl

add_sorted_short_refs-Descends_example :
    (refs : List FrameId) × (add_sorted_short_refs two_refs true (pos 17) [] ≡ some ([] ++ refs))
    × Descends frame_of (pos 17) refs
    × All (λ r. Among frame_of r two_refs.short) refs
    × All
        (λ x. Exceeds frame_of (frame_of x).poc (pos 17) ⊎ Covered frame_of (frame_of x).poc refs)
        two_refs.short
add_sorted_short_refs-Descends_example = add_sorted_short_refs-Descends two_refs (pos 17) [] usual

-- The counts of an `int32` begin here.
abbrev least_refs : Dpb
least_refs = record two_refs {
  frames = λ f. record (frame_of f) { poc = if f == 1 then min_int32 else pos 0 };
}

sorted_loop_endless_example : sorted_loop 3 least_refs true (pos 17) [] ≡ none
unfolding HasLeast
sorted_loop_endless_example =
    sorted_loop_endless 3 least_refs (pos 17) [] (inr (inl refl))
      (record { not_above = omega arith; not_below = omega arith })

abbrev third_list : ListHeader
third_list = record {
  picture_structure = 3;
  ref_count = 2;
  curr_pic_num = 3;
  max_pic_num = 16;
  modifications = record { op = 0; val = 1 } ∷ [];
}

abbrev entry_for : ℕ → RefEntry
entry_for f = record {
  frame = some f;
  pic_id = f;
  is_long = false;
  picture_structure = 3;
  poc = pos (2 * (10 - f));
}

first_named : named third_list two_refs 3 third_list.modifications ≡ ok (entry_for 1 ∷ [])
unfolding named modification short_target find_short_by_frame_num_and_structure pic_num_extract
    entry_of frame_current_poc frame_has_reference_structure frame_ref_mask default_mask
first_named = refl

apply_ref_modifications-named_example :
    (rest : List RefEntry) × (apply_ref_modifications third_list two_refs
        (entry_for 2 ∷ entry_for 1 ∷ [])
      ≡ ok ((entry_for 1 ∷ []) ++ rest))
    × (length (entry_for 1 ∷ []) ≡ 1)
    × (length ((entry_for 1 ∷ []) ++ rest) ≡ 2)
    × All IsFramed ((entry_for 1 ∷ []) ++ rest)
apply_ref_modifications-named_example =
    apply_ref_modifications-named third_list two_refs (entry_for 2) (entry_for 1 ∷ [])
      (entry_for 1 ∷ []) (omega arith, omega arith) (omega arith, omega arith) refl first_named
