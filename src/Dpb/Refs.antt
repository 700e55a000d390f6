-- ===== src/Dpb/Refs.antt =====
-- internal/h264/simple_dpb.go: the lists of short-term and long-term references, and the mask of
-- the fields of a frame that are references.
use goh.Base.{
  Bool, List, Option, [], bit_and, bit_or, bit_xor, false, get_elem?, get_or, if◌then◌else◌, leb,
  length, ltb, map, none, set, some, suc, zero, ℕ, ◌!=◌, ◌%◌, ◌&&◌, ◌+◌, ◌-◌, ◌==◌, ◌^◌, ◌||◌, ◌∷◌,
}
use goh.Base.Int.{◌==ℤ◌}
use goh.Base.Words.{and_not, u32, ◌<<<◌, ◌>>>◌}
use goh.Dpb.{
  Dpb, Frame, FrameId, SliceHeader, max_int32, picture_bottom_field, picture_frame,
  picture_top_field,
}

-- `for _, ref := range refs { if ref == frame { return true } }`
abbrev pub member : FrameId → List FrameId → Bool
member f [] = false
member f (g ∷ gs) = g == f || member f gs

abbrev pub is_at : FrameId → Option FrameId → Bool
is_at f none = false
is_at f (some g) = g == f

abbrev pub member_long : FrameId → List (Option FrameId) → Bool
member_long f [] = false
member_long f (r ∷ rs) = is_at f r || member_long f rs

unfoldable pub frame_is_short : FrameId → Dpb → Bool
frame_is_short f d = member f d.short

unfoldable pub frame_is_long : FrameId → Dpb → Bool
frame_is_long f d = member_long f d.long

-- The mask of a frame that has none in the map: the fields that have an order count.
unfoldable pub default_mask : Frame → ℕ
default_mask frame =
    let mask =
      bit_or (if frame.top_poc ==ℤ max_int32 then 0 else picture_top_field)
        (if frame.bottom_poc ==ℤ max_int32 then 0 else picture_bottom_field) in
    if mask == 0 then picture_frame else mask

unfoldable pub frame_ref_mask : FrameId → Dpb → ℕ
frame_ref_mask f d = elim (d.ref_mask f) [ none ↦ default_mask (d.frames f) | some mask ↦ mask ]

unfoldable pub set_frame_ref_mask : FrameId → ℕ → Dpb → Dpb
set_frame_ref_mask f mask d =
    let entry : Option ℕ = if mask == 0 then none else some (bit_and mask picture_frame) in
    record d { ref_mask = λ g. if g == f then entry else d.ref_mask g }

unfoldable pub clear_frame_ref_mask_if_unreferenced : FrameId → Dpb → Dpb
clear_frame_ref_mask_if_unreferenced f d =
    if frame_is_short f d || frame_is_long f d then d else set_frame_ref_mask f 0 d

unfoldable pub frame_has_reference_structure : FrameId → ℕ → Dpb → Bool
frame_has_reference_structure f structure d =
    if structure == picture_frame
    then bit_and (frame_ref_mask f d) picture_frame == picture_frame
    else bit_and (frame_ref_mask f d) structure != 0

-- `copy(xs[i:], xs[i+1:]); xs = xs[:len(xs)-1]`
abbrev pub remove_at {ℓ} : {A : Type ℓ} → ℕ → List A → List A
remove_at i [] = []
remove_at zero (x ∷ xs) = xs
remove_at (suc i) (x ∷ xs) = x ∷ remove_at i xs

unfoldable pub remove_short_at_index : ℕ → Dpb → Dpb
remove_short_at_index i d = elim (get_elem? d.short i) [
  | none ↦ d
  | some f ↦ clear_frame_ref_mask_if_unreferenced f (record d { short = remove_at i d.short })
]

-- The place of the first frame that passes a test, counted from `i`.
abbrev pub first_place : (FrameId → Bool) → ℕ → List FrameId → Option (ℕ × FrameId)
first_place test i [] = none
first_place test i (f ∷ fs) =
    let later = first_place test (suc i) fs in if test f then some (i, f) else later

abbrev pub has_frame_num : Dpb → ℕ → FrameId → Bool
has_frame_num d num f = (d.frames f).frame_num == num

unfoldable pub remove_short_by_frame_num : ℕ → Dpb → Dpb
remove_short_by_frame_num num d = elim (first_place (has_frame_num d num) 0 d.short) [
  | none ↦ d
  | some (i, f) ↦ clear_frame_ref_mask_if_unreferenced f (remove_short_at_index i d)
]

abbrev pub has_num_and_structure : Dpb → ℕ → ℕ → FrameId → Bool
has_num_and_structure d num structure f =
    has_frame_num d num f && frame_has_reference_structure f structure d

unfoldable pub remove_short_by_frame_num_and_structure : ℕ → ℕ → Dpb → Dpb
remove_short_by_frame_num_and_structure num structure d =
    if structure == picture_frame
    then remove_short_by_frame_num num d
    else elim (first_place (has_num_and_structure d num structure) 0 d.short) [
      | none ↦ d
      | some (i, f) ↦
          let mask = and_not (frame_ref_mask f d) structure in
          if mask == 0
          then clear_frame_ref_mask_if_unreferenced f (remove_short_at_index i d)
          else set_frame_ref_mask f mask d
    ]

unfoldable pub find_short_by_frame_num_and_structure : ℕ → ℕ → Dpb → Option FrameId
find_short_by_frame_num_and_structure num structure d =
    elim (first_place (has_num_and_structure d num structure) 0 d.short) [
      | none ↦ none
      | some (i, f) ↦ some f
    ]

-- `findLongByIndex`: an index out of range has no frame.
unfoldable pub find_long_by_index : ℕ → Dpb → Option FrameId
find_long_by_index i d = get_or d.long i none

abbrev pub clear_option : Option FrameId → Dpb → Dpb
clear_option none d = d
clear_option (some f) d = clear_frame_ref_mask_if_unreferenced f d

-- An index out of range does nothing.
unfoldable pub remove_long_by_index : ℕ → Dpb → Dpb
remove_long_by_index i d =
    clear_option (get_or d.long i none) (record d { long = set d.long i none })

-- Behind the tests that there is a frame with the structure.
abbrev pub drop_long_structure : ℕ → ℕ → FrameId → Dpb → Dpb
drop_long_structure i structure f d =
    if structure == picture_frame
    then remove_long_by_index i d
    else let mask = and_not (frame_ref_mask f d) structure in
      if mask == 0
      then clear_frame_ref_mask_if_unreferenced f (record d { long = set d.long i none })
      else set_frame_ref_mask f mask d

unfoldable pub remove_long_by_index_and_structure : ℕ → ℕ → Dpb → Dpb
remove_long_by_index_and_structure i structure d = elim (get_or d.long i none) [
  | none ↦ d
  | some f ↦
      if frame_has_reference_structure f structure d then drop_long_structure i structure f d else d
]

abbrev pub clear_refs_to : FrameId → List (Option FrameId) → List (Option FrameId)
clear_refs_to f [] = []
clear_refs_to f (r ∷ rs) = (if is_at f r then none else r) ∷ clear_refs_to f rs

unfoldable pub remove_long_refs_for_frame : FrameId → Dpb → Dpb
remove_long_refs_for_frame f d =
    clear_frame_ref_mask_if_unreferenced f (record d { long = clear_refs_to f d.long })

-- The place of the first long-term reference, counted from `i`.
abbrev pub first_long : ℕ → List (Option FrameId) → Option (ℕ × FrameId)
first_long i [] = none
first_long i (none ∷ rs) = first_long (suc i) rs
first_long i (some f ∷ rs) = some (i, f)

unfoldable pub remove_first_long : Dpb → Dpb
remove_first_long d = elim (first_long 0 d.long) [
  | none ↦ d
  | some (i, f) ↦ clear_frame_ref_mask_if_unreferenced f (record d { long = set d.long i none })
]

abbrev pub count_long : List (Option FrameId) → ℕ
count_long [] = 0
count_long (none ∷ rs) = count_long rs
count_long (some f ∷ rs) = suc (count_long rs)

unfoldable pub ref_count : Dpb → ℕ
ref_count d = length d.short + count_long d.long

-- `resetRefs`
unfoldable pub reset_refs : Dpb → Dpb
reset_refs d = record d { short = []; long = map (λ r. none) d.long; ref_mask = λ f. none }

abbrev pub simple_reference_mask : ℕ → ℕ
simple_reference_mask structure =
    if (structure == picture_top_field) || (structure == picture_bottom_field)
    then structure
    else picture_frame

-- `simplePicNumExtract`: the number and the structure that it names.
unfoldable pub pic_num_extract : ℕ → ℕ → ℕ × ℕ
pic_num_extract structure pic_num = if structure == picture_frame then (pic_num, structure) else (
  pic_num >>> 1,
  if bit_and pic_num 1 == 0 then bit_xor structure picture_frame else structure,
)

-- `avZeroExtendSimple(int32(a) - int32(b), bits)`
unfoldable pub zero_extended_difference : ℕ → ℕ → ℕ → ℕ
zero_extended_difference a b bits =
    let v = u32 (a + (2 ^ 32 - b % 2 ^ 32)) in
    if bits == 0 then 0 else if leb 32 bits then v else bit_and v ((1 <<< bits) - 1)

-- The loop of `removeInvalidGapShortRefs`: an index stays where a frame was taken out. The rounds
-- are the items left.
unfoldable pub invalid_gap_loop : ℕ → ℕ → ℕ → SliceHeader → Dpb → Dpb
invalid_gap_loop zero i num sh d = d
invalid_gap_loop (suc rounds) i num sh d = elim (get_elem? d.short i) [
  | none ↦ d
  | some f ↦
      let gone =
        (d.frames f).invalid_gap
        && ltb sh.ref_frame_count
            (zero_extended_difference num (d.frames f).frame_num sh.log2_max_frame_num) in
      let stay = invalid_gap_loop rounds (i + 1) num sh d in
      let removed = invalid_gap_loop rounds i num sh (remove_short_at_index i d) in
      if gone then removed else stay
]

unfoldable pub remove_invalid_gap_short_refs : ℕ → SliceHeader → Dpb → Dpb
remove_invalid_gap_short_refs num sh d = invalid_gap_loop (length d.short) 0 num sh d
