-- ===== src/Dpb/Control.antt =====
-- internal/h264/simple_dpb.go: the memory management control operations, `applyMMCO`. A call returns
-- its result and the buffer, which keeps what was done before an error.
use goh.Base.{
  Bool, List, Option, [], bit_or, false, get_elem?, get_or, if◌then◌else◌, leb, ltb, map, none, set,
  some, suc, true, zero, ℕ, ◌!=◌, ◌+◌, ◌-◌, ◌∷◌,
}
use goh.Base.Int.{pos}
use goh.Dpb.{
  Dpb, FrameId, Mmco, Opcode, SliceHeader, min_int32, max_long_refs, current_to_long,
  long_to_unused, mmco_end, other, reset_all, set_max_long, short_to_long, short_to_unused,
}
use goh.Dpb.Refs.{
  find_long_by_index, find_short_by_frame_num_and_structure, frame_ref_mask, is_at,
  remove_long_by_index, remove_long_refs_for_frame, remove_short_at_index,
  remove_short_by_frame_num, set_frame_ref_mask, simple_reference_mask, pic_num_extract,
  remove_long_by_index_and_structure, remove_short_by_frame_num_and_structure, reset_refs,
}
use goh.Result.{index, Error, Result, err, invalid_data, ok, unsupported}

-- What `applyMMCO` returns beside the error: `resetFrameNum` and `currentRefAssigned`.
pub record Applied : Type 0 where
  pub reset_frame_num : Bool
  pub current_ref_assigned : Bool

-- `resetLastPOCs`
unfoldable pub reset_last_pocs : Dpb → Dpb
reset_last_pocs d = record d { last_pocs = map (λ p. min_int32) d.last_pocs; last_pocs_init = true }

-- `mmcoShort2Long` where the picture is among the short-term references.
abbrev pub move_to_long : ℕ → ℕ → ℕ → FrameId → Dpb → Dpb
move_to_long num structure index f d =
    let freed = if is_at f (get_or d.long index none) then d else remove_long_by_index index d in
    let mask = frame_ref_mask f freed in
    let taken = remove_short_by_frame_num num freed in
    set_frame_ref_mask f (bit_or mask structure)
      (record taken { long = set taken.long index (some f) })

-- `mmcoShort2Long` behind the test of its index.
abbrev pub short_to_long_ref : ℕ → ℕ → ℕ → Dpb → Option Dpb
short_to_long_ref num structure index d =
    elim (find_short_by_frame_num_and_structure num structure d) [
      | some f ↦ some (move_to_long num structure index f d)
      | none ↦ elim (find_long_by_index index d) [
        | none ↦ none
        | some g ↦ if (d.frames g).frame_num != num then none else some d
      ]
    ]

-- `mmcoLong` behind the test of its index.
abbrev pub make_long : ℕ → ℕ → FrameId → Dpb → Dpb
make_long structure index f d =
    let shortened = if is_at f (get_elem? d.short 0) then remove_short_at_index 0 d else d in
    let cleared = remove_long_refs_for_frame f shortened in
    let replaced =
      if is_at f (get_or cleared.long index none)
      then cleared
      else let freed = remove_long_by_index index cleared in
        record freed { long = set freed.long index (some f) } in
    set_frame_ref_mask f (bit_or (frame_ref_mask f replaced) (simple_reference_mask structure))
      replaced

-- `for j := longArg; j < simpleMaxLongRefs; j++ { d.removeLongByIndex(j) }`, by the rounds left.
unfoldable pub remove_longs_from : ℕ → ℕ → Dpb → Dpb
remove_longs_from zero j d = d
remove_longs_from (suc rounds) j d = remove_longs_from rounds (j + 1) (remove_long_by_index j d)

-- What one operation leads to: the end of the list, an error, or the next one.
pub data Outcome : Type 0 where
  stop : Outcome
  fault : Error → Outcome
  next : Applied → Dpb → Outcome

abbrev pub next_or_invalid : Applied → Option Dpb → Outcome
next_or_invalid a none = fault invalid_data
next_or_invalid a (some d) = next a d

-- The cases of the switch in `applyMMCO`.
unfoldable pub apply_op : Opcode → FrameId → SliceHeader → Mmco → Applied → Dpb → Outcome
apply_op mmco_end f sh m a d = stop
apply_op short_to_unused f sh m a d =
    let (num, structure) = pic_num_extract sh.picture_structure m.short_pic_num in
    next a (remove_short_by_frame_num_and_structure num structure d)
apply_op short_to_long f sh m a d =
    if leb max_long_refs m.long_arg
    then fault invalid_data
    else let (num, structure) = pic_num_extract sh.picture_structure m.short_pic_num in
      next_or_invalid a (short_to_long_ref num structure m.long_arg d)
apply_op long_to_unused f sh m a d =
    let (index, structure) = pic_num_extract sh.picture_structure m.long_arg in
    if leb max_long_refs index
    then fault invalid_data
    else next a (remove_long_by_index_and_structure index structure d)
apply_op current_to_long f sh m a d =
    if leb max_long_refs m.long_arg
    then fault invalid_data
    else next (record a { current_ref_assigned = true })
        (make_long sh.picture_structure m.long_arg f d)
apply_op set_max_long f sh m a d =
    if ltb max_long_refs m.long_arg
    then fault invalid_data
    else next a (remove_longs_from (max_long_refs - m.long_arg) m.long_arg d)
apply_op reset_all f sh m a d =
    let cleared = reset_refs d in
    next (record a { reset_frame_num = true })
      (reset_last_pocs (record cleared { poc = record cleared.poc { frame_num = pos 0 } }))
apply_op other f sh m a d = fault unsupported

-- The loop of `applyMMCO`.
unfoldable pub apply_mmco : FrameId → SliceHeader → List Mmco → Applied → Dpb → Result Applied × Dpb
apply_mmco f sh [] a d = (ok a, d)
apply_mmco f sh (m ∷ ms) a d = elim (apply_op m.opcode f sh m a d) [
  | stop ↦ (ok a, d)
  | fault e ↦ (err e, d)
  | next a' d' ↦ apply_mmco f sh ms a' d'
]

abbrev pub unapplied : Applied
unapplied = record { reset_frame_num = false; current_ref_assigned = false }
