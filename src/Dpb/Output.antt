-- ===== src/Dpb/Output.antt =====
-- internal/h264/simple_dpb.go: the pictures that wait for their turn in display order.
pub mod Choice
pub mod Flush
pub mod Sorted
use goh.Base.{
  Bool, List, Option, [], bit_and, bit_or, false, get_elem?, get_or, if◌then◌else◌, leb, length,
  ltb, none, not, set, some, suc, true, zero, ℕ, ◌!=◌, ◌&&◌, ◌++◌, ◌+◌, ◌-◌, ◌==◌, ◌||◌, ◌∷◌,
}
use goh.Base.Int.{ltb_ℤ, pos, pos_part, ℤ, ◌-ℤ◌}
use goh.Dpb.{Dpb, Frame, FrameId, SliceHeader, max_dpb_frames, min_int32, update_frame}
use goh.Result.{Result, err, invalid_data, ok, unsupported}
use goh.Dpb.Refs.{remove_at}
use goh.Dpb.Control.{reset_last_pocs}

-- `ensureLastPOCs`
unfoldable pub ensure_last_pocs : Dpb → Dpb
ensure_last_pocs d = if d.last_pocs_init then d else reset_last_pocs d

abbrev pub poc_at : List ℤ → ℕ → ℤ
poc_at pocs i = get_or pocs i min_int32

-- `if i != 0 { d.lastPOCs[i-1] = p }`
abbrev pub set_before : ℕ → ℤ → List ℤ → List ℤ
set_before zero p pocs = pocs
set_before (suc i) p pocs = set pocs i p

-- The loop of `notePOCReorder` from index `i` on, by the items left: the order counts and the
-- index at the break.
unfoldable pub note_loop : ℕ → ℕ → ℤ → List ℤ → ℕ × List ℤ
note_loop zero i cur pocs = (i, set_before i cur pocs)
note_loop (suc rest) i cur pocs =
    let later = note_loop rest (i + 1) cur (set_before i (poc_at pocs i) pocs) in
    if ltb_ℤ cur (poc_at pocs i) then (i, set_before i cur pocs) else later

-- Whether a B picture, or a gap at the end of the order counts, asks for a delay.
abbrev pub wants_delay : Bool → List ℤ → Bool
wants_delay is_b pocs =
    is_b
    || (ltb_ℤ min_int32 (poc_at pocs (max_dpb_frames - 2))
        && ltb_ℤ (pos 2) (poc_at pocs (max_dpb_frames - 1) -ℤ poc_at pocs (max_dpb_frames - 2)))

unfoldable pub note_poc_reorder : ℤ → Bool → Dpb → ℕ × Dpb
note_poc_reorder cur is_b d =
    let ready = ensure_last_pocs d in
    let (i, pocs) = note_loop max_dpb_frames 0 cur ready.last_pocs in
    let out_of_order = max_dpb_frames - i in
    (
      if wants_delay is_b pocs && ltb out_of_order 1 then 1 else out_of_order,
      record ready { last_pocs = pocs },
    )

-- `updateReorderDelay` behind its first test.
abbrev pub delay_by : FrameId → SliceHeader → ℕ × Dpb → Dpb
delay_by f sh (out_of_order, d) =
    let fresh = reset_last_pocs d in
    let restarted =
      update_frame f (λ frame. record frame { mmco_reset = true })
        (record fresh { last_pocs = set fresh.last_pocs 0 (d.frames f).poc }) in
    if out_of_order == max_dpb_frames
    then restarted
    else if ltb d.has_b_frames out_of_order && not sh.bitstream_restriction
    then record d { has_b_frames = out_of_order }
    else d

unfoldable pub update_reorder_delay : FrameId → SliceHeader → Dpb → Dpb
update_reorder_delay f sh d =
    let raised =
      if sh.bitstream_restriction && ltb_ℤ (pos d.has_b_frames) sh.num_reorder_frames
      then record d { has_b_frames = pos_part sh.num_reorder_frames }
      else d in
    delay_by f sh (note_poc_reorder (raised.frames f).poc sh.slice_is_b raised)

unfoldable pub hold_output_frame : FrameId → SliceHeader → Dpb → Result (Unit {0}) × Dpb
hold_output_frame f sh d =
    let d' = update_reorder_delay f sh d in
    if ltb max_dpb_frames d'.has_b_frames
    then (err unsupported, d')
    else if ltb max_dpb_frames (length d'.delayed)
    then (err invalid_data, d')
    else (ok tt, record d' { delayed = d'.delayed ++ (f ∷ []) })

abbrev pub starts_sequence : Frame → Bool
starts_sequence frame = frame.idr_key_frame || frame.mmco_reset

-- The loop of `nextOutputFrameIndex` at index `i`, with the frame chosen so far and its index.
unfoldable pub next_from : (FrameId → Frame) → ℕ → ℕ → FrameId → List FrameId → ℕ
next_from frames i best chosen [] = best
next_from frames i best chosen (f ∷ fs) =
    let later =
      if ltb_ℤ (frames f).poc (frames chosen).poc
      then next_from frames (suc i) i f fs
      else next_from frames (suc i) best chosen fs in
    if starts_sequence (frames f) then best else later

abbrev pub next_in : (FrameId → Frame) → List FrameId → ℕ
next_in frames [] = 0
next_in frames (f ∷ fs) = if (frames f).mmco_reset then 0 else next_from frames 1 0 f fs

unfoldable pub next_output_frame_index : Dpb → ℕ
next_output_frame_index d = next_in d.frames d.delayed

-- `simpleFrameRecoveredSEI`
abbrev pub recovered_sei : ℕ
recovered_sei = 2

-- `markOutputFrameRecovered`
unfoldable pub mark_output_frame_recovered : FrameId → Dpb → Bool × Dpb
mark_output_frame_recovered f d =
    let seen = bit_or d.frame_recovered (d.frames f).recovered in
    let now = bit_or (d.frames f).recovered (bit_and seen recovered_sei) in
    (
      now != 0,
      update_frame f (λ frame. record frame { recovered = now })
          (record d { frame_recovered = seen }),
    )

abbrev pub heads_sequence : (FrameId → Frame) → List FrameId → Bool
heads_sequence frames [] = false
heads_sequence frames (f ∷ fs) = starts_sequence (frames f)

-- `if d.hasBFrames == 0 && ... { d.nextOutputedValid = false }`
abbrev pub forget_last : Dpb → Dpb
forget_last d =
    if (d.has_b_frames == 0) && heads_sequence d.frames d.delayed
    then record d { next_outputed_valid = false }
    else d

-- What follows the choice of the frame `f` at index `i` and the test whether to stop.
abbrev pub emit : ℕ → FrameId → Bool → Dpb → Bool × Dpb
emit i f out_of_order d =
    let removed = record d { delayed = remove_at i d.delayed } in
    let noted =
      if out_of_order
      then removed
      else record removed { next_outputed_poc = (d.frames f).poc; next_outputed_valid = true } in
    mark_output_frame_recovered f noted

abbrev pub append_if : Bool → FrameId → List FrameId → List FrameId
append_if true f out = out ++ (f ∷ [])
append_if false f out = out

-- The loop of `drainOutputFramesInto`, `none` when the rounds run out.
unfoldable pub drain_loop : ℕ → Bool → List FrameId → Dpb → Option (Result (List FrameId) × Dpb)
drain_loop zero flush out d = none
drain_loop (suc rounds) flush out d =
    if length d.delayed == 0
    then some (ok out, d)
    else let i = next_output_frame_index d in
      elim (get_elem? d.delayed i) [
        | none ↦ some (err invalid_data, d)
        | some f ↦
            let d' = forget_last d in
            let out_of_order =
              d'.next_outputed_valid && ltb_ℤ (d'.frames f).poc d'.next_outputed_poc in
            let (shown, emitted) = emit i f out_of_order d' in
            let out' = append_if shown f out in
            let more = drain_loop rounds flush out' emitted in
            if not flush && (not out_of_order && leb (length d'.delayed) d'.has_b_frames)
            then some (ok out, d')
            else if not flush
            then some (ok out', emitted)
            else more
      ]

-- Each round takes one picture out, so that the rounds suffice.
unfoldable pub drain_output_frames : Bool → Dpb → Option (Result (List FrameId) × Dpb)
drain_output_frames flush d = drain_loop (suc (length d.delayed)) flush [] d
