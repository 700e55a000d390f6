-- ===== src/Dpb/Marking/Operations.antt =====
-- internal/h264/simple_dpb.go: what the control operations, the sliding window and the search for
-- gaps do to the short-term references.
use goh.Base.{
  Bool, List, Option, [], false, get_elem?, get_or, if◌then◌else◌, leb, length, ltb, none, refl,
  set, some, suc, true, zero, ℕ, ◌!=◌, ◌&&◌, ◌+◌, ◌-◌, ◌==◌, ◌∷◌,
}
use goh.Dpb.Marking.{drop_one, slide_window}
use goh.Dpb.{
  Dpb, FrameId, Mmco, Opcode, SliceHeader, current_to_long, long_to_unused, max_long_refs, mmco_end,
  other, reset_all, set_max_long, short_to_long, short_to_unused,
}
use goh.Result.{Error, Result, err, invalid_data, ok}
use goh.Dpb.Marking.Shrinks.{
  Shrinks, Shrinks-if, Shrinks-trans, Shrinks-refl, emptied, long-Shrinks,
  remove_first_long-Shrinks, remove_long_by_index-Shrinks,
  remove_long_by_index_and_structure-Shrinks, remove_long_refs_for_frame-Shrinks,
  remove_longs_from-Shrinks, remove_short_at_index-Shrinks, remove_short_by_frame_num-Shrinks,
  remove_short_by_frame_num_and_structure-Shrinks, set_frame_ref_mask-Shrinks,
}
use goh.Dpb.Refs.{
  count_long, find_long_by_index, find_short_by_frame_num_and_structure, invalid_gap_loop, is_at,
  remove_invalid_gap_short_refs, remove_long_by_index, remove_long_refs_for_frame,
  remove_short_at_index, remove_short_by_frame_num, reset_refs, zero_extended_difference,
}
use goh.Dpb.Control.{
  Applied, Outcome, apply_mmco, apply_op, fault, make_long, move_to_long, next, next_or_invalid,
  reset_last_pocs, short_to_long_ref, stop,
}

move_to_long-Shrinks :
    (num structure index : ℕ) (f : FrameId) (d : Dpb)
    → Shrinks d (move_to_long num structure index f d)
move_to_long-Shrinks num structure index f d =
    let freed = if is_at f (get_or d.long index none) then d else remove_long_by_index index d in
    let taken = remove_short_by_frame_num num freed in
    let s : Shrinks d freed =
      Shrinks-if (is_at f (get_or d.long index none)) (Shrinks-refl d)
        (remove_long_by_index-Shrinks index d) in
    Shrinks-trans s (
      Shrinks-trans (remove_short_by_frame_num-Shrinks num freed) (
        Shrinks-trans (long-Shrinks taken (set taken.long index (some f)))
          (set_frame_ref_mask-Shrinks f _ _)))

make_long-Shrinks :
    (structure index : ℕ) (f : FrameId) (d : Dpb) → Shrinks d (make_long structure index f d)
make_long-Shrinks structure index f d =
    let shortened = if is_at f (get_elem? d.short 0) then remove_short_at_index 0 d else d in
    let cleared = remove_long_refs_for_frame f shortened in
    let freed = remove_long_by_index index cleared in
    let s : Shrinks d shortened =
      Shrinks-if (is_at f (get_elem? d.short 0)) (remove_short_at_index-Shrinks 0 d)
        (Shrinks-refl d) in
    let t : Shrinks cleared (record freed { long = set freed.long index (some f) }) =
      Shrinks-trans (remove_long_by_index-Shrinks index cleared) (long-Shrinks freed _) in
    Shrinks-trans s (
      Shrinks-trans (remove_long_refs_for_frame-Shrinks f shortened) (
        Shrinks-trans
          (Shrinks-if (is_at f (get_or cleared.long index none)) (Shrinks-refl cleared) t)
          (set_frame_ref_mask-Shrinks f _ _)))

-- The buffer behind an operation, if there is one.
abbrev pub NextShrinks : Dpb → Outcome → Type 0
NextShrinks d stop = Unit {0}
NextShrinks d (fault e) = Unit {0}
NextShrinks d (next a d') = Shrinks d d'

NextShrinks-if :
    (b : Bool) (d : Dpb) (e : Error) (o : Outcome)
    → NextShrinks d o
    → NextShrinks d (if b then fault e else o)
NextShrinks-if true d e o s = tt
NextShrinks-if false d e o s = s

short_to_long_ref-Shrinks :
    (a : Applied) (num structure index : ℕ) (d : Dpb)
    → NextShrinks d (next_or_invalid a (short_to_long_ref num structure index d))
short_to_long_ref-Shrinks a num structure index d =
    by (find_short_by_frame_num_and_structure num structure d) (find_long_by_index index d)
  where
    known :
        (g : FrameId) (b : Bool) → NextShrinks d (next_or_invalid a (if b then none else some d))
    known g true = tt
    known g false = Shrinks-refl d

    by :
        (o r : Option FrameId)
        → NextShrinks d (
            next_or_invalid a (elim o [
              | some f ↦ some (move_to_long num structure index f d)
              | none ↦ elim r [
                | none ↦ none
                | some g ↦ if (d.frames g).frame_num != num then none else some d
              ]
            ]))
    by (some f) r = move_to_long-Shrinks num structure index f d
    by none none = tt
    by none (some g) = known g ((d.frames g).frame_num != num)

pub apply_op-Shrinks :
    (o : Opcode) (f : FrameId) (sh : SliceHeader) (m : Mmco) (a : Applied) (d : Dpb)
    → NextShrinks d (apply_op o f sh m a d)
unfolding apply_op reset_refs reset_last_pocs
apply_op-Shrinks mmco_end f sh m a d = tt
apply_op-Shrinks short_to_unused f sh m a d = remove_short_by_frame_num_and_structure-Shrinks _ _ d
apply_op-Shrinks short_to_long f sh m a d =
    NextShrinks-if (leb max_long_refs m.long_arg) d invalid_data _
      (short_to_long_ref-Shrinks a _ _ m.long_arg d)
apply_op-Shrinks long_to_unused f sh m a d =
    NextShrinks-if _ d invalid_data (next a _) (remove_long_by_index_and_structure-Shrinks _ _ d)
apply_op-Shrinks current_to_long f sh m a d =
    NextShrinks-if (leb max_long_refs m.long_arg) d invalid_data (next _ _)
      (make_long-Shrinks sh.picture_structure m.long_arg f d)
apply_op-Shrinks set_max_long f sh m a d =
    NextShrinks-if (ltb max_long_refs m.long_arg) d invalid_data (next a _)
      (remove_longs_from-Shrinks (max_long_refs - m.long_arg) m.long_arg d)
apply_op-Shrinks reset_all f sh m a d = record { kept = refl; shorter = emptied }
apply_op-Shrinks other f sh m a d = tt

pub apply_mmco-Shrinks :
    (f : FrameId) (sh : SliceHeader) (ms : List Mmco) (a : Applied) (d : Dpb)
    → Shrinks d (apply_mmco f sh ms a d).1
unfolding apply_mmco
apply_mmco-Shrinks f sh [] a d = Shrinks-refl d
apply_mmco-Shrinks f sh (m ∷ ms) a d =
    by (apply_op m.opcode f sh m a d) (apply_op-Shrinks m.opcode f sh m a d)
      (λ a' d'. apply_mmco-Shrinks f sh ms a' d')
  where
    by :
        (o : Outcome)
        → NextShrinks d o
        → ((a' : Applied) (d' : Dpb) → Shrinks d' (apply_mmco f sh ms a' d').1)
        → Shrinks d
            (elim o as (λ o. Result Applied × Dpb) [
              | stop ↦ (ok a, d)
              | fault e ↦ (err e, d)
              | next a' d' ↦ apply_mmco f sh ms a' d'
            ]).1
    by stop s ih = Shrinks-refl d
    by (fault e) s ih = Shrinks-refl d
    by (next a' d') s ih = Shrinks-trans s (ih a' d')

pub invalid_gap_loop-Shrinks :
    (rounds i num : ℕ) (sh : SliceHeader) (d : Dpb) → Shrinks d (invalid_gap_loop rounds i num sh d)
unfolding invalid_gap_loop
invalid_gap_loop-Shrinks zero i num sh d = Shrinks-refl d
invalid_gap_loop-Shrinks (suc rounds) i num sh d =
    by (get_elem? d.short i) (invalid_gap_loop-Shrinks rounds (i + 1) num sh d) (
      Shrinks-trans (remove_short_at_index-Shrinks i d)
        (invalid_gap_loop-Shrinks rounds i num sh (remove_short_at_index i d)))
  where
    by :
        (o : Option FrameId)
        → Shrinks d (invalid_gap_loop rounds (i + 1) num sh d)
        → Shrinks d (invalid_gap_loop rounds i num sh (remove_short_at_index i d))
        → Shrinks d (elim o [
          | none ↦ d
          | some f ↦
              let gone =
                (d.frames f).invalid_gap
                && ltb sh.ref_frame_count
                    (zero_extended_difference num (d.frames f).frame_num sh.log2_max_frame_num) in
              let stay = invalid_gap_loop rounds (i + 1) num sh d in
              let removed = invalid_gap_loop rounds i num sh (remove_short_at_index i d) in
              if gone then removed else stay
        ])
    by none s t = Shrinks-refl d
    by (some f) s t = Shrinks-if _ t s

pub remove_invalid_gap_short_refs-Shrinks :
    (num : ℕ) (sh : SliceHeader) (d : Dpb) → Shrinks d (remove_invalid_gap_short_refs num sh d)
unfolding remove_invalid_gap_short_refs
remove_invalid_gap_short_refs-Shrinks num sh d =
    invalid_gap_loop-Shrinks (length d.short) 0 num sh d

pub drop_one-Shrinks : (d : Dpb) → Shrinks d (drop_one d)
unfolding drop_one
drop_one-Shrinks d =
    Shrinks-if ((count_long d.long != 0) && (length d.short == 0)) (remove_first_long-Shrinks d) (
      Shrinks-if (length d.short != 0) (remove_short_at_index-Shrinks (length d.short - 1) d)
        (Shrinks-refl d))

pub slide_window-Shrinks :
    (sh : SliceHeader) (second : Bool) (max_refs : ℕ) (d : Dpb)
    → Shrinks d (slide_window sh second max_refs d)
unfolding slide_window
slide_window-Shrinks sh second max_refs d =
    Shrinks-if _ (remove_short_at_index-Shrinks (length d.short - 1) d) (Shrinks-refl d)
