-- ===== src/Dpb/Marking/Resets.antt =====
-- internal/h264/simple_dpb.go: where `applyMMCO` asks for a reset, no short-term reference is left.
use goh.Base.{
  All, Bool, List, Option, [], false, if◌then◌else◌, inl, inr, leb, ltb, none, refl, some, true,
  ◌∙◌, ◌∷◌, ◌≡◌, ◌⊎◌,
}
use goh.Dpb.Marking.Distinct.{All-Shrunk, IsDistinct}
use goh.Dpb.Control.{
  Applied, Outcome, apply_mmco, apply_op, fault, next, next_or_invalid, reset_last_pocs, stop,
  short_to_long_ref,
}
use goh.Dpb.{
  Dpb, Frame, FrameId, Mmco, Opcode, SliceHeader, current_to_long, long_to_unused, mmco_end, other,
  reset_all, set_max_long, short_to_long, short_to_unused, max_long_refs,
}
use goh.Result.{Error, Result, err, ok, panic, invalid_data}
use goh.Dpb.Marking.Operations.{NextShrinks, apply_op-Shrinks}
use goh.Dpb.Refs.{reset_refs, pic_num_extract}

-- A reset that is asked for has emptied the short-term references.
abbrev pub Cleared : Applied → Dpb → Type 0
Cleared a d = (a.reset_frame_num ≡ false) ⊎ All (λ g. ⊥) d.short

abbrev NextCleared : Outcome → Type 0
NextCleared stop = Unit {0}
NextCleared (fault e) = Unit {0}
NextCleared (next a d) = Cleared a d

-- An operation that asks for no reset of its own.
abbrev SameReset : Applied → Outcome → Type 0
SameReset a stop = Unit {0}
SameReset a (fault e) = Unit {0}
SameReset a (next a' d') = a'.reset_frame_num ≡ a.reset_frame_num

SameReset-if :
    (b : Bool) (a : Applied) (e : Error) (o : Outcome)
    → SameReset a o
    → SameReset a (if b then fault e else o)
SameReset-if true a e o s = tt
SameReset-if false a e o s = s

next_or_invalid-SameReset : (a : Applied) (o : Option Dpb) → SameReset a (next_or_invalid a o)
next_or_invalid-SameReset a none = tt
next_or_invalid-SameReset a (some d) = refl

SameReset-NextCleared :
    (a : Applied) (d : Dpb) (o : Outcome)
    → Cleared a d
    → NextShrinks d o
    → SameReset a o
    → NextCleared o
SameReset-NextCleared a d stop c s e = tt
SameReset-NextCleared a d (fault x) c s e = tt
SameReset-NextCleared a d (next a' d') (inl unset) s e = inl (e ∙ unset)
SameReset-NextCleared a d (next a' d') (inr none_left) s e =
    inr (All-Shrunk (λ g. ⊥) s.shorter none_left)

apply_op-NextCleared :
    (o : Opcode) (f : FrameId) (sh : SliceHeader) (m : Mmco) (a : Applied) (d : Dpb)
    → Cleared a d
    → NextCleared (apply_op o f sh m a d)
unfolding apply_op reset_refs reset_last_pocs
apply_op-NextCleared mmco_end f sh m a d c = tt
apply_op-NextCleared short_to_unused f sh m a d c =
    SameReset-NextCleared a d (apply_op short_to_unused f sh m a d) c
      (apply_op-Shrinks short_to_unused f sh m a d) refl
apply_op-NextCleared short_to_long f sh m a d c =
    SameReset-NextCleared a d (apply_op short_to_long f sh m a d) c
      (apply_op-Shrinks short_to_long f sh m a d)
      (SameReset-if (leb max_long_refs m.long_arg) a invalid_data _ (
        next_or_invalid-SameReset a (
          short_to_long_ref (pic_num_extract sh.picture_structure m.short_pic_num).0
            (pic_num_extract sh.picture_structure m.short_pic_num).1 m.long_arg d)))
apply_op-NextCleared long_to_unused f sh m a d c =
    SameReset-NextCleared a d (apply_op long_to_unused f sh m a d) c
      (apply_op-Shrinks long_to_unused f sh m a d)
      (SameReset-if (leb max_long_refs (pic_num_extract sh.picture_structure m.long_arg).0) a
        invalid_data (next a _) refl)
apply_op-NextCleared current_to_long f sh m a d c =
    SameReset-NextCleared a d (apply_op current_to_long f sh m a d) c
      (apply_op-Shrinks current_to_long f sh m a d)
      (SameReset-if (leb max_long_refs m.long_arg) a invalid_data
        (next (record a { current_ref_assigned = true }) _) refl)
apply_op-NextCleared set_max_long f sh m a d c =
    SameReset-NextCleared a d (apply_op set_max_long f sh m a d) c
      (apply_op-Shrinks set_max_long f sh m a d)
      (SameReset-if (ltb max_long_refs m.long_arg) a invalid_data (next a _) refl)
apply_op-NextCleared reset_all f sh m a d c = inr tt
apply_op-NextCleared other f sh m a d c = tt

-- What holds behind the operations, if they succeed.
abbrev pub AppliedCleared : Result Applied × Dpb → Type 0
AppliedCleared (ok a, d) = Cleared a d
AppliedCleared (err e, d) = Unit {0}
AppliedCleared (panic, d) = Unit {0}

pub apply_mmco-AppliedCleared :
    (f : FrameId) (sh : SliceHeader) (ms : List Mmco) (a : Applied) (d : Dpb)
    → Cleared a d
    → AppliedCleared (apply_mmco f sh ms a d)
unfolding apply_mmco
apply_mmco-AppliedCleared f sh [] a d c = c
apply_mmco-AppliedCleared f sh (m ∷ ms) a d c =
    by (apply_op m.opcode f sh m a d) (apply_op-NextCleared m.opcode f sh m a d c)
      (λ a' d' c'. apply_mmco-AppliedCleared f sh ms a' d' c')
  where
    by :
        (o : Outcome)
        → NextCleared o
        → ((a' : Applied) (d' : Dpb) → Cleared a' d' → AppliedCleared (apply_mmco f sh ms a' d'))
        → AppliedCleared (elim o as (λ o. Result Applied × Dpb) [
          | stop ↦ (ok a, d)
          | fault e ↦ (err e, d)
          | next a' d' ↦ apply_mmco f sh ms a' d'
        ])
    by stop n ih = c
    by (fault e) n ih = tt
    by (next a' d') n ih = ih a' d' n

-- Whatever the frames become, an empty list has distinct numbers.
pub IsDistinct-cleared :
    (frames : FrameId → Frame) (gs : List FrameId) → All (λ g. ⊥) gs → IsDistinct frames gs
IsDistinct-cleared frames [] h = tt
IsDistinct-cleared frames (g ∷ gs) h = absurd h.0
