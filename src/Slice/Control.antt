-- ===== src/Slice/Control.antt =====
-- internal/h264/slice.go and simple_dpb.go: what `applyMMCO` makes of the operations that a slice
-- header holds.
use goh.Base.{
  Bool, List, Option, [], ap, arith, false, if◌then◌else◌, inl, inr, leb, length, ltb, none, refl,
  some, sym, true, ◌∷◌, ◌≡◌, ◌≤◌, ◌⊎◌,
}
use goh.BitReader.Valid.{IsValid}
use goh.Slice.Marking.{AllFit, ArgFits, IsMarking, decode_ref_pic_marking-Reads}
use goh.Dpb.Control.{Applied, Outcome, apply_mmco, apply_op, fault, next, next_or_invalid, stop}
use goh.BitReader.{BitReader}
use goh.Dpb.{
  Dpb, FrameId, Mmco, Opcode, SliceHeader, current_to_long, long_to_unused, max_long_refs, mmco_end,
  other, reset_all, set_max_long, short_to_long, short_to_unused,
}
use goh.Result.{Error, Result, err, invalid_data, ok}
use goh.BitReader.Safe.{Good}
use goh.Slice.{PicNums, decode_ref_pic_marking, max_mmco_count}
use goh.Dpb.Refs.{pic_num_extract}
use mathlib.Core.Path.{subst}

-- An operation only fails where it moves a picture to the long-term references.
abbrev Continues : Opcode → Outcome → Type 0
Continues op stop = Unit {0}
Continues op (next a d) = Unit {0}
Continues op (fault e) = (op ≡ short_to_long) × (e ≡ invalid_data)

Continues-if :
    (op : Opcode) (test : Bool) (e : Error) (o : Outcome)
    → test ≡ false
    → Continues op o
    → Continues op (if test then fault e else o)
Continues-if op true e o h k = cc h
Continues-if op false e o h k = k

next_or_invalid-Continues :
    (a : Applied) (o : Option Dpb) → Continues short_to_long (next_or_invalid a o)
next_or_invalid-Continues a none = (refl, refl)
next_or_invalid-Continues a (some d) = tt

apply_op-Continues :
    (op : Opcode) (f : FrameId) (sh : SliceHeader) (m : Mmco) (a : Applied) (d : Dpb)
    → ArgFits sh.picture_structure op m.long_arg
    → Continues op (apply_op op f sh m a d)
unfolding apply_op
apply_op-Continues mmco_end f sh m a d h = tt
apply_op-Continues short_to_unused f sh m a d h = tt
apply_op-Continues short_to_long f sh m a d h =
    Continues-if short_to_long (leb max_long_refs m.long_arg) _ _ (ground (arith, h))
      (next_or_invalid-Continues a _)
apply_op-Continues long_to_unused f sh m a d h =
    Continues-if long_to_unused
      (leb max_long_refs (pic_num_extract sh.picture_structure m.long_arg).0) _ _
      (ground (arith, h)) tt
apply_op-Continues current_to_long f sh m a d h =
    Continues-if current_to_long (leb max_long_refs m.long_arg) _ _ (ground (arith, h)) tt
apply_op-Continues set_max_long f sh m a d h =
    Continues-if set_max_long (ltb max_long_refs m.long_arg) _ _ (ground (arith, h)) tt
apply_op-Continues reset_all f sh m a d h = tt
apply_op-Continues other f sh m a d h = absurd h

abbrev pub Moves : List Mmco → Type 0
Moves [] = ⊥
Moves (m ∷ ms) = (m.opcode ≡ short_to_long) ⊎ Moves ms

-- The operations are all done, or one that moves a picture finds none.
abbrev pub Done : List Mmco → Result Applied → Type 0
Done ms r = ((a : Applied) × (r ≡ ok a)) ⊎ (Moves ms × (r ≡ err invalid_data))

apply_mmco-Done :
    (ms : List Mmco) (f : FrameId) (sh : SliceHeader) (a : Applied) (d : Dpb)
    → AllFit sh.picture_structure ms
    → Done ms (apply_mmco f sh ms a d).0
unfolding apply_mmco
apply_mmco-Done [] f sh a d h = inl (a, refl)
apply_mmco-Done (m ∷ ms) f sh a d (h, hs) =
    by (apply_op m.opcode f sh m a d) (apply_op-Continues m.opcode f sh m a d h)
      (λ a' d'. apply_mmco-Done ms f sh a' d' hs)
  where
    by :
        (o : Outcome)
        → Continues m.opcode o
        → ((a' : Applied) (d' : Dpb) → Done ms (apply_mmco f sh ms a' d').0)
        → Done
            (m ∷ ms)
            (elim o as (λ x. Result Applied × Dpb) [
              | stop ↦ (ok a, d)
              | fault e ↦ (err e, d)
              | next a' d' ↦ apply_mmco f sh ms a' d'
            ]).0
    by stop c rest = inl (a, refl)
    by (fault e) (moves, same_error) rest = inr (inl moves, ap err same_error)
    by (next a' d') c rest = elim (rest a' d') [
      | inl done ↦ inl done
      | inr (moves, failed) ↦ inr (inr moves, failed)
    ]

-- The marking operations that decodeRefPicMarking reads are at most 67, and applyMMCO does them all
-- on every buffer, or fails with invalid data at one that moves a short-term picture to the
-- long-term ones; it reports none of them as unsupported or out of range. The header that it is
-- given has the picture structure that the operations were read for.
pub decode_ref_pic_marking-Done :
    (idr : Bool) (nums : PicNums) (r r' : BitReader) (explicit : Bool) (ops : List Mmco)
    (f : FrameId) (sh : SliceHeader) (a : Applied) (d : Dpb)
    → IsValid r
    → decode_ref_pic_marking idr nums r ≡ (ok (explicit, ops), r')
    → sh.picture_structure ≡ nums.structure
    → (length ops ≤ max_mmco_count) × Done ops (apply_mmco f sh ops a d).0
decode_ref_pic_marking-Done idr nums r r' explicit ops f sh a d v e same_structure =
    let (marking, v') =
      subst (Good (λ m. IsMarking nums.structure max_mmco_count m.1)) e
        ((decode_ref_pic_marking-Reads idr nums).run r v) in
    (
      marking.0,
      apply_mmco-Done ops f sh a d (subst (λ s. AllFit s ops) (sym same_structure) marking.1),
    )
