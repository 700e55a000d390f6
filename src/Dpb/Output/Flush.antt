-- ===== src/Dpb/Output/Flush.antt =====
-- internal/h264/simple_dpb.go: one round of `drainOutputFramesInto` in a flush.
use goh.Base.{
  ==_iff, All, Bool, Bool-cases, List, [], ap, arith, bit_and, bit_or, false, get_elem?,
  if◌then◌else◌, inl, inr, length, refl, some, suc, true, zero, ℕ, ◌!=◌, ◌+◌, ◌==◌, ◌∷◌, ◌≡◌, ◌≢◌,
}
use goh.Base.Bits.{bit_or-pos}
use goh.Dpb.Output.Choice.{AtLeast, IsCalm}
use goh.Dpb.{Frame, FrameId, Dpb}
use goh.Dpb.Output.{
  next_from, next_in, starts_sequence, mark_output_frame_recovered, emit, forget_last,
  recovered_sei,
}
use goh.Dpb.Refs.{remove_at}
use mathlib.Core.Path.{subst}
use goh.Dpb.Marking.Distinct.{All-remove_at}

abbrev pub count : FrameId → List FrameId → ℕ
count g [] = 0
count g (f ∷ fs) = (if f == g then 1 else 0) + count g fs

pub count-remove_at :
    (g f : FrameId) (i : ℕ) (fs : List FrameId)
    → get_elem? fs i ≡ some f
    → count g fs ≡ count g (f ∷ remove_at i fs)
count-remove_at g f i [] e = cc e
count-remove_at g f zero (h ∷ fs) e = let same_frame : h ≡ f = cc e in rw same_frame refl
count-remove_at g f (suc i) (h ∷ fs) e = omega (arith, count-remove_at g f i fs e)

pub length-removed :
    (f : FrameId) (i : ℕ) (fs : List FrameId)
    → get_elem? fs i ≡ some f
    → length fs ≡ suc (length (remove_at i fs))
length-removed f i [] e = cc e
length-removed f zero (h ∷ fs) e = refl
length-removed f (suc i) (h ∷ fs) e = ap suc (length-removed f i fs e)

pub All-get_elem? :
    (P : FrameId → Type 0) (f : FrameId) (i : ℕ) (gs : List FrameId)
    → All P gs
    → get_elem? gs i ≡ some f
    → P f
All-get_elem? P f i [] h e = cc e
All-get_elem? P f zero (g ∷ gs) (h, hs) e = let same_frame : g ≡ f = cc e in subst P same_frame h
All-get_elem? P f (suc i) (g ∷ gs) (h, hs) e = All-get_elem? P f i gs hs e

module _ (base : FrameId → Frame) where
  unmarked : (g : FrameId) → starts_sequence (base g) ≡ false → (base g).mmco_reset ≡ false
  unmarked g h = ground arith

  pub IsCalm-remove_at : (i : ℕ) (gs : List FrameId) → IsCalm base gs → IsCalm base (remove_at i gs)
  IsCalm-remove_at i [] h = tt
  IsCalm-remove_at zero (g ∷ []) h = tt
  IsCalm-remove_at zero (g ∷ h ∷ hs) (quiet, (calm, rest)) = (unmarked h calm, rest)
  IsCalm-remove_at (suc i) (g ∷ gs) (quiet, calm) =
      (quiet, All-remove_at (λ g. starts_sequence (base g) ≡ false) i gs calm)

  -- In the order of the counts.
  abbrev pub IsSorted : List FrameId → Type 0
  IsSorted [] = Unit {0}
  IsSorted (f ∷ fs) = AtLeast base (base f).poc fs × IsSorted fs

  -- The marks of recovery may have grown.
  pub record SameFrames (now : FrameId → Frame) : Type 0 where
    pub same_poc : (g : FrameId) → (now g).poc ≡ (base g).poc
    pub same_idr : (g : FrameId) → (now g).idr_key_frame ≡ (base g).idr_key_frame
    pub same_reset : (g : FrameId) → (now g).mmco_reset ≡ (base g).mmco_reset
    pub still : (g : FrameId) → (base g).recovered ≢ 0 → (now g).recovered ≢ 0

  next_from-SameFrames :
      (now : FrameId → Frame)
      → SameFrames now
      → (i best : ℕ) (chosen : FrameId) (fs : List FrameId)
      → next_from now i best chosen fs ≡ next_from base i best chosen fs
  unfolding next_from
  next_from-SameFrames now s i best chosen [] = refl
  next_from-SameFrames now s i best chosen (f ∷ fs) = rw (
    s.same_poc f,
    s.same_poc chosen,
    s.same_idr f,
    s.same_reset f,
    next_from-SameFrames now s (suc i) i f fs,
    next_from-SameFrames now s (suc i) best chosen fs,
  )

  pub next_in-SameFrames :
      (now : FrameId → Frame)
      → SameFrames now
      → (gs : List FrameId) → next_in now gs ≡ next_in base gs
  next_in-SameFrames now s [] = refl
  next_in-SameFrames now s (f ∷ fs) = rw (s.same_reset f, next_from-SameFrames now s 1 0 f fs)

-- What the output of one picture does to the buffer, and whether it is shown.
module _ (base : FrameId → Frame) where
  pub record Emitted (f : FrameId) (waiting : List FrameId) (r : Bool × Dpb) : Type 0 where
    pub shown : (base f).recovered ≢ 0 → r.0 ≡ true
    pub others : r.1.delayed ≡ waiting
    pub frames_now : SameFrames base r.1.frames

  -- Marks that were there stay there.
  mark_grows : (a b : ℕ) → a ≢ 0 → (bit_or a b != 0) ≡ true
  mark_grows a b h = ground (arith, bit_or-pos a b)

  mark_still : (a b : ℕ) → a ≢ 0 → bit_or a b ≢ 0
  mark_still a b h e = omega (arith, bit_or-pos a b (ground arith))

  marked-Emitted :
      (f : FrameId) (d : Dpb)
      → SameFrames base d.frames
      → Emitted f d.delayed (mark_output_frame_recovered f d)
  unfolding mark_output_frame_recovered
  marked-Emitted f d s =
      let extra = bit_and (bit_or d.frame_recovered (d.frames f).recovered) recovered_sei in
      record {
        shown = λ h. mark_grows (d.frames f).recovered extra (s.still f h);
        others = refl;
        frames_now = record {
          same_poc = λ g. ground (arith, s.same_poc g, s.same_poc f);
          same_idr = λ g. ground (arith, s.same_idr g, s.same_idr f);
          same_reset = λ g. ground (arith, s.same_reset g, s.same_reset f);
          still = λ g h. elim (Bool-cases (g == f)) [
            | inl e ↦
                let g_f : g ≡ f = (==_iff g f).0 e in
                rw e (
                  mark_still (d.frames f).recovered extra
                    (s.still f (subst (λ x. (base x).recovered ≢ 0) g_f h)))
            | inr e ↦ rw e (s.still g h)
          ];
        };
      }

  pub emit-Emitted :
      (i : ℕ) (f : FrameId) (out_of_order : Bool) (d : Dpb)
      → SameFrames base d.frames
      → Emitted f (remove_at i d.delayed) (emit i f out_of_order d)
  emit-Emitted i f true d s = marked-Emitted f (record d { delayed = remove_at i d.delayed }) s
  emit-Emitted i f false d s =
      marked-Emitted f
        (record d {
          delayed = remove_at i d.delayed;
          next_outputed_poc = (d.frames f).poc;
          next_outputed_valid = true;
        })
        s

  pub forget_last-delayed : (d : Dpb) → (forget_last d).delayed ≡ d.delayed
  forget_last-delayed d = ground arith

  pub forget_last-frames : (d : Dpb) → (forget_last d).frames ≡ d.frames
  forget_last-frames d = ground arith
