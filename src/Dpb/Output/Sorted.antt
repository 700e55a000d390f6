-- ===== src/Dpb/Output/Sorted.antt =====
-- internal/h264/simple_dpb.go: the loop of `drainOutputFramesInto` in a flush.
use goh.Base.{
  All, Bool, List, Option, [], ap, arith, false, get_elem?, length, refl, some, suc, suc-ne-zero,
  sym, true, zero, ℕ, ◌&&◌, ◌++◌, ◌<◌, ◌==◌, ◌∙◌, ◌∷◌, ◌≡◌, ◌≢◌,
}
use goh.Base.Int.{ltb_ℤ, ℤ, ◌≤ℤ◌}
use goh.Dpb.Output.Flush.{
  All-get_elem?, IsCalm-remove_at, IsSorted, SameFrames, count, count-remove_at, emit-Emitted,
  forget_last-delayed, forget_last-frames, length-removed, next_in-SameFrames,
}
use goh.Dpb.Marking.Distinct.{All-remove_at}
use goh.Dpb.Output.Choice.{AtLeast, IsCalm, next_in-least}
use goh.Dpb.{Dpb, Frame, FrameId}
use goh.Result.{Result, ok}
use mathlib.Core.List.{append-nil, append_assoc}
use goh.Dpb.Output.{
  append_if, drain_loop, drain_output_frames, emit, forget_last, next_in, next_output_frame_index,
}
use goh.Dpb.Refs.{remove_at}
use mathlib.Core.Path.{subst, ap₂}

-- One round of a flush.
flush_step :
    (rounds : ℕ) (out : List FrameId) (d : Dpb) (f : FrameId)
    → (length d.delayed == 0) ≡ false
    → get_elem? d.delayed (next_output_frame_index d) ≡ some f
    → (out_of_order : Bool) × (drain_loop (suc rounds) true out d
        ≡ drain_loop rounds true
            (append_if (emit (next_output_frame_index d) f out_of_order (forget_last d)).0 f out)
            (emit (next_output_frame_index d) f out_of_order (forget_last d)).1)
unfolding drain_loop
flush_step rounds out d f some_left there = (
  (forget_last d).next_outputed_valid
      && ltb_ℤ ((forget_last d).frames f).poc (forget_last d).next_outputed_poc,
  rw (some_left, there) refl,
)

drain_done :
    (rounds : ℕ) (out : List FrameId) (d : Dpb)
    → d.delayed ≡ []
    → drain_loop (suc rounds) true out d ≡ some (ok out, d)
unfolding drain_loop
drain_done rounds out d e = let nothing : (length d.delayed == 0) ≡ true = rw e in rw nothing refl

module _ (base : FrameId → Frame) where
  -- What a flush of `waiting` returns behind `out`.
  pub record Flushed (waiting out : List FrameId) (r : Option (Result (List FrameId) × Dpb))
      : Type 0 where
    pub shown : List FrameId
    pub after : Dpb
    pub returned : r ≡ some (ok (out ++ shown), after)
    pub nothing_left : after.delayed ≡ []
    pub in_order : IsSorted base shown
    pub each_once : (g : FrameId) → count g shown ≡ count g waiting
    pub bound : (z : ℤ) → AtLeast base z waiting → AtLeast base z shown

  IsRecovered : FrameId → Type 0
  IsRecovered g = (base g).recovered ≢ 0

  drain_loop-Flushed :
      (rounds : ℕ) (waiting out : List FrameId) (d : Dpb)
      → d.delayed ≡ waiting
      → length waiting < rounds
      → SameFrames base d.frames
      → IsCalm base waiting
      → All IsRecovered waiting
      → Flushed waiting out (drain_loop rounds true out d)
  unfolding IsRecovered next_output_frame_index
  drain_loop-Flushed zero waiting out d e r s calm seen = absurd (omega arith)
  drain_loop-Flushed (suc rounds) [] out d e r s calm seen = record {
    shown = [];
    after = d;
    returned = drain_done rounds out d e ∙ ap (λ l. some (ok l, d)) (sym (append-nil out));
    nothing_left = e;
    in_order = tt;
    each_once = λ g. refl;
    bound = λ z h. tt;
  }
  drain_loop-Flushed (suc rounds) (h ∷ hs) out d e r s calm seen =
      let (f, there, least) = next_in-least base h hs calm in
      let i = next_in base (h ∷ hs) in
      let j = next_output_frame_index d in
      let index : next_output_frame_index d ≡ i =
        ap (next_in d.frames) e ∙ next_in-SameFrames base d.frames s (h ∷ hs) in
      let left : (length d.delayed == 0) ≡ false = rw e (suc-ne-zero (length hs)) in
      let (out_of_order, step) = flush_step rounds out d f left (ap₂ get_elem? e index ∙ there) in
      let t =
        emit-Emitted base j f out_of_order (forget_last d)
          (subst (SameFrames base) (sym (forget_last-frames base d)) s) in
      let was_shown = t.shown (All-get_elem? IsRecovered f i (h ∷ hs) seen there) in
      let next_delayed : (emit j f out_of_order (forget_last d)).1.delayed ≡ remove_at i (h ∷ hs) =
        t.others ∙ ap₂ remove_at index (forget_last-delayed base d ∙ e) in
      let rest =
        drain_loop-Flushed rounds (remove_at i (h ∷ hs)) (out ++ (f ∷ []))
          (emit j f out_of_order (forget_last d)).1 next_delayed
          (omega (arith, length-removed f i (h ∷ hs) there)) t.frames_now
          (IsCalm-remove_at base i (h ∷ hs) calm) (All-remove_at IsRecovered i (h ∷ hs) seen) in
      record {
        shown = f ∷ rest.shown;
        after = rest.after;
        returned =
            step
            ∙ ap
                (λ b.
                  drain_loop rounds true (append_if b f out)
                    (emit j f out_of_order (forget_last d)).1)
                was_shown
            ∙ rest.returned
            ∙ ap (λ l. some (ok l, rest.after)) (append_assoc out (f ∷ []) rest.shown);
        nothing_left = rest.nothing_left;
        in_order = (
          rest.bound (base f).poc
              (All-remove_at (λ g. (base f).poc ≤ℤ (base g).poc) i (h ∷ hs) least),
          rest.in_order,
        );
        each_once = λ g. omega (arith, rest.each_once g, count-remove_at g f i (h ∷ hs) there);
        bound = λ z b. (
          All-get_elem? (λ g. z ≤ℤ (base g).poc) f i (h ∷ hs) b there,
          rest.bound z (All-remove_at (λ g. z ≤ℤ (base g).poc) i (h ∷ hs) b),
        );
      }

-- A flush ends and returns each waiting picture once, in the order of their counts, and none is left
-- waiting, if all are recovered, none behind the first starts a sequence and the first was not
-- marked by an operation.
pub drain_output_frames-IsSorted :
    (d : Dpb)
    → IsCalm d.frames d.delayed
    → All (λ g. (d.frames g).recovered ≢ 0) d.delayed
    → (shown : List FrameId) × (after : Dpb) × (drain_output_frames true d ≡ some (ok shown, after))
      × (after.delayed ≡ [])
      × IsSorted d.frames shown
      × ((g : FrameId) → count g shown ≡ count g d.delayed)
unfolding drain_output_frames IsRecovered
drain_output_frames-IsSorted d calm seen =
    let same_now : SameFrames d.frames d.frames = record {
      same_poc = λ g. refl;
      same_idr = λ g. refl;
      same_reset = λ g. refl;
      still = λ g h. h;
    } in
    let r =
      drain_loop-Flushed d.frames (suc (length d.delayed)) d.delayed [] d refl (omega arith)
        same_now calm seen in
    (r.shown, r.after, r.returned, r.nothing_left, r.in_order, r.each_once)
