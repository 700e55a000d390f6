-- ===== src/Dpb/RefLists/Endless.antt =====
-- internal/h264/simple_dpb.go: `addSortedShortRefsInto` at the least count that there is.
use goh.Base.{
  Bool, List, Option, [], ap, arith, false, if◌then◌else◌, inl, inr, none, refl, some, suc, true,
  zero, ℕ, ◌++◌, ◌∙◌, ◌∷◌, ◌≡◌, ◌⊎◌,
}
use goh.Base.Int.{negsuc, pos, ℤ, ◌-ℤ◌, ◌≤ℤ◌}
use goh.Base.Words.{wrap}
use goh.Dpb.{Dpb, Frame, FrameId, max_int32, min_int32}
use goh.Dpb.RefLists.{is_nearer, nearest_from, next_limit, sorted_loop}

-- An integer in the range of an `int32`.
pub record IsInt32 (z : ℤ) : Type 0 where
  pub not_above : z ≤ℤ max_int32
  pub not_below : min_int32 ≤ℤ z

abbrev Found : Option FrameId → Type 0
Found o = (g : FrameId) × (o ≡ some g)

Found-if :
    (test : Bool) (f : FrameId) (o : Option FrameId) → Found o → Found (if test then some f else o)
Found-if true f o h = (f, refl)
Found-if false f o h = h

nearest_from-Found :
    (frames : FrameId → Frame) (limit : ℤ) (fs : List FrameId) (best_poc : ℤ)
    (best : Option FrameId)
    → Found best
    → Found (nearest_from frames true limit best_poc best fs)
unfolding nearest_from
nearest_from-Found frames limit [] best_poc best h = h
nearest_from-Found frames limit (f ∷ fs) best_poc best h =
    nearest_from-Found frames limit fs _ _
      (Found-if (is_nearer true limit best_poc (frames f).poc) f best h)

-- Some frame has the least count.
unfoldable pub HasLeast : (FrameId → Frame) → List FrameId → Type 0
HasLeast frames [] = ⊥
HasLeast frames (f ∷ fs) = ((frames f).poc ≡ min_int32) ⊎ HasLeast frames fs

nearest_from-least :
    (frames : FrameId → Frame) (limit : ℤ) (fs : List FrameId)
    → min_int32 ≤ℤ limit
    → HasLeast frames fs
    → Found (nearest_from frames true limit min_int32 none fs)
unfolding nearest_from HasLeast
nearest_from-least frames limit [] low h = absurd h
nearest_from-least frames limit (f ∷ fs) low (inl e) =
    let taken : is_nearer true limit min_int32 (frames f).poc ≡ true = rw e (ground (arith, low)) in
    rw taken (nearest_from-Found frames limit fs (frames f).poc (some f) (f, refl))
nearest_from-least frames limit (f ∷ fs) low (inr h) =
    by (is_nearer true limit min_int32 (frames f).poc) (nearest_from-least frames limit fs low h)
  where
    by :
        (test : Bool)
        → Found (nearest_from frames true limit min_int32 none fs)
        → Found (
            nearest_from frames true limit
              (if test then (frames f).poc else min_int32)
              (if test then some f else none)
              fs)
    by true later = nearest_from-Found frames limit fs (frames f).poc (some f) (f, refl)
    by false later = later

wrap-IsInt32 : (z : ℤ) → IsInt32 (wrap 32 z)
wrap-IsInt32 (pos n) = record { not_above = ground arith; not_below = ground arith }
wrap-IsInt32 (negsuc n) = record { not_above = ground arith; not_below = ground arith }

-- The loop downwards never ends if a short-term reference has the least count of an `int32`,
-- whatever the number of rounds, the counts of the others and the limit, an `int32`, are: the limit
-- behind that frame wraps to the greatest.
pub sorted_loop_endless :
    (rounds : ℕ) (d : Dpb) (limit : ℤ) (out : List FrameId)
    → HasLeast d.frames d.short
    → IsInt32 limit
    → sorted_loop rounds d true limit out ≡ none
unfolding sorted_loop
sorted_loop_endless zero d limit out h low = refl
sorted_loop_endless (suc rounds) d limit out h low =
    let (g, e) = nearest_from-least d.frames limit d.short low.not_below h in
    ap
      (λ o. elim o [
        | none ↦ some out
        | some best ↦
            sorted_loop rounds d true (next_limit true (d.frames best).poc) (out ++ (best ∷ []))
      ])
      e
    ∙ sorted_loop_endless rounds d (next_limit true (d.frames g).poc) (out ++ (g ∷ [])) h
        (wrap-IsInt32 ((d.frames g).poc -ℤ pos 1))
