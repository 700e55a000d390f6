-- ===== src/Dpb/Marking/Counts.antt =====
-- internal/h264/simple_dpb.go: how the number of references changes when some are taken out.
use goh.Base.{
  Bool, List, Option, Option-cases, [], ap, arith, false, get_elem?, if◌then◌else◌, inl, inr,
  length, none, refl, some, suc, true, zero, ℕ, ◌+◌, ◌<◌, ◌||◌, ◌∙◌, ◌∷◌, ◌≡◌, ◌≤◌,
}
use goh.Dpb.{Dpb, FrameId, SliceHeader}
use goh.Dpb.Marking.Shrinks.{Shrunk, cut, emptied, same, remove_short_by_frame_num-Shrinks}
use goh.Dpb.Refs.{
  clear_frame_ref_mask_if_unreferenced, count_long, frame_is_long, frame_is_short, invalid_gap_loop,
  ref_count, remove_at, remove_invalid_gap_short_refs, remove_short_at_index, set_frame_ref_mask,
  first_place, has_frame_num, remove_short_by_frame_num,
}
use goh.Dpb.Marking.Operations.{invalid_gap_loop-Shrinks}
use goh.Dpb.Marking.Numbers.{remove_short_at_index-short}

clear-long : (f : FrameId) (d : Dpb) → (clear_frame_ref_mask_if_unreferenced f d).long ≡ d.long
unfolding clear_frame_ref_mask_if_unreferenced set_frame_ref_mask
clear-long f d = by (frame_is_short f d || frame_is_long f d)
  where
    by : (b : Bool) → (if b then d else set_frame_ref_mask f 0 d).long ≡ d.long
    by true = refl
    by false = refl

remove_short_at_index-long : (i : ℕ) (d : Dpb) → (remove_short_at_index i d).long ≡ d.long
unfolding remove_short_at_index
remove_short_at_index-long i d = by (get_elem? d.short i)
  where
    by :
        (o : Option FrameId)
        → (elim o as (λ o. Dpb) [
          | none ↦ d
          | some f ↦
              clear_frame_ref_mask_if_unreferenced f (record d { short = remove_at i d.short })
        ]).long
          ≡ d.long
    by none = refl
    by (some f) = clear-long f (record d { short = remove_at i d.short })

invalid_gap_loop-long :
    (rounds i num : ℕ) (sh : SliceHeader) (d : Dpb)
    → (invalid_gap_loop rounds i num sh d).long ≡ d.long
unfolding invalid_gap_loop
invalid_gap_loop-long zero i num sh d = refl
invalid_gap_loop-long (suc rounds) i num sh d = ground (
  arith,
  invalid_gap_loop-long rounds (i + 1) num sh d,
  invalid_gap_loop-long rounds i num sh (remove_short_at_index i d),
  remove_short_at_index-long i d,
)

length-remove_at : (i : ℕ) (gs : List FrameId) → length (remove_at i gs) ≤ length gs
length-remove_at i [] = omega arith
length-remove_at zero (g ∷ gs) = omega arith
length-remove_at (suc i) (g ∷ gs) = omega (arith, length-remove_at i gs)

length-Shrunk : {xs ys : List FrameId} → Shrunk xs ys → length ys ≤ length xs
length-Shrunk same = omega arith
length-Shrunk (cut i {ys} s) = omega (arith, length-Shrunk s, length-remove_at i ys)
length-Shrunk emptied = omega arith

pub ref_count-gaps :
    (num : ℕ) (sh : SliceHeader) (d : Dpb)
    → ref_count (remove_invalid_gap_short_refs num sh d) ≤ ref_count d
unfolding ref_count remove_invalid_gap_short_refs
ref_count-gaps num sh d =
    let long = invalid_gap_loop-long (length d.short) 0 num sh d in
    omega (
      arith,
      length-Shrunk (invalid_gap_loop-Shrinks (length d.short) 0 num sh d).shorter,
      ap count_long long,
    )

remove_short_by_frame_num-long :
    (num : ℕ) (d : Dpb) → (remove_short_by_frame_num num d).long ≡ d.long
unfolding remove_short_by_frame_num
remove_short_by_frame_num-long num d = by (first_place (has_frame_num d num) 0 d.short)
  where
    by :
        (o : Option (ℕ × FrameId))
        → (elim o as (λ o. Dpb) [
          | none ↦ d
          | some (i, f) ↦ clear_frame_ref_mask_if_unreferenced f (remove_short_at_index i d)
        ]).long
          ≡ d.long
    by none = refl
    by (some (i, f)) = clear-long f (remove_short_at_index i d) ∙ remove_short_at_index-long i d

pub ref_count-remove_short_by_frame_num :
    (num : ℕ) (d : Dpb) → ref_count (remove_short_by_frame_num num d) ≤ ref_count d
unfolding ref_count
ref_count-remove_short_by_frame_num num d = omega (
  arith,
  length-Shrunk (remove_short_by_frame_num-Shrinks num d).shorter,
  ap count_long (remove_short_by_frame_num-long num d),
)

no_place : (i : ℕ) (gs : List FrameId) → get_elem? gs i ≡ none → length gs ≤ i
no_place i [] e = omega arith
no_place zero (g ∷ gs) e = cc e
no_place (suc i) (g ∷ gs) e = omega (arith, no_place i gs e)

remove_at_shorter :
    (i : ℕ) (gs : List FrameId) → i < length gs → length (remove_at i gs) + 1 ≡ length gs
remove_at_shorter i [] h = absurd (omega (arith, h))
remove_at_shorter zero (g ∷ gs) h = omega arith
remove_at_shorter (suc i) (g ∷ gs) h = omega (arith, remove_at_shorter i gs (omega (arith, h)))

-- A reference that is there goes.
pub ref_count-remove_short_at_index :
    (i : ℕ) (d : Dpb) → i < length d.short → ref_count (remove_short_at_index i d) + 1 ≡ ref_count d
unfolding ref_count
ref_count-remove_short_at_index i d h =
    let same_long = ap count_long (remove_short_at_index-long i d) in
    elim (Option-cases (get_elem? d.short i)) [
      | inl e ↦ absurd (omega (arith, h, no_place i d.short e))
      | inr (f, e) ↦ omega (
        arith,
        same_long,
        ap length (remove_short_at_index-short i f d e),
        remove_at_shorter i d.short h,
      )
    ]
