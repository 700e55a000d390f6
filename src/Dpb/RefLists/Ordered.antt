-- ===== src/Dpb/RefLists/Ordered.antt =====
-- internal/h264/simple_dpb.go: the rounds of `addSortedShortRefsInto` downwards.
use goh.Base.{
  All, List, Option, [], ap, arith, inl, inr, length, none, some, suc, sym, true, zero, ℕ, ◌++◌,
  ◌<◌, ◌∙◌, ◌∷◌, ◌≡◌, ◌⊎◌,
}
use goh.Base.Int.{pos, ℤ, ◌-ℤ◌, ◌≤ℤ◌}
use goh.Base.Sums.{one_sign, sub_parts, wrap-Small}
use goh.Dpb.RefLists.Descending.{
  All-Among, Among, Covered, Descends, Exceeds, chosen, count_upto, count_upto-Among,
  count_upto-length, Covered-step,
}
use goh.Dpb.{Dpb, FrameId, max_int32, min_int32}
use goh.Dpb.RefLists.{add_sorted_short_refs, next_limit, sorted_loop}
use mathlib.Core.List.{append-nil, append_assoc}

-- The counts of the short-term references are those of an `int32`, and none is the least.
abbrev pub IsUsual : Dpb → Type 0
IsUsual d =
    All (λ x. Exceeds d.frames (d.frames x).poc min_int32) d.short
    × All (λ x. (d.frames x).poc ≤ℤ max_int32) d.short

-- What is appended downwards from a limit.
record Ordered (d : Dpb) (limit : ℤ) (refs : List FrameId) : Type 0 where
  descends : Descends d.frames limit refs
  short_refs : All (λ r. Among d.frames r d.short) refs
  covers :
      All
        (λ x. Exceeds d.frames (d.frames x).poc limit ⊎ Covered d.frames (d.frames x).poc refs)
        d.short

next_limit-exact :
    (d : Dpb) (g : FrameId)
    → IsUsual d
    → Among d.frames g d.short
    → next_limit true (d.frames g).poc ≡ (d.frames g).poc -ℤ pos 1
next_limit-exact d g usual place =
    let low =
      All-Among d.frames (λ x. Exceeds d.frames (d.frames x).poc min_int32) g d.short usual.0
        place in
    let high = All-Among d.frames (λ x. (d.frames x).poc ≤ℤ max_int32) g d.short usual.1 place in
    wrap-Small ((d.frames g).poc -ℤ pos 1) (record {
      above = ground (
        arith,
        sub_parts (d.frames g).poc (pos 1),
        low,
        high,
        one_sign ((d.frames g).poc -ℤ pos 1),
        one_sign (d.frames g).poc,
      );
      below = ground (
        arith,
        sub_parts (d.frames g).poc (pos 1),
        low,
        high,
        one_sign ((d.frames g).poc -ℤ pos 1),
        one_sign (d.frames g).poc,
      );
    })

covers-none :
    (d : Dpb) (limit : ℤ) (fs : List FrameId)
    → All (λ x. Exceeds d.frames (d.frames x).poc limit) fs
    → All (λ x. Exceeds d.frames (d.frames x).poc limit ⊎ Covered d.frames (d.frames x).poc []) fs
covers-none d limit [] h = tt
covers-none d limit (f ∷ fs) (h, hs) = (inl h, covers-none d limit fs hs)

sorted_loop-Ordered :
    (rounds : ℕ) (d : Dpb) (limit : ℤ) (out : List FrameId)
    → IsUsual d
    → count_upto d.frames limit d.short < rounds
    → (refs : List FrameId) × (sorted_loop rounds d true limit out ≡ some (out ++ refs))
      × Ordered d limit refs
unfolding sorted_loop
sorted_loop-Ordered zero d limit out usual enough = absurd (omega arith)
sorted_loop-Ordered (suc rounds) d limit out usual enough =
    elim (chosen d.frames limit d.short usual.0) [
      | inl (e, all_above) ↦ (
        [],
        ap (after rounds d out) e ∙ ap some (sym (append-nil out)),
        record { descends = tt; short_refs = tt; covers = covers-none d limit d.short all_above },
      )
      | inr (g, e, best, place) ↦
          let limit' = (d.frames g).poc -ℤ pos 1 in
          let fewer =
            count_upto-Among d.frames limit' limit g d.short
              (omega (arith, best.within, sub_parts (d.frames g).poc (pos 1))) best.within
              (omega (arith, sub_parts (d.frames g).poc (pos 1))) place in
          let (refs, run, ordered) =
            sorted_loop-Ordered rounds d limit' (out ++ (g ∷ [])) usual
              (omega (arith, enough, fewer)) in
          (
            g ∷ refs,
            ap (after rounds d out) e
                ∙ ap (λ l. sorted_loop rounds d true l (out ++ (g ∷ [])))
                    (next_limit-exact d g usual place)
                ∙ run
                ∙ ap some (append_assoc out (g ∷ []) refs),
            record {
              descends = (best.within, ordered.descends);
              short_refs = (place, ordered.short_refs);
              covers = Covered-step d.frames limit g refs d.short best.most ordered.covers;
            },
          )
    ]
  where
    after : ℕ → Dpb → List FrameId → Option FrameId → Option (List FrameId)
    after rounds d out none = some out
    after rounds d out (some best) =
        sorted_loop rounds d true (next_limit true (d.frames best).poc) (out ++ (best ∷ []))

-- Downwards from the count of the current picture, addSortedShortRefsInto ends and appends
-- short-term references with lesser and lesser counts, the first no greater than that of the
-- picture, so that each short-term reference with such a count has its count among them. The counts
-- are those of an int32, and none of the short-term references has the least.
pub add_sorted_short_refs-Descends :
    (d : Dpb) (cur_poc : ℤ) (out : List FrameId)
    → IsUsual d
    → (refs : List FrameId) × (add_sorted_short_refs d true cur_poc out ≡ some (out ++ refs))
      × Descends d.frames cur_poc refs
      × All (λ r. Among d.frames r d.short) refs
      × All
          (λ x. Exceeds d.frames (d.frames x).poc cur_poc ⊎ Covered d.frames (d.frames x).poc refs)
          d.short
unfolding add_sorted_short_refs
add_sorted_short_refs-Descends d cur_poc out usual =
    let (refs, run, ordered) =
      sorted_loop-Ordered (suc (length d.short)) d cur_poc out usual
        (omega (arith, count_upto-length d.frames cur_poc d.short)) in
    (refs, run, ordered.descends, ordered.short_refs, ordered.covers)
