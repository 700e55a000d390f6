-- ===== src/Dpb/RefLists.antt =====
-- internal/h264/simple_dpb.go: the short-term references of a B slice in the order of their counts,
-- `addSortedShortRefsInto`.
pub mod Endless
pub mod Descending
pub mod Ordered
use goh.Base.{
  Bool, List, Option, [], false, if◌then◌else◌, length, none, some, suc, true, zero, ℕ, ◌&&◌, ◌++◌,
  ◌∷◌,
}
use goh.Base.Int.{leb_ℤ, ltb_ℤ, pos, ℤ}
use goh.Dpb.{Dpb, Frame, FrameId, max_int32, min_int32}
use goh.Dpb.Poc.{sub_i32}

-- Whether a frame is on the wanted side of the limit and as near to it as the best one so far.
-- Downwards is `dir != 0`.
abbrev pub is_nearer : Bool → ℤ → ℤ → ℤ → Bool
is_nearer true limit best_poc poc = leb_ℤ poc limit && leb_ℤ best_poc poc
is_nearer false limit best_poc poc = ltb_ℤ limit poc && ltb_ℤ poc best_poc

-- The inner loop.
unfoldable pub nearest_from :
    (FrameId → Frame) → Bool → ℤ → ℤ → Option FrameId → List FrameId → Option FrameId
nearest_from frames down limit best_poc best [] = best
nearest_from frames down limit best_poc best (f ∷ fs) =
    let nearer = is_nearer down limit best_poc (frames f).poc in
    nearest_from frames down limit (if nearer then (frames f).poc else best_poc)
      (if nearer then some f else best) fs

abbrev pub worst_poc : Bool → ℤ
worst_poc down = if down then min_int32 else max_int32

-- The limit behind a frame that was appended: `limit = best.poc - 1` is a difference of `int32`.
abbrev pub next_limit : Bool → ℤ → ℤ
next_limit down poc = if down then sub_i32 poc (pos 1) else poc

-- The outer loop, `none` when the rounds run out.
unfoldable pub sorted_loop : ℕ → Dpb → Bool → ℤ → List FrameId → Option (List FrameId)
sorted_loop zero d down limit out = none
sorted_loop (suc rounds) d down limit out =
    elim (nearest_from d.frames down limit (worst_poc down) none d.short) [
      | none ↦ some out
      | some best ↦
          sorted_loop rounds d down (next_limit down (d.frames best).poc) (out ++ (best ∷ []))
    ]

-- Each round but the last finds a frame of which the count was not found before, unless the limit
-- wraps.
unfoldable pub add_sorted_short_refs : Dpb → Bool → ℤ → List FrameId → Option (List FrameId)
add_sorted_short_refs d down cur_poc out = sorted_loop (suc (length d.short)) d down cur_poc out
