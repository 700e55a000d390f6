-- ===== src/Dpb/Marking/Shrinks.antt =====
-- internal/h264/simple_dpb.go: which short-term references the functions on the lists can leave.
use goh.Base.{
  Bool, List, Option, [], false, get_elem?, get_or, if◌then◌else◌, none, refl, set, some, suc, true,
  zero, ℕ, ◌+◌, ◌==◌, ◌||◌, ◌∙◌, ◌≡◌,
}
use goh.Base.Words.{and_not}
use goh.Dpb.{Dpb, FrameId, picture_frame}
use goh.Dpb.Refs.{
  clear_frame_ref_mask_if_unreferenced, clear_option, clear_refs_to, drop_long_structure,
  first_long, first_place, frame_has_reference_structure, frame_is_long, frame_is_short,
  frame_ref_mask, has_frame_num, has_num_and_structure, remove_at, remove_first_long,
  remove_long_by_index, remove_long_by_index_and_structure, remove_long_refs_for_frame,
  remove_short_at_index, remove_short_by_frame_num, remove_short_by_frame_num_and_structure,
  set_frame_ref_mask,
}
use goh.Dpb.Control.{remove_longs_from}

-- What is left of a list when items are taken out.
pub data Shrunk (xs : List FrameId) : List FrameId → Type 0 where
  same : Shrunk xs xs
  cut : (i : ℕ) {ys : List FrameId} → Shrunk xs ys → Shrunk xs (remove_at i ys)
  emptied : Shrunk xs []

pub Shrunk-trans : {xs ys zs : List FrameId} → Shrunk xs ys → Shrunk ys zs → Shrunk xs zs
Shrunk-trans s same = s
Shrunk-trans s (cut i t) = cut i (Shrunk-trans s t)
Shrunk-trans s emptied = emptied

-- From `d` to `d'` no frame changes, and short-term references are only taken out.
pub record Shrinks (d d' : Dpb) : Type 0 where
  pub kept : d'.frames ≡ d.frames
  pub shorter : Shrunk d.short d'.short

pub Shrinks-refl : (d : Dpb) → Shrinks d d
Shrinks-refl d = record { kept = refl; shorter = same }

pub Shrinks-trans : {d e f : Dpb} → Shrinks d e → Shrinks e f → Shrinks d f
Shrinks-trans s t = record { kept = t.kept ∙ s.kept; shorter = Shrunk-trans s.shorter t.shorter }

pub Shrinks-if :
    (b : Bool) {d x y : Dpb} → Shrinks d x → Shrinks d y → Shrinks d (if b then x else y)
Shrinks-if true s t = s
Shrinks-if false s t = t

pub set_frame_ref_mask-Shrinks :
    (f : FrameId) (mask : ℕ) (d : Dpb) → Shrinks d (set_frame_ref_mask f mask d)
unfolding set_frame_ref_mask
set_frame_ref_mask-Shrinks f mask d = record { kept = refl; shorter = same }

pub clear-Shrinks : (f : FrameId) (d : Dpb) → Shrinks d (clear_frame_ref_mask_if_unreferenced f d)
unfolding clear_frame_ref_mask_if_unreferenced
clear-Shrinks f d =
    Shrinks-if (frame_is_short f d || frame_is_long f d) (Shrinks-refl d)
      (set_frame_ref_mask-Shrinks f 0 d)

pub long-Shrinks : (d : Dpb) (refs : List (Option FrameId)) → Shrinks d (record d { long = refs })
long-Shrinks d refs = record { kept = refl; shorter = same }

-- The mask of `f` cleared, behind a write to the long-term references.
clear_long-Shrinks :
    (f : FrameId) (d : Dpb) (refs : List (Option FrameId))
    → Shrinks d (clear_frame_ref_mask_if_unreferenced f (record d { long = refs }))
clear_long-Shrinks f d refs =
    Shrinks-trans (long-Shrinks d refs) (clear-Shrinks f (record d { long = refs }))

pub remove_short_at_index-Shrinks : (i : ℕ) (d : Dpb) → Shrinks d (remove_short_at_index i d)
unfolding remove_short_at_index
remove_short_at_index-Shrinks i d = by (get_elem? d.short i)
  where
    by :
        (o : Option FrameId)
        → Shrinks d (elim o [
          | none ↦ d
          | some f ↦
              clear_frame_ref_mask_if_unreferenced f (record d { short = remove_at i d.short })
        ])
    by none = Shrinks-refl d
    by (some f) = Shrinks-trans (record { kept = refl; shorter = cut i same }) (clear-Shrinks f _)

removed-Shrinks :
    (f : FrameId) (i : ℕ) (d : Dpb)
    → Shrinks d (clear_frame_ref_mask_if_unreferenced f (remove_short_at_index i d))
removed-Shrinks f i d = Shrinks-trans (remove_short_at_index-Shrinks i d) (clear-Shrinks f _)

pub remove_short_by_frame_num-Shrinks :
    (num : ℕ) (d : Dpb) → Shrinks d (remove_short_by_frame_num num d)
unfolding remove_short_by_frame_num
remove_short_by_frame_num-Shrinks num d = by (first_place (has_frame_num d num) 0 d.short)
  where
    by :
        (o : Option (ℕ × FrameId))
        → Shrinks d (elim o [
          | none ↦ d
          | some (i, f) ↦ clear_frame_ref_mask_if_unreferenced f (remove_short_at_index i d)
        ])
    by none = Shrinks-refl d
    by (some (i, f)) = removed-Shrinks f i d

pub remove_short_by_frame_num_and_structure-Shrinks :
    (num structure : ℕ) (d : Dpb)
    → Shrinks d (remove_short_by_frame_num_and_structure num structure d)
unfolding remove_short_by_frame_num_and_structure
remove_short_by_frame_num_and_structure-Shrinks num structure d =
    Shrinks-if (structure == picture_frame) (remove_short_by_frame_num-Shrinks num d)
      (by (first_place (has_num_and_structure d num structure) 0 d.short))
  where
    by :
        (o : Option (ℕ × FrameId))
        → Shrinks d (elim o [
          | none ↦ d
          | some (i, f) ↦
              let mask = and_not (frame_ref_mask f d) structure in
              if mask == 0
              then clear_frame_ref_mask_if_unreferenced f (remove_short_at_index i d)
              else set_frame_ref_mask f mask d
        ])
    by none = Shrinks-refl d
    by (some (i, f)) =
        Shrinks-if (and_not (frame_ref_mask f d) structure == 0) (removed-Shrinks f i d)
          (set_frame_ref_mask-Shrinks f _ d)

pub remove_long_by_index-Shrinks : (i : ℕ) (d : Dpb) → Shrinks d (remove_long_by_index i d)
unfolding remove_long_by_index
remove_long_by_index-Shrinks i d = by (get_or d.long i none)
  where
    by : (o : Option FrameId) → Shrinks d (clear_option o (record d { long = set d.long i none }))
    by none = long-Shrinks d _
    by (some f) = clear_long-Shrinks f d _

pub remove_long_by_index_and_structure-Shrinks :
    (i structure : ℕ) (d : Dpb) → Shrinks d (remove_long_by_index_and_structure i structure d)
unfolding remove_long_by_index_and_structure
remove_long_by_index_and_structure-Shrinks i structure d = by (get_or d.long i none)
  where
    by :
        (o : Option FrameId)
        → Shrinks d (elim o [
          | none ↦ d
          | some f ↦
              if frame_has_reference_structure f structure d
              then drop_long_structure i structure f d
              else d
        ])
    by none = Shrinks-refl d
    by (some f) =
        Shrinks-if (frame_has_reference_structure f structure d)
          (Shrinks-if (structure == picture_frame) (remove_long_by_index-Shrinks i d) (
            Shrinks-if (and_not (frame_ref_mask f d) structure == 0) (clear_long-Shrinks f d _)
              (set_frame_ref_mask-Shrinks f _ d)))
          (Shrinks-refl d)

pub remove_long_refs_for_frame-Shrinks :
    (f : FrameId) (d : Dpb) → Shrinks d (remove_long_refs_for_frame f d)
unfolding remove_long_refs_for_frame
remove_long_refs_for_frame-Shrinks f d = clear_long-Shrinks f d (clear_refs_to f d.long)

pub remove_first_long-Shrinks : (d : Dpb) → Shrinks d (remove_first_long d)
unfolding remove_first_long
remove_first_long-Shrinks d = by (first_long 0 d.long)
  where
    by :
        (o : Option (ℕ × FrameId))
        → Shrinks d (elim o [
          | none ↦ d
          | some (i, f) ↦
              clear_frame_ref_mask_if_unreferenced f (record d { long = set d.long i none })
        ])
    by none = Shrinks-refl d
    by (some (i, f)) = clear_long-Shrinks f d _

pub remove_longs_from-Shrinks : (rounds j : ℕ) (d : Dpb) → Shrinks d (remove_longs_from rounds j d)
unfolding remove_longs_from
remove_longs_from-Shrinks zero j d = Shrinks-refl d
remove_longs_from-Shrinks (suc rounds) j d =
    Shrinks-trans (remove_long_by_index-Shrinks j d)
      (remove_longs_from-Shrinks rounds (j + 1) (remove_long_by_index j d))
