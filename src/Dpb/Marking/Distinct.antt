-- ===== src/Dpb/Marking/Distinct.antt =====
-- internal/h264/simple_dpb.go: the frame numbers of the short-term references.
use goh.Base.{
  ==_iff, All, Bool, Bool-cases, List, [], arith, false, get_elem?, if◌then◌else◌, inl, inr, none,
  refl, some, suc, sym, true, zero, ℕ, ◌+◌, ◌==◌, ◌∷◌, ◌≡◌, ◌≢◌, ◌⊎◌,
}
use goh.Dpb.{Dpb, update_frame, Frame, FrameId, SliceHeader}
use goh.Dpb.Marking.Shrinks.{Shrinks, Shrunk, cut, emptied, same}
use goh.Dpb.Refs.{remove_at, first_place, has_frame_num}

module _ (frames : FrameId → Frame) where
  abbrev pub NoNum : ℕ → List FrameId → Type 0
  NoNum num gs = All (λ g. (frames g).frame_num ≢ num) gs

  abbrev pub IsDistinct : List FrameId → Type 0
  IsDistinct [] = Unit {0}
  IsDistinct (g ∷ gs) = NoNum (frames g).frame_num gs × IsDistinct gs

pub All-remove_at :
    (P : FrameId → Type 0) (i : ℕ) (gs : List FrameId) → All P gs → All P (remove_at i gs)
All-remove_at P i [] h = tt
All-remove_at P zero (g ∷ gs) (h, hs) = hs
All-remove_at P (suc i) (g ∷ gs) (h, hs) = (h, All-remove_at P i gs hs)

IsDistinct-remove_at :
    (frames : FrameId → Frame) (i : ℕ) (gs : List FrameId)
    → IsDistinct frames gs
    → IsDistinct frames (remove_at i gs)
IsDistinct-remove_at frames i [] h = tt
IsDistinct-remove_at frames zero (g ∷ gs) (h, hs) = hs
IsDistinct-remove_at frames (suc i) (g ∷ gs) (h, hs) = (
  All-remove_at (λ x. (frames x).frame_num ≢ (frames g).frame_num) i gs h,
  IsDistinct-remove_at frames i gs hs,
)

pub All-Shrunk : (P : FrameId → Type 0) {xs ys : List FrameId} → Shrunk xs ys → All P xs → All P ys
All-Shrunk P same h = h
All-Shrunk P (cut i {ys} s) h = All-remove_at P i ys (All-Shrunk P s h)
All-Shrunk P emptied h = tt

pub IsDistinct-Shrunk :
    (frames : FrameId → Frame) {xs ys : List FrameId}
    → Shrunk xs ys
    → IsDistinct frames xs
    → IsDistinct frames ys
IsDistinct-Shrunk frames same h = h
IsDistinct-Shrunk frames (cut i {ys} s) h =
    IsDistinct-remove_at frames i ys (IsDistinct-Shrunk frames s h)
IsDistinct-Shrunk frames emptied h = tt

-- The short-term references have distinct frame numbers, and `f` is none of them or has the frame
-- number of the header already, as it has where a field of it was marked.
pub record IsMarkable (f : FrameId) (sh : SliceHeader) (d : Dpb) : Type 0 where
  pub distinct : IsDistinct d.frames d.short
  pub new_or_numbered : All (λ g. g ≢ f) d.short ⊎ ((d.frames f).frame_num ≡ sh.frame_num)

pub IsDistinct-Shrinks :
    {d d' : Dpb} → Shrinks d d' → IsDistinct d.frames d.short → IsDistinct d'.frames d'.short
IsDistinct-Shrinks {d} {d'} s h = rw s.kept (IsDistinct-Shrunk d.frames s.shorter h)

-- A frame that is no short-term reference may change.
module _ (f : FrameId) (frames frames' : FrameId → Frame)
    (others : (g : FrameId) → g ≢ f → frames' g ≡ frames g) where
  NoNum-others :
      (num : ℕ) (gs : List FrameId)
      → All (λ g. g ≢ f) gs
      → NoNum frames num gs
      → NoNum frames' num gs
  NoNum-others num [] a h = tt
  NoNum-others num (g ∷ gs) (a, rest) (h, hs) = (rw (others g a) h, NoNum-others num gs rest hs)

  IsDistinct-others :
      (gs : List FrameId) → All (λ g. g ≢ f) gs → IsDistinct frames gs → IsDistinct frames' gs
  IsDistinct-others [] a h = tt
  IsDistinct-others (g ∷ gs) (a, rest) (h, hs) =
      (rw (others g a) (NoNum-others (frames g).frame_num gs rest h), IsDistinct-others gs rest hs)

update_frame_others :
    (f : FrameId) (change : Frame → Frame) (d : Dpb) (g : FrameId)
    → g ≢ f
    → (update_frame f change d).frames g ≡ d.frames g
update_frame_others f change d g h = ground arith

-- Frames that keep their numbers.
module _ (frames frames' : FrameId → Frame)
    (nums : (g : FrameId) → (frames' g).frame_num ≡ (frames g).frame_num) where
  NoNum-nums : (num : ℕ) (gs : List FrameId) → NoNum frames num gs → NoNum frames' num gs
  NoNum-nums num [] h = tt
  NoNum-nums num (g ∷ gs) (h, hs) = (rw (nums g) h, NoNum-nums num gs hs)

  IsDistinct-nums : (gs : List FrameId) → IsDistinct frames gs → IsDistinct frames' gs
  IsDistinct-nums [] h = tt
  IsDistinct-nums (g ∷ gs) (h, hs) =
      (rw (nums g) (NoNum-nums (frames g).frame_num gs h), IsDistinct-nums gs hs)

-- The frame takes the frame number of the header.
pub take_num-IsDistinct :
    (f : FrameId) (sh : SliceHeader) (d : Dpb)
    → IsMarkable f sh d
    → IsDistinct
        (update_frame f (λ frame. record frame { frame_num = sh.frame_num }) d).frames
        d.short
take_num-IsDistinct f sh d h =
    let numbered_as : Dpb = update_frame f (λ frame. record frame { frame_num = sh.frame_num }) d in
    elim h.new_or_numbered [
      | inl absent ↦
          IsDistinct-others f d.frames numbered_as.frames
            (update_frame_others f (λ frame. record frame { frame_num = sh.frame_num }) d) d.short
            absent h.distinct
      | inr e ↦
          IsDistinct-nums d.frames numbered_as.frames
            (λ g. by g e (g == f) (λ t. ground (arith, t))) d.short h.distinct
    ]
  where
    by :
        (g : FrameId)
        → (d.frames f).frame_num ≡ sh.frame_num
        → (test : Bool) → (test ≡ true → g ≡ f)
        → (if test then record (d.frames f) { frame_num = sh.frame_num } else d.frames g).frame_num
          ≡ (d.frames g).frame_num
    by g e true k = rw (k refl) (sym e)
    by g e false k = refl

-- Where the first frame with a number is taken out, none is left.
pub remove_first_place :
    (d : Dpb) (num i : ℕ) (gs : List FrameId) (j : ℕ) (f : FrameId)
    → IsDistinct d.frames gs
    → first_place (has_frame_num d num) i gs ≡ some (j, f)
    → (k : ℕ) × (j ≡ i + k) × NoNum d.frames num (remove_at k gs) × (get_elem? gs k ≡ some f)
remove_first_place d num i [] j f h e = cc e
remove_first_place d num i (g ∷ gs) j f (h, hs) e = elim (Bool-cases (has_frame_num d num g)) [
  | inl found ↦
      let same_num : (d.frames g).frame_num ≡ num = (==_iff _ num).0 found in
      (0, ground arith, rw (← same_num) h, ground arith)
  | inr other_num ↦
      let later : first_place (has_frame_num d num) (suc i) gs ≡ some (j, f) = ground arith in
      let (k, place, none_left, there) = remove_first_place d num (suc i) gs j f hs later in
      (suc k, omega (arith, place), ((λ q. ground arith), none_left), there)
]

pub no_first_place :
    (d : Dpb) (num i : ℕ) (gs : List FrameId)
    → first_place (has_frame_num d num) i gs ≡ none
    → NoNum d.frames num gs
no_first_place d num i [] e = tt
no_first_place d num i (g ∷ gs) e = elim (Bool-cases (has_frame_num d num g)) [
  | inl found ↦ absurd (ground arith)
  | inr other_num ↦
      let later : first_place (has_frame_num d num) (suc i) gs ≡ none = ground arith in
      ((λ q. ground arith), no_first_place d num (suc i) gs later)
]
