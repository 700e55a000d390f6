-- ===== src/Dpb/Output/Choice.antt =====
-- internal/h264/simple_dpb.go: which waiting picture `nextOutputFrameIndex` takes.
use goh.Base.{
  All, Bool-cases, List, [], ap, arith, false, get_elem?, inl, inr, refl, some, suc, sym, ℕ, ◌+◌,
  ◌∙◌, ◌∷◌, ◌≡◌, ◌⊎◌,
}
use goh.Base.Int.{ltb_ℤ, ℤ, ◌≤ℤ◌}
use goh.Dpb.{Frame, FrameId}
use goh.Dpb.Output.{next_from, next_in, starts_sequence}

module _ (frames : FrameId → Frame) where
  abbrev pub AtLeast : ℤ → List FrameId → Type 0
  AtLeast z gs = All (λ g. z ≤ℤ (frames g).poc) gs

  -- No picture behind the first starts a sequence, and the first is not marked by an operation.
  abbrev pub IsCalm : List FrameId → Type 0
  IsCalm [] = Unit {0}
  IsCalm (f ∷ fs) =
      ((frames f).mmco_reset ≡ false) × All (λ g. starts_sequence (frames g) ≡ false) fs

  AtLeast-mono : (a b : ℤ) (gs : List FrameId) → a ≤ℤ b → AtLeast b gs → AtLeast a gs
  AtLeast-mono a b [] le h = tt
  AtLeast-mono a b (g ∷ gs) le (h, hs) = (omega arith, AtLeast-mono a b gs le hs)

  -- The index that the loop returns, and the picture there.
  pub record Pick (i best r : ℕ) (chosen : FrameId) (fs : List FrameId) : Type 0 where
    pub picked : FrameId
    pub place :
        ((r ≡ best) × (picked ≡ chosen)) ⊎ ((k : ℕ) × (r ≡ i + k) × (get_elem? fs k ≡ some picked))
    pub below : (frames picked).poc ≤ℤ (frames chosen).poc
    pub least : AtLeast (frames picked).poc fs

  next_from-Pick :
      (i best : ℕ) (chosen : FrameId) (fs : List FrameId)
      → All (λ g. starts_sequence (frames g) ≡ false) fs
      → Pick i best (next_from frames i best chosen fs) chosen fs
  unfolding next_from
  next_from-Pick i best chosen [] h = record {
    picked = chosen;
    place = inl (refl, refl);
    below = omega arith;
    least = tt;
  }
  next_from-Pick i best chosen (f ∷ fs) (h, hs) =
      elim (Bool-cases (ltb_ℤ (frames f).poc (frames chosen).poc)) [
        | inl e ↦
            let p = next_from-Pick (suc i) i f fs hs in
            rw (h, e)
              (record {
                picked = p.picked;
                place = elim p.place [
                  | inl (r, c) ↦ inr (0, r ∙ omega arith, ap some (sym c))
                  | inr (k, r, there) ↦ inr (suc k, r ∙ omega arith, there)
                ];
                below = ground (arith, p.below);
                least = (p.below, p.least);
              })
        | inr e ↦
            let p = next_from-Pick (suc i) best chosen fs hs in
            rw (h, e)
              (record {
                picked = p.picked;
                place = elim p.place [
                  | inl unmoved ↦ inl unmoved
                  | inr (k, r, there) ↦ inr (suc k, r ∙ omega arith, there)
                ];
                below = p.below;
                least = (ground (arith, p.below), p.least);
              })
      ]

  -- In a calm list the index is of a picture with the least order count.
  pub next_in-least :
      (f : FrameId) (fs : List FrameId)
      → IsCalm (f ∷ fs)
      → (g : FrameId) × (get_elem? (f ∷ fs) (next_in frames (f ∷ fs)) ≡ some g)
        × AtLeast (frames g).poc (f ∷ fs)
  next_in-least f fs (quiet, calm) =
      let p = next_from-Pick 1 0 f fs calm in
      (
        p.picked,
        rw quiet (elim p.place [
          | inl (r, c) ↦ rw r (ap some (sym c))
          | inr (k, r, there) ↦
              let r' : next_from frames 1 0 f fs ≡ suc k = r ∙ omega arith in rw r' there
        ]),
        (p.below, p.least),
      )
