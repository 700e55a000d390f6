-- ===== src/Dpb/RefLists/Descending.antt =====
-- internal/h264/simple_dpb.go: `addSortedShortRefsInto` downwards, above the least count.
use goh.Base.{
  All, Bool-cases, List, [], arith, false, if◌then◌else◌, inl, inr, length, none, refl, some, true,
  ℕ, ◌+◌, ◌<◌, ◌∷◌, ◌≡◌, ◌≤◌, ◌⊎◌,
}
use goh.Base.Int.{leb_ℤ, neg_part, pos, pos_part, ℤ, ◌-ℤ◌, ◌≤ℤ◌}
use goh.Dpb.{Frame, FrameId, min_int32}
use goh.Dpb.RefLists.{is_nearer, nearest_from}
use mathlib.Core.Path.{subst}
use goh.Base.Sums.{sub_parts}

module _ (frames : FrameId → Frame) where
  abbrev pub Exceeds : ℤ → ℤ → Type 0
  Exceeds z limit = pos_part limit + neg_part z < pos_part z + neg_part limit

  -- The frame is one of these.
  abbrev pub Among : FrameId → List FrameId → Type 0
  Among g [] = ⊥
  Among g (f ∷ fs) = (f ≡ g) ⊎ Among g fs

  -- One of the frames has this count.
  abbrev pub Covered : ℤ → List FrameId → Type 0
  Covered z [] = ⊥
  Covered z (f ∷ fs) = ((z ≤ℤ (frames f).poc) × ((frames f).poc ≤ℤ z)) ⊎ Covered z fs

  -- Each count is less than the one before it, and the first is no greater than `limit`.
  abbrev pub Descends : ℤ → List FrameId → Type 0
  Descends limit [] = Unit {0}
  Descends limit (f ∷ fs) = ((frames f).poc ≤ℤ limit) × Descends ((frames f).poc -ℤ pos 1) fs

  -- What the inner loop finds.
  pub record Best (limit : ℤ) (g : FrameId) (fs : List FrameId) : Type 0 where
    pub within : (frames g).poc ≤ℤ limit
    pub most : All (λ x. Exceeds (frames x).poc limit ⊎ ((frames x).poc ≤ℤ (frames g).poc)) fs

  better :
      (limit : ℤ) (fs : List FrameId) (b : FrameId)
      → (frames b).poc ≤ℤ limit
      → (g : FrameId) × (nearest_from frames true limit (frames b).poc (some b) fs ≡ some g)
        × Best limit g fs
        × ((frames b).poc ≤ℤ (frames g).poc)
        × ((b ≡ g) ⊎ Among g fs)
  unfolding nearest_from
  better limit [] b h = (b, refl, record { within = h; most = tt }, omega arith, inl refl)
  better limit (f ∷ fs) b h =
      elim (Bool-cases (is_nearer true limit (frames b).poc (frames f).poc)) [
        | inl e ↦
            let (g, found, best, up, place) = better limit fs f (ground (arith, e)) in
            rw e (
              g,
              found,
              record { within = best.within; most = (inr up, best.most) },
              ground (arith, e, up),
              inr place,
            )
        | inr e ↦
            let (g, found, best, up, place) = better limit fs b h in
            rw e (
              g,
              found,
              record { within = best.within; most = (ground (arith, e, up), best.most) },
              up,
              elim place [ inl same_frame ↦ inl same_frame | inr later ↦ inr (inr later) ],
            )
      ]

  abbrev pub count_upto : ℤ → List FrameId → ℕ
  count_upto limit [] = 0
  count_upto limit (f ∷ fs) = (if leb_ℤ (frames f).poc limit then 1 else 0) + count_upto limit fs

  pub count_upto-length : (limit : ℤ) (fs : List FrameId) → count_upto limit fs ≤ length fs
  count_upto-length limit [] = omega arith
  count_upto-length limit (f ∷ fs) = ground (arith, count_upto-length limit fs)

  count_upto-le :
      (low limit : ℤ) (fs : List FrameId) → low ≤ℤ limit → count_upto low fs ≤ count_upto limit fs
  count_upto-le low limit [] h = omega arith
  count_upto-le low limit (f ∷ fs) h = ground (arith, h, count_upto-le low limit fs h)

  pub count_upto-Among :
      (low limit : ℤ) (g : FrameId) (fs : List FrameId)
      → low ≤ℤ limit
      → (frames g).poc ≤ℤ limit
      → Exceeds (frames g).poc low
      → Among g fs
      → count_upto low fs < count_upto limit fs
  count_upto-Among low limit g [] h inside out place = absurd place
  count_upto-Among low limit g (f ∷ fs) h inside out (inl e) =
      let here : (leb_ℤ (frames f).poc limit ≡ true) × (leb_ℤ (frames f).poc low ≡ false) =
        rw e (ground (arith, inside), ground (arith, out)) in
      rw (here.0, here.1) (omega (arith, count_upto-le low limit fs h))
  count_upto-Among low limit g (f ∷ fs) h inside out (inr place) =
      ground (arith, h, count_upto-Among low limit g fs h inside out place)

  pub chosen :
      (limit : ℤ) (fs : List FrameId)
      → All (λ x. Exceeds (frames x).poc min_int32) fs
      → ((nearest_from frames true limit min_int32 none fs ≡ none)
          × All (λ x. Exceeds (frames x).poc limit) fs)
        ⊎ ((g : FrameId) × (nearest_from frames true limit min_int32 none fs ≡ some g)
            × Best limit g fs
            × Among g fs)
  unfolding nearest_from
  chosen limit [] h = inl (refl, tt)
  chosen limit (f ∷ fs) (h, hs) = elim (Bool-cases (leb_ℤ (frames f).poc limit)) [
    | inl e ↦
        let near : is_nearer true limit min_int32 (frames f).poc ≡ true = ground (arith, e, h) in
        let (g, found, best, up, place) = better limit fs f (ground (arith, e)) in
        inr (rw near (g, found, record { within = best.within; most = (inr up, best.most) }, place))
    | inr e ↦
        let far : is_nearer true limit min_int32 (frames f).poc ≡ false = rw e refl in
        elim (chosen limit fs hs) [
          | inl (none_left, all_above) ↦ inl (rw far (none_left, (ground (arith, e), all_above)))
          | inr (g, found, best, place) ↦ inr (
              rw far (
                g,
                found,
                record { within = best.within; most = (inl (ground (arith, e)), best.most) },
                inr place,
              ))
        ]
  ]

  pub All-Among :
      (P : FrameId → Type 0) (g : FrameId) (fs : List FrameId) → All P fs → Among g fs → P g
  All-Among P g [] h place = absurd place
  All-Among P g (f ∷ fs) (h, hs) (inl e) = subst P e h
  All-Among P g (f ∷ fs) (h, hs) (inr place) = All-Among P g fs hs place

  -- Frames up to the count of `g` are covered by it and by what covers those below it.
  pub Covered-step :
      (limit : ℤ) (g : FrameId) (refs fs : List FrameId)
      → All (λ x. Exceeds (frames x).poc limit ⊎ ((frames x).poc ≤ℤ (frames g).poc)) fs
      → All (λ x. Exceeds (frames x).poc ((frames g).poc -ℤ pos 1) ⊎ Covered (frames x).poc refs) fs
      → All (λ x. Exceeds (frames x).poc limit ⊎ Covered (frames x).poc (g ∷ refs)) fs
  Covered-step limit g refs [] a b = tt
  Covered-step limit g refs (f ∷ fs) (a, as') (b, bs) =
      (step a b, Covered-step limit g refs fs as' bs)
    where
      step :
          Exceeds (frames f).poc limit ⊎ ((frames f).poc ≤ℤ (frames g).poc)
          → Exceeds (frames f).poc ((frames g).poc -ℤ pos 1) ⊎ Covered (frames f).poc refs
          → Exceeds (frames f).poc limit ⊎ Covered (frames f).poc (g ∷ refs)
      step (inl above) b = inl above
      step (inr below) (inl above) =
          inr (inl (below, omega (arith, above, sub_parts (frames g).poc (pos 1))))
      step (inr below) (inr later) = inr (inr later)
