-- ===== src/Base/Sums.antt =====
-- Sums of signed integers, by their two parts, and sums that fit an `int32`.
use goh.Base.Int.{neg_part, pos_part, ℤ, pos, negsuc, ◌+ℤ◌, ◌-ℤ◌}
use goh.Base.Words.{wrap}
use goh.Base.{arith, inl, inr, refl, ◌+◌, ◌<◌, ◌^◌, ◌≡◌, ◌≤◌, ◌⊎◌}

pub add_parts :
    (a b : ℤ)
    → pos_part (a +ℤ b) + (neg_part a + neg_part b) ≡ neg_part (a +ℤ b) + (pos_part a + pos_part b)
unfolding ◌+ℤ◌
add_parts a b = ground arith

pub sub_parts :
    (a b : ℤ)
    → pos_part (a -ℤ b) + (neg_part a + pos_part b) ≡ neg_part (a -ℤ b) + (pos_part a + neg_part b)
unfolding ◌-ℤ◌
sub_parts a b = ground arith

pub one_sign : (a : ℤ) → (pos_part a ≡ 0) ⊎ (neg_part a ≡ 0)
one_sign (pos n) = inr refl
one_sign (negsuc n) = inl refl

-- A sum or difference of integers below 2 ^ 30 does not wrap.
pub record Small (a : ℤ) : Type 0 where
  pub above : pos_part a < 2 ^ 31
  pub below : neg_part a ≤ 2 ^ 31

pub wrap-Small : (a : ℤ) → Small a → wrap 32 a ≡ a
wrap-Small (pos n) s = ground (arith, s.above)
wrap-Small (negsuc n) s = ground (arith, s.below)
