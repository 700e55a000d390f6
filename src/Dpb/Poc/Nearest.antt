-- ===== src/Dpb/Poc/Nearest.antt =====
-- internal/h264/simple_dpb.go: the order count of type 0 and the one before it, in `initPOC`.
use goh.Base.{
  Bool, arith, false, if◌then◌else◌, inl, inr, refl, true, ℕ, ◌*◌, ◌+◌, ◌-◌, ◌<◌, ◌^◌, ◌≡◌, ◌≤◌,
  ◌⊎◌,
}
use goh.Base.Int.{neg, neg_part, negsuc, pos, pos_part, ℤ, ◌+ℤ◌, ◌-ℤ◌}
use goh.Dpb.Poc.{add_i32, half, sub_i32, choose_msb}
use goh.Base.Sums.{wrap-Small, add_parts, sub_parts, one_sign}

module _ (h : ℕ) (some_half : 0 < h) (small_half : h ≤ 2 ^ 15) where
  half-double : half (pos (2 * h)) ≡ pos h
  half-double = ground arith

  half-neg : half (neg (pos (2 * h))) ≡ negsuc (h - 1)
  half-neg = ground arith

sub_lsb : (a b : ℕ) → a ≤ 2 ^ 16 → b ≤ 2 ^ 16 → sub_i32 (pos a) (pos b) ≡ pos a -ℤ pos b
unfolding ◌-ℤ◌
sub_lsb a b ha hb =
    wrap-Small (pos a -ℤ pos b) (record { above = ground arith; below = ground arith })

-- An integer far from the bounds of an `int32`.
pub record Far (q : ℤ) : Type 0 where
  pub over : pos_part q < 2 ^ 30
  pub under : neg_part q < 2 ^ 30

add_i32-Far : (q : ℤ) (n : ℕ) → Far q → n ≤ 2 ^ 17 → add_i32 q (pos n) ≡ q +ℤ pos n
unfolding ◌+ℤ◌
add_i32-Far q n f small =
    wrap-Small (q +ℤ pos n)
      (record { above = ground (arith, f.over, f.under); below = ground (arith, f.over, f.under) })

sub_i32-Far : (q : ℤ) (n : ℕ) → Far q → n ≤ 2 ^ 17 → sub_i32 q (pos n) ≡ q -ℤ pos n
unfolding ◌-ℤ◌
sub_i32-Far q n f small =
    wrap-Small (q -ℤ pos n)
      (record { above = ground (arith, f.over, f.under); below = ground (arith, f.over, f.under) })

-- The high part `r` is the one before, `q`, or differs from it by the modulus `2 * h`, and with the
-- low part `a` it lies above the count before by `h` at most and below it by less than `h`.
pub record IsNearest (h a b : ℕ) (q r : ℤ) : Type 0 where
  pub candidate : (r ≡ q) ⊎ (r ≡ q +ℤ pos (2 * h)) ⊎ (r ≡ q -ℤ pos (2 * h))
  pub above : pos_part r + a + neg_part q ≤ pos_part q + b + neg_part r + h
  pub below : pos_part q + b + neg_part r < pos_part r + a + neg_part q + h

IsNearest-if :
    (h a b : ℕ) (q x y z : ℤ) (up down : Bool)
    → (up ≡ true → IsNearest h a b q x)
    → (up ≡ false → down ≡ true → IsNearest h a b q y)
    → (up ≡ false → down ≡ false → IsNearest h a b q z)
    → IsNearest h a b q (if up then x else if down then y else z)
IsNearest-if h a b q x y z true down ux dy dz = ux refl
IsNearest-if h a b q x y z false true ux dy dz = dy refl refl
IsNearest-if h a b q x y z false false ux dy dz = dz refl refl

pub choose_msb-IsNearest :
    (h a b : ℕ) (q : ℤ)
    → 0 < h
    → h ≤ 2 ^ 15
    → a < 2 * h
    → b < 2 * h
    → Far q
    → IsNearest h a b q (choose_msb (pos (2 * h)) (pos a) (pos b) q)
unfolding choose_msb
choose_msb-IsNearest h a b q some_half small ha hb far =
    rw
      (
        half-double h some_half small,
        half-neg h some_half small,
        sub_lsb b a (omega arith) (omega arith),
        add_i32-Far q (2 * h) far (omega arith),
        sub_i32-Far q (2 * h) far (omega arith),
      )
      (IsNearest-if h a b q (q +ℤ pos (2 * h)) (q -ℤ pos (2 * h)) q _ _
        (λ up. record {
          candidate = inr (inl refl);
          above = ground (
            arith,
            sub_parts (pos b) (pos a),
            one_sign (pos b -ℤ pos a),
            up,
            add_parts q (pos (2 * h)),
          );
          below = ground (
            arith,
            sub_parts (pos b) (pos a),
            one_sign (pos b -ℤ pos a),
            up,
            add_parts q (pos (2 * h)),
          );
        })
        (λ up down. record {
          candidate = inr (inr refl);
          above = ground (
            arith,
            sub_parts (pos b) (pos a),
            one_sign (pos b -ℤ pos a),
            down,
            sub_parts q (pos (2 * h)),
          );
          below = ground (
            arith,
            sub_parts (pos b) (pos a),
            one_sign (pos b -ℤ pos a),
            down,
            sub_parts q (pos (2 * h)),
          );
        })
        (λ up down. record {
          candidate = inl refl;
          above = ground (arith, sub_parts (pos b) (pos a), one_sign (pos b -ℤ pos a), up, down);
          below = ground (arith, sub_parts (pos b) (pos a), one_sign (pos b -ℤ pos a), up, down);
        }))
