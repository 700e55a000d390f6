-- ===== src/Golomb/Code.antt =====
-- The Exp-Golomb code of a number, and the width of a number in bits.
use goh.Base.{
  ==_iff, Bool-cases, List, ap, arith, inl, inr, refl, replicate, suc, zero, ℕ, ◌%◌, ◌*◌, ◌++◌, ◌+◌,
  ◌-◌, ◌/◌, ◌<◌, ◌==◌, ◌^◌, ◌∙◌, ◌∷◌, ◌≡◌, ◌≤◌,
}
use goh.Base.Words.{len_32, len_from}
use goh.BitReader.Window.{bits_of}
use native.Mathlib.Nat.{pow-suc, div-add-mod}

-- A positive number has a leading bit: bit `top`.
pub record HasTop (k v : ℕ) : Type 0 where
  pub top : ℕ
  pub width : len_from k v ≡ suc top
  pub below : top < k
  pub at_least : 2 ^ top ≤ v
  pub less : v < 2 ^ suc top

len_from-zero : (k : ℕ) → len_from k 0 ≡ 0
unfolding len_from
len_from-zero zero = refl
len_from-zero (suc k) = refl

len_from-suc : (k v : ℕ) → 0 < v → len_from (suc k) v ≡ suc (len_from k (v / 2))
unfolding len_from
len_from-suc k v h = ground arith

pub len_from-HasTop : (k v : ℕ) → v < 2 ^ k → 0 < v → HasTop k v
len_from-HasTop zero v h p = absurd (omega arith)
len_from-HasTop (suc k) v h p = elim (Bool-cases (v / 2 == 0)) [
  | inl e ↦ record {
    top = 0;
    width =
        len_from-suc k v p
        ∙ ap (λ t. suc (len_from k t)) ((==_iff (v / 2) 0).0 e)
        ∙ ap suc (len_from-zero k);
    below = omega arith;
    at_least = omega arith;
    less = ground arith;
  }
  | inr e ↦
      let half = len_from-HasTop k (v / 2) (omega (arith, pow-suc 2 k)) (ground arith) in
      record {
        top = suc half.top;
        width = len_from-suc k v p ∙ ap suc half.width;
        below = omega (arith, half.below);
        at_least = omega (arith, half.at_least, pow-suc 2 half.top);
        less = omega (arith, half.less, pow-suc 2 (suc half.top));
      }
]

pub len_32-HasTop : (v : ℕ) → v < 2 ^ 32 → 0 < v → HasTop 32 v
len_32-HasTop v h p = len_from-HasTop 32 v h p

-- Zeros, one less than `v + 1` has bits, and then `v + 1`.
abbrev pub ue_code : ℕ → List ℕ
ue_code v = replicate (len_32 (v + 1) - 1) 0 ++ bits_of (len_32 (v + 1)) (v + 1)

leading_bit : (w p : ℕ) → p ≤ w → w < 2 * p → w / p % 2 ≡ 1
leading_bit w p h k = grind (arith, div-add-mod w p)

-- The code with its leading bit taken out: `top` zeros, a one, and `top` bits.
pub ue_code_split :
    (v : ℕ) (t : HasTop 32 (v + 1)) → ue_code v ≡ replicate t.top 0 ++ (1 ∷ bits_of t.top (v + 1))
unfolding len_32 bits_of
ue_code_split v t =
    let drop_one : suc t.top - 1 ≡ t.top = omega arith in
    rw
      (
        t.width,
        drop_one,
        leading_bit (v + 1) (2 ^ t.top) t.at_least (omega (arith, t.less, pow-suc 2 t.top)),
      )
      refl
