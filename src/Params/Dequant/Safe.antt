-- ===== src/Params/Dequant/Safe.antt =====
-- internal/h264/pps.go: the shape of the dequantisation buffers, and the range of their entries.
use goh.Base.{
  ==_iff, All, Bool, Bool-cases, List, [], arith, inl, inr, length, length-set, ltb, lt→ltb, refl,
  replicate, set, suc, sym, true, zero, ℕ, ◌&&◌, ◌*◌, ◌+◌, ◌<◌, ◌==◌, ◌^◌, ◌∙◌, ◌∷◌, ◌≡◌, ◌≤◌,
}
use goh.Base.Words.{u32}
use goh.BitReader.Safe.{Yields}
use goh.Params.Scaling.Factors.{between, between-All, index-All}
use goh.Params.{qp_max_num}
use goh.Params.Dequant.{
  scaled, dequant_4_coeff_init, dequant_8_coeff_init, dequant_8_coeff_init_scan, dst_4, dst_8,
  init_idx_4, quant_div_6, quant_rem_6, row_4, row_4_loop, row_8, row_8_loop, scan_idx_8,
}
use goh.Params.Tables.{store}
use mathlib.Core.Path.{subst}
use goh.Params.Valid.{IsFactor, IsFactors}
use goh.Params.Tables.Range.{bind-Yields}
use goh.Result.{index}
use native.Mathlib.Nat.{mul-le-mul, pow-le-pow_right}

-- What no coefficient is above.
abbrev pub max_scale : ℕ
max_scale = 58 * 255 * 2 ^ 16

abbrev pub IsRow : ℕ → List ℕ → Type 0
IsRow n row = (length row ≡ n) × All (λ e. e ≤ max_scale) row

abbrev pub IsTable : ℕ → List (List ℕ) → Type 0
IsTable n table = (length table ≡ qp_max_num + 1) × All (IsRow n) table

pub set-All {ℓ κ} :
    {A : Type ℓ} (P : A → Type κ) (xs : List A) (i : ℕ) (x : A)
    → All P xs
    → P x
    → All P (set xs i x)
set-All P [] i x h k = tt
set-All P (y ∷ ys) zero x (h, hs) k = (k, hs)
set-All P (y ∷ ys) (suc i) x (h, hs) k = (h, set-All P ys i x hs k)

pub replicate-All {ℓ κ} :
    {A : Type ℓ} (P : A → Type κ) (n : ℕ) (x : A) → P x → All P (replicate n x)
replicate-All P zero x h = tt
replicate-All P (suc n) x h = (h, replicate-All P n x h)

-- Whether a function stays below a bound on the first `n` numbers.
abbrev below : ℕ → ℕ → (ℕ → ℕ) → Bool
below zero top f = true
below (suc n) top f = ltb (f n) top && below n top f

below-lt : (n top : ℕ) (f : ℕ → ℕ) (x : ℕ) → below n top f ≡ true → x < n → f x < top
below-lt zero top f x h k = absurd (omega (arith, k))
below-lt (suc n) top f x h k = elim (Bool-cases (x == n)) [
  | inl e ↦ subst (λ y. f y < top) (sym ((==_iff x n).0 e)) (ground (arith, h))
  | inr e ↦ below-lt n top f x (ground (arith, h)) (ground (arith, e, k))
]

-- Whether all rows of initial values have a length and a range.
abbrev inits_fit : ℕ → List (List ℕ) → Bool
inits_fit n [] = true
inits_fit n (xs ∷ xss) = (length xs == n) && (between 0 58 xs && inits_fit n xss)

abbrev IsInits : ℕ → List ℕ → Type 0
IsInits n xs = (length xs ≡ n) × All (λ x. (0 ≤ x) × (x ≤ 58)) xs

inits_fit-All : (n : ℕ) (xss : List (List ℕ)) → inits_fit n xss ≡ true → All (IsInits n) xss
inits_fit-All n [] h = tt
inits_fit-All n (xs ∷ xss) h = (
  ((==_iff (length xs) n).0 (ground (arith, h)), between-All 0 58 xs (ground (arith, h))),
  inits_fit-All n xss (ground (arith, h)),
)

store_scale-Yields :
    (n : ℕ) (row : List ℕ) (i x : ℕ)
    → i < n
    → x ≤ max_scale
    → IsRow n row
    → Yields (IsRow n) (store row i x)
store_scale-Yields n row i x h k v =
    rw (lt→ltb i (length row) (omega (arith, h, v.0)))
      (length-set row i x ∙ v.0, set-All _ row i x v.1 k)

scaled-most :
    (init factor shift : ℕ)
    → init ≤ 58
    → factor ≤ 255
    → shift ≤ 16
    → scaled init factor shift ≤ max_scale
scaled-most init factor shift h k s =
    let product : init * factor ≤ 58 * 255 = mul-le-mul h k in
    let power : 2 ^ shift ≤ 2 ^ 16 = pow-le-pow_right {n = 2} (omega arith) s in
    let exact : u32 (init * factor) ≡ init * factor = omega (arith, product) in
    let whole : u32 (init * factor) * 2 ^ shift ≤ 58 * 255 * 2 ^ 16 =
      mul-le-mul {n₂ = 58 * 255} (omega (arith, product, exact)) power in
    omega (arith, whole)

row_4_loop-Yields :
    (rounds x : ℕ) (inits : List ℕ) (shift : ℕ) (factors row : List ℕ)
    → rounds + x ≡ 16
    → shift ≤ 16
    → IsInits 3 inits
    → IsFactors 16 factors
    → IsRow 16 row
    → Yields (IsRow 16) (row_4_loop rounds x inits shift factors row)
unfolding row_4_loop
row_4_loop-Yields zero x inits shift factors row e s hi hf v = v
row_4_loop-Yields (suc rounds) x inits shift factors row e s hi hf v =
    bind-Yields (λ n. (0 ≤ n) × (n ≤ 58)) _ _ _
      (index-All _ inits (init_idx_4 x)
        (omega (arith, hi.0, below-lt 16 3 init_idx_4 x refl (omega (arith, e)))) hi.1)
      (λ init hn.
        bind-Yields IsFactor _ _ _ (index-All _ factors x (omega (arith, hf.0, e)) hf.1)
          (λ factor hx.
            bind-Yields (IsRow 16) _ _ _
              (store_scale-Yields 16 row (dst_4 x) (scaled init factor shift)
                (below-lt 16 16 dst_4 x refl (omega (arith, e)))
                (scaled-most init factor shift hn.1 hx.1 s) v)
              (λ row' v'.
                row_4_loop-Yields rounds (x + 1) inits shift factors row' (omega (arith, e)) s hi hf
                  v')))

row_8_loop-Yields :
    (rounds x : ℕ) (inits : List ℕ) (shift : ℕ) (factors row : List ℕ)
    → rounds + x ≡ 64
    → shift ≤ 16
    → IsInits 6 inits
    → IsFactors 64 factors
    → IsRow 64 row
    → Yields (IsRow 64) (row_8_loop rounds x inits shift factors row)
unfolding row_8_loop
row_8_loop-Yields zero x inits shift factors row e s hi hf v = v
row_8_loop-Yields (suc rounds) x inits shift factors row e s hi hf v =
    bind-Yields (λ n. (0 ≤ n) × (n ≤ 5)) _ _ _
      (index-All _ dequant_8_coeff_init_scan (scan_idx_8 x)
        (below-lt 64 16 scan_idx_8 x refl (omega (arith, e)))
        (between-All 0 5 dequant_8_coeff_init_scan refl))
      (λ place hp.
        bind-Yields (λ n. (0 ≤ n) × (n ≤ 58)) _ _ _
          (index-All _ inits place (omega (arith, hi.0, hp)) hi.1)
          (λ init hn.
            bind-Yields IsFactor _ _ _ (index-All _ factors x (omega (arith, hf.0, e)) hf.1)
              (λ factor hx.
                bind-Yields (IsRow 64) _ _ _
                  (store_scale-Yields 64 row (dst_8 x) (scaled init factor shift)
                    (below-lt 64 64 dst_8 x refl (omega (arith, e)))
                    (scaled-most init factor shift hn.1 hx.1 s) v)
                  (λ row' v'.
                    row_8_loop-Yields rounds (x + 1) inits shift factors row' (omega (arith, e)) s
                      hi hf v'))))

-- The rows of initial values that a QP names.
index-Row :
    (n : ℕ) (xss : List (List ℕ)) (i : ℕ)
    → i < length xss
    → All (IsInits n) xss
    → Yields (IsInits n) (index xss i)
index-Row n [] i h k = absurd (omega (arith, h))
index-Row n (x ∷ xs) zero h k = k.0
index-Row n (x ∷ xs) (suc i) h k = index-Row n xs i (omega (arith, h)) k.1

pub row_4-Yields :
    (q : ℕ) (factors : List ℕ)
    → q < qp_max_num + 1
    → IsFactors 16 factors
    → Yields (IsRow 16) (row_4 q factors)
unfolding row_4
row_4-Yields q factors h v =
    bind-Yields (λ n. (0 ≤ n) × (n ≤ 14)) _ _ _
      (index-All _ quant_div_6 q (omega (arith, h)) (between-All 0 14 quant_div_6 refl))
      (λ div hd.
        bind-Yields (λ n. (0 ≤ n) × (n ≤ 5)) _ _ _
          (index-All _ quant_rem_6 q (omega (arith, h)) (between-All 0 5 quant_rem_6 refl))
          (λ rem hr.
            bind-Yields (IsInits 3) _ _ _
              (index-Row 3 dequant_4_coeff_init rem (omega (arith, hr))
                (inits_fit-All 3 dequant_4_coeff_init refl))
              (λ inits hi.
                row_4_loop-Yields 16 0 inits (div + 2) factors (replicate 16 0) refl
                  (omega (arith, hd)) hi v
                  (refl, replicate-All (λ e. e ≤ max_scale) 16 0 (omega arith)))))

pub row_8-Yields :
    (q : ℕ) (factors : List ℕ)
    → q < qp_max_num + 1
    → IsFactors 64 factors
    → Yields (IsRow 64) (row_8 q factors)
unfolding row_8
row_8-Yields q factors h v =
    bind-Yields (λ n. (0 ≤ n) × (n ≤ 14)) _ _ _
      (index-All _ quant_div_6 q (omega (arith, h)) (between-All 0 14 quant_div_6 refl))
      (λ div hd.
        bind-Yields (λ n. (0 ≤ n) × (n ≤ 5)) _ _ _
          (index-All _ quant_rem_6 q (omega (arith, h)) (between-All 0 5 quant_rem_6 refl))
          (λ rem hr.
            bind-Yields (IsInits 6) _ _ _
              (index-Row 6 dequant_8_coeff_init rem (omega (arith, hr))
                (inits_fit-All 6 dequant_8_coeff_init refl))
              (λ inits hi.
                row_8_loop-Yields 64 0 inits div factors (replicate 64 0) refl (omega (arith, hd))
                  hi v (refl, replicate-All (λ e. e ≤ max_scale) 64 0 (omega arith)))))
