-- ===== src/Params/Scaling/Factors.antt =====
-- internal/h264/sps.go: the factors that scaling lists hold.
use goh.Base.{
  All, Bool, List, [], ap, arith, bit_or, if◌then◌else◌, leb, length, length-set, lt→ltb, refl, set,
  suc, sym, true, zero, ℕ, ◌%◌, ◌&&◌, ◌+◌, ◌-◌, ◌<◌, ◌==◌, ◌^◌, ◌||◌, ◌∙◌, ◌∷◌, ◌≡◌, ◌≤◌,
}
use goh.Base.Int.{ltb_ℤ, negsuc, pos, ℤ, ◌+ℤ◌}
use goh.Base.Words.{pattern_of, u8, ◌<<<◌}
use goh.Params.Valid.{IsFactor, IsFactors}
use goh.Golomb.Safe.{IsSe, read_se_golomb_long-Reads}
use goh.BitReader.Safe.{
  Reads, Reads-bind, Reads-fail, Reads-if, Reads-pure, Yields, lift-Reads, read_bit-Reads,
}
use goh.Params.Scaling.{copy, next_factor, scaling_loop, decode_scaling_list}
use goh.Result.{index, invalid_data}
use goh.Params.Tables.{
  store, default_scaling_4_inter, default_scaling_4_intra, default_scaling_8_inter,
  default_scaling_8_intra, zigzag_direct, zigzag_scan,
}
use mathlib.Core.Path.{subst}

-- Whether every number lies between two bounds.
abbrev pub between : ℕ → ℕ → List ℕ → Bool
between lo hi [] = true
between lo hi (x ∷ xs) = leb lo x && (leb x hi && between lo hi xs)

pub between-All :
    (lo hi : ℕ) (xs : List ℕ) → between lo hi xs ≡ true → All (λ x. (lo ≤ x) × (x ≤ hi)) xs
between-All lo hi [] h = tt
between-All lo hi (x ∷ xs) h =
    ((ground (arith, h), ground (arith, h)), between-All lo hi xs (ground (arith, h)))

copy_same : (dst src : List ℕ) → length dst ≡ length src → copy dst src ≡ src
copy_same [] [] h = refl
copy_same [] (y ∷ ys) h = absurd (omega (arith, h))
copy_same (x ∷ xs) [] h = absurd (omega (arith, h))
copy_same (x ∷ xs) (y ∷ ys) h = ap (λ t. y ∷ t) (copy_same xs ys (omega (arith, h)))

copy-IsFactors :
    (n : ℕ) (dst src : List ℕ) → IsFactors n dst → IsFactors n src → IsFactors n (copy dst src)
copy-IsFactors n dst src h k = rw (copy_same dst src (h.0 ∙ sym k.0)) k

set-All : (xs : List ℕ) (i x : ℕ) → All IsFactor xs → IsFactor x → All IsFactor (set xs i x)
set-All [] i x h k = tt
set-All (y ∷ ys) zero x (h, hs) k = (k, hs)
set-All (y ∷ ys) (suc i) x (h, hs) k = (h, set-All ys i x hs k)

store-Yields :
    (n : ℕ) (xs : List ℕ) (i x : ℕ)
    → i < n
    → IsFactor x
    → IsFactors n xs
    → Yields (IsFactors n) (store xs i x)
store-Yields n xs i x h k v =
    rw (lt→ltb i (length xs) (omega (arith, h, v.0)))
      (length-set xs i x ∙ v.0, set-All xs i x v.1 k)

pub index-All :
    (P : ℕ → Type 0) (xs : List ℕ) (i : ℕ) → i < length xs → All P xs → Yields P (index xs i)
index-All P [] i h k = absurd (omega (arith, h))
index-All P (x ∷ xs) zero h k = k.0
index-All P (x ∷ xs) (suc i) h k = index-All P xs i (omega (arith, h)) k.1

next_factor-Reads :
    (last next_scale : ℕ) → next_scale ≤ 255 → Reads (λ n. n ≤ 255) (next_factor last next_scale)
unfolding next_factor
next_factor-Reads last next_scale h =
    Reads-if _ (next_scale == 0) (λ e. Reads-pure _ 0 (omega arith))
      (λ e. Reads-bind IsSe _ read_se_golomb_long-Reads (λ delta hd.
        Reads-if _ (ltb_ℤ delta (negsuc 127) || ltb_ℤ (pos 127) delta)
          (λ bad. Reads-fail _ invalid_data) (λ good. Reads-pure _ _ (byte (pos last +ℤ delta)))))
  where
    byte : (z : ℤ) → pattern_of 8 z ≤ 255
    byte (pos n) = omega arith
    byte (negsuc n) = omega arith

-- The places that a scan names.
IsScan : ℕ → List ℕ → Type 0
IsScan n scan = (length scan ≡ n) × All (λ k. (0 ≤ k) × (k ≤ n - 1)) scan

scaling_loop-Reads :
    (n rounds i last next_scale : ℕ) (scan jvt_list factors : List ℕ)
    → rounds + i ≡ n
    → IsFactor last
    → next_scale ≤ 255
    → IsScan n scan
    → IsFactors n jvt_list
    → IsFactors n factors
    → Reads (IsFactors n) (scaling_loop rounds i last next_scale scan jvt_list factors)
unfolding scaling_loop IsScan
scaling_loop-Reads n zero i last next_scale scan jvt_list factors e hl hn hs hj hf =
    Reads-pure _ factors hf
scaling_loop-Reads n (suc rounds) i last next_scale scan jvt_list factors e hl hn hs hj hf =
    Reads-bind (λ n. n ≤ 255) _ (next_factor-Reads last next_scale hn)
      (λ n' hn'.
        Reads-if _ ((i == 0) && (n' == 0))
          (λ z. Reads-pure _ (copy factors jvt_list) (copy-IsFactors n factors jvt_list hf hj))
          (λ z.
            let last_fits : IsFactor (if n' == 0 then last else n') =
              (ground (arith, hl), ground (arith, hl, hn')) in
            Reads-bind (λ k. (0 ≤ k) × (k ≤ n - 1)) _
              (lift-Reads _ _ (index-All _ scan i (omega (arith, e, hs.0)) hs.1))
              (λ place hp.
                Reads-bind (IsFactors n) _
                  (lift-Reads _ _ (
                    store-Yields n factors place (u8 (if n' == 0 then last else n'))
                      (omega (arith, hp, e)) (as_byte (if n' == 0 then last else n') last_fits) hf))
                  (λ factors' hf'.
                    scaling_loop-Reads n rounds (i + 1) (if n' == 0 then last else n') n' scan
                      jvt_list factors' (omega (arith, e)) last_fits hn' hs hj hf'))))
  where
    as_byte : (x : ℕ) → IsFactor x → IsFactor (u8 x)
    as_byte x h = (omega (arith, h), omega (arith, h))

abbrev pub HasFactors : ℕ → ℕ × List ℕ → Type 0
HasFactors n p = IsFactors n p.1

decode_scaling_list-Reads :
    (n mask position : ℕ) (factors jvt_list fallback_list : List ℕ)
    → IsScan n (if n == 16 then zigzag_scan else zigzag_direct)
    → IsFactors n factors
    → IsFactors n jvt_list
    → IsFactors n fallback_list
    → Reads (HasFactors n) (decode_scaling_list mask position factors jvt_list fallback_list)
unfolding decode_scaling_list
decode_scaling_list-Reads n mask position factors jvt_list fallback_list hs hf hj hb =
    Reads-bind (λ b. b < 2) _ read_bit-Reads
      (λ present hp.
        let mask' = bit_or mask ((present <<< position) % 2 ^ 16) in
        Reads-if _ (present == 0)
          (λ z.
            Reads-pure _ (mask', copy factors fallback_list)
              (copy-IsFactors n factors fallback_list hf hb))
          (λ z.
            Reads-bind (IsFactors n) _
              (scaling_loop-Reads n (length factors) 0 8 8
                (if length factors == 16 then zigzag_scan else zigzag_direct) jvt_list factors
                (omega (arith, hf.0)) (omega arith, omega arith) (omega arith)
                (subst (λ m. IsScan n (if m == 16 then zigzag_scan else zigzag_direct)) (sym hf.0)
                  hs)
                hj hf)
              (λ factors' h'. Reads-pure _ (mask', factors') h')))

zigzag_scan-IsScan : IsScan 16 zigzag_scan
unfolding IsScan
zigzag_scan-IsScan = (refl, between-All 0 15 zigzag_scan refl)

zigzag_direct-IsScan : IsScan 64 zigzag_direct
unfolding IsScan
zigzag_direct-IsScan = (refl, between-All 0 63 zigzag_direct refl)

-- The lists that are always there.
pub intra_4-IsFactors : IsFactors 16 default_scaling_4_intra
intra_4-IsFactors = (refl, between-All 1 255 default_scaling_4_intra refl)

pub inter_4-IsFactors : IsFactors 16 default_scaling_4_inter
inter_4-IsFactors = (refl, between-All 1 255 default_scaling_4_inter refl)

pub intra_8-IsFactors : IsFactors 64 default_scaling_8_intra
intra_8-IsFactors = (refl, between-All 1 255 default_scaling_8_intra refl)

pub inter_8-IsFactors : IsFactors 64 default_scaling_8_inter
inter_8-IsFactors = (refl, between-All 1 255 default_scaling_8_inter refl)

pub list_4-Reads :
    (mask position : ℕ) (factors jvt_list fallback_list : List ℕ)
    → IsFactors 16 factors
    → IsFactors 16 jvt_list
    → IsFactors 16 fallback_list
    → Reads (HasFactors 16) (decode_scaling_list mask position factors jvt_list fallback_list)
list_4-Reads mask position factors jvt_list fallback_list =
    decode_scaling_list-Reads 16 mask position factors jvt_list fallback_list zigzag_scan-IsScan

pub list_8-Reads :
    (mask position : ℕ) (factors jvt_list fallback_list : List ℕ)
    → IsFactors 64 factors
    → IsFactors 64 jvt_list
    → IsFactors 64 fallback_list
    → Reads (HasFactors 64) (decode_scaling_list mask position factors jvt_list fallback_list)
list_8-Reads mask position factors jvt_list fallback_list =
    decode_scaling_list-Reads 64 mask position factors jvt_list fallback_list zigzag_direct-IsScan
