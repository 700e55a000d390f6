-- ===== src/Golomb/Safe.antt =====
-- The range of what the Exp-Golomb readers return.
use goh.Base.{arith, refl, suc, zero, ℕ, ◌+◌, ◌<◌, ◌==◌, ◌^◌, ◌≡◌}
use goh.Base.Int.{neg_part, pos_part, ℤ}
use goh.BitReader.Safe.{
  Reads, Reads-bind, Reads-fail, Reads-if, Reads-pure, read_bit-Reads, read_bits-Reads,
}
use goh.Result.{invalid_data}
use goh.Golomb.{
  read_se_golomb_long, read_ue_golomb_31, read_ue_golomb_long, se_of_code, ue_loop, ue_suffix,
}
use native.Mathlib.Nat.{pow-le-pow_right}

abbrev pub IsUe : ℕ → Type 0
IsUe n = n + 1 < 2 ^ 32

abbrev pub IsSe : ℤ → Type 0
IsSe z = (pos_part z < 2 ^ 31) × (neg_part z < 2 ^ 31)

ue_suffix-Reads : (skipped : ℕ) → skipped < 32 → Reads IsUe (ue_suffix skipped)
unfolding ue_suffix
ue_suffix-Reads skipped h =
    Reads-if IsUe (skipped == 0) (λ e. Reads-pure IsUe 0 (omega arith))
      (λ e.
        Reads-bind (λ x. x < 2 ^ skipped) IsUe (read_bits-Reads skipped (omega arith))
          (λ x below. Reads-pure IsUe _ (
            omega (
              arith,
              below,
              pow-le-pow_right {n = 2} (omega arith) {i = skipped} {j = 31} (omega arith),
            ))))

ue_loop-Reads : (rounds skipped : ℕ) → rounds + skipped ≡ 32 → Reads IsUe (ue_loop rounds skipped)
unfolding ue_loop
ue_loop-Reads zero skipped h = Reads-fail IsUe invalid_data
ue_loop-Reads (suc rounds) skipped h =
    Reads-bind (λ b. b < 2) IsUe read_bit-Reads
      (λ b bit.
        Reads-if IsUe (b == 1) (λ e. ue_suffix-Reads skipped (omega arith))
          (λ e. ue_loop-Reads rounds (skipped + 1) (omega arith)))

pub read_ue_golomb_long-Reads : Reads IsUe read_ue_golomb_long
unfolding read_ue_golomb_long
read_ue_golomb_long-Reads = ue_loop-Reads 32 0 refl

pub read_ue_golomb_31-Reads : Reads IsUe read_ue_golomb_31
unfolding read_ue_golomb_31
read_ue_golomb_31-Reads = read_ue_golomb_long-Reads

se_of_code-IsSe : (code_num : ℕ) → IsSe (se_of_code code_num)
unfolding se_of_code
se_of_code-IsSe code_num = ground arith

pub read_se_golomb_long-Reads : Reads IsSe read_se_golomb_long
unfolding read_se_golomb_long
read_se_golomb_long-Reads =
    Reads-bind IsUe IsSe read_ue_golomb_long-Reads
      (λ c h. Reads-pure IsSe (se_of_code c) (se_of_code-IsSe c))
