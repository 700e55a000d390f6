-- ===== src/Golomb/Decode.antt =====
-- Reading a code word from a reader whose unread bits begin with it.
use goh.Base.{
  List, [], ap, arith, length, length-append, length-replicate, replicate, suc, sym, zero, ℕ, ◌%◌,
  ◌*◌, ◌++◌, ◌+◌, ◌-◌, ◌<◌, ◌^◌, ◌∙◌, ◌∷◌, ◌≡◌, ◌≤◌,
}
use goh.Base.Words.{u32, ◌<<<◌}
use goh.Result.{ok}
use goh.BitReader.{BitReader, read_bits}
use goh.Golomb.{ue_loop, ue_suffix, read_ue_golomb_long}
use goh.BitReader.Unread.{At, At-advance, read_bit-At, read_bits-At}
use goh.BitReader.Valid.{advance}
use goh.BitReader.Window.{bits_of, length-bits_of, value, value-bits_of}
use goh.Golomb.Code.{ue_code, len_32-HasTop, ue_code_split}
use mathlib.Core.Path.{ap₂, subst}
use native.Mathlib.Nat.{mod-lt, one-le-pow, pow-le-pow_right, div-add-mod, pow-suc}
use mathlib.Core.List.{append_assoc}

read_bits_of :
    (n v : ℕ) (rest : List ℕ) {r : BitReader}
    → At (bits_of n v ++ rest) r
    → n ≤ 32
    → read_bits n r ≡ (ok (v % 2 ^ n), advance r n)
read_bits_of n v rest {r} a h =
    subst (λ t. read_bits t r ≡ (ok (value 0 (bits_of n v)), advance r t)) (length-bits_of n v)
      (read_bits-At (bits_of n v) rest a (rw length-bits_of h))
    ∙ ap (λ t. (ok t, advance r n)) (omega (arith, value-bits_of n v 0))

suffix_fits : (n s : ℕ) → n < 32 → s < 2 ^ n → u32 (u32 (1 <<< n) - 1 + s) ≡ 2 ^ n - 1 + s
suffix_fits n s h k =
    omega (arith, pow-le-pow_right {n = 2} (omega arith) {i = n} {j = 31} (omega arith))

ue_suffix-At :
    (n v : ℕ) (rest : List ℕ) {r : BitReader}
    → At (bits_of n v ++ rest) r
    → n < 32
    → ue_suffix n r ≡ (ok (2 ^ n - 1 + v % 2 ^ n), advance r n)
unfolding ue_suffix
ue_suffix-At zero v rest {r} a h = ground arith
ue_suffix-At (suc m) v rest {r} a h = ground (
  arith,
  read_bits_of (suc m) v rest a (omega arith),
  suffix_fits (suc m) (v % 2 ^ suc m) h (mod-lt v (one-le-pow (suc m) 2 (omega arith))),
)

-- `k` zeros, a one and `rest`.
ue_loop-zeros :
    (k rounds z : ℕ) (rest : List ℕ) {r : BitReader}
    → At (replicate k 0 ++ (1 ∷ rest)) r
    → k < rounds
    → ue_loop rounds z r ≡ ue_suffix (z + k) (advance r (k + 1))
unfolding ue_loop
ue_loop-zeros k zero z rest a h = absurd (omega arith)
ue_loop-zeros zero (suc rounds) z rest {r} a h =
    rw (read_bit-At 1 rest a) (ap₂ (λ t n. ue_suffix t (advance r n)) (omega arith) (omega arith))
ue_loop-zeros (suc k) (suc rounds) z rest {r} a h = rw (read_bit-At 0 _ a) (
    ue_loop-zeros k rounds (z + 1) rest (At-advance (0 ∷ []) _ a) (omega arith)
    ∙ ap₂ (λ t n. ue_suffix t (record r { bit_pos = n })) (omega arith) (omega arith))

code_top : (v p : ℕ) → p ≤ v + 1 → v + 1 < 2 * p → p - 1 + (v + 1) % p ≡ v
code_top v p h k = grind (arith, div-add-mod (v + 1) p)

split_read :
    (v top : ℕ) (rest : List ℕ) {r : BitReader}
    → ue_code v ≡ replicate top 0 ++ (1 ∷ bits_of top (v + 1))
    → top < 32
    → 2 ^ top ≤ v + 1
    → v + 1 < 2 ^ suc top
    → At (ue_code v ++ rest) r
    → read_ue_golomb_long r ≡ (ok v, advance r (length (ue_code v)))
unfolding read_ue_golomb_long
split_read v top rest {r} e below at_least less a =
    ue_loop-zeros top 32 0 (bits_of top (v + 1) ++ rest) zeros below
    ∙ ap (λ t. ue_suffix t (advance r (top + 1))) {y = top} (omega arith)
    ∙ ue_suffix-At top (v + 1) rest suffix below
    ∙ ap₂ (λ t n. (ok t, record r { bit_pos = n }))
        (code_top v (2 ^ top) at_least (omega (arith, pow-suc 2 top))) width
  where
    zeros : At (replicate top 0 ++ (1 ∷ (bits_of top (v + 1) ++ rest))) r
    zeros = subst (λ l. At l r) (ap (λ l. l ++ rest) e ∙ append_assoc (replicate top 0) _ rest) a

    width : r.bit_pos + (top + 1) + top ≡ r.bit_pos + length (ue_code v)
    width = omega (
      arith,
      ap length e,
      length-append (replicate top 0) (1 ∷ bits_of top (v + 1)),
      length-replicate {A = ℕ} top 0,
      length-bits_of top (v + 1),
    )

    suffix : At (bits_of top (v + 1) ++ rest) (advance r (top + 1))
    suffix =
        subst (λ n. At (bits_of top (v + 1) ++ rest) (advance r n))
          (length-append (replicate top 0) (1 ∷ [])
            ∙ ap (λ n. n + 1) (length-replicate {A = ℕ} top 0))
          (At-advance (replicate top 0 ++ (1 ∷ [])) (bits_of top (v + 1) ++ rest) (
            subst (λ l. At l r)
              (sym (append_assoc (replicate top 0) (1 ∷ []) (bits_of top (v + 1) ++ rest))) zeros))

-- A reader whose unread bits begin with the code of `v` reads `v` and moves behind the code.
pub read_ue_golomb_long-ue_code :
    (v : ℕ) (rest : List ℕ) {r : BitReader}
    → v < 2 ^ 32 - 1
    → At (ue_code v ++ rest) r
    → read_ue_golomb_long r ≡ (ok v, advance r (length (ue_code v)))
unfolding read_ue_golomb_long
read_ue_golomb_long-ue_code v rest {r} h a =
    let t = len_32-HasTop (v + 1) (omega arith) (omega arith) in
    split_read v t.top rest (ue_code_split v t) t.below t.at_least t.less a
