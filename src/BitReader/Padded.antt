-- ===== src/BitReader/Padded.antt =====
-- `showBitsPadded`: a look ahead that reads zeros behind the end.
use goh.Base.{
  Bool-cases, List, [], ap, arith, get_elem?-eq-get_or, inl, inr, length, ltb, ltb→lt, refl,
  replicate, suc, take, zero, ℕ, ◌%◌, ◌*◌, ◌++◌, ◌+◌, ◌-◌, ◌/◌, ◌<◌, ◌^◌, ◌∙◌, ◌∷◌, ◌≡◌, ◌≤◌,
}
use goh.Base.Bits.{bit_and_bit, bit_and_octet}
use Prim.Native.Nat.{min}
use goh.Result.{ok}
use goh.BitReader.{BitReader, show_bits_padded, padded_loop, padded_from}
use goh.BitReader.Valid.{IsValid, remaining, bits_left-valid, left}
use goh.BitReader.Window.{
  bit_at, byte_at, value, window, length-window, take-window, value-append, value-lt, window-IsBit,
}
use goh.BitReader.Reads.{doubled, or_bit, room, le_pow}
use native.Mathlib.Nat.{one-le-pow, pow-suc, add-suc}

take-append : (n : ℕ) (xs ys : List ℕ) → n ≤ length xs → take n (xs ++ ys) ≡ take n xs
take-append zero xs ys h = refl
take-append (suc n) [] ys h = absurd (omega arith)
take-append (suc n) (x ∷ xs) ys h = ap (λ t. x ∷ t) (take-append n xs ys (omega arith))

take-replicate : (m k : ℕ) → m ≤ k → take m (replicate k (zero)) ≡ replicate m 0
take-replicate zero k h = refl
take-replicate (suc m) zero h = absurd (omega arith)
take-replicate (suc m) (suc k) h = ap (λ t. 0 ∷ t) (take-replicate m k (omega arith))

take-append_zeros :
    (n k : ℕ) (xs : List ℕ)
    → length xs ≤ n
    → n ≤ k
    → take n (xs ++ replicate k 0) ≡ xs ++ replicate (n - length xs) 0
take-append_zeros n k [] h m = take-replicate n k m ∙ ap (λ t. replicate t zero) (omega arith)
take-append_zeros zero k (x ∷ xs) h m = absurd (omega arith)
take-append_zeros (suc n) k (x ∷ xs) h m =
    ap (λ t. x ∷ t) (take-append_zeros n k xs (omega arith) (omega arith))
    ∙ ap (λ t. x ∷ (xs ++ replicate t 0)) (omega arith)

value-zeros : (k acc : ℕ) → value acc (replicate k 0) ≡ acc * 2 ^ k
unfolding value
value-zeros zero acc = omega arith
value-zeros (suc k) acc =
    omega (arith, value-zeros k (acc * 2 + 0), ap (λ (t : ℕ). acc * t) (pow-suc 2 k))

padded_loop_lem :
    (n p out : ℕ) (buf : List ℕ)
    → p + n ≤ length buf * 8
    → p + n < 2 ^ 31
    → (out + 1) * 2 ^ n ≤ 2 ^ 32
    → padded_loop buf n p out ≡ ok (value out (window buf p n))
unfolding padded_loop window value
padded_loop_lem zero p out buf h k fits = refl
padded_loop_lem (suc n) p out buf h k fits = ground (
  arith,
  bit_and_octet p,
  bit_and_bit (byte_at buf (p / 8) / 2 ^ (7 - p % 8)),
  get_elem?-eq-get_or buf (p / 8) 0,
  pow-suc 2 n,
  one-le-pow n 2,
  doubled out (2 ^ n) (bit_at buf p),
  room out (2 ^ n),
  or_bit out (bit_at buf p),
  padded_loop_lem n (p + 1) (out * 2 + bit_at buf p) buf,
)

-- The bits that the look-ahead covers.
abbrev pub padded : BitReader → ℕ → List ℕ
padded r n = take n (remaining r ++ replicate n 0)

two_pow-add : (m k : ℕ) → 2 ^ m * 2 ^ k ≡ 2 ^ (m + k)
two_pow-add m zero = ground arith
two_pow-add m (suc k) = omega (
  arith,
  ap (λ (t : ℕ). 2 ^ m * t) (pow-suc 2 k),
  two_pow-add m k,
  pow-suc 2 (m + k),
  ap (λ (t : ℕ). 2 ^ t) (add-suc m k),
)

padded_enough :
    (n : ℕ) (r : BitReader) → n ≤ left r → value 0 (padded r n) ≡ value 0 (window r.buf r.bit_pos n)
padded_enough n r h = ap (value 0) (
    take-append n (remaining r) (replicate n 0) (rw length-window h)
    ∙ take-window r.buf r.bit_pos n (left r) h)

padded_short :
    (n : ℕ) (r : BitReader)
    → left r ≤ n
    → value 0 (padded r n) ≡ value 0 (remaining r) * 2 ^ (n - left r)
padded_short n r h =
    ap (value 0) (take-append_zeros n n (remaining r) (rw length-window h) (omega arith))
    ∙ value-append (remaining r) (replicate (n - length (remaining r)) 0) 0
    ∙ value-zeros (n - length (remaining r)) (value 0 (remaining r))
    ∙ ap (λ t. value 0 (remaining r) * 2 ^ (n - t)) (length-window r.buf r.bit_pos (left r))

scale : (a b t : ℕ) → a ≤ b → a * t ≤ b * t
scale a b t h = grind arith

rejoin : (n : ℕ) (r : BitReader) → left r ≤ n → left r + (n - left r) ≡ n
rejoin n r h = omega arith

padded_fits :
    (n : ℕ) (r : BitReader)
    → left r ≤ n
    → n ≤ 32
    → value 0 (remaining r) * 2 ^ (n - left r) < 2 ^ 32
padded_fits n r h k =
    let below : value 0 (remaining r) + 1 ≤ 2 ^ left r = omega (
      arith,
      value-lt (remaining r) 0 (window-IsBit r.buf r.bit_pos (left r)),
      ap (λ (t : ℕ). 2 ^ t) (length-window r.buf r.bit_pos (left r)),
    ) in
    omega (
      arith,
      scale (value 0 (remaining r) + 1) (2 ^ left r) (2 ^ (n - left r)) below,
      one-le-pow (n - left r) 2 (omega arith),
      two_pow-add (left r) (n - left r),
      ap (λ (t : ℕ). 2 ^ t) (rejoin n r h),
      le_pow n k,
    )

value-none : (r : BitReader) → left r ≡ 0 → value 0 (remaining r) ≡ 0
unfolding value window
value-none r h = ap (λ t. value 0 (window r.buf r.bit_pos t)) h

padded_from_lem :
    (n : ℕ) {r : BitReader} → IsValid r → n ≤ 32 → padded_from r n ≡ ok (value 0 (padded r n))
unfolding padded_from
padded_from_lem n {r} v h = elim (Bool-cases (ltb (left r) n)) [
  | inl k ↦ ground (
    arith,
    bits_left-valid v,
    v.short,
    v.within,
    v.reached,
    padded_short n r,
    padded_fits n r,
    padded_loop_lem (left r) r.bit_pos 0 r.buf,
    le_pow (left r),
    value-none r,
  )
  | inr k ↦ ground (
    arith,
    bits_left-valid v,
    v.short,
    v.within,
    padded_enough n r,
    padded_loop_lem n r.bit_pos 0 r.buf,
    le_pow n h,
    value-lt (window r.buf r.bit_pos n) 0 (window-IsBit r.buf r.bit_pos n),
    length-window r.buf r.bit_pos n,
  )
]

-- On a well-formed reader `showBitsPadded` never fails and gives the next `n` bits (32 at most),
-- with zeros behind the last one.
pub show_bits_padded-value :
    (n : ℕ) {r : BitReader} → IsValid r → show_bits_padded r n ≡ ok (value 0 (padded r (min n 32)))
unfolding show_bits_padded
show_bits_padded-value n {r} v = elim (Bool-cases (ltb 32 n)) [
  | inl k ↦
      simp (v.usable, k)
        (padded_from_lem 32 v (omega arith)
          ∙ ap (λ t. ok (value 0 (padded r t))) {x = 32} (omega (arith, ltb→lt 32 n k)))
  | inr k ↦
      let h : n ≤ 32 = ground arith in
      simp (v.usable, k)
        (padded_from_lem n v h ∙ ap (λ t. ok (value 0 (padded r t))) {x = n} (omega arith))
]
