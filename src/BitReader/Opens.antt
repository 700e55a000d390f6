-- ===== src/BitReader/Opens.antt =====
-- What `newRBSPBitReader` returns.
use goh.Base.{
  List, Option, [], arith, false, get_elem?, if◌then◌else◌, length, ltb, none, refl, some, suc,
  zero, ℕ, ◌*◌, ◌+◌, ◌-◌, ◌<◌, ◌==◌, ◌^◌, ◌∷◌, ◌≤◌,
}
use goh.Base.Words.{u32}
use goh.BitReader.Valid.{IsValid}
use goh.BitReader.{max_byte_len}
use goh.Result.{Result, index, ok, panic, err, invalid_data}
use goh.BitReader.Safe.{Yields, Yields-if}
use goh.BitReader.{
  new_rbsp_bit_reader, rbsp_bit_length, rbsp_length_at, trailing_zeros_8, trim_zeros,
}

get_elem?-Some : (xs : List ℕ) (i : ℕ) → i < length xs → Yields (λ x. Unit {0}) (index xs i)
get_elem?-Some [] i h = absurd (omega (arith, h))
get_elem?-Some (x ∷ xs) zero h = tt
get_elem?-Some (x ∷ xs) (suc i) h = get_elem?-Some xs i (omega (arith, h))

trim_zeros-Yields :
    (buf : List ℕ) (n : ℕ) → n ≤ length buf → Yields (λ size. size ≤ n) (trim_zeros buf n)
unfolding trim_zeros
trim_zeros-Yields buf zero h = omega arith
trim_zeros-Yields buf (suc n) h =
    by (get_elem? buf n) (get_elem?-Some buf n (omega (arith, h))) (trim_zeros buf n)
      (trim_zeros-Yields buf n (omega (arith, h)))
  where
    looser : (x : Result ℕ) → Yields (λ size. size ≤ n) x → Yields (λ size. size ≤ suc n) x
    looser (ok size) h = omega (arith, h)
    looser (err e) h = tt
    looser panic h = h

    by :
        (o : Option ℕ)
        → Yields (λ x. Unit {0}) (elim o [ none ↦ panic | some x ↦ ok x ])
        → (shorter : Result ℕ) → Yields (λ size. size ≤ n) shorter
        → Yields
            (λ size. size ≤ suc n)
            (elim o [ none ↦ panic | some b ↦ if b == 0 then shorter else ok (suc n) ])
    by none p shorter k = p
    by (some b) p shorter k = Yields-if _ (b == 0) _ _ (λ e. looser shorter k) (λ e. omega arith)

rbsp_length_at-Yields :
    (buf : List ℕ) (size : ℕ)
    → size ≤ length buf
    → size ≤ max_byte_len
    → Yields (λ n. (n < 2 ^ 31) × (n ≤ length buf * 8)) (rbsp_length_at buf size)
unfolding rbsp_length_at
rbsp_length_at-Yields buf zero h k = tt
rbsp_length_at-Yields buf (suc n) h k =
    by (get_elem? buf n) (get_elem?-Some buf n (omega (arith, h)))
  where
    by :
        (o : Option ℕ)
        → Yields (λ x. Unit {0}) (elim o [ none ↦ panic | some x ↦ ok x ])
        → Yields
            (λ m. (m < 2 ^ 31) × (m ≤ length buf * 8))
            (elim o [
              | none ↦ panic
              | some b ↦
                  let padding = trailing_zeros_8 b + 1 in
                  if ltb (suc n * 8) padding
                  then err invalid_data
                  else ok (u32 (suc n * 8 - padding))
            ])
    by none p = p
    by (some b) p =
        Yields-if _ (ltb (suc n * 8) (trailing_zeros_8 b + 1)) _ _ (λ e. tt)
          (λ e. (omega (arith, k), omega (arith, h, k)))

rbsp_bit_length-Yields :
    (buf : List ℕ) → Yields (λ n. (n < 2 ^ 31) × (n ≤ length buf * 8)) (rbsp_bit_length buf)
unfolding rbsp_bit_length
rbsp_bit_length-Yields buf =
    Yields-if _ (ltb max_byte_len (length buf)) _ _ (λ e. tt)
      (λ e.
        by (trim_zeros buf (length buf)) (trim_zeros-Yields buf (length buf) (omega arith))
          (ground (arith, e)))
  where
    by :
        (x : Result ℕ)
        → Yields (λ size. size ≤ length buf) x
        → length buf ≤ max_byte_len
        → Yields
            (λ n. (n < 2 ^ 31) × (n ≤ length buf * 8))
            (elim x [ ok size ↦ rbsp_length_at buf size | err e ↦ err e | panic ↦ panic ])
    by (ok size) h k = rbsp_length_at-Yields buf size h (omega (arith, h, k))
    by (err e) h k = tt
    by panic h k = h

pub new_rbsp_bit_reader-Yields : (buf : List ℕ) → Yields IsValid (new_rbsp_bit_reader buf)
unfolding new_rbsp_bit_reader
new_rbsp_bit_reader-Yields buf = by (rbsp_bit_length buf) (rbsp_bit_length-Yields buf)
  where
    by :
        (x : Result ℕ)
        → Yields (λ n. (n < 2 ^ 31) × (n ≤ length buf * 8)) x
        → Yields IsValid (elim x [
          | ok n ↦ ok (record { buf = buf; bit_pos = 0; num_bits = n; invalid = false })
          | err e ↦ err e
          | panic ↦ panic
        ])
    by (ok n) h = record { usable = refl; short = h.0; within = h.1; reached = omega arith }
    by (err e) h = tt
    by panic h = h
