-- ===== src/BitWriter/Appends.antt =====
-- What the writing methods append to the bits of a well-formed writer.
use goh.Base.{
  List, [], ap, arith, inl, inr, length, length-append, length-replicate, replicate, suc, sym, zero,
  ℕ, ◌%◌, ◌++◌, ◌+◌, ◌-◌, ◌/◌, ◌<◌, ◌^◌, ◌∙◌, ◌∷◌, ◌≡◌, ◌≤◌, ◌⊎◌,
}
use goh.Base.Words.{len_32, max_u32, u32}
use goh.Result.{Result, ok, err, invalid_data}
use goh.BitWriter.{BitWriter, write_bit, write_bits_loop, write_bits, write_zeros, write_ue_golomb}
use goh.BitWriter.Valid.{IsValid, write_bit-Wrote}
use goh.BitWriter.Written.{written, Wrote-IsValid, Wrote-written}
use mathlib.Core.List.{append-nil, append_assoc}
use goh.BitReader.Window.{bits_of, length-bits_of}
use goh.BitReader.Reads.{room}
use goh.Golomb.Code.{ue_code, len_32-HasTop}
use mathlib.Core.Path.{ap₂}

-- `w'` is well formed and holds the bits of `w` and then `bits`.
pub record Appends (bits : List ℕ) (w w' : BitWriter) : Type 0 where
  pub valid : IsValid w'
  pub content : written w' ≡ written w ++ bits
  pub moved : w'.bit_pos ≡ w.bit_pos + length bits

pub Appends-nil : {w : BitWriter} → IsValid w → Appends [] w w
Appends-nil {w} v = record {
  valid = v;
  content = sym (append-nil (written w));
  moved = omega arith;
}

pub Appends-trans :
    {xs ys : List ℕ} {w w' w'' : BitWriter}
    → Appends xs w w'
    → Appends ys w' w''
    → Appends (xs ++ ys) w w''
Appends-trans {xs} {ys} {w} a b = record {
  valid = b.valid;
  content = b.content ∙ ap (λ l. l ++ ys) a.content ∙ append_assoc (written w) xs ys;
  moved = omega (arith, a.moved, b.moved, length-append xs ys);
}

pub write_bit-Appends :
    (bit : ℕ) {w : BitWriter}
    → IsValid w
    → w.bit_pos < max_u32
    → Appends (bit % 2 ∷ []) w (write_bit bit w)
write_bit-Appends bit {w} v h =
    let o = write_bit-Wrote bit v h in
    record {
      valid = Wrote-IsValid (omega arith) v o h;
      content = Wrote-written (omega arith) v o;
      moved = o.moved;
    }

pub write_bits_loop-Appends :
    (n v : ℕ) {w : BitWriter}
    → IsValid w
    → w.bit_pos + n ≤ max_u32
    → Appends (bits_of n v) w (write_bits_loop n v w)
unfolding write_bits_loop bits_of
write_bits_loop-Appends zero v i h = Appends-nil i
write_bits_loop-Appends (suc n) v {w} i h =
    let first = write_bit-Appends (v / 2 ^ n) i (omega arith) in
    Appends-trans first (
      write_bits_loop-Appends n v {w = write_bit (v / 2 ^ n) w} first.valid
        (omega (arith, first.moved)))

pub write_zeros-Appends :
    (n : ℕ) {w : BitWriter}
    → IsValid w
    → w.bit_pos + n ≤ max_u32
    → Appends (replicate n 0) w (write_zeros n w)
unfolding write_zeros
write_zeros-Appends zero i h = Appends-nil i
write_zeros-Appends (suc n) {w} i h =
    let first = write_bit-Appends 0 i (omega arith) in
    Appends-trans first
      (write_zeros-Appends n {w = write_bit 0 w} first.valid (omega (arith, first.moved)))

write_bits_fits :
    (v n : ℕ) {w : BitWriter}
    → IsValid w
    → n ≤ 32
    → w.bit_pos + n ≤ max_u32
    → write_bits v n w ≡ (ok tt, write_bits_loop n v w)
unfolding write_bits
write_bits_fits v n {w} i h k = ground (arith, i.usable, i.range)

write_bits_refused :
    (v n : ℕ) {w : BitWriter}
    → IsValid w
    → (32 < n) ⊎ (max_u32 < w.bit_pos + n)
    → write_bits v n w ≡ (err invalid_data, w)
unfolding write_bits
write_bits_refused v n {w} i h = ground (arith, i.usable, i.range)

fits_or_not :
    (n : ℕ) (w : BitWriter)
    → ((n ≤ 32) × (w.bit_pos + n ≤ max_u32)) ⊎ ((32 < n) ⊎ (max_u32 < w.bit_pos + n))
fits_or_not n w = grind arith

-- A call that succeeds and appends `bits`.
abbrev pub Writes : List ℕ → BitWriter → Result (Unit {0}) × BitWriter → Type 0
Writes bits w p = (w' : BitWriter) × (p ≡ (ok tt, w')) × Appends bits w w'

-- Up to 32 bits that fit below position 2 ^ 32 - 1, `WriteBits` appends the low `n` bits of `v`,
-- the highest first; otherwise it fails and writes nothing.
pub write_bits-Appends :
    (v n : ℕ) {w : BitWriter}
    → IsValid w
    → (((n ≤ 32) × (w.bit_pos + n ≤ max_u32)) × Writes (bits_of n v) w (write_bits v n w))
      ⊎ (((32 < n) ⊎ (max_u32 < w.bit_pos + n)) × (write_bits v n w ≡ (err invalid_data, w)))
write_bits-Appends v n {w} i = elim (fits_or_not n w) [
  | inl (h, k) ↦
      inl (
        (h, k),
        (write_bits_loop n v w, write_bits_fits v n i h k, write_bits_loop-Appends n v i k),
      )
  | inr h ↦ inr (h, write_bits_refused v n i h)
]

write_ue_golomb_eq :
    (v : ℕ) (w : BitWriter)
    → v < 2 ^ 32 - 1
    → write_ue_golomb v w ≡ write_bits (v + 1) (len_32 (v + 1)) (write_zeros (len_32 (v + 1) - 1) w)
unfolding write_ue_golomb
write_ue_golomb_eq v w h = let same : u32 (v + 1) ≡ v + 1 = omega arith in rw same (ground arith)

-- `WriteUEGolomb` of a number below 2 ^ 32 - 1 succeeds if there is room for its code below
-- position 2 ^ 32 - 1, and appends the code.
pub write_ue_golomb-Writes :
    (v : ℕ) {w : BitWriter}
    → IsValid w
    → v < 2 ^ 32 - 1
    → w.bit_pos + length (ue_code v) ≤ max_u32
    → Writes (ue_code v) w (write_ue_golomb v w)
write_ue_golomb-Writes v {w} i h room = (
  write_bits_loop width (v + 1) (write_zeros (width - 1) w),
  write_ue_golomb_eq v w h
      ∙ write_bits_fits (v + 1) width zeros.valid narrow
          (omega (arith, zeros.moved, lengths, length-replicate {A = ℕ} (width - 1) 0)),
  Appends-trans zeros (
      write_bits_loop-Appends width (v + 1) {w = write_zeros (width - 1) w} zeros.valid
        (omega (arith, zeros.moved, lengths, length-replicate {A = ℕ} (width - 1) 0))),
)
  where
    width : ℕ
    width = len_32 (v + 1)

    narrow : width ≤ 32
    narrow =
        let t = len_32-HasTop (v + 1) (omega arith) (omega arith) in
        unfold len_32 in omega (arith, t.width, t.below)

    lengths : length (ue_code v) ≡ width - 1 + width
    lengths =
        length-append (replicate (width - 1) 0) (bits_of width (v + 1))
        ∙ ap₂ ◌+◌ (length-replicate {A = ℕ} (width - 1) 0) (length-bits_of width (v + 1))

    zeros : Appends (replicate (width - 1) 0) w (write_zeros (width - 1) w)
    zeros = write_zeros-Appends (width - 1) i (omega (arith, lengths))
