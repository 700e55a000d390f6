-- ===== src/BitWriter/Valid.antt =====
-- Well-formed writers, and the bytes after one more bit.
use goh.Base.{
  ==_iff, Bool-cases, List, [], ap, arith, bit_and, bit_or, false, if◌then◌else◌, inl, inr, length,
  length-append, refl, suc, sym, zero, ℕ, ◌%◌, ◌++◌, ◌+◌, ◌-◌, ◌/◌, ◌<◌, ◌==◌, ◌^◌, ◌∙◌, ◌∷◌, ◌≡◌,
  ◌≢◌, ◌≤◌,
}
use goh.Base.Words.{max_u32, u8, ◌<<<◌}
use goh.Base.Bits.{bit_and_bit, bit_and_octet}
use goh.BitWriter.{BitWriter, or_last, write_bit}
use goh.BitReader.Window.{byte_at}
use goh.BitWriter.Byte.{put_bit, bit_or-put_bit}

-- The buffer ends with the byte of the last bit, whose lower bits are clear.
pub record IsValid (w : BitWriter) : Type 0 where
  pub usable : w.invalid ≡ false
  pub range : w.bit_pos < 2 ^ 32
  pub sized : length w.buf ≡ (w.bit_pos + 7) / 8
  pub bytes : (i : ℕ) → byte_at w.buf i < 256
  pub clear : byte_at w.buf (w.bit_pos / 8) % 2 ^ (8 - w.bit_pos % 8) ≡ 0

length-or_last : (xs : List ℕ) (m : ℕ) → length (or_last xs m) ≡ length xs
unfolding or_last
length-or_last [] m = refl
length-or_last (b ∷ []) m = refl
length-or_last (b ∷ (c ∷ bs)) m = ap suc (length-or_last (c ∷ bs) m)

or_last-last :
    (xs : List ℕ) (m i : ℕ)
    → suc i ≡ length xs
    → byte_at (or_last xs m) i ≡ u8 (bit_or (byte_at xs i) m)
unfolding or_last
or_last-last [] m i h = absurd (omega arith)
or_last-last (b ∷ []) m zero h = refl
or_last-last (b ∷ []) m (suc i) h = absurd (omega arith)
or_last-last (b ∷ (c ∷ bs)) m zero h = absurd (omega arith)
or_last-last (b ∷ (c ∷ bs)) m (suc i) h = or_last-last (c ∷ bs) m i (omega arith)

or_last-before :
    (xs : List ℕ) (m i : ℕ) → suc i ≢ length xs → byte_at (or_last xs m) i ≡ byte_at xs i
unfolding or_last
or_last-before [] m i h = refl
or_last-before (b ∷ []) m zero h = absurd (h refl)
or_last-before (b ∷ []) m (suc i) h = refl
or_last-before (b ∷ (c ∷ bs)) m zero h = refl
or_last-before (b ∷ (c ∷ bs)) m (suc i) h = or_last-before (c ∷ bs) m i (λ e. h (ap suc e))

byte_at-zero : (xs : List ℕ) (i : ℕ) → byte_at (xs ++ (0 ∷ [])) i ≡ byte_at xs i
byte_at-zero [] zero = refl
byte_at-zero [] (suc i) = refl
byte_at-zero (x ∷ xs) zero = refl
byte_at-zero (x ∷ xs) (suc i) = byte_at-zero xs i

pub byte_at-end : (xs : List ℕ) (i : ℕ) → length xs ≤ i → byte_at xs i ≡ 0
byte_at-end [] i h = refl
byte_at-end (x ∷ xs) zero h = absurd (omega arith)
byte_at-end (x ∷ xs) (suc i) h = byte_at-end xs i (omega arith)

-- The buffer with room for the next bit.
abbrev grown : BitWriter → List ℕ
grown w = if bit_and w.bit_pos 7 == 0 then w.buf ++ (0 ∷ []) else w.buf

module _ {w : BitWriter} (v : IsValid w) where
  length-grown : length (grown w) ≡ suc (w.bit_pos / 8)
  length-grown = ground (arith, v.sized, bit_and_octet w.bit_pos, length-append w.buf (0 ∷ []))

  byte_at-grown : (i : ℕ) → byte_at (grown w) i ≡ byte_at w.buf i
  byte_at-grown i = ground (arith, byte_at-zero w.buf i)

-- The bytes of the writer after `writeBit`.
pub record Wrote (bit : ℕ) (w w' : BitWriter) : Type 0 where
  pub usable : w'.invalid ≡ false
  pub moved : w'.bit_pos ≡ w.bit_pos + 1
  pub sized : length w'.buf ≡ suc (w.bit_pos / 8)
  pub last :
      byte_at w'.buf (w.bit_pos / 8) ≡ put_bit (byte_at w.buf (w.bit_pos / 8)) (w.bit_pos % 8) bit
  pub rest : (i : ℕ) → i ≢ w.bit_pos / 8 → byte_at w'.buf i ≡ byte_at w.buf i

write_bit_even :
    (bit : ℕ) {w : BitWriter}
    → IsValid w
    → w.bit_pos < max_u32
    → bit % 2 ≡ 0
    → write_bit bit w ≡ record w { buf = grown w; bit_pos = w.bit_pos + 1 }
unfolding write_bit
write_bit_even bit {w} v h e = ground (arith, v.usable, bit_and_bit bit)

write_bit_odd :
    (bit : ℕ) {w : BitWriter}
    → IsValid w
    → w.bit_pos < max_u32
    → bit % 2 ≡ 1
    → write_bit bit w
      ≡ record w { buf = or_last (grown w) (1 <<< (7 - w.bit_pos % 8)); bit_pos = w.bit_pos + 1 }
unfolding write_bit
write_bit_odd bit {w} v h e = ground (arith, v.usable, bit_and_bit bit, bit_and_octet w.bit_pos)

suc-injective : {a b : ℕ} → suc a ≡ suc b → a ≡ b
suc-injective e = omega arith

pub write_bit-Wrote :
    (bit : ℕ) {w : BitWriter}
    → IsValid w
    → w.bit_pos < max_u32
    → Wrote (bit % 2) w (write_bit bit w)
write_bit-Wrote bit {w} v h = elim (Bool-cases (bit % 2 == 0)) [
  | inl e ↦
      let even : bit % 2 ≡ 0 = (==_iff (bit % 2) 0).0 e in
      rw (write_bit_even bit v h even, even)
        (record {
          usable = v.usable;
          moved = refl;
          sized = length-grown v;
          last = omega (arith, byte_at-grown v (w.bit_pos / 8));
          rest = λ i ne. byte_at-grown v i;
        })
  | inr e ↦
      let odd : bit % 2 ≡ 1 = ground arith in
      let m : ℕ = 1 <<< (7 - w.bit_pos % 8) in
      rw (write_bit_odd bit v h odd, odd)
        (record {
          usable = v.usable;
          moved = refl;
          sized = length-or_last (grown w) m ∙ length-grown v;
          last =
              or_last-last (grown w) m (w.bit_pos / 8) (sym (length-grown v))
              ∙ ap (λ b. u8 (bit_or b m)) (byte_at-grown v (w.bit_pos / 8))
              ∙ bit_or-put_bit (byte_at w.buf (w.bit_pos / 8)) (w.bit_pos % 8) (v.bytes _)
                  (omega arith) v.clear;
          rest = λ i ne.
              or_last-before (grown w) m i (λ same. ne (suc-injective (same ∙ length-grown v)))
              ∙ byte_at-grown v i;
        })
]
