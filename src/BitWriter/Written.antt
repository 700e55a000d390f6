-- ===== src/BitWriter/Written.antt =====
-- The bits written so far: each `writeBit` appends one.
use goh.Base.{
  ==_iff, Bool-cases, List, [], ap, arith, inl, inr, refl, suc, sym, zero, ℕ, ◌%◌, ◌++◌, ◌+◌, ◌-◌,
  ◌/◌, ◌<◌, ◌==◌, ◌^◌, ◌∙◌, ◌∷◌, ◌≡◌, ◌≢◌,
}
use goh.Base.Words.{max_u32}
use goh.BitWriter.{BitWriter}
use goh.BitWriter.Valid.{IsValid, Wrote, byte_at-end}
use mathlib.Core.Path.{ap₂}
use goh.BitReader.Window.{bit_at, byte_at, window, window-append, window_from}
use goh.BitWriter.Byte.{Holds, put_bit-Holds, top_bit}

-- What a client sees of a writer.
abbrev pub written : BitWriter → List ℕ
written w = window w.buf 0 w.bit_pos

pub window_ext :
    (a b : List ℕ) (p n : ℕ)
    → ((q : ℕ) → q < p + n → bit_at a q ≡ bit_at b q)
    → window a p n ≡ window b p n
unfolding window
window_ext a b p zero h = refl
window_ext a b p (suc n) h =
    ap₂ ◌∷◌ (h p (omega arith)) (window_ext a b (p + 1) n (λ q k. h q (omega arith)))

module _ {bit : ℕ} {w w' : BitWriter} (hb : bit < 2) (v : IsValid w) (o : Wrote bit w w') where
  abbrev byte : ℕ
  byte = byte_at w.buf (w.bit_pos / 8)

  abbrev place : ℕ
  place = w.bit_pos % 8

  holds : Holds byte place bit
  holds = put_bit-Holds byte place bit (v.bytes (w.bit_pos / 8)) (omega arith) hb v.clear

  -- The bits before the new one are as they were.
  earlier : (q : ℕ) → q < 0 + w.bit_pos → bit_at w'.buf q ≡ bit_at w.buf q
  earlier q h = elim (Bool-cases (q / 8 == w.bit_pos / 8)) [
    | inl e ↦
        let same : q / 8 ≡ w.bit_pos / 8 = (==_iff _ _).0 e in
        ap (λ i. top_bit (byte_at w'.buf i) (q % 8)) same
        ∙ ap (λ b. top_bit b (q % 8)) o.last
        ∙ holds.earlier (q % 8) (omega arith)
        ∙ ap (λ i. top_bit (byte_at w.buf i) (q % 8)) (sym same)
    | inr e ↦ ap (λ b. top_bit b (q % 8)) (o.rest (q / 8) (ground arith))
  ]

  here : bit_at w'.buf w.bit_pos ≡ bit
  here = ap (λ b. top_bit b place) o.last ∙ holds.bit

  pub Wrote-written : written w' ≡ written w ++ (bit ∷ [])
  unfolding window
  Wrote-written =
      window_from w'.buf 0 0 w'.bit_pos (w.bit_pos + 1) refl o.moved
      ∙ window-append w'.buf 0 w.bit_pos 1
      ∙ ap₂ ◌++◌ (window_ext w'.buf w.buf 0 w.bit_pos earlier)
          (ap (λ b. b ∷ []) (ap (bit_at w'.buf) {x = 0 + w.bit_pos} (omega arith) ∙ here))

  byte_lt : (i : ℕ) → byte_at w'.buf i < 256
  byte_lt i = elim (Bool-cases (i == w.bit_pos / 8)) [
    | inl e ↦ let same : i ≡ w.bit_pos / 8 = (==_iff _ _).0 e in rw (same, o.last) holds.byte
    | inr e ↦ rw (o.rest i (ground arith)) (v.bytes i)
  ]

  next_clear : byte_at w'.buf ((w.bit_pos + 1) / 8) % 2 ^ (8 - (w.bit_pos + 1) % 8) ≡ 0
  next_clear = elim (Bool-cases (place == 7)) [
    | inl e ↦
        let full : place ≡ 7 = (==_iff _ _).0 e in
        ap (λ b. b % 2 ^ (8 - (w.bit_pos + 1) % 8))
          (byte_at-end w'.buf ((w.bit_pos + 1) / 8) (omega (arith, o.sized)))
        ∙ omega arith
    | inr e ↦
        let more : place ≢ 7 = ground arith in
        ap₂ (λ i k. byte_at w'.buf i % 2 ^ k) {y = w.bit_pos / 8} {v = 7 - place} (omega arith)
          (omega arith)
        ∙ ap (λ b. b % 2 ^ (7 - place)) o.last
        ∙ holds.clear
  ]

  pub Wrote-IsValid : w.bit_pos < max_u32 → IsValid w'
  Wrote-IsValid h = record {
    usable = o.usable;
    range = omega (arith, o.moved);
    sized = omega (arith, o.moved, o.sized);
    bytes = byte_lt;
    clear = rw o.moved next_clear;
  }
