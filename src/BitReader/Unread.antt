-- ===== src/BitReader/Unread.antt =====
-- Reading bits from a reader whose unread bits are known.
use goh.Base.{
  List, [], ap, arith, drop, drop-length-append, get_or, length, length-append, sym, take,
  take-length-append, ℕ, ◌++◌, ◌∙◌, ◌∷◌, ◌≡◌, ◌≤◌,
}
use goh.Result.{ok}
use goh.BitReader.{BitReader, read_bit, read_bits}
use goh.BitReader.Valid.{IsValid, advance, advance-IsValid, left, remaining, read_bit_lem}
use goh.BitReader.Window.{length-window, value, take-window, window}
use goh.BitReader.Laws.{remaining-advance}
use goh.BitReader.Reads.{read_bits_enough}

-- A reader in a good state whose unread bits are `bits`.
pub record At (bits : List ℕ) (r : BitReader) : Type 0 where
  pub valid : IsValid r
  pub unread : remaining r ≡ bits

At-left : {bits : List ℕ} {r : BitReader} → At bits r → left r ≡ length bits
At-left {bits} {r} a = sym (length-window r.buf r.bit_pos (left r)) ∙ ap length a.unread

pub At-advance :
    (front rest : List ℕ) {r : BitReader}
    → At (front ++ rest) r
    → At rest (advance r (length front))
At-advance front rest {r} a =
    let fits : length front ≤ left r = omega (arith, At-left a, length-append front rest) in
    record {
      valid = advance-IsValid (length front) a.valid fits;
      unread =
          remaining-advance (length front) r fits
          ∙ ap (drop (length front)) a.unread
          ∙ drop-length-append front rest;
    }

pub window-front :
    (front rest : List ℕ) {r : BitReader}
    → At (front ++ rest) r
    → window r.buf r.bit_pos (length front) ≡ front
window-front front rest {r} a =
    sym (
      take-window r.buf r.bit_pos (length front) (left r)
        (omega (arith, At-left a, length-append front rest)))
    ∙ ap (take (length front)) a.unread
    ∙ take-length-append front rest

pub read_bits-At :
    (front rest : List ℕ) {r : BitReader}
    → At (front ++ rest) r
    → length front ≤ 32
    → read_bits (length front) r ≡ (ok (value 0 front), advance r (length front))
read_bits-At front rest {r} a h =
    read_bits_enough (length front) a.valid h (omega (arith, At-left a, length-append front rest))
    ∙ ap (λ t. (ok (value 0 t), advance r (length front))) (window-front front rest a)

pub read_bit-At :
    (b : ℕ) (rest : List ℕ) {r : BitReader} → At (b ∷ rest) r → read_bit r ≡ (ok b, advance r 1)
unfolding window
read_bit-At b rest {r} a =
    read_bit_lem a.valid (omega (arith, At-left a))
    ∙ ap (λ t. (ok (get_or t 0 0), advance r 1)) (window-front (b ∷ []) rest a)
