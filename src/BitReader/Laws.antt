-- ===== src/BitReader/Laws.antt =====
-- What the methods of a well-formed reader promise, as operations on its unread bits.
use goh.Base.{
  Bool-cases, List, arith, drop, if◌then◌else◌, inl, inr, leb, leb→le, length, refl, sym, take, ℕ,
  ◌%◌, ◌+◌, ◌-◌, ◌<◌, ◌^◌, ◌∙◌, ◌≡◌, ◌≤◌, ◌⊎◌,
}
use goh.Result.{ok, err, invalid_data}
use goh.BitReader.{BitReader, read_bits, show_bits, skip_bits}
use goh.BitReader.Valid.{IsValid, advance, advance-IsValid, bits_left-valid, left, remaining, view}
use goh.BitReader.Window.{drop-window, value, window_from, length-window, take-window}
use goh.BitReader.Reads.{read_bits_enough, read_bits_short, take_bits}
use mathlib.Core.Path.{ap₂}

left-cases : (n : ℕ) (r : BitReader) → ((n ≤ 32) × (n ≤ left r)) ⊎ ((32 < n) ⊎ (left r < n))
left-cases n r = grind arith

take_bits_enough :
    (n : ℕ) (bs : List ℕ)
    → n ≤ 32
    → n ≤ length bs
    → take_bits n bs ≡ (ok (value 0 (take n bs)), drop n bs)
unfolding take_bits
take_bits_enough n bs h k = ground arith

take_bits_short :
    (n : ℕ) (bs : List ℕ) → (32 < n) ⊎ (length bs < n) → take_bits n bs ≡ (err invalid_data, bs)
unfolding take_bits
take_bits_short n bs h = ground arith

pub remaining-advance :
    (n : ℕ) (r : BitReader) → n ≤ left r → remaining (advance r n) ≡ drop n (remaining r)
remaining-advance n r h =
    window_from r.buf (r.bit_pos + n) (r.bit_pos + n) (left (advance r n)) (left r - n) refl
      (omega arith)
    ∙ sym (drop-window r.buf r.bit_pos n (left r) h)

-- `readBits` is `take_bits` of the unread bits, and keeps the reader well formed: it never
-- indexes outside the buffer, whatever `n` is.
pub read_bits-take_bits :
    (n : ℕ) {r : BitReader}
    → IsValid r
    → (view (read_bits n r) ≡ take_bits n (remaining r)) × IsValid (read_bits n r).1
read_bits-take_bits n {r} v = elim (left-cases n r) [
  | inl (h, k) ↦ rw (read_bits_enough n v h k) (
    ap₂ (λ a b. (ok (value 0 a), b)) (sym (take-window r.buf r.bit_pos n (left r) k))
          (sym (rw (remaining-advance n r k)))
        ∙ sym (take_bits_enough n (remaining r) h (rw length-window k)),
    advance-IsValid n v k,
  )
  | inr h ↦
      rw (read_bits_short n v h) (sym (take_bits_short n (remaining r) (rw length-window h)), v)
]

-- `showBits` gives what `readBits` would give and leaves the reader as it was.
pub show_bits-read_bits :
    (n : ℕ) {r : BitReader} → IsValid r → show_bits n r ≡ ((read_bits n r).0, r)
unfolding show_bits
show_bits-read_bits n {r} v = elim (left-cases n r) [
  | inl (h, k) ↦ ground (arith, read_bits_enough n v h k, v.usable, v.short, bits_left-valid v)
  | inr h ↦ ground (arith, read_bits_short n v h, v.usable)
]

remaining-advance-ok :
    (n : ℕ) (r : BitReader)
    → n ≤ left r
    → view {A = Unit {0}} (ok tt, advance r n) ≡ (ok tt, drop n (remaining r))
remaining-advance-ok n r h = rw (remaining-advance n r h)

pub skip_bits_enough :
    (n : ℕ) {r : BitReader} → IsValid r → n ≤ left r → skip_bits n r ≡ (ok tt, advance r n)
unfolding skip_bits
skip_bits_enough n {r} v h = ground (arith, v.usable, v.short, bits_left-valid v)

pub skip_bits_short :
    (n : ℕ) {r : BitReader}
    → IsValid r
    → n < 2 ^ 31
    → left r < n
    → skip_bits n r ≡ (err invalid_data, r)
unfolding skip_bits
skip_bits_short n {r} v h k = ground (arith, v.usable, v.short, bits_left-valid v)

-- Below 2 ^ 31 bits `skipBits` drops `n` unread bits, or fails and moves nothing if there are fewer.
pub skip_bits-drop :
    (n : ℕ) {r : BitReader}
    → IsValid r
    → n < 2 ^ 31
    → (view (skip_bits n r) ≡ (
        if leb n (length (remaining r))
        then (ok tt, drop n (remaining r))
        else (err invalid_data, remaining r)))
      × IsValid (skip_bits n r).1
skip_bits-drop n {r} v h = elim (Bool-cases (leb n (left r))) [
  | inl k ↦
      let fits : n ≤ left r = leb→le _ _ k in
      rw (skip_bits_enough n v fits, length-window, k)
        (remaining-advance-ok n r fits, advance-IsValid n v fits)
  | inr k ↦ rw (skip_bits_short n v h (ground arith), length-window, k) (refl, v)
]

-- From 2 ^ 31 bits on the guard reads `n` as a negative number and lets it pass.
pub skip_bits_wraps :
    (n : ℕ) {r : BitReader}
    → IsValid r
    → 2 ^ 31 ≤ n
    → n < 2 ^ 32
    → skip_bits n r ≡ (ok tt, record r { bit_pos = (r.bit_pos + n) % 2 ^ 32 })
unfolding skip_bits
skip_bits_wraps n {r} v h k = ground (arith, v.usable, v.short, bits_left-valid v)
