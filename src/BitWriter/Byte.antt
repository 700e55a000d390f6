-- ===== src/BitWriter/Byte.antt =====
-- One bit set in a byte whose lower bits are clear.
use goh.Base.{
  Bool, ap, arith, bit_or, leb, ltb, not, refl, set, suc, sym, true, zero, ℕ, ◌%◌, ◌&&◌, ◌*◌, ◌+◌,
  ◌-◌, ◌/◌, ◌<◌, ◌==◌, ◌^◌, ◌||◌, ◌∙◌, ◌≡◌,
}
use goh.Base.Words.{u8, ◌<<<◌}
use goh.Base.Bits.{passes, passes_each}
use mathlib.Core.Path.{ap₂}

-- Bit `t` of a byte, counted from the top.
abbrev pub top_bit : ℕ → ℕ → ℕ
top_bit b t = b / 2 ^ (7 - t) % 2

-- Byte `b` with the bit `v` put at place `s`.
abbrev pub put_bit : ℕ → ℕ → ℕ → ℕ
put_bit b s v = b + v * 2 ^ (7 - s)

earlier_ok : ℕ → ℕ → ℕ → Bool
earlier_ok b s t = not (b % 2 ^ (8 - s) == 0) || leb s t || top_bit (put_bit b s 1) t == top_bit b t

here_ok : ℕ → ℕ → Bool
here_ok b s =
    not (b % 2 ^ (8 - s) == 0)
    || ((bit_or b (1 <<< (7 - s)) == put_bit b s 1)
        && (ltb (put_bit b s 1) 256
            && ((top_bit (put_bit b s 1) s == 1)
                && ((top_bit b s == 0)
                    && ((put_bit b s 1 % 2 ^ (7 - s) == 0) && (b % 2 ^ (7 - s) == 0))))))

-- Tables over the packed arguments: 256 bytes and 8 places each.
earlier_table : passes (λ x. earlier_ok (x / 64) (x / 8 % 8) (x % 8)) 16384 ≡ true
unfolding passes earlier_ok
earlier_table = refl

here_table : passes (λ x. here_ok (x / 8) (x % 8)) 2048 ≡ true
unfolding passes here_ok
here_table = refl

earlier_all : (b s t : ℕ) → b < 256 → s < 8 → t < 8 → earlier_ok b s t ≡ true
earlier_all b s t hb hs ht =
    let x : ℕ = b * 64 + s * 8 + t in
    let eb : x / 64 ≡ b = omega arith in
    let es : x / 8 % 8 ≡ s = omega arith in
    let et : x % 8 ≡ t = omega arith in
    sym (ap₂ (λ c u. earlier_ok c u (x % 8)) eb es ∙ ap (earlier_ok b s) et)
    ∙ passes_each _ 16384 x (omega arith) earlier_table

here_all : (b s : ℕ) → b < 256 → s < 8 → here_ok b s ≡ true
here_all b s hb hs =
    let x : ℕ = b * 8 + s in
    let eb : x / 8 ≡ b = omega arith in
    let es : x % 8 ≡ s = omega arith in
    sym (ap₂ here_ok eb es) ∙ passes_each _ 2048 x (omega arith) here_table

pub top_bit_earlier :
    (b s t : ℕ)
    → b < 256
    → s < 8
    → b % 2 ^ (8 - s) ≡ 0
    → t < s
    → top_bit (put_bit b s 1) t ≡ top_bit b t
unfolding earlier_ok
top_bit_earlier b s t hb hs clear ht = ground (arith, earlier_all b s t hb hs (omega arith))

pub bit_or-put_bit :
    (b s : ℕ)
    → b < 256
    → s < 8
    → b % 2 ^ (8 - s) ≡ 0
    → u8 (bit_or b (1 <<< (7 - s))) ≡ put_bit b s 1
unfolding here_ok
bit_or-put_bit b s hb hs clear = ground (arith, here_all b s hb hs)

pub put_bit_one :
    (b s : ℕ)
    → b < 256
    → s < 8
    → b % 2 ^ (8 - s) ≡ 0
    → (put_bit b s 1 < 256) × (top_bit (put_bit b s 1) s ≡ 1) × (put_bit b s 1 % 2 ^ (7 - s) ≡ 0)
unfolding here_ok
put_bit_one b s hb hs clear = ground (arith, here_all b s hb hs)

pub put_bit_zero :
    (b s : ℕ) → b < 256 → s < 8 → b % 2 ^ (8 - s) ≡ 0 → (top_bit b s ≡ 0) × (b % 2 ^ (7 - s) ≡ 0)
unfolding here_ok
put_bit_zero b s hb hs clear = ground (arith, here_all b s hb hs)

put_bit-zero : (b s : ℕ) → put_bit b s 0 ≡ b
put_bit-zero b s = omega arith

-- What the byte with the bit put in keeps, and what it gains.
pub record Holds (b s v : ℕ) : Type 0 where
  pub byte : put_bit b s v < 256
  pub bit : top_bit (put_bit b s v) s ≡ v
  pub clear : put_bit b s v % 2 ^ (7 - s) ≡ 0
  pub earlier : (t : ℕ) → t < s → top_bit (put_bit b s v) t ≡ top_bit b t

pub put_bit-Holds : (b s v : ℕ) → b < 256 → s < 8 → v < 2 → b % 2 ^ (8 - s) ≡ 0 → Holds b s v
put_bit-Holds b s zero hb hs hv clear =
    let (none_set, still_clear) = put_bit_zero b s hb hs clear in
    record {
      byte = rw (put_bit-zero b s) hb;
      bit = rw (put_bit-zero b s) none_set;
      clear = rw (put_bit-zero b s) still_clear;
      earlier = λ t h. rw (put_bit-zero b s);
    }
put_bit-Holds b s (suc zero) hb hs hv clear =
    let (byte, set, still_clear) = put_bit_one b s hb hs clear in
    record {
      byte = byte;
      bit = set;
      clear = still_clear;
      earlier = λ t h. top_bit_earlier b s t hb hs clear h;
    }
put_bit-Holds b s (suc (suc v)) hb hs hv clear = absurd (omega arith)
