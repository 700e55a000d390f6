-- ===== src/BitReader/Safe.antt =====
-- What a chain of reads returns on a well-formed reader.
use goh.Base.{
  Bool, Bool-cases, List, ap, arith, false, if◌then◌else◌, inl, inr, leb, leb→le, length, refl,
  true, ℕ, ◌*◌, ◌+◌, ◌<◌, ◌==◌, ◌^◌, ◌≡◌, ◌≤◌,
}
use goh.BitReader.{◌>>=◌, BitReader, Read, fail, pure, read_bit, read_bits, resume, skip_bits, lift}
use goh.Result.{Error, Result, err, ok, panic}
use goh.BitReader.Valid.{advance-IsValid, left, read_bit_end, read_bit_lem}
use goh.BitReader.Reads.{read_bits_enough, read_bits_short}
use goh.BitReader.Laws.{skip_bits_enough, skip_bits_short}
use goh.BitReader.Valid.{IsValid, advance-IsValid, left, read_bit_end, read_bit_lem}
use goh.BitReader.Window.{length-window, value, value-lt, window, window-IsBit}

-- The reader stays well formed, nothing panics, and a value has the property.
abbrev pub Good : {A : Type 0} → (A → Type 0) → Result A × BitReader → Type 0
Good P (ok a, r) = P a × IsValid r
Good P (err e, r) = IsValid r
Good P (panic, r) = ⊥

pub record Reads {A : Type 0} (P : A → Type 0) (m : Read A) : Type 0 where
  pub run : (r : BitReader) → IsValid r → Good P (m r)

pub Reads-pure : {A : Type 0} (P : A → Type 0) (a : A) → P a → Reads P (pure a)
Reads-pure P a h = record { run = λ r v. (h, v) }

pub Reads-fail : {A : Type 0} (P : A → Type 0) (e : Error) → Reads P (fail e)
Reads-fail P e = record { run = λ r v. v }

resume-Good :
    {A B : Type 0} (Q : A → Type 0) (P : B → Type 0) (p : Result A × BitReader) (f : A → Read B)
    → Good Q p
    → ((a : A) → Q a → Reads P (f a))
    → Good P (resume p f)
resume-Good Q P (ok a, r) f (q, v) h = (h a q).run r v
resume-Good Q P (err e, r) f v h = v
resume-Good Q P (panic, r) f v h = v

pub Reads-bind :
    {A B : Type 0} (Q : A → Type 0) (P : B → Type 0) {m : Read A} {f : A → Read B}
    → Reads Q m
    → ((a : A) → Q a → Reads P (f a))
    → Reads P (m >>= f)
Reads-bind Q P {m} {f} h k = record { run = λ r v. resume-Good Q P (m r) f (h.run r v) k }

pub Reads-if :
    {A : Type 0} (P : A → Type 0) (test : Bool) {m n : Read A}
    → (test ≡ true → Reads P m)
    → (test ≡ false → Reads P n)
    → Reads P (if test then m else n)
Reads-if P true hm hn = hm refl
Reads-if P false hm hn = hn refl

pub read_bit-Reads : Reads (λ b. b < 2) read_bit
read_bit-Reads = record {
  run = λ r v. elim (Bool-cases (left r == 0)) [
    | inl e ↦ rw (read_bit_end v (ground arith)) v
    | inr e ↦ rw (read_bit_lem v (ground arith)) (omega arith, advance-IsValid 1 v (ground arith))
  ];
}

window-below : (buf : List ℕ) (p n : ℕ) → value 0 (window buf p n) < 2 ^ n
window-below buf p n =
    let below : value 0 (window buf p n) < (0 + 1) * 2 ^ length (window buf p n) =
      value-lt (window buf p n) 0 (window-IsBit buf p n) in
    let e : 2 ^ length (window buf p n) ≡ 2 ^ n = ap (λ k. 2 ^ k) (length-window buf p n) in
    omega (arith, below, e)

pub read_bits-Reads : (n : ℕ) → n ≤ 32 → Reads (λ x. x < 2 ^ n) (read_bits n)
read_bits-Reads n h = record {
  run = λ r v. elim (Bool-cases (leb n (left r))) [
    | inl e ↦
        rw (read_bits_enough n v h (leb→le _ _ e))
          (window-below r.buf r.bit_pos n, advance-IsValid n v (leb→le _ _ e))
    | inr e ↦ rw (read_bits_short n v (inr (ground (arith, e)))) v
  ];
}

pub skip_bits-Reads : (n : ℕ) → n < 2 ^ 31 → Reads (λ u. Unit {0}) (skip_bits n)
skip_bits-Reads n h = record {
  run = λ r v. elim (Bool-cases (leb n (left r))) [
    | inl e ↦ rw (skip_bits_enough n v (leb→le _ _ e)) (tt, advance-IsValid n v (leb→le _ _ e))
    | inr e ↦ rw (skip_bits_short n v h (ground (arith, e))) v
  ];
}

weaken-Good :
    {A : Type 0} (Q P : A → Type 0) (p : Result A × BitReader)
    → Good Q p
    → ((a : A) → Q a → P a)
    → Good P p
weaken-Good Q P (ok a, r) (q, v) h = (h a q, v)
weaken-Good Q P (err e, r) v h = v
weaken-Good Q P (panic, r) v h = v

pub Reads-weaken :
    {A : Type 0} (Q P : A → Type 0) {m : Read A} → Reads Q m → ((a : A) → Q a → P a) → Reads P m
Reads-weaken Q P {m} h k = record { run = λ r v. weaken-Good Q P (m r) (h.run r v) k }

-- A result that is no panic, and a value has the property.
abbrev pub Yields : {A : Type 0} → (A → Type 0) → Result A → Type 0
Yields P (ok a) = P a
Yields P (err e) = Unit
Yields P panic = ⊥

pub lift-Reads : {A : Type 0} (P : A → Type 0) (x : Result A) → Yields P x → Reads P (lift x)
lift-Reads P (ok a) h = record { run = λ r v. (h, v) }
lift-Reads P (err e) h = record { run = λ r v. v }
lift-Reads P panic h = absurd h

pub Yields-if :
    {A : Type 0} (P : A → Type 0) (test : Bool) (x y : Result A)
    → (test ≡ true → Yields P x)
    → (test ≡ false → Yields P y)
    → Yields P (if test then x else y)
Yields-if P true x y hx hy = hx refl
Yields-if P false x y hx hy = hy refl
