-- ===== src/Result.antt =====
-- internal/h264/errors.go: the sentinel errors, and what a call of Go code comes to.
use goh.Base.{
  Bool, List, arith, drop, false, get_elem?, if◌then◌else◌, leb, length, le→leb, none, some, take,
  true, ℕ, ◌&&◌, ◌+◌, ◌-◌, ◌≡◌, ◌≤◌,
}

pub data Error : Type 0 where
  invalid_data unsupported : Error

-- `panic` is Go's run-time panic on an index or a slice bound out of range.
pub data Result {ℓ} (A : Type ℓ) : Type ℓ where
  ok : A → Result A
  err : Error → Result A
  panic : Result A

infixl 5 ◌>>=◌ ◌>>◌
abbrev pub ◌>>=◌ {ℓ κ} : {A : Type ℓ} {B : Type κ} → Result A → (A → Result B) → Result B
ok a >>= f = f a
err e >>= f = err e
panic >>= f = panic

abbrev pub ◌>>◌ {ℓ} : {B : Type ℓ} → Result (Unit {0}) → Result B → Result B
m >> k = m >>= λ _. k

-- `if bad { return err }`
abbrev pub reject : Bool → Error → Result (Unit {0})
reject true e = err e
reject false e = ok tt

-- `xs[i]`
abbrev pub index {ℓ} : {A : Type ℓ} → List A → ℕ → Result A
index xs i = elim (get_elem? xs i) [ none ↦ panic | some x ↦ ok x ]

-- `xs[lo:hi]`, kept within the length of `xs`.
abbrev pub slice {ℓ} : {A : Type ℓ} → List A → ℕ → ℕ → Result (List A)
slice xs lo hi = if leb lo hi && leb hi (length xs) then ok (take (hi - lo) (drop lo xs)) else panic

pub slice_lem {ℓ} :
    {A : Type ℓ} (xs : List A) (lo n : ℕ)
    → lo + n ≤ length xs
    → slice xs lo (lo + n) ≡ ok (take n (drop lo xs))
slice_lem xs lo n h =
    let width : lo + n - lo ≡ n = omega arith in
    rw (le→leb lo (lo + n) (omega arith), le→leb (lo + n) (length xs) h, width)
