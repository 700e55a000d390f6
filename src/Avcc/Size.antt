-- ===== src/Avcc/Size.antt =====
-- The length in front of a unit, read back.
use goh.Base.{
  List, Option-cases, [], ap, arith, bit_or, get_elem?, inl, inr, length, length-append, none, refl,
  some, suc, sym, zero, ℕ, ◌%◌, ◌++◌, ◌+◌, ◌/◌, ◌∙◌, ◌∷◌, ◌≡◌,
}
use goh.Base.Words.{◌<<<◌}
use goh.Base.Bits.{bit_or_sum}
use goh.Nal.Length.{Fits, be_bytes, length-be_bytes}
use mathlib.Core.List.{append_assoc}
use mathlib.Core.Path.{ap₂}
use goh.Result.{ok, panic}
use goh.Avcc.{read_size}

index-append :
    (front : List ℕ) (x : ℕ) (back : List ℕ)
    → get_elem? (front ++ (x ∷ back)) (length front) ≡ some x
index-append [] x back = refl
index-append (y ∷ front) x back = index-append front x back

pub read_size-some :
    (k : ℕ) (bytes : List ℕ) (at acc b : ℕ)
    → get_elem? bytes at ≡ some b
    → read_size (suc k) bytes at acc ≡ read_size k bytes (at + 1) (bit_or (acc <<< 8) b)
unfolding read_size
read_size-some k bytes at acc b e = ground arith

read_size-none :
    (k : ℕ) (bytes : List ℕ) (at acc : ℕ)
    → get_elem? bytes at ≡ none
    → read_size (suc k) bytes at acc ≡ panic
unfolding read_size
read_size-none k bytes at acc e = ground arith

-- One byte more.
read_size-suc :
    (k : ℕ) (bytes : List ℕ) (at acc v p b : ℕ)
    → read_size k bytes at acc ≡ ok (v, p)
    → get_elem? bytes p ≡ some b
    → read_size (suc k) bytes at acc ≡ ok (bit_or (v <<< 8) b, p + 1)
unfolding read_size
read_size-suc zero bytes at acc v p b h e = ground arith
read_size-suc (suc k) bytes at acc v p b h e = elim (Option-cases (get_elem? bytes at)) [
  | inl missing ↦ cc (read_size-none k bytes at acc missing)
  | inr (c, there) ↦
      read_size-some (suc k) bytes at acc c there
      ∙ read_size-suc k bytes (at + 1) (bit_or (acc <<< 8) c) v p b
          (sym (read_size-some k bytes at acc c there) ∙ h) e
]

pub read_size-be_bytes :
    (k : ℕ) (front : List ℕ) (n : ℕ) (back : List ℕ)
    → Fits k n
    → read_size k (front ++ (be_bytes k n ++ back)) (length front) 0 ≡ ok (n, length front + k)
unfolding read_size
read_size-be_bytes zero front n back h = ground arith
read_size-be_bytes (suc k) front n back h =
    let whole = front ++ (be_bytes (suc k) n ++ back) in
    let last = n % 256 ∷ back in
    let regroup : whole ≡ front ++ (be_bytes k (n / 256) ++ last) =
      ap (λ l. front ++ l) (append_assoc (be_bytes k (n / 256)) (n % 256 ∷ []) back) in
    let place : length (front ++ be_bytes k (n / 256)) ≡ length front + k =
      omega (arith, length-append front (be_bytes k (n / 256)), length-be_bytes k (n / 256)) in
    let byte : get_elem? (front ++ (be_bytes k (n / 256) ++ last)) (length front + k)
        ≡ some (n % 256) =
      ap₂ get_elem? (sym (append_assoc front (be_bytes k (n / 256)) last)) (sym place)
      ∙ index-append (front ++ be_bytes k (n / 256)) (n % 256) back in
    ap (λ l. read_size (suc k) l (length front) 0) regroup
    ∙ read_size-suc k (front ++ (be_bytes k (n / 256) ++ last)) (length front) 0 (n / 256)
        (length front + k) (n % 256) (read_size-be_bytes k front (n / 256) last h) byte
    ∙ ap ok (ground (arith, bit_or_sum 8 (n / 256) (n % 256)))
