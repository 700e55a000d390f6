-- ===== src/Nal/Length.antt =====
-- The length that `AppendAVCNAL` writes in front of a unit.
use goh.Base.{
  List, [], ap, arith, false, length, length-append, length-replicate, le→ltb, refl, replicate, set,
  suc, sym, zero, ℕ, ◌%◌, ◌*◌, ◌++◌, ◌+◌, ◌-◌, ◌/◌, ◌<◌, ◌^◌, ◌∙◌, ◌∷◌, ◌≡◌, ◌≤◌,
}
use goh.Base.Words.{max_u32}
use mathlib.Core.List.{append_assoc}
use mathlib.Core.Path.{ap₂}
use goh.Nal.{write_length, nal_input_too_large}

-- The low `k` bytes of a number, the highest first.
abbrev pub be_bytes : ℕ → ℕ → List ℕ
be_bytes zero n = []
be_bytes (suc k) n = be_bytes k (n / 256) ++ (n % 256 ∷ [])

pub length-be_bytes : (k n : ℕ) → length (be_bytes k n) ≡ k
length-be_bytes zero n = refl
length-be_bytes (suc k) n =
    omega (arith, length-append (be_bytes k (n / 256)) (n % 256 ∷ []), length-be_bytes k (n / 256))

-- `n` has `k` bytes at most.
abbrev pub Fits : ℕ → ℕ → Type 0
Fits zero n = n ≡ 0
Fits (suc k) n = Fits k (n / 256)

pub lt-Fits : (k n : ℕ) → 1 ≤ k → k ≤ 4 → n < 2 ^ (k * 8) → Fits k n
lt-Fits zero n lo hi h = absurd (omega arith)
lt-Fits (suc zero) n lo hi h = omega arith
lt-Fits (suc (suc zero)) n lo hi h = omega arith
lt-Fits (suc (suc (suc zero))) n lo hi h = omega arith
lt-Fits (suc (suc (suc (suc zero)))) n lo hi h = omega arith
lt-Fits (suc (suc (suc (suc (suc k))))) n lo hi h = absurd (omega arith)

replicate_last : (k : ℕ) (back : List ℕ) → replicate (suc k) 0 ++ back ≡ replicate k 0 ++ (0 ∷ back)
replicate_last zero back = refl
replicate_last (suc k) back = ap (λ l. 0 ∷ l) (replicate_last k back)

set-append :
    (front : List ℕ) (x v : ℕ) (back : List ℕ)
    → set (front ++ (x ∷ back)) (length front) v ≡ front ++ (v ∷ back)
set-append [] x v back = refl
set-append (y ∷ front) x v back = ap (λ l. y ∷ l) (set-append front x v back)

set_room :
    (front : List ℕ) (k v : ℕ) (back : List ℕ)
    → set (front ++ (replicate (suc k) 0 ++ back)) (length front + k) v
      ≡ front ++ (replicate k 0 ++ (v ∷ back))
set_room front k v back =
    let place : length (front ++ replicate k 0) ≡ length front + k =
      omega (arith, length-append front (replicate k 0), length-replicate k (◌+◌ 0 0)) in
    ap₂ (λ l i. set l i v)
      (ap (λ l. front ++ l) (replicate_last k back)
        ∙ sym (append_assoc front (replicate k 0) (0 ∷ back)))
      (sym place)
    ∙ set-append (front ++ replicate k 0) 0 v back
    ∙ append_assoc front (replicate k 0) (v ∷ back)

-- The loop fills the room with the bytes of the length.
pub write_length-be_bytes :
    (k : ℕ) (front : List ℕ) (n : ℕ) (back : List ℕ)
    → write_length k (length front) n (front ++ (replicate k 0 ++ back))
      ≡ front ++ (be_bytes k n ++ back)
unfolding write_length
write_length-be_bytes zero front n back = refl
write_length-be_bytes (suc k) front n back =
    ap (write_length k (length front) (n / 256)) (set_room front k (n % 256) back)
    ∙ write_length-be_bytes k front (n / 256) (n % 256 ∷ back)
    ∙ ap (λ l. front ++ l) (sym (append_assoc (be_bytes k (n / 256)) (n % 256 ∷ []) back))

-- The sizes that the splitters take.
pub too_small : (bytes : List ℕ) → length bytes < 2 ^ 32 → nal_input_too_large bytes ≡ false
unfolding nal_input_too_large
too_small bytes h = rw (
  le→ltb ((2 ^ 63 - 1) / 2) (length bytes) (omega arith),
  le→ltb max_u32 (length bytes) (omega arith),
)
