-- ===== src/AnnexB/StartCode.antt =====
-- Where `findStartCode` finds a start code: nowhere in a clean run of bytes, and at its end.
use goh.Base.{
  List, [], ap, arith, if◌then◌else◌, length, none, refl, some, ℕ, ◌++◌, ◌+◌, ◌==◌, ◌∷◌, ◌≡◌,
}
use goh.AnnexB.{scan}
use goh.Nal.Escape.{Clean}

abbrev pub start_code : List ℕ → List ℕ
start_code rest = 0 ∷ (0 ∷ (0 ∷ (1 ∷ rest)))

pub scan-Clean :
    (p : List ℕ) (run i : ℕ) (rest : List ℕ)
    → Clean run p
    → scan i (p ++ start_code rest) ≡ some (i + length p, 4)
unfolding scan
scan-Clean [] run i rest c = ap (λ n. some (n, 4)) (omega arith)
scan-Clean (a ∷ []) run i rest (ca, c) =
    ground (arith, scan-Clean [] (if a == 0 then run + 1 else 0) (i + 1) rest c)
scan-Clean (a ∷ (b ∷ [])) run i rest (ca, c) =
    ground (arith, scan-Clean (b ∷ []) (if a == 0 then run + 1 else 0) (i + 1) rest c)
scan-Clean (a ∷ (b ∷ (c ∷ []))) run i rest (ca, cs) =
    ground (arith, scan-Clean (b ∷ (c ∷ [])) (if a == 0 then run + 1 else 0) (i + 1) rest cs)
scan-Clean (a ∷ (b ∷ (c ∷ (d ∷ p)))) run i rest (ca, cs) =
    ground (arith, scan-Clean (b ∷ (c ∷ (d ∷ p))) (if a == 0 then run + 1 else 0) (i + 1) rest cs)

pub scan-Clean_end : (p : List ℕ) (run i : ℕ) → Clean run p → scan i p ≡ none
unfolding scan
scan-Clean_end [] run i c = refl
scan-Clean_end (a ∷ []) run i c = refl
scan-Clean_end (a ∷ (b ∷ [])) run i c = refl
scan-Clean_end (a ∷ (b ∷ (c ∷ []))) run i (ca, (cb, (cc_, _))) = ground arith
scan-Clean_end (a ∷ (b ∷ (c ∷ (d ∷ p)))) run i (ca, cs) =
    ground (arith, scan-Clean_end (b ∷ (c ∷ (d ∷ p))) (if a == 0 then run + 1 else 0) (i + 1) cs)
