-- ===== src/Nal/Escape.antt =====
-- Emulation prevention: what is put in, is taken out, and leaves no start code.
use goh.Base.{
  Bool-cases, List, [], ap, arith, false, if◌then◌else◌, inl, inr, leb, length, le→leb, refl, sym,
  ℕ, ◌&&◌, ◌++◌, ◌+◌, ◌/◌, ◌<◌, ◌==◌, ◌^◌, ◌∙◌, ◌∷◌, ◌≡◌, ◌≤◌,
}
use goh.Base.Int.{pos}
use goh.Result.{ok}
use goh.Nal.{rbsp_loop, ebsp_loop, append_ebsp, append_rbsp, nal_append_capacity}
use mathlib.Core.List.{append-nil, append_assoc}
use goh.IntCheck.Laws.{checked_add_int-pos}

-- The payload with its emulation prevention bytes, behind `run` zeros.
unfoldable pub escape : ℕ → List ℕ → List ℕ
escape run [] = []
escape run (b ∷ bs) =
    if leb 2 run && leb b 0x03
    then 0x03 ∷ b ∷ escape (if b == 0 then 1 else 0) bs
    else b ∷ escape (if b == 0 then run + 1 else 0) bs

ebsp_loop-escape :
    (bs : List ℕ) (run : ℕ) (dst : List ℕ) → ebsp_loop run dst bs ≡ dst ++ escape run bs
unfolding ebsp_loop escape
ebsp_loop-escape [] run dst = sym (append-nil dst)
ebsp_loop-escape (b ∷ bs) run dst = elim (Bool-cases (leb 2 run && leb b 0x03)) [
  | inl e ↦ rw e (
      ebsp_loop-escape bs (if b == 0 then 1 else 0) ((dst ++ (3 ∷ [])) ++ (b ∷ []))
      ∙ append_assoc (dst ++ (3 ∷ [])) (b ∷ []) _
      ∙ append_assoc dst (3 ∷ []) _)
  | inr e ↦ rw e (
      ebsp_loop-escape bs (if b == 0 then run + 1 else 0) (dst ++ (b ∷ []))
      ∙ append_assoc dst (b ∷ []) _)
]

rbsp_skip : (run : ℕ) (dst bs : List ℕ) → 2 ≤ run → rbsp_loop run dst (3 ∷ bs) ≡ rbsp_loop 0 dst bs
unfolding rbsp_loop
rbsp_skip run dst bs h = rw (le→leb 2 run h)

rbsp_keep :
    (run b : ℕ) (dst bs : List ℕ)
    → (leb 2 run && leb b 3) ≡ false
    → rbsp_loop run dst (b ∷ bs) ≡ rbsp_loop (if b == 0 then run + 1 else 0) (dst ++ (b ∷ [])) bs
unfolding rbsp_loop
rbsp_keep run b dst bs h = ground arith

rbsp_loop-escape :
    (bs : List ℕ) (run : ℕ) (dst : List ℕ) → rbsp_loop run dst (escape run bs) ≡ ok (dst ++ bs)
unfolding escape
rbsp_loop-escape [] run dst = unfold rbsp_loop in ap ok (sym (append-nil dst))
rbsp_loop-escape (b ∷ bs) run dst = elim (Bool-cases (leb 2 run && leb b 0x03)) [
  | inl e ↦
      let after : ℕ = if b == 0 then 1 else 0 in
      rw e (
        rbsp_skip run dst (b ∷ escape after bs) (ground arith)
        ∙ rbsp_keep 0 b dst (escape after bs) refl
        ∙ rbsp_loop-escape bs after (dst ++ (b ∷ []))
        ∙ ap ok (append_assoc dst (b ∷ []) bs))
  | inr e ↦
      let after : ℕ = if b == 0 then run + 1 else 0 in
      rw e (
        rbsp_keep run b dst (escape after bs) e
        ∙ rbsp_loop-escape bs after (dst ++ (b ∷ []))
        ∙ ap ok (append_assoc dst (b ∷ []) bs))
]

pub nal_append_capacity_fits :
    (base prefix n : ℕ)
    → base + prefix + n + n / 2 < 2 ^ 63
    → nal_append_capacity (pos base) (pos prefix) (pos n) ≡ ok (pos (base + prefix + n + n / 2))
unfolding nal_append_capacity
nal_append_capacity_fits base prefix n h =
    simp
      (
        checked_add_int-pos base prefix (omega arith),
        checked_add_int-pos (base + prefix) n (omega arith),
        checked_add_int-pos (base + prefix + n) (n / 2) (omega arith),
      )
      (ground arith)

-- Where one and a half times the payload fit an `int` behind `dst`, `AppendEBSP` keeps `dst` and
-- appends the escaped payload.
pub append_ebsp-escape :
    (dst rbsp : List ℕ)
    → length dst + length rbsp + length rbsp / 2 < 2 ^ 63
    → append_ebsp dst rbsp ≡ dst ++ escape 0 rbsp
unfolding append_ebsp
append_ebsp-escape dst rbsp h =
    rw (nal_append_capacity_fits (length dst) 0 (length rbsp) (omega arith), append_ebsp)
      (ebsp_loop-escape rbsp 0 dst)

pub append_rbsp-escape : (dst rbsp : List ℕ) → append_rbsp dst (escape 0 rbsp) ≡ ok (dst ++ rbsp)
unfolding append_rbsp
append_rbsp-escape dst rbsp = rbsp_loop-escape rbsp 0 dst

-- `AppendRBSP` gives back the payload that `AppendEBSP` was given, behind whatever its
-- destination held, for every payload of which one and a half times the size fits an `int`.
pub append_rbsp-append_ebsp :
    (dst rbsp : List ℕ)
    → length rbsp + length rbsp / 2 < 2 ^ 63
    → append_rbsp dst (append_ebsp [] rbsp) ≡ ok (dst ++ rbsp)
append_rbsp-append_ebsp dst rbsp h =
    rw (append_ebsp-escape [] rbsp (omega arith)) (append_rbsp-escape dst rbsp)

-- Behind a run of two zeros or more comes a byte above 2: there is no start code, and nothing
-- that a decoder would refuse.
abbrev pub Clean : ℕ → List ℕ → Type 0
Clean run [] = Unit {0}
Clean run (b ∷ bs) = (2 ≤ run → 3 ≤ b) × Clean (if b == 0 then run + 1 else 0) bs

pub escape-Clean : (bs : List ℕ) (run : ℕ) → Clean run (escape run bs)
unfolding escape
escape-Clean [] run = tt
escape-Clean (b ∷ bs) run = elim (Bool-cases (leb 2 run && leb b 0x03)) [
  | inl e ↦
      rw e (
        (λ h. omega arith),
        ((λ h. absurd (omega arith)), escape-Clean bs (if b == 0 then 1 else 0)),
      )
  | inr e ↦ rw e ((λ h. ground arith), escape-Clean bs (if b == 0 then run + 1 else 0))
]

pub length-escape : (bs : List ℕ) (run : ℕ) → length bs ≤ length (escape run bs)
unfolding escape
length-escape [] run = omega arith
length-escape (b ∷ bs) run = ground (
  arith,
  length-escape bs (if b == 0 then 1 else 0),
  length-escape bs (if b == 0 then run + 1 else 0),
)

-- What `AppendEBSP` writes for a payload of which one and a half times the size fits an `int` is
-- clean: two zeros or more are never followed by a byte below 3, so that it holds no start code.
pub append_ebsp-Clean :
    (rbsp : List ℕ) → length rbsp + length rbsp / 2 < 2 ^ 63 → Clean 0 (append_ebsp [] rbsp)
append_ebsp-Clean rbsp h = rw (append_ebsp-escape [] rbsp (omega arith)) (escape-Clean rbsp 0)
