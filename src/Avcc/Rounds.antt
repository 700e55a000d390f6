-- ===== src/Avcc/Rounds.antt =====
-- internal/h264/nal.go: how far each round of `SplitAVCCInto` gets in the packet.
use goh.Base.{
  Bool-cases, List, Option, [], ap, arith, bit_or, get_elem?-eq-get_or, get_or, inl, inr, leb,
  length, ltb, refl, some, suc, zero, ℕ, ◌+◌, ◌-◌, ◌<◌, ◌==◌, ◌||◌, ◌∙◌, ◌≡◌, ◌≤◌,
}
use goh.Base.Words.{◌<<<◌}
use goh.Result.{ok}
use goh.Avcc.{read_size, avcc_body, avcc_loop, sized_unit, split_avcc_into}
use goh.AnnexB.Rounds.{Ends, parse_slice-Ends}
use goh.Nal.{NalUnit, nal_input_too_large}
use goh.AnnexB.{Split}
use goh.Avcc.Size.{read_size-some}

-- The bytes of a length lie within the packet, and are passed over.
read_size_place :
    (k : ℕ) (bytes : List ℕ) (at acc : ℕ)
    → at + k ≤ length bytes
    → (n : ℕ) × (read_size k bytes at acc ≡ ok (n, at + k))
unfolding read_size
read_size_place zero bytes at acc h = (acc, ground arith)
read_size_place (suc k) bytes at acc h =
    let b = get_or bytes at 0 in
    let (n, e) = read_size_place k bytes (at + 1) (bit_or (acc <<< 8) b) (omega arith) in
    let end : at + 1 + k ≡ at + suc k = omega arith in
    (
      n,
      read_size-some k bytes at acc b (get_elem?-eq-get_or bytes at 0 (omega arith))
          ∙ e
          ∙ ap (λ t. ok (n, t)) end,
    )

sized_unit-Ends :
    (bytes : List ℕ) (n at : ℕ) (out : List NalUnit) (scratch : List ℕ)
    (rest : ℕ → List NalUnit → List ℕ → Option Split)
    → ((us : List NalUnit) (s : List ℕ) → Ends (rest (at + n) us s))
    → Ends (sized_unit bytes n at out scratch rest)
sized_unit-Ends bytes n at out scratch rest goes =
    elim (Bool-cases (n == 0 || ltb (length bytes - at) n)) [
      | inl e ↦ rw e (_, refl)
      | inr e ↦ rw e (parse_slice-Ends out scratch (rest (at + n)) goes bytes at (at + n))
    ]

avcc_body-Ends :
    (bytes : List ℕ) (size at : ℕ) (out : List NalUnit) (scratch : List ℕ)
    (rest : ℕ → List NalUnit → List ℕ → Option Split)
    → ((n : ℕ) (us : List NalUnit) (s : List ℕ) → Ends (rest (at + size + n) us s))
    → Ends (avcc_body bytes size at out scratch rest)
avcc_body-Ends bytes size at out scratch rest goes =
    elim (Bool-cases (leb (length bytes) (at + size))) [
      | inl e ↦ rw e (_, refl)
      | inr e ↦
          let (n, place) = read_size_place size bytes at 0 (ground arith) in
          rw (e, place) (sized_unit-Ends bytes n (at + size) out scratch rest (goes n))
    ]

avcc_loop-Ends :
    (rounds : ℕ) (bytes : List ℕ) (size at : ℕ) (out : List NalUnit) (scratch : List ℕ)
    → 1 ≤ size
    → length bytes - at < rounds
    → Ends (avcc_loop rounds bytes size at out scratch)
unfolding avcc_loop
avcc_loop-Ends zero bytes size at out scratch small h = absurd (omega arith)
avcc_loop-Ends (suc rounds) bytes size at out scratch small h =
    elim (Bool-cases (ltb at (length bytes))) [
      | inr e ↦ rw e (_, refl)
      | inl e ↦
          let next : (n : ℕ) (us : List NalUnit) (s : List ℕ)
              → Ends (avcc_loop rounds bytes size (at + size + n) us s) =
            λ n us s. avcc_loop-Ends rounds bytes size (at + size + n) us s small (ground arith) in
          rw e (avcc_body-Ends bytes size at out scratch (avcc_loop rounds bytes size) next)
    ]

-- SplitAVCCInto comes to an end on every input: the rounds that the model has, one more than the
-- packet has bytes, give a result.
pub split_avcc_into_ends :
    (bytes : List ℕ) (size : ℕ) → (s : Split) × (split_avcc_into bytes size ≡ some s)
unfolding split_avcc_into
split_avcc_into_ends bytes size = elim (Bool-cases (ltb size 1 || ltb 4 size)) [
  | inl e ↦ rw e (_, refl)
  | inr e ↦ elim (Bool-cases (nal_input_too_large bytes)) [
    | inl large ↦ rw (e, large) (_, refl)
    | inr fits ↦
        rw (e, fits)
          (avcc_loop-Ends (suc (length bytes)) bytes size 0 [] [] (ground arith) (omega arith))
  ]
]
