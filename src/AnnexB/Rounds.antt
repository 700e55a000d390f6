-- ===== src/AnnexB/Rounds.antt =====
-- internal/h264/nal.go: how far each round of `SplitAnnexBInto` gets in the stream.
use goh.Base.{
  Bool-cases, List, Option, Option-cases, [], arith, drop, inl, inr, length, length-drop, ltb, none,
  refl, some, suc, zero, ℕ, ◌++◌, ◌+◌, ◌-◌, ◌<◌, ◌∷◌, ◌≡◌, ◌≤◌,
}
use goh.Nal.{NalUnit, parse_nal_into, nal_input_too_large}
use goh.Result.{ok, err, panic, slice, Result, invalid_data}
use goh.AnnexB.{
  Split, annexb_loop, find_start_code, finish, parse_between, scan, split_annexb_into, parse_slice,
}

abbrev pub Ends : Option Split → Type 0
Ends o = (s : Split) × (o ≡ some s)

-- What the splitter does next, with a result of the parser and with one of the slice expression.
module _ (out : List NalUnit) (scratch : List ℕ) (rest : List NalUnit → List ℕ → Option Split)
    (goes : (us : List NalUnit) (s : List ℕ) → Ends (rest us s)) where
  parsed_Ends :
      (parsed : Result (NalUnit × List ℕ))
      → Ends (elim parsed [
        | ok (nal, scratch') ↦ rest (out ++ (nal ∷ [])) scratch'
        | err e ↦ some (err e, out, scratch)
        | panic ↦ some (panic, out, scratch)
      ])
  parsed_Ends (ok (nal, scratch')) = goes (out ++ (nal ∷ [])) scratch'
  parsed_Ends (err e) = (_, refl)
  parsed_Ends panic = (_, refl)

  cut_Ends :
      (cut : Result (List ℕ))
      → Ends (elim cut [
        | ok raw ↦ elim (parse_nal_into raw scratch) [
          | ok (nal, scratch') ↦ rest (out ++ (nal ∷ [])) scratch'
          | err e ↦ some (err e, out, scratch)
          | panic ↦ some (panic, out, scratch)
        ]
        | err e ↦ some (err e, out, scratch)
        | panic ↦ some (panic, out, scratch)
      ])
  cut_Ends (ok raw) = parsed_Ends (parse_nal_into raw scratch)
  cut_Ends (err e) = (_, refl)
  cut_Ends panic = (_, refl)

  pub parse_slice-Ends :
      (bytes : List ℕ) (lo hi : ℕ) → Ends (parse_slice bytes lo hi out scratch rest)
  parse_slice-Ends bytes lo hi = cut_Ends (slice bytes lo hi)

  parse_between-Ends :
      (bytes : List ℕ) (from to : ℕ) → Ends (parse_between bytes from to out scratch rest)
  parse_between-Ends bytes from to = elim (Bool-cases (ltb from to)) [
    | inr e ↦ rw e (goes out scratch)
    | inl e ↦ rw e (parse_slice-Ends bytes from to)
  ]

-- A start code stands where there are bytes, and is three or four bytes long.
scan_place :
    (i : ℕ) (xs : List ℕ) (n p : ℕ)
    → scan i xs ≡ some (n, p)
    → (i ≤ n) × (3 ≤ p) × (n < i + length xs)
unfolding scan
scan_place i [] n p h = ground arith
scan_place i (a ∷ []) n p h = ground arith
scan_place i (a ∷ (b ∷ [])) n p h = ground arith
scan_place i (a ∷ (b ∷ (c ∷ []))) n p h = ground arith
scan_place i (a ∷ (b ∷ (c ∷ (d ∷ rest)))) n p h =
    ground (arith, scan_place (i + 1) (b ∷ (c ∷ (d ∷ rest))) n p)

find_place :
    (bytes : List ℕ) (from n p : ℕ)
    → find_start_code bytes from ≡ some (n, p)
    → (from ≤ n) × (3 ≤ p) × (from < length bytes)
unfolding find_start_code
find_place bytes from n p h =
    let place = scan_place from (drop from bytes) n p h in ground (arith, length-drop from bytes)

annexb_loop-Ends :
    (rounds : ℕ) (bytes : List ℕ) (from : ℕ) (out : List NalUnit) (scratch : List ℕ)
    → length bytes - from < rounds
    → Ends (annexb_loop rounds bytes from out scratch)
unfolding annexb_loop
annexb_loop-Ends zero bytes from out scratch h = absurd (omega arith)
annexb_loop-Ends (suc rounds) bytes from out scratch h =
    elim (Option-cases (find_start_code bytes from)) [
      | inl e ↦
          rw (e, annexb_loop)
            (parse_between-Ends out scratch (λ us s. some (finish us s)) (λ us s. (_, refl)) bytes
              from (length bytes))
      | inr ((n, p), e) ↦
          let (behind, three, within) = find_place bytes from n p e in
          let fewer : length bytes - (n + p) < rounds = omega (arith, behind, three, within) in
          let next : (us : List NalUnit) (s : List ℕ)
              → Ends (annexb_loop rounds bytes (n + p) us s) =
            λ us s. annexb_loop-Ends rounds bytes (n + p) us s fewer in
          rw (e, annexb_loop) (parse_between-Ends out scratch _ next bytes from n)
    ]

-- What follows the search for the first start code.
first_Ends :
    (bytes : List ℕ) (found : Option (ℕ × ℕ))
    → Ends (elim found [
      | none ↦ some (err invalid_data, [], [])
      | some (start, prefix) ↦ annexb_loop (suc (length bytes)) bytes (start + prefix) [] []
    ])
first_Ends bytes none = (_, refl)
first_Ends bytes (some (n, p)) =
    annexb_loop-Ends (suc (length bytes)) bytes (n + p) [] [] (omega arith)

-- SplitAnnexBInto comes to an end on every input: the rounds that the model has, one more than the
-- stream has bytes, give a result.
pub split_annexb_into_ends : (bytes : List ℕ) → (s : Split) × (split_annexb_into bytes ≡ some s)
unfolding split_annexb_into
split_annexb_into_ends bytes = elim (Bool-cases (nal_input_too_large bytes)) [
  | inl e ↦ rw e (_, refl)
  | inr e ↦ rw e (first_Ends bytes (find_start_code bytes 0))
]
