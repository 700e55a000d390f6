-- ===== src/AnnexB.antt =====
-- internal/h264/nal.go: start codes, and the Annex B byte stream cut into NAL units.
pub mod StartCode
pub mod Slices
pub mod RoundTrip
pub mod Rounds
use goh.Base.{
  Bool, List, Option, [], drop, false, if◌then◌else◌, length, ltb, none, not, some, suc, true, zero,
  ℕ, ◌&&◌, ◌++◌, ◌+◌, ◌==◌, ◌∷◌,
}
use goh.Result.{Result, ok, err, panic, invalid_data, slice}
use goh.Nal.{NalUnit, parse_nal_into, nal_input_too_large}

-- The loop of `findStartCode` over the bytes from index `i` on: the start and the length of the
-- first start code.
unfoldable pub scan : ℕ → List ℕ → Option (ℕ × ℕ)
scan i [] = none
scan i (a ∷ []) = none
scan i (a ∷ (b ∷ [])) = none
scan i (a ∷ (b ∷ (c ∷ []))) = if a == 0 && (b == 0 && c == 1) then some (i, 3) else none
scan i (a ∷ (b ∷ (c ∷ (d ∷ rest)))) =
    let next = scan (i + 1) (b ∷ (c ∷ (d ∷ rest))) in
    if not (a == 0 && b == 0)
    then next
    else if c == 1
    then some (i, 3)
    else if c == 0 && d == 1
    then some (i, 4)
    else next

unfoldable pub find_start_code : List ℕ → ℕ → Option (ℕ × ℕ)
find_start_code bytes from = scan from (drop from bytes)

unfoldable pub looks_annexb : List ℕ → Bool
looks_annexb bytes = elim (find_start_code bytes 0) [ none ↦ false | some p ↦ true ]

-- What a splitter returns: the error, the units so far and the scratch buffer.
abbrev pub Split : Type 0
Split = Result (Unit {0}) × List NalUnit × List ℕ

-- `if len(out) == 0 { return out, rbspScratch, ErrInvalidData }`
abbrev pub finish : List NalUnit → List ℕ → Split
finish [] scratch = (err invalid_data, [], scratch)
finish (u ∷ us) scratch = (ok tt, u ∷ us, scratch)

-- The bytes from `lo` to `hi`, parsed as a unit; `rest` goes on.
abbrev pub parse_slice :
    List ℕ → ℕ → ℕ → List NalUnit → List ℕ → (List NalUnit → List ℕ → Option Split) → Option Split
parse_slice bytes lo hi out scratch rest = elim (slice bytes lo hi) [
  | ok raw ↦ elim (parse_nal_into raw scratch) [
    | ok (nal, scratch') ↦ rest (out ++ (nal ∷ [])) scratch'
    | err e ↦ some (err e, out, scratch)
    | panic ↦ some (panic, out, scratch)
  ]
  | err e ↦ some (err e, out, scratch)
  | panic ↦ some (panic, out, scratch)
]

-- The bytes from one start code to the next, parsed if there are any.
abbrev pub parse_between :
    List ℕ → ℕ → ℕ → List NalUnit → List ℕ → (List NalUnit → List ℕ → Option Split) → Option Split
parse_between bytes nal_start nal_end out scratch rest =
    if ltb nal_start nal_end
    then parse_slice bytes nal_start nal_end out scratch rest
    else rest out scratch

-- The loop of `SplitAnnexBInto` behind a start code, `none` when the rounds run out.
unfoldable pub annexb_loop : ℕ → List ℕ → ℕ → List NalUnit → List ℕ → Option Split
annexb_loop zero bytes nal_start out scratch = none
annexb_loop (suc rounds) bytes nal_start out scratch = elim (find_start_code bytes nal_start) [
  | none ↦ parse_between bytes nal_start (length bytes) out scratch (λ us s. some (finish us s))
  | some (next, prefix) ↦
      parse_between bytes nal_start next out scratch
        (λ us s. annexb_loop rounds bytes (next + prefix) us s)
]

-- Each start code takes three bytes at least, so that the rounds suffice.
unfoldable pub split_annexb_into : List ℕ → Option Split
split_annexb_into bytes =
    if nal_input_too_large bytes
    then some (err invalid_data, [], [])
    else elim (find_start_code bytes 0) [
      | none ↦ some (err invalid_data, [], [])
      | some (start, prefix) ↦ annexb_loop (suc (length bytes)) bytes (start + prefix) [] []
    ]
