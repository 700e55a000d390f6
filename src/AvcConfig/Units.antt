-- ===== src/AvcConfig/Units.antt =====
-- internal/h264/bitwriter.go: the raw units of a record, counted and appended.
use goh.Base.{
  All, List, [], ap, arith, length, length-append, refl, sym, true, ℕ, ◌%◌, ◌++◌, ◌+◌, ◌/◌, ◌<◌,
  ◌^◌, ◌∙◌, ◌∷◌, ◌≡◌, ◌≤◌,
}
use goh.Base.Int.{pos}
use goh.AvcConfig.Walk.{IsRaw, all_counted, counted, masks}
use mathlib.Core.List.{append-nil, append_assoc}
use goh.AvcConfig.{append_raw, append_raws, capacity_of, first_byte, valid_raw}
use goh.IntCheck.Laws.{checked_add_int-pos}
use goh.Result.{ok}

-- A raw unit that the writer accepts, of bytes.
pub record IsUnit (want : ℕ) (raw : List ℕ) : Type 0 where
  pub valid : valid_raw raw want ≡ true
  pub byte : first_byte raw < 256

IsUnit-IsRaw : (want : ℕ) (raw : List ℕ) → IsUnit want raw → IsRaw want raw
unfolding valid_raw
IsUnit-IsRaw want [] h = cc h.valid
IsUnit-IsRaw want (b ∷ bs) h = record {
  some_byte = omega arith;
  short = ground (arith, h.valid);
  kind = masks b want h.byte (ground (arith, h.valid)) (ground (arith, h.valid));
}

pub All-IsRaw : (want : ℕ) (raws : List (List ℕ)) → All (IsUnit want) raws → All (IsRaw want) raws
All-IsRaw want [] h = tt
All-IsRaw want (raw ∷ raws) (h, hs) = (IsUnit-IsRaw want raw h, All-IsRaw want raws hs)

length_short : (want : ℕ) (raw : List ℕ) → valid_raw raw want ≡ true → length raw ≤ 0xffff
unfolding valid_raw
length_short want [] h = omega arith
length_short want (b ∷ bs) h = ground arith

pub append_raw-counted :
    (dst raw : List ℕ) (want : ℕ)
    → valid_raw raw want ≡ true
    → length dst < 2 ^ 62
    → append_raw dst raw want ≡ (ok tt, dst ++ counted raw)
unfolding append_raw
append_raw-counted dst raw want v h =
    let short = length_short want raw v in
    let hi : length raw / 256 % 256 ≡ length raw / 256 = omega arith in
    rw
      (
        v,
        checked_add_int-pos (length dst) 2 (omega arith),
        checked_add_int-pos (length dst + 2) (length raw) (omega arith),
        hi,
      )
      refl

pub append_raws-all_counted :
    (raws : List (List ℕ)) (dst : List ℕ) (want : ℕ)
    → All (IsUnit want) raws
    → length dst + length (all_counted raws) < 2 ^ 62
    → append_raws dst raws want ≡ (ok tt, dst ++ all_counted raws)
unfolding append_raws
append_raws-all_counted [] dst want h fits = ap (λ l. (ok tt, l)) (sym (append-nil dst))
append_raws-all_counted (raw ∷ raws) dst want (h, hs) fits =
    let sizes = length-append (counted raw) (all_counted raws) in
    rw (append_raw-counted dst raw want h.valid (omega arith)) (
      append_raws-all_counted raws (dst ++ counted raw) want hs
        (omega (arith, sizes, length-append dst (counted raw)))
      ∙ ap (λ l. (ok tt, l)) (append_assoc dst (counted raw) (all_counted raws)))

pub capacity_of-all_counted :
    (raws : List (List ℕ)) (n : ℕ) (want : ℕ)
    → All (IsUnit want) raws
    → n + length (all_counted raws) < 2 ^ 62
    → capacity_of (pos n) raws want ≡ ok (pos (n + length (all_counted raws)))
unfolding capacity_of
capacity_of-all_counted [] n want h fits = ap (λ m. ok (pos m)) (omega arith)
capacity_of-all_counted (raw ∷ raws) n want (h, hs) fits =
    let sizes = length-append (counted raw) (all_counted raws) in
    rw
      (
        h.valid,
        checked_add_int-pos n 2 (omega arith),
        checked_add_int-pos (n + 2) (length raw) (omega (arith, sizes)),
      )
      (capacity_of-all_counted raws (n + 2 + length raw) want hs (omega (arith, sizes))
        ∙ ap (λ m. ok (pos m)) (omega (arith, sizes)))
