-- ===== src/AvcConfig/Walk.antt =====
-- internal/h264/nal.go: the walk of `IsAVCDecoderConfigurationRecord` over units that follow each
-- other.
use goh.Base.{
  All, Bool, List, [], ap, arith, bit_and, bit_or, drop, drop-length-append, false, get_or, length,
  length-append, le→ltb, lt→leb, refl, some, suc, suc-ne-zero, sym, take-length-append, true, ℕ,
  ◌!=◌, ◌%◌, ◌++◌, ◌+◌, ◌-◌, ◌/◌, ◌<◌, ◌==◌, ◌||◌, ◌∙◌, ◌∷◌, ◌≡◌, ◌≤◌,
}
use goh.Base.Words.{◌<<<◌}
use goh.Base.Bits.{bit_or_sum, passes, passes_each}
use mathlib.Core.List.{append_assoc, append-nil}
use mathlib.Core.Path.{ap₂}
use goh.AvcConfig.{first_byte, peek_raw, walk, is_record_pps}
use goh.Nal.{nal_pps}

-- A unit behind its length of two bytes, and several.
abbrev pub counted : List ℕ → List ℕ
counted raw = length raw / 256 ∷ length raw % 256 ∷ raw

abbrev pub all_counted : List (List ℕ) → List ℕ
all_counted [] = []
all_counted (raw ∷ raws) = counted raw ++ all_counted raws

-- What `validateAVCConfigRawNAL` accepts.
pub record IsRaw (want : ℕ) (raw : List ℕ) : Type 0 where
  pub some_byte : 0 < length raw
  pub short : length raw ≤ 0xffff
  pub kind : bit_and (first_byte raw) 0x9f ≡ want

mask_test : ℕ → Bool
mask_test b = (bit_and b 0x80 != 0) || (bit_and b 0x9f == bit_and b 0x1f)

mask_table : passes mask_test 256 ≡ true
unfolding passes mask_test
mask_table = refl

pub masks :
    (b want : ℕ) → b < 256 → bit_and b 0x80 ≡ 0 → bit_and b 0x1f ≡ want → bit_and b 0x9f ≡ want
unfolding mask_test
masks b want hb top low = ground (arith, passes_each mask_test 256 b hb mask_table)

get_or-append :
    (front : List ℕ) (x : ℕ) (back : List ℕ) → get_or (front ++ (x ∷ back)) (length front) 0 ≡ x
get_or-append [] x back = refl
get_or-append (y ∷ front) x back = get_or-append front x back

get_or-append_next :
    (front : List ℕ) (x y : ℕ) (back : List ℕ)
    → get_or (front ++ (x ∷ y ∷ back)) (length front + 1) 0 ≡ y
get_or-append_next front x y back =
    ap₂ (λ l i. get_or l i 0) (sym (append_assoc front (x ∷ []) (y ∷ back)))
      (sym (length-append front (x ∷ [])))
    ∙ get_or-append (front ++ (x ∷ [])) y back

peek_raw-counted :
    (front raw back : List ℕ)
    → 0 < length raw
    → length raw ≤ 0xffff
    → peek_raw (front ++ (counted raw ++ back)) (length front)
      ≡ some (raw, length (front ++ counted raw))
unfolding peek_raw
peek_raw-counted front raw back full short =
    let whole = front ++ (counted raw ++ back) in
    let size : length whole ≡ length front + 2 + length raw + length back =
      omega (arith, length-append front (counted raw ++ back), length-append raw back) in
    let n : bit_or ((length raw / 256) <<< 8) (length raw % 256) ≡ length raw =
      bit_or_sum 8 (length raw / 256) (length raw % 256) (omega arith) ∙ omega arith in
    let end : length front + 2 + length raw ≡ length (front ++ counted raw) =
      omega (arith, length-append front (counted raw)) in
    let skip : drop (length front + 2) whole ≡ raw ++ back =
      ap₂ drop (sym (length-append front (length raw / 256 ∷ length raw % 256 ∷ [])))
        (sym (append_assoc front (length raw / 256 ∷ length raw % 256 ∷ []) (raw ++ back)))
      ∙ drop-length-append (front ++ (length raw / 256 ∷ length raw % 256 ∷ [])) (raw ++ back) in
    rw
      (
        le→ltb (length whole) (length front + 2) (omega (arith, size)),
        get_or-append front (length raw / 256) (length raw % 256 ∷ (raw ++ back)),
        get_or-append_next front (length raw / 256) (length raw % 256) (raw ++ back),
        n,
        le→ltb (length whole - (length front + 2)) (length raw) (omega (arith, size)),
        skip,
        take-length-append raw back,
        end,
      )
      (ground (arith, suc-ne-zero (length raw - 1)))

walk_step :
    (k : ℕ) (front raw back : List ℕ) (want : ℕ)
    → IsRaw want raw
    → walk (suc k) (front ++ (counted raw ++ back)) (length front) want
      ≡ walk k ((front ++ counted raw) ++ back) (length (front ++ counted raw)) want
unfolding walk
walk_step k front raw back want h =
    let kept : (bit_and (first_byte raw) 0x9f != want) ≡ false = ground (arith, h.kind) in
    rw (peek_raw-counted front raw back h.some_byte h.short, walk)
      (rw kept (
        ap (λ l. walk k l (length (front ++ counted raw)) want)
          (sym (append_assoc front (counted raw) back))))

pub walk-all_counted :
    (raws : List (List ℕ)) (front back : List ℕ) (want : ℕ)
    → All (IsRaw want) raws
    → walk (length raws) (front ++ (all_counted raws ++ back)) (length front) want
      ≡ some (length (front ++ all_counted raws))
unfolding walk
walk-all_counted [] front back want h = ap (λ l. some (length l)) (sym (append-nil front))
walk-all_counted (raw ∷ raws) front back want (h, hs) =
    ap (λ l. walk (suc (length raws)) (front ++ l) (length front) want)
      (append_assoc (counted raw) (all_counted raws) back)
    ∙ walk_step (length raws) front raw (all_counted raws ++ back) want h
    ∙ walk-all_counted raws (front ++ counted raw) back want hs
    ∙ ap (λ l. some (length l)) (append_assoc front (counted raw) (all_counted raws))

-- The count and the picture parameter sets behind the others.
pub is_record_pps-all_counted :
    (raws : List (List ℕ)) (front : List ℕ)
    → 0 < length raws
    → All (IsRaw nal_pps) raws
    → is_record_pps (front ++ (length raws ∷ all_counted raws)) (some (length front)) ≡ true
is_record_pps-all_counted raws front some_there hs =
    let whole = front ++ (length raws ∷ all_counted raws) in
    let front' = front ++ (length raws ∷ []) in
    let regroup : whole ≡ front' ++ (all_counted raws ++ []) =
      ap (λ l. front ++ (length raws ∷ l)) (sym (append-nil (all_counted raws)))
      ∙ sym (append_assoc front (length raws ∷ []) (all_counted raws ++ [])) in
    let walked : walk (length raws) whole (length front + 1) nal_pps
        ≡ some (length (front' ++ all_counted raws)) =
      ap₂ (λ l n. walk (length raws) l n nal_pps) regroup
        (sym (length-append front (length raws ∷ [])))
      ∙ walk-all_counted raws front' [] nal_pps hs in
    rw
      (
        lt→leb (length whole) (length front)
            (omega (arith, length-append front (length raws ∷ all_counted raws))),
        get_or-append front (length raws) (all_counted raws),
        walked,
      )
      (ground arith)

pub length-all_counted :
    (want : ℕ) (raws : List (List ℕ))
    → 0 < length raws
    → All (IsRaw want) raws
    → 3 ≤ length (all_counted raws)
length-all_counted want [] some_there hs = absurd (omega arith)
length-all_counted want (raw ∷ raws) some_there (h, hs) =
    omega (arith, h.some_byte, length-append (counted raw) (all_counted raws))
