-- ===== src/AvcConfig/Written.antt =====
-- internal/h264/bitwriter.go: the bytes that the record writer appends.
use goh.Base.{
  All, Bool, List, [], ap, arith, bit_and, bit_or, false, length, length-append, ltb, refl, true, ℕ,
  ◌!=◌, ◌&&◌, ◌++◌, ◌+◌, ◌-◌, ◌<◌, ◌==◌, ◌^◌, ◌||◌, ◌∙◌, ◌∷◌, ◌≡◌, ◌≤◌,
}
use goh.Base.Int.{pos}
use goh.Base.Words.{u8}
use goh.Base.Bits.{passes, passes_each}
use goh.AvcConfig.Walk.{
  all_counted, is_record_pps-all_counted, length-all_counted, walk-all_counted,
}
use mathlib.Core.List.{append_assoc}
use goh.AvcConfig.{append_record, record_capacity, record_head, append_pps_units, is_record}
use goh.IntCheck.Laws.{checked_add_int-pos}
use goh.Nal.{nal_pps, nal_sps, cut_on_error}
use goh.Result.{ok}
use goh.Nal.Length.{too_small}
use goh.AvcConfig.Units.{All-IsRaw, IsUnit, append_raws-all_counted, capacity_of-all_counted}

-- The parameter sets of a record: up to 31 and up to 255 of them, all valid.
pub record IsSets (sps_units pps_units : List (List ℕ)) : Type 0 where
  pub sps_count : (0 < length sps_units) × (length sps_units ≤ 31)
  pub pps_count : (0 < length pps_units) × (length pps_units ≤ 255)
  pub sps_ok : All (IsUnit nal_sps) sps_units
  pub pps_ok : All (IsUnit nal_pps) pps_units
  pub small : length (all_counted sps_units) + length (all_counted pps_units) + 7 < 2 ^ 32

size_test : ℕ → Bool
size_test n = bit_and (bit_or 0xfc (u8 n)) 0xfc == 0xfc

count_test : ℕ → Bool
count_test n =
    (bit_and (bit_or 0xe0 (u8 n)) 0xe0 == 0xe0) && (bit_and (bit_or 0xe0 (u8 n)) 0x1f == n)

size_table : passes size_test 4 ≡ true
unfolding passes size_test
size_table = refl

count_table : passes count_test 32 ≡ true
unfolding passes count_test
count_table = refl

-- The counts and the marks of the head, read back.
size_mark : (n : ℕ) → n < 4 → (bit_and (bit_or 0xfc (u8 n)) 0xfc != 0xfc) ≡ false
unfolding size_test
size_mark n h = ground (arith, passes_each size_test 4 n h size_table)

count_back :
    (n : ℕ)
    → n < 32
    → ((bit_and (bit_or 0xe0 (u8 n)) 0xe0 != 0xe0) ≡ false)
      × (bit_and (bit_or 0xe0 (u8 n)) 0x1f ≡ n)
unfolding count_test
count_back n h = ground (arith, passes_each count_test 32 n h count_table)

module _ (profile compatibility level size : ℕ) (sps_units pps_units : List (List ℕ))
    (small : 1 ≤ size) (wide : size ≤ 4) (h : IsSets sps_units pps_units) where
  head_bytes : List ℕ
  head_bytes = record_head profile compatibility level size (length sps_units)

  counts_ok :
      ((ltb size 1 || ltb 4 size)
        || ((length sps_units == 0)
            || (ltb 31 (length sps_units)
                || ((length pps_units == 0) || ltb 255 (length pps_units)))))
      ≡ false
  counts_ok = ground (arith, h.sps_count, h.pps_count)

  capacity_ok :
      record_capacity (pos 0) sps_units pps_units
      ≡ ok (pos (6 + length (all_counted sps_units) + 1 + length (all_counted pps_units)))
  unfolding record_capacity
  capacity_ok =
      rw
        (
          checked_add_int-pos 0 6 (omega arith),
          capacity_of-all_counted sps_units 6 nal_sps h.sps_ok (omega (arith, h.small)),
          checked_add_int-pos (6 + length (all_counted sps_units)) 1 (omega (arith, h.small)),
        )
        (capacity_of-all_counted pps_units (6 + length (all_counted sps_units) + 1) nal_pps h.pps_ok
          (omega (arith, h.small)))

  record_bytes : List ℕ
  record_bytes = head_bytes ++ (all_counted sps_units ++ (length pps_units ∷ all_counted pps_units))

  length-record_bytes :
      length record_bytes ≡ 7 + length (all_counted sps_units) + length (all_counted pps_units)
  unfolding record_bytes head_bytes
  length-record_bytes =
      omega
        (arith, length-append (all_counted sps_units) (length pps_units ∷ all_counted pps_units))

  append_pps_units-all_counted :
      (front : List ℕ)
      → length front ≡ 6 + length (all_counted sps_units)
      → append_pps_units front pps_units
        ≡ (ok tt, front ++ (length pps_units ∷ all_counted pps_units))
  append_pps_units-all_counted front grown =
      let count : u8 (length pps_units) ≡ length pps_units = omega (arith, h.pps_count) in
      let counted_front = length-append front (length pps_units ∷ []) in
      rw
        (
          checked_add_int-pos (length front) 1 (omega (arith, h.small)),
          count,
          append_raws-all_counted pps_units (front ++ (length pps_units ∷ [])) nal_pps h.pps_ok
              (omega (arith, h.small, counted_front)),
          append_pps_units,
        )
        (ap (λ l. (ok tt, l)) (append_assoc front (length pps_units ∷ []) (all_counted pps_units)))

  append_record-record_bytes :
      append_record [] profile compatibility level size sps_units pps_units ≡ (ok tt, record_bytes)
  unfolding append_record head_bytes record_bytes
  append_record-record_bytes =
      let sps_count : u8 (length sps_units) ≡ length sps_units = omega (arith, h.sps_count) in
      let front = head_bytes ++ all_counted sps_units in
      rw
        (
          counts_ok,
          capacity_ok,
          append_raws-all_counted sps_units head_bytes nal_sps h.sps_ok (omega (arith, h.small)),
        )
        (ap (cut_on_error 0) (
            append_pps_units-all_counted front
              (omega (arith, length-append head_bytes (all_counted sps_units))))
          ∙ ap (λ l. (ok tt, l))
              (append_assoc head_bytes (all_counted sps_units)
                (length pps_units ∷ all_counted pps_units)))

  is_record-record_bytes : is_record record_bytes ≡ true
  unfolding is_record head_bytes record_bytes
  is_record-record_bytes =
      let back = length pps_units ∷ all_counted pps_units in
      let raws = All-IsRaw nal_sps sps_units h.sps_ok in
      let (marked, back_again) = count_back (length sps_units) (omega (arith, h.sps_count)) in
      rw
        (
          too_small record_bytes (omega (arith, length-record_bytes, h.small)),
          size_mark (size - 1) (omega arith),
          marked,
          back_again,
          walk-all_counted sps_units head_bytes back nal_sps raws,
        )
        (ground (
          arith,
          h.sps_count,
          length-record_bytes,
          length-all_counted nal_sps sps_units h.sps_count.0 raws,
          append_assoc head_bytes (all_counted sps_units) back,
          is_record_pps-all_counted pps_units (head_bytes ++ all_counted sps_units) h.pps_count.0
              (All-IsRaw nal_pps pps_units h.pps_ok),
        ))

-- What AppendAVCDecoderConfigurationRecord writes for 1 to 31 valid sequence parameter sets, 1 to
-- 255 valid picture parameter sets and lengths of 1 to 4 bytes, IsAVCDecoderConfigurationRecord
-- takes for a record. A set is valid if validateAVCConfigRawNAL accepts it and its first item is a
-- byte; the record is shorter than 2 ^ 32 bytes.
pub is_record-append_record :
    (profile compatibility level size : ℕ) (sps_units pps_units : List (List ℕ))
    → 1 ≤ size
    → size ≤ 4
    → IsSets sps_units pps_units
    → ((append_record [] profile compatibility level size sps_units pps_units).0 ≡ ok tt)
      × (is_record (append_record [] profile compatibility level size sps_units pps_units).1 ≡ true)
is_record-append_record profile compatibility level size sps_units pps_units small wide h =
    rw
      (append_record-record_bytes profile compatibility level size sps_units pps_units small wide h)
      (
        refl,
        is_record-record_bytes profile compatibility level size sps_units pps_units small wide h,
      )
