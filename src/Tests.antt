-- ===== src/Tests.antt =====
-- Runs of the code on concrete input, and the theorems at concrete inputs.
mod Packets
mod Pictures
mod Sets
mod Headers
use goh.Base.{
  List, [], arith, drop, false, if◌then◌else◌, leb, length, none, refl, some, sym, ℕ, ◌%◌, ◌*◌, ◌+◌,
  ◌-◌, ◌<◌, ◌^◌, ◌∷◌, ◌≡◌, ◌≤◌, ◌⊎◌,
}
use goh.Base.Int.{pos, ◌*ℤ◌, ◌+ℤ◌, ◌-ℤ◌}
use goh.Base.Words.{len_32, len_from, max_u32}
use goh.Result.{ok, err, invalid_data}
use goh.BitReader.{
  BitReader, read_bits, align_to_byte, bits_left, read_aligned_bytes, read_bit, read_bits_loop,
  show_bits, show_bits_padded, skip_bits,
}
use goh.BitReader.Valid.{IsValid, remaining, view}
use Prim.Native.Nat.{min}
use goh.BitWriter.Appends.{Appends, Appends-nil, Writes, write_bits-Appends, write_ue_golomb-Writes}
use goh.BitWriter.{
  BitWriter, align_loop, or_last, se_code_num, write_bit, write_bits, write_bits_loop,
  write_se_golomb, write_ue_golomb, write_zero_align, write_zeros,
}
use goh.Nal.Escape.{Clean, append_ebsp-Clean, append_rbsp-append_ebsp, escape}
use goh.Nal.Parse.{Payload, nal_of, parse_nal_into-append_nal, unit_of}
use goh.BitReader.Align.{align_to_byte-boundary, read_aligned_bytes-slice}
use goh.AnnexB.RoundTrip.{append_all, split_annexb_into-append_all}
use goh.Nal.{append_ebsp, append_nal, append_rbsp, parse_nal_into}
use goh.BitReader.Window.{bits_of, value}
use goh.IntCheck.{checked_add_int, checked_mul_int}
use goh.IntCheck.Laws.{checked_add_int_exact, checked_mul_int_exact}
use goh.BitReader.Padded.{padded, show_bits_padded-value}
use goh.BitReader.Laws.{read_bits-take_bits, show_bits-read_bits, skip_bits-drop, skip_bits_wraps}
use goh.BitWriter.RoundTrip.{read_se-write_se, read_ue-write_ue, reader_at}
use goh.Golomb.{read_se_golomb_long, read_ue_golomb_long}
use goh.AnnexB.{split_annexb_into, Split}
use mathlib.Core.Path.{subst}
use goh.BitReader.Reads.{take_bits}
use goh.Golomb.Code.{ue_code}
use goh.BitWriter.Stuck.{write_zero_align_stuck}
use goh.AnnexB.Rounds.{split_annexb_into_ends}
use goh.BitWriter.Valid as Writer

abbrev two_bytes : List ℕ
two_bytes = 0xa5 ∷ 0x3c ∷ []

abbrev at_three : BitReader
at_three = record { buf = two_bytes; bit_pos = 3; num_bits = 16; invalid = false }

at_three-IsValid : IsValid at_three
at_three-IsValid = record {
  usable = refl;
  short = omega arith;
  within = omega arith;
  reached = omega arith;
}

read_five : (read_bits 5 at_three).0 ≡ ok 5
unfolding read_bits read_bits_loop read_bit bits_left
read_five = refl

read_bits-take_bits_example :
    (view (read_bits 5 at_three) ≡ take_bits 5 (remaining at_three))
    × IsValid (read_bits 5 at_three).1
read_bits-take_bits_example = read_bits-take_bits 5 at_three-IsValid

show_bits-read_bits_example : show_bits 5 at_three ≡ ((read_bits 5 at_three).0, at_three)
show_bits-read_bits_example = show_bits-read_bits 5 at_three-IsValid

show_bits_padded-value_example :
    show_bits_padded at_three 20 ≡ ok (value 0 (padded at_three (min 20 32)))
show_bits_padded-value_example = show_bits_padded-value 20 at_three-IsValid

skip_bits-drop_example :
    (view (skip_bits 5 at_three) ≡ (
      if leb 5 (length (remaining at_three))
      then (ok tt, drop 5 (remaining at_three))
      else (err invalid_data, remaining at_three)))
    × IsValid (skip_bits 5 at_three).1
skip_bits-drop_example = skip_bits-drop 5 at_three-IsValid (omega arith)

skip_bits_wraps_example :
    skip_bits (2 ^ 31) at_three
    ≡ (ok tt, record at_three { bit_pos = (at_three.bit_pos + 2 ^ 31) % 2 ^ 32 })
skip_bits_wraps_example = skip_bits_wraps (2 ^ 31) at_three-IsValid (omega arith) (omega arith)

align_to_byte-boundary_example :
    (align_to_byte at_three ≡ (ok tt, record at_three { bit_pos = 8 }))
    × IsValid (align_to_byte at_three).1
align_to_byte-boundary_example = align_to_byte-boundary at_three-IsValid

read_aligned_bytes-slice_example :
    read_aligned_bytes (pos 1) at_three ≡ (ok (0x3c ∷ []), record at_three { bit_pos = 16 })
read_aligned_bytes-slice_example = read_aligned_bytes-slice 1 at_three-IsValid (omega arith)

abbrev empty : BitWriter
empty = record { buf = []; bit_pos = 0; invalid = false }

empty-IsValid : Writer.IsValid empty
empty-IsValid = record {
  usable = refl;
  range = omega arith;
  sized = omega arith;
  bytes = λ i. omega arith;
  clear = refl;
}

write_bits-Appends_example :
    (((11 ≤ 32) × (0 + 11 ≤ max_u32)) × Writes (bits_of 11 1234) empty (write_bits 1234 11 empty))
    ⊎ (((32 < 11) ⊎ (max_u32 < 0 + 11)) × (write_bits 1234 11 empty ≡ (err invalid_data, empty)))
write_bits-Appends_example = write_bits-Appends 1234 11 empty-IsValid

room_for_41 : 0 + length (ue_code 41) ≤ max_u32
unfolding len_32 len_from bits_of
room_for_41 = omega arith

nothing_more : Appends [] (write_ue_golomb 41 empty).1 (write_ue_golomb 41 empty).1
nothing_more =
    let (w, e, a) = write_ue_golomb-Writes 41 empty-IsValid (omega arith) room_for_41 in
    Appends-nil (subst (λ p. Writer.IsValid p.1) (sym e) a.valid)

buffer_of_41 : length (write_ue_golomb 41 empty).1.buf * 8 < 2 ^ 31
unfolding write_ue_golomb write_bits write_bits_loop write_zeros write_bit or_last len_32 len_from
buffer_of_41 = omega arith

read_ue-write_ue_example :
    read_ue_golomb_long (reader_at (write_ue_golomb 41 empty).1.buf 0)
    ≡ (ok 41, reader_at (write_ue_golomb 41 empty).1.buf (write_ue_golomb 41 empty).1.bit_pos)
read_ue-write_ue_example =
    read_ue-write_ue 41 [] empty-IsValid (omega arith) room_for_41 nothing_more buffer_of_41

same_as_41 : write_se_golomb (pos 21) empty ≡ write_ue_golomb 41 empty
unfolding write_se_golomb se_code_num ◌*ℤ◌ ◌-ℤ◌
same_as_41 = refl

nothing_signed : Appends [] (write_se_golomb (pos 21) empty).1 (write_se_golomb (pos 21) empty).1
nothing_signed = subst (λ p. Appends [] p.1 p.1) (sym same_as_41) nothing_more

buffer_signed : length (write_se_golomb (pos 21) empty).1.buf * 8 < 2 ^ 31
buffer_signed = subst (λ p. length p.1.buf * 8 < 2 ^ 31) (sym same_as_41) buffer_of_41

read_se-write_se_example :
    read_se_golomb_long (reader_at (write_se_golomb (pos 21) empty).1.buf 0) ≡ (
      ok (pos 21),
      reader_at (write_se_golomb (pos 21) empty).1.buf (write_se_golomb (pos 21) empty).1.bit_pos,
    )
read_se-write_se_example =
    read_se-write_se (pos 21) [] empty-IsValid (omega arith) (omega arith) (omega arith)
      nothing_signed buffer_signed

abbrev full : BitWriter
full = record { buf = []; bit_pos = max_u32; invalid = false }

write_zero_align_stuck_example : (align_loop 9 full ≡ none) × (write_zero_align full ≡ none)
write_zero_align_stuck_example = write_zero_align_stuck 9 full refl refl

checked_add_int_exact_example : checked_add_int (pos (2 ^ 63 - 1)) (pos 1) ≡ err invalid_data
unfolding ◌+ℤ◌
checked_add_int_exact_example =
    checked_add_int_exact (pos (2 ^ 63 - 1)) (pos 1) (omega arith) (omega arith)

checked_mul_int_exact_example : checked_mul_int (pos 6) (pos 7) ≡ ok (pos 42)
checked_mul_int_exact_example = checked_mul_int_exact 6 7

append_rbsp-append_ebsp_example :
    append_rbsp (9 ∷ []) (append_ebsp [] (0 ∷ 0 ∷ 1 ∷ [])) ≡ ok (9 ∷ 0 ∷ 0 ∷ 1 ∷ [])
append_rbsp-append_ebsp_example = append_rbsp-append_ebsp (9 ∷ []) (0 ∷ 0 ∷ 1 ∷ []) (omega arith)

append_ebsp-Clean_example : Clean 0 (append_ebsp [] (0 ∷ 0 ∷ 1 ∷ []))
append_ebsp-Clean_example = append_ebsp-Clean (0 ∷ 0 ∷ 1 ∷ []) (omega arith)

parse_nal_into-append_nal_example :
    parse_nal_into (append_nal [] 3 7 (0 ∷ 0 ∷ 2 ∷ [])).1 []
    ≡ ok (unit_of 3 7 (0 ∷ 0 ∷ 2 ∷ []), 0 ∷ 0 ∷ 2 ∷ [])
parse_nal_into-append_nal_example =
    parse_nal_into-append_nal 3 7 (0 ∷ 0 ∷ 2 ∷ []) [] (omega arith) (omega arith) (omega arith)

abbrev pub sps_like : Payload
sps_like = record { ref_idc = 3; type = 7; rbsp = 0 ∷ 0 ∷ 1 ∷ 128 ∷ [] }

abbrev pub slice_like : Payload
slice_like = record { ref_idc = 2; type = 5; rbsp = 0x88 ∷ 0 ∷ [] }

split_annexb_into-append_all_example :
    ((append_all [] (sps_like ∷ slice_like ∷ [])).0 ≡ ok tt)
    × (split_annexb_into (append_all [] (sps_like ∷ slice_like ∷ [])).1
        ≡ some (ok tt, nal_of sps_like ∷ nal_of slice_like ∷ [], 0 ∷ 0 ∷ 1 ∷ 128 ∷ 0x88 ∷ 0 ∷ []))
unfolding escape
split_annexb_into-append_all_example =
    split_annexb_into-append_all sps_like (slice_like ∷ []) (omega arith) (omega arith)

split_annexb_into_ends_example : (s : Split) × (split_annexb_into (0 ∷ 0 ∷ 1 ∷ 0x65 ∷ []) ≡ some s)
split_annexb_into_ends_example = split_annexb_into_ends (0 ∷ 0 ∷ 1 ∷ 0x65 ∷ [])
