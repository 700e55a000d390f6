-- ===== src/Tests/Headers.antt =====
-- Runs and results for internal/h264/slice.go.
use goh.Base.{
  Bool, List, [], arith, false, if◌then◌else◌, length, none, refl, some, true, ℕ, ◌==◌, ◌∷◌, ◌≡◌,
  ◌≤◌,
}
use goh.Base.Int.{◌+ℤ◌}
use goh.BitReader.Valid.{IsValid}
use goh.BitReader.{
  BitReader, bits_left, new_rbsp_bit_reader, rbsp_bit_length, rbsp_length_at, read_bit, read_bits,
  read_bits_loop, skip_bits, trailing_zeros_8, trim_zeros,
}
use goh.Slice.Control.{Done, decode_ref_pic_marking-Done}
use goh.Slice.Header.Safe.{IsParsed, parse_slice_header-IsSlice}
use goh.Params.Store.Safe.{
  IsStore, Returns, pps_steps-IsStore, pps_steps-parse_slice_header, IsNamed,
}
use goh.Dpb.{Mmco, short_to_unused}
use goh.Nal.{NalUnit}
use goh.Slice.{
  PicNums, decode_ref_pic_marking, max_mmco_count, mmco_loop, parse_ref_count, read_long_arg,
  read_short_pic_num,
}
use goh.Params.Store.{PpsStore, pps_steps}
use goh.BitReader.Safe.{Yields}
use goh.Dpb.Control.{apply_mmco, unapplied}
use goh.Result.{err, ok, panic}
use goh.Slice.Header.Start.{
  find_pps, parse_idr_pic_id, parse_picture, parse_start, parse_structure, picture_type,
}
use goh.Slice.Header.Quant.{parse_cabac_init_idc, parse_deblocking, parse_quant, qscale_of}
use goh.Slice.Header.{parse_fields, parse_slice_header}
use goh.Slice.Header.Fields.{parse_order, parse_refs}
use goh.Tests.Sets.{pps_bytes, pps_list, pps_list-AllPps, sps_list, sps_list-AllSps, plain_pps}
use goh.Golomb.{
  read_se_golomb_long, read_ue_golomb_31, read_ue_golomb_long, se_of_code, ue_loop, ue_suffix,
}
use goh.Tests.Pictures.{third_picture, two_refs}
use goh.Params.Valid.{IsPps}
use goh.Params.{Present}

-- The first slice of an IDR picture.
abbrev idr_unit : NalUnit
idr_unit = record { ref_idc = 3; type = 5; raw = 0x65 ∷ []; rbsp = 0x88 ∷ 0x84 ∷ 0xc0 ∷ [] }

parse_slice_header-IsSlice_example :
    Yields (IsParsed idr_unit pps_list) (parse_slice_header idr_unit pps_list)
parse_slice_header-IsSlice_example = parse_slice_header-IsSlice idr_unit pps_list pps_list-AllPps

abbrev kept_sets : PpsStore
kept_sets = record { list = pps_list; raw = λ id. [] }

kept_sets-IsStore : IsStore kept_sets
kept_sets-IsStore id = by (id == 0) (pps_list-AllPps id) (λ e. ground (arith, e))
  where
    by :
        (test : Bool)
        → Present IsPps (if test then some plain_pps else none)
        → (test ≡ true → 0 ≡ id)
        → Present (λ pps. IsPps pps × (pps.pps_id ≡ id)) (if test then some plain_pps else none)
    by true v k = (v, k refl)
    by false v k = tt

abbrev pps_unit : NalUnit
pps_unit = record { ref_idc = 3; type = 8; raw = 0x68 ∷ pps_bytes; rbsp = pps_bytes }

abbrev bad_unit : NalUnit
bad_unit = record { ref_idc = 3; type = 8; raw = 0x68 ∷ 0 ∷ []; rbsp = 0 ∷ [] }

pps_steps-IsStore_example :
    Returns IsStore (pps_steps sps_list kept_sets (bad_unit ∷ pps_unit ∷ []))
pps_steps-IsStore_example =
    pps_steps-IsStore (bad_unit ∷ pps_unit ∷ []) sps_list kept_sets sps_list-AllSps
      kept_sets-IsStore

pps_steps-parse_slice_header_example :
    Returns
      (λ s. Yields (IsNamed idr_unit s) (parse_slice_header idr_unit s.list))
      (pps_steps sps_list kept_sets (bad_unit ∷ pps_unit ∷ []))
pps_steps-parse_slice_header_example =
    pps_steps-parse_slice_header (bad_unit ∷ pps_unit ∷ []) sps_list kept_sets idr_unit
      sps_list-AllSps kept_sets-IsStore

-- The bits 1 010 1 1: one operation, which takes a short-term reference away.
abbrev marking_reader : BitReader
marking_reader = record { buf = 0xac ∷ []; bit_pos = 0; num_bits = 6; invalid = false }

abbrev frame_nums : PicNums
frame_nums = record { structure = 3; curr_pic_num = 3; max_pic_num = 16 }

abbrev takes_away : List Mmco
takes_away = record { opcode = short_to_unused; short_pic_num = 2; long_arg = 0 } ∷ []

marking_reader-IsValid : IsValid marking_reader
marking_reader-IsValid = record {
  usable = refl;
  short = omega arith;
  within = omega arith;
  reached = omega arith;
}

marking_reads :
    decode_ref_pic_marking false frame_nums marking_reader
    ≡ (ok (true, takes_away), record marking_reader { bit_pos = 6 })
unfolding decode_ref_pic_marking mmco_loop read_short_pic_num read_long_arg read_ue_golomb_31
    read_ue_golomb_long ue_loop ue_suffix read_bits read_bits_loop read_bit bits_left
marking_reads = refl

decode_ref_pic_marking-Done_example :
    (length takes_away ≤ max_mmco_count)
    × Done takes_away (apply_mmco 3 third_picture takes_away unapplied two_refs).0
decode_ref_pic_marking-Done_example =
    decode_ref_pic_marking-Done false frame_nums marking_reader
      (record marking_reader { bit_pos = 6 }) true takes_away 3 third_picture unapplied two_refs
      marking_reader-IsValid marking_reads refl

-- The quantiser of the slice is that of the parameter set.
slice_parses :
    elim (parse_slice_header idr_unit pps_list) as (λ x. ℕ) [
      | ok h ↦ h.0.quant.qscale
      | err e ↦ 99
      | panic ↦ 99
    ]
    ≡ 26
unfolding parse_slice_header parse_fields parse_start picture_type find_pps parse_picture
    parse_structure parse_idr_pic_id parse_order parse_refs parse_ref_count decode_ref_pic_marking
    parse_quant parse_cabac_init_idc qscale_of parse_deblocking ◌+ℤ◌ read_ue_golomb_31
    read_ue_golomb_long read_se_golomb_long se_of_code ue_loop ue_suffix read_bits read_bits_loop
    read_bit bits_left skip_bits new_rbsp_bit_reader rbsp_bit_length rbsp_length_at trim_zeros
    trailing_zeros_8
slice_parses = refl
