-- ===== src/Slice/Header.antt =====
-- internal/h264/slice.go: `parseSliceHeaderWithPayloadInto`, stage by stage. A stage is a
-- read that returns the fields it sets.
pub mod Start
pub mod Fields
pub mod Quant
pub mod Safe
use goh.Base.{Bool, Option, if◌then◌else◌, not, ℕ, ◌&&◌, ◌==◌}
use goh.Slice.Header.Start.{
  SliceStart, SlicePicture, parse_start, parse_picture, nal_slice, nal_idr_slice, without_s,
}
use goh.Slice.Header.Fields.{SliceOrder, SliceRefs, parse_order, parse_refs}
use goh.Slice.Header.Quant.{SliceQuant, SliceDeblocking, parse_quant, parse_deblocking}
use goh.BitReader.{◌>>=◌, BitReader, Read, new_rbsp_bit_reader, pure}
use goh.Nal.{NalUnit}
use goh.Params.{Pps}
use goh.Result.{Result, err, invalid_data, ok, panic}

-- The whole header.
pub record SliceSyntax : Type 0 where
  pub start : SliceStart
  pub picture : SlicePicture
  pub order : SliceOrder
  pub refs : SliceRefs
  pub quant : SliceQuant
  pub deblocking : SliceDeblocking

unfoldable pub parse_fields : Bool → ℕ → (ℕ → Option Pps) → Read SliceSyntax
parse_fields idr ref_idc pps_list = do
  start ← parse_start idr pps_list
  picture ← parse_picture idr start.pps.sps start.slice_type
  order ← parse_order start.pps (without_s start.slice_type) picture.nums.structure
  refs ← parse_refs idr ref_idc start.pps (without_s start.slice_type) picture.nums
  quant ← parse_quant start.pps start.slice_type
  deblocking ← parse_deblocking start.pps
  pure (record {
    start = start;
    picture = picture;
    order = order;
    refs = refs;
    quant = quant;
    deblocking = deblocking;
  })

-- `return gb, nil`
abbrev pub with_reader : Result SliceSyntax × BitReader → Result (SliceSyntax × BitReader)
with_reader (ok h, r) = ok (h, r)
with_reader (err e, r) = err e
with_reader (panic, r) = panic

-- `parseSliceHeaderWithPayloadInto`: the header and the reader after it.
unfoldable pub parse_slice_header : NalUnit → (ℕ → Option Pps) → Result (SliceSyntax × BitReader)
parse_slice_header nal pps_list =
    if not (nal.type == nal_slice) && not (nal.type == nal_idr_slice)
    then err invalid_data
    else elim (new_rbsp_bit_reader nal.rbsp) [
      | err e ↦ err e
      | panic ↦ panic
      | ok gb ↦ with_reader (parse_fields (nal.type == nal_idr_slice) nal.ref_idc pps_list gb)
    ]
