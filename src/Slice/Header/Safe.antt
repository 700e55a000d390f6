-- ===== src/Slice/Header/Safe.antt =====
-- internal/h264/slice.go: what a slice header that is parsed satisfies.
use goh.Base.{Bool, Option, not, ℕ, ◌&&◌, ◌==◌}
use goh.BitReader.Valid.{IsValid}
use goh.Slice.Header.Start.Safe.{AllPps, IsPicture, IsStart, parse_picture-Reads, parse_start-Reads}
use goh.Slice.Header.Quant.Safe.{IsDeblocking, IsQuant, parse_deblocking-Reads, parse_quant-Reads}
use goh.Slice.Header.Fields.Safe.{IsOrder, IsRefs, parse_order-Reads, parse_refs-Reads}
use goh.BitReader.Safe.{Reads, Reads-bind, Reads-pure, Good, Yields, Yields-if}
use goh.Slice.Header.{SliceSyntax, parse_fields, parse_slice_header, with_reader}
use goh.Slice.Header.Start.{without_s, nal_idr_slice, nal_slice}
use goh.BitReader.{BitReader, new_rbsp_bit_reader}
use goh.Nal.{NalUnit}
use goh.Result.{Result, err, ok, panic}
use goh.BitReader.Opens.{new_rbsp_bit_reader-Yields}
use goh.Params.{Pps}

-- The fields are what the stages promise of them.
pub record IsSlice (idr : Bool) (pps_list : ℕ → Option Pps) (s : SliceSyntax) : Type 0 where
  pub start_fits : IsStart idr pps_list s.start
  pub picture_fits : IsPicture s.start.pps.sps s.picture
  pub order_fits : IsOrder s.start.pps.sps s.order
  pub refs_fit : IsRefs (without_s s.start.slice_type) s.picture.nums.structure s.refs
  pub quant_fits : IsQuant s.start.pps s.quant
  pub deblocking_fits : IsDeblocking s.deblocking

pub parse_fields-Reads :
    (idr : Bool) (ref_idc : ℕ) (pps_list : ℕ → Option Pps)
    → AllPps pps_list
    → Reads (IsSlice idr pps_list) (parse_fields idr ref_idc pps_list)
unfolding parse_fields
parse_fields-Reads idr ref_idc pps_list h =
    Reads-bind (IsStart idr pps_list) _ (parse_start-Reads idr pps_list h) (λ start hs.
      Reads-bind (IsPicture start.pps.sps) _
        (parse_picture-Reads idr start.pps.sps start.slice_type hs.pps_valid.sps_valid)
        (λ picture hp.
          Reads-bind (IsOrder start.pps.sps) _
            (parse_order-Reads start.pps (without_s start.slice_type) picture.nums.structure
              hs.pps_valid.sps_valid)
            (λ order ho.
              Reads-bind (IsRefs (without_s start.slice_type) picture.nums.structure) _
                (parse_refs-Reads idr ref_idc start.pps (without_s start.slice_type) picture.nums
                  hs.pps_valid)
                (λ refs hr.
                  Reads-bind (IsQuant start.pps) _
                    (parse_quant-Reads start.pps start.slice_type hs.pps_valid)
                    (λ quant hq.
                      Reads-bind IsDeblocking _ (parse_deblocking-Reads start.pps) (λ deblocking hd.
                        Reads-pure _ _ (record {
                          start_fits = hs;
                          picture_fits = hp;
                          order_fits = ho;
                          refs_fit = hr;
                          quant_fits = hq;
                          deblocking_fits = hd;
                        })))))))

-- A header whose fields are in range, and the reader after it, within its limit.
abbrev pub IsParsed : NalUnit → (ℕ → Option Pps) → SliceSyntax × BitReader → Type 0
IsParsed nal pps_list h = IsSlice (nal.type == nal_idr_slice) pps_list h.0 × IsValid h.1

-- With parameter sets in the list that are valid, parsing the header of a NAL unit never panics: it
-- is an error, or the reader stands within the payload and the header is as follows. The set is the
-- one that the list holds under the header's identifier, below 256. The first macroblock and the
-- redundant picture count are Exp-Golomb numbers; the slice type is one of the five, and intra for
-- IDR; the frame number has the bits of the sequence, the picture number is below its modulus, and
-- fields come only where the sequence has them; the IDR identifier and the low part of the order
-- count have 16 bits, and the differences of order counts are int32. The reference counts fit the
-- picture, the list changes are of known kinds and no more than these counts, the 48 weights and
-- offsets of each list are within 128 of zero and the denominators at most 7, and the marking
-- operations are no more than the array has places, with long-term arguments that fit. The QP is at
-- most that of the depth, and the two chroma QPs are the tables' entries at it; the index of the
-- CABAC tables and the deblocking mode are at most 2, the switch flag is a bit, the QS difference an
-- int32, and the deblocking offsets are within 12 of zero.
pub parse_slice_header-IsSlice :
    (nal : NalUnit) (pps_list : ℕ → Option Pps)
    → AllPps pps_list
    → Yields (IsParsed nal pps_list) (parse_slice_header nal pps_list)
unfolding parse_slice_header
parse_slice_header-IsSlice nal pps_list h =
    Yields-if _ (not (nal.type == nal_slice) && not (nal.type == nal_idr_slice)) _ _ (λ e. tt)
      (λ e. by (new_rbsp_bit_reader nal.rbsp) (new_rbsp_bit_reader-Yields nal.rbsp))
  where
    ends :
        (p : Result SliceSyntax × BitReader)
        → Good (IsSlice (nal.type == nal_idr_slice) pps_list) p
        → Yields (IsParsed nal pps_list) (with_reader p)
    ends (ok s, r) g = g
    ends (err e, r) g = tt
    ends (panic, r) g = g

    by :
        (x : Result BitReader)
        → Yields IsValid x
        → Yields (IsParsed nal pps_list) (elim x [
          | err e ↦ err e
          | panic ↦ panic
          | ok gb ↦ with_reader (parse_fields (nal.type == nal_idr_slice) nal.ref_idc pps_list gb)
        ])
    by (ok gb) v =
        ends _ ((parse_fields-Reads (nal.type == nal_idr_slice) nal.ref_idc pps_list h).run gb v)
    by (err e) v = tt
    by panic v = v
