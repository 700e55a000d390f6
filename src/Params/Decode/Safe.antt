-- ===== src/Params/Decode/Safe.antt =====
-- internal/h264/pps.go: what a picture parameter set that is decoded satisfies.
use goh.Base.{List, Option, arith, ℕ, ◌<◌}
use goh.BitReader.Valid.{IsValid}
use goh.BitReader.{◌>>=◌, BitReader, new_rbsp_bit_reader, resume}
use goh.Params.Decode.Stages.{AllSps, IsDecoded, IsIds, decode_body-Reads, decode_ids-Reads}
use goh.BitReader.Safe.{Good, Reads, Reads-bind, Reads-weaken, Yields}
use goh.Params.Valid.{IsPps}
use goh.Params.{Pps, Sps, max_pps_count, max_sps_count}
use goh.Result.{Result, err, ok, panic}
use goh.Params.Decode.{decode_body, decode_ids, decode_pps, with_buffers}
use goh.BitReader.Opens.{new_rbsp_bit_reader-Yields}
use goh.Params.Dequant.{Buffer, init_dequant_tables}
use goh.Params.Dequant.Buffers.{IsBuffers, init_dequant_tables-IsBuffer}

-- A valid set whose identifiers are below the bounds of the lists.
abbrev pub IsNewPps : Pps → Type 0
IsNewPps pps = IsPps pps × ((pps.pps_id < max_pps_count) × (pps.sps_id < max_sps_count))

abbrev pub IsResult : Pps × (Buffer × Buffer) → Type 0
IsResult p = IsNewPps p.0 × IsBuffers p.1

-- Where the sequence parameter sets of the list are valid, `DecodePPS` never panics: it is an error,
-- or a valid picture parameter set, whose identifiers are below 256 and 32, and
-- its dequantisation buffers, of the right shape.
pub decode_pps-IsPps :
    (rbsp : List ℕ) (sps_list : ℕ → Option Sps)
    → AllSps sps_list
    → Yields IsResult (decode_pps rbsp sps_list)
unfolding decode_pps with_buffers
decode_pps-IsPps rbsp sps_list h = by (new_rbsp_bit_reader rbsp) (new_rbsp_bit_reader-Yields rbsp)
  where
    ends : (p : Result Pps × BitReader) → Good IsNewPps p → Yields IsNewPps p.0
    ends (ok pps, r) g = g.0
    ends (err e, r) g = tt
    ends (panic, r) g = g

    whole : Reads IsNewPps (decode_ids sps_list >>= decode_body)
    whole = Reads-bind IsIds _ (decode_ids-Reads sps_list h) (λ ids v.
        Reads-weaken (IsDecoded ids) _ (decode_body-Reads ids v) (λ pps d. (
          d.valid,
          (omega (arith, d.same_ids, v.pps_id_below), omega (arith, d.same_ids, v.sps_id_below)),
        )))

    filled : (x : Result Pps) → Yields IsNewPps x → Yields IsResult (with_buffers x)
    filled (ok pps) v = with_tables (init_dequant_tables pps) (init_dequant_tables-IsBuffer pps v.0)
      where
        with_tables :
            (b : Result (Buffer × Buffer))
            → Yields IsBuffers b
            → Yields IsResult (elim b [ ok b ↦ ok (pps, b) | err e ↦ err e | panic ↦ panic ])
        with_tables (ok b) k = (v, k)
        with_tables (err e) k = tt
        with_tables panic k = k
    filled (err e) v = tt
    filled panic v = v

    by :
        (x : Result BitReader)
        → Yields IsValid x
        → Yields IsResult (elim x [
          | err e ↦ err e
          | panic ↦ panic
          | ok gb ↦ with_buffers (resume (decode_ids sps_list gb) decode_body).0
        ])
    by (ok gb) v = filled _ (ends _ (whole.run gb v))
    by (err e) v = tt
    by panic v = v
