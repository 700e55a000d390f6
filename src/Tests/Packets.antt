-- ===== src/Tests/Packets.antt =====
-- Packets of two units and configuration records, as the writers append them.
use goh.Base.{All, List, [], arith, refl, replicate, some, true, ℕ, ◌∷◌, ◌≡◌}
use goh.Base.Int.{pos}
use goh.Avcc.RoundTrip.{FitsSize}
use goh.AvcConfig.Written.{IsSets, is_record-append_record}
use goh.Nal.Parse.{Payload, nal_of}
use goh.AnnexB.{Split, split_annexb_into}
use goh.AutoPacket.{annexb, avc, split_auto_packet, with_format}
use goh.Avcc.Written.{append_packet, split_avcc_into-append_packet}
use goh.AvcConfig.{append_record, is_record, valid_raw}
use goh.Nal.Escape.{escape}
use goh.Result.{ok}
use goh.Tests.{slice_like, sps_like}
use goh.AutoPacket.Choice.{split_auto_packet-append_packet, split_auto_packet_mistakes}
use goh.Avcc.{split_avcc_into}
use goh.Avcc.Rounds.{split_avcc_into_ends}

two-FitsSize_2 : All (FitsSize 2) (sps_like ∷ slice_like ∷ [])
unfolding escape
two-FitsSize_2 = (
  record { idc = omega arith; kind = omega arith; short = omega arith },
  (record { idc = omega arith; kind = omega arith; short = omega arith }, tt),
)

split_avcc_into-append_packet_example :
    ((append_packet 2 [] (sps_like ∷ slice_like ∷ [])).0 ≡ ok tt)
    × (split_avcc_into (append_packet 2 [] (sps_like ∷ slice_like ∷ [])).1 2
        ≡ some (ok tt, nal_of sps_like ∷ nal_of slice_like ∷ [], 0 ∷ 0 ∷ 1 ∷ 128 ∷ 0x88 ∷ 0 ∷ []))
unfolding escape
split_avcc_into-append_packet_example =
    split_avcc_into-append_packet 2 sps_like (slice_like ∷ []) (omega arith) (omega arith)
      two-FitsSize_2 (omega arith)

split_avcc_into_ends_example : (s : Split) × (split_avcc_into (0 ∷ 9 ∷ 0x65 ∷ []) 2 ≡ some s)
split_avcc_into_ends_example = split_avcc_into_ends (0 ∷ 9 ∷ 0x65 ∷ []) 2

split_auto_packet-append_packet_example :
    split_auto_packet (append_packet 2 [] (sps_like ∷ slice_like ∷ [])).1 (pos 2)
    ≡ some (ok tt, nal_of sps_like ∷ nal_of slice_like ∷ [], avc)
unfolding escape
split_auto_packet-append_packet_example =
    split_auto_packet-append_packet 2 sps_like (slice_like ∷ []) (omega arith) (omega arith)
      two-FitsSize_2 (omega arith) (λ e. omega arith)

-- A unit of 301 bytes.
abbrev long_slice : Payload
long_slice = record { ref_idc = 2; type = 5; rbsp = replicate 300 0x55 }

split_auto_packet_mistakes_example :
    split_auto_packet (append_packet 4 [] (long_slice ∷ [])).1 (pos 0)
    ≡ with_format annexb (split_annexb_into (append_packet 4 [] (long_slice ∷ [])).1)
unfolding escape
split_auto_packet_mistakes_example =
    split_auto_packet_mistakes long_slice []
      (record { idc = omega arith; kind = omega arith; short = omega arith }, tt) (omega arith)
      (omega arith) (omega arith)

abbrev raw_sps : List ℕ
raw_sps = 0x67 ∷ 66 ∷ 0 ∷ 30 ∷ []

abbrev raw_pps : List ℕ
raw_pps = 0x68 ∷ 0xce ∷ []

raw-IsSets : IsSets (raw_sps ∷ []) (raw_pps ∷ [])
unfolding valid_raw
raw-IsSets = record {
  sps_count = (omega arith, omega arith);
  pps_count = (omega arith, omega arith);
  sps_ok = (record { valid = refl; byte = omega arith }, tt);
  pps_ok = (record { valid = refl; byte = omega arith }, tt);
  small = omega arith;
}

is_record-append_record_example :
    ((append_record [] 66 0 30 4 (raw_sps ∷ []) (raw_pps ∷ [])).0 ≡ ok tt)
    × (is_record (append_record [] 66 0 30 4 (raw_sps ∷ []) (raw_pps ∷ [])).1 ≡ true)
is_record-append_record_example =
    is_record-append_record 66 0 30 4 (raw_sps ∷ []) (raw_pps ∷ []) (omega arith) (omega arith)
      raw-IsSets
