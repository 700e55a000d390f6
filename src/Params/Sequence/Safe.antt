-- ===== src/Params/Sequence/Safe.antt =====
-- internal/h264/sps.go: what a sequence parameter set that is decoded satisfies.
use goh.Base.{All, List, ℕ, ◌<◌, ◌≤◌, ◌⊎◌}
use goh.BitReader.Valid.{IsValid}
use goh.Params.Sequence.Stages.{
  IsCycle, IsFormat, decode_format-Reads, decode_log2_max_frame_num-Reads, decode_poc-Reads,
  decode_profile-Reads, IsProfile,
}
use goh.Params.Size.Safe.{IsSize, decode_size-Reads}
use goh.Params.Valid.{IsSps}
use goh.BitReader.Safe.{Reads, Reads-bind, Reads-pure, Good, Yields}
use goh.Params.{Sps}
use goh.BitReader.{BitReader, new_rbsp_bit_reader}
use goh.Result.{Result, err, ok, panic}
use goh.BitReader.Opens.{new_rbsp_bit_reader-Yields}
use goh.Params.Sequence.{decode_sps_fields, decode_sps_from, sps_of}
use goh.Golomb.Safe.{IsSe}

-- A valid set, and the fields of which that says nothing: the profile and the level are bytes, the
-- chroma format is one of the four, the order type one of the three, the two numbers of bits have
-- their least values, and the offsets of the order are Exp-Golomb numbers.
pub record IsDecodedSps (sps : Sps) : Type 0 where
  pub valid : IsSps sps
  pub profile_below : sps.profile_idc < 256
  pub level_below : sps.level_idc < 256
  pub chroma_most : sps.chroma_format_idc ≤ 3
  pub frame_num_least : 4 ≤ sps.log2_max_frame_num
  pub poc_type_most : sps.poc_type ≤ 2
  pub poc_lsb_least : (1 ≤ sps.poc_type) ⊎ (4 ≤ sps.log2_max_poc_lsb)
  pub non_ref_fits : IsSe sps.offset_for_non_ref_pic
  pub top_to_bottom_fits : IsSe sps.offset_for_top_to_bottom_field
  pub offsets_fit : All IsSe sps.offset_for_ref_frame

decode_sps_fields-Reads : Reads IsDecodedSps decode_sps_fields
unfolding decode_sps_fields
decode_sps_fields-Reads = Reads-bind IsProfile _ decode_profile-Reads (λ profile hp.
    Reads-bind IsFormat _ (decode_format-Reads profile.profile_idc) (λ format hf.
      Reads-bind (λ n. (4 ≤ n) × (n ≤ 16)) _ decode_log2_max_frame_num-Reads
        (λ log2 hl. Reads-bind IsCycle _ decode_poc-Reads (λ order ho.
          Reads-bind IsSize _ (decode_size-Reads format.chroma_format_idc) (λ size hs.
            Reads-pure _ (sps_of profile format log2 order size) (record {
              valid = record {
                id_below = hp.id_below;
                ref_frames = hs.ref_frames;
                cycle_fits = ho.cycle_most;
                crop_width = hs.cropped.0;
                crop_height = hs.cropped.1;
                size_most = (hs.width_most, hs.height_most);
                frame_num_bits = hl.1;
                poc_lsb_bits = ho.lsb_most;
                depth_least = hf.depth_least;
                depth_most = hf.depth_most;
                scaling_4 = hf.lists.0;
                scaling_8 = hf.lists.1;
              };
              profile_below = hp.profile_below;
              level_below = hp.level_below;
              chroma_most = hf.chroma_most;
              frame_num_least = hl.0;
              poc_type_most = ho.type_most;
              poc_lsb_least = ho.lsb_least;
              non_ref_fits = ho.non_ref_fits;
              top_to_bottom_fits = ho.top_to_bottom_fits;
              offsets_fit = ho.offsets_fit;
            }))))))

-- Decoding a sequence parameter set, to the usability information, never panics on any payload, and
-- a set that is decoded has: an identifier below 32; a profile and a level below 256; a chroma format
-- of at most 3; a bit depth of 8 to 14; 4 to 16 bits of a frame number; an order type of at most 2,
-- and for type 0, 4 to 16 bits of the low part; at most 255 offsets, each an int32; at most 16
-- reference frames; a picture that is not empty once it is cropped; and valid scaling lists.
pub decode_sps_from-IsDecodedSps : (rbsp : List ℕ) → Yields IsDecodedSps (decode_sps_from rbsp)
unfolding decode_sps_from
decode_sps_from-IsDecodedSps rbsp = by (new_rbsp_bit_reader rbsp) (new_rbsp_bit_reader-Yields rbsp)
  where
    ends : (p : Result Sps × BitReader) → Good IsDecodedSps p → Yields IsDecodedSps p.0
    ends (ok sps, r) g = g.0
    ends (err e, r) g = tt
    ends (panic, r) g = g

    by :
        (x : Result BitReader)
        → Yields IsValid x
        → Yields IsDecodedSps
            (elim x [ err e ↦ err e | panic ↦ panic | ok gb ↦ (decode_sps_fields gb).0 ])
    by (ok gb) v = ends _ (decode_sps_fields-Reads.run gb v)
    by (err e) v = tt
    by panic v = v
