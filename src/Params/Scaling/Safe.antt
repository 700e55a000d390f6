-- ===== src/Params/Scaling/Safe.antt =====
-- internal/h264/sps.go: the lists that `decodeScalingMatrices` leaves.
use goh.Base.{Bool, List, false, if◌then◌else◌, not, true, ℕ, ◌!=◌, ◌&&◌}
use goh.Params.Scaling.Factors.{
  HasFactors, inter_4-IsFactors, inter_8-IsFactors, intra_4-IsFactors, intra_8-IsFactors,
  list_4-Reads, list_8-Reads,
}
use goh.Params.Valid.{IsFactors, IsSix}
use goh.Params.Scaling.{Matrices, decode_scaling_4, decode_scaling_8, decode_scaling_matrices}
use goh.BitReader.Safe.{Reads, Reads-bind, Reads-if, Reads-pure}
use goh.Params.{Six}

decode_scaling_4-Reads :
    (intra inter : List ℕ) (s : Six)
    → IsFactors 16 intra
    → IsFactors 16 inter
    → IsSix 16 s
    → Reads (λ p. IsSix 16 p.1) (decode_scaling_4 intra inter s)
unfolding decode_scaling_4
decode_scaling_4-Reads intra inter s hi he v =
    Reads-bind (HasFactors 16) _ (list_4-Reads 0 0 s.list_0 _ _ v.fits_0 intra_4-IsFactors hi)
      (λ p_0 h_0.
        Reads-bind (HasFactors 16) _
          (list_4-Reads p_0.0 1 s.list_1 _ _ v.fits_1 intra_4-IsFactors h_0)
          (λ p_1 h_1.
            Reads-bind (HasFactors 16) _
              (list_4-Reads p_1.0 2 s.list_2 _ _ v.fits_2 intra_4-IsFactors h_1)
              (λ p_2 h_2.
                Reads-bind (HasFactors 16) _
                  (list_4-Reads p_2.0 3 s.list_3 _ _ v.fits_3 inter_4-IsFactors he)
                  (λ p_3 h_3.
                    Reads-bind (HasFactors 16) _
                      (list_4-Reads p_3.0 4 s.list_4 _ _ v.fits_4 inter_4-IsFactors h_3)
                      (λ p_4 h_4.
                        Reads-bind (HasFactors 16) _
                          (list_4-Reads p_4.0 5 s.list_5 _ _ v.fits_5 inter_4-IsFactors h_4)
                          (λ p_5 h_5. Reads-pure _ _ (record {
                            fits_0 = h_0;
                            fits_1 = h_1;
                            fits_2 = h_2;
                            fits_3 = h_3;
                            fits_4 = h_4;
                            fits_5 = h_5;
                          })))))))

decode_scaling_8-Reads :
    (chroma_format_idc mask : ℕ) (intra inter : List ℕ) (s : Six)
    → IsFactors 64 intra
    → IsFactors 64 inter
    → IsSix 64 s
    → Reads (λ p. IsSix 64 p.1) (decode_scaling_8 chroma_format_idc mask intra inter s)
unfolding decode_scaling_8
decode_scaling_8-Reads chroma_format_idc mask intra inter s hi he v =
    Reads-bind (HasFactors 64) _ (list_8-Reads mask 6 s.list_0 _ _ v.fits_0 intra_8-IsFactors hi)
      (λ p_6 h_6.
        Reads-bind (HasFactors 64) _
          (list_8-Reads p_6.0 7 s.list_3 _ _ v.fits_3 inter_8-IsFactors he)
          (λ p_7 h_7.
            Reads-if _ (chroma_format_idc != 3)
              (λ e. Reads-pure _ _ (record {
                fits_0 = h_6;
                fits_1 = v.fits_1;
                fits_2 = v.fits_2;
                fits_3 = h_7;
                fits_4 = v.fits_4;
                fits_5 = v.fits_5;
              }))
              (λ e.
                Reads-bind (HasFactors 64) _
                  (list_8-Reads p_7.0 8 s.list_1 _ _ v.fits_1 intra_8-IsFactors h_6)
                  (λ p_8 h_8.
                    Reads-bind (HasFactors 64) _
                      (list_8-Reads p_8.0 9 s.list_4 _ _ v.fits_4 inter_8-IsFactors h_7)
                      (λ p_9 h_9.
                        Reads-bind (HasFactors 64) _
                          (list_8-Reads p_9.0 10 s.list_2 _ _ v.fits_2 intra_8-IsFactors h_8)
                          (λ p_10 h_10.
                            Reads-bind (HasFactors 64) _
                              (list_8-Reads p_10.0 11 s.list_5 _ _ v.fits_5 inter_8-IsFactors h_9)
                              (λ p_11 h_11. Reads-pure _ _ (record {
                                fits_0 = h_6;
                                fits_1 = h_8;
                                fits_2 = h_10;
                                fits_3 = h_7;
                                fits_4 = h_9;
                                fits_5 = h_11;
                              }))))))))

-- The lists of both sizes keep their lengths, and no factor is zero.
abbrev pub IsMatrices : Matrices → Type 0
IsMatrices m = IsSix 16 m.scaling_4 × IsSix 64 m.scaling_8

chosen :
    (n : ℕ) (test : Bool) (xs ys : List ℕ)
    → IsFactors n xs
    → IsFactors n ys
    → IsFactors n (if test then xs else ys)
chosen n true xs ys h k = h
chosen n false xs ys h k = k

-- Whichever lists are sent, decoding them never panics; on success every list keeps its length and
-- holds factors from 1 to 255.
pub decode_scaling_matrices-Reads :
    (present : Bool) (chroma_format_idc : ℕ) (sps_4 sps_8 : Six)
    (is_sps include_8x8 present_flag : Bool) (scaling_4 scaling_8 : Six)
    → IsSix 16 sps_4
    → IsSix 64 sps_8
    → IsSix 16 scaling_4
    → IsSix 64 scaling_8
    → Reads IsMatrices (
        decode_scaling_matrices present chroma_format_idc sps_4 sps_8 is_sps include_8x8
          present_flag scaling_4 scaling_8)
unfolding decode_scaling_matrices
decode_scaling_matrices-Reads present chroma_format_idc sps_4 sps_8 is_sps include_8x8 present_flag
      scaling_4 scaling_8 s_4 s_8 v_4 v_8 =
    let fallback_sps = not is_sps && present in
    Reads-if _ (not present_flag) (λ e. Reads-pure _ _ (v_4, v_8))
      (λ e.
        Reads-bind (λ p. IsSix 16 p.1) _
          (decode_scaling_4-Reads _ _ scaling_4
            (chosen 16 fallback_sps _ _ s_4.fits_0 intra_4-IsFactors)
            (chosen 16 fallback_sps _ _ s_4.fits_3 inter_4-IsFactors) v_4)
          (λ four h_4.
            Reads-bind (λ p. IsSix 64 p.1) _
              (Reads-if _ (not is_sps && not include_8x8)
                (λ e. Reads-pure _ (four.0, scaling_8) v_8)
                (λ e.
                  decode_scaling_8-Reads chroma_format_idc four.0 _ _ scaling_8
                    (chosen 64 fallback_sps _ _ s_8.fits_0 intra_8-IsFactors)
                    (chosen 64 fallback_sps _ _ s_8.fits_3 inter_8-IsFactors) v_8))
              (λ eight h_8. Reads-pure _ _ (h_4, h_8))))
