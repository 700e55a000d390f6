-- ===== src/AnnexB/Slices.antt =====
-- The bytes of one unit in the middle of a stream, parsed.
use goh.Base.{
  List, Option, [], ap, arith, drop-length-append, length, length-append, take, take-length-append,
  ℕ, ◌++◌, ◌+◌, ◌∙◌, ◌∷◌, ◌≡◌, ◌≤◌,
}
use goh.Nal.{NalUnit}
use goh.Nal.Parse.{Payload, bytes_of, nal_of, parse_nal_into-unit_bytes}
use goh.AnnexB.{Split, parse_slice}
use goh.Result.{ok, slice, slice_lem}

slice_middle :
    (front middle back : List ℕ)
    → slice (front ++ (middle ++ back)) (length front) (length front + length middle) ≡ ok middle
slice_middle front middle back =
    slice_lem (front ++ (middle ++ back)) (length front) (length middle)
      (omega (arith, length-append front (middle ++ back), length-append middle back))
    ∙ ap (λ l. ok (take (length middle) l)) (drop-length-append front _)
    ∙ ap ok (take-length-append middle back)

pub parse_slice-unit :
    (front back : List ℕ) (p : Payload) (out : List NalUnit) (scratch : List ℕ)
    (rest : List NalUnit → List ℕ → Option Split)
    → p.ref_idc ≤ 3
    → p.type ≤ 31
    → parse_slice
        (front ++ (bytes_of p ++ back))
        (length front)
        (length front + length (bytes_of p))
        out
        scratch
        rest
      ≡ rest (out ++ (nal_of p ∷ [])) (scratch ++ p.rbsp)
parse_slice-unit front back p out scratch rest idc kind = ground (
  arith,
  slice_middle front (bytes_of p) back,
  parse_nal_into-unit_bytes p.ref_idc p.type p.rbsp scratch idc kind,
)
