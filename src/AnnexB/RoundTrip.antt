-- ===== src/AnnexB/RoundTrip.antt =====
-- A stream of NAL units with four-byte start codes is cut into the units that were written.
use goh.Base.{
  All, List, Option, [], ap, arith, drop-length-append, length, length-append, le→ltb, lt→ltb, map,
  none, refl, some, suc, sym, zero, ℕ, ◌++◌, ◌+◌, ◌-◌, ◌/◌, ◌<◌, ◌^◌, ◌∙◌, ◌∷◌, ◌≡◌, ◌≤◌,
}
use goh.Base.Words.{max_u32}
use goh.Result.{ok}
use goh.Nal.{
  NalUnit, nal_input_too_large, Appended, append_annexb_nal, cut_on_error, with_capacity, and_then,
}
use goh.Nal.Parse.{
  Payload, bytes_of, nal_of, IsProper, bytes_of-Clean, payloads, append_nal-unit_bytes,
}
use goh.AnnexB.{Split, finish, parse_between, annexb_loop, find_start_code, scan, split_annexb_into}
use mathlib.Core.List.{append-nil, append_assoc}
use goh.AnnexB.StartCode.{scan-Clean, scan-Clean_end, start_code}
use mathlib.Core.Path.{ap₂}
use goh.Nal.Escape.{length-escape, nal_append_capacity_fits}
use goh.AnnexB.Slices.{parse_slice-unit}

-- The units behind the first start code.
abbrev pub tail_of : List Payload → List ℕ
tail_of [] = []
tail_of (p ∷ ps) = start_code (bytes_of p ++ tail_of ps)

find-unit :
    (front : List ℕ) (p q : Payload) (qs : List Payload)
    → IsProper p
    → find_start_code (front ++ (bytes_of p ++ tail_of (q ∷ qs))) (length front)
      ≡ some (length front + length (bytes_of p), 4)
unfolding find_start_code
find-unit front p q qs h =
    ap (scan (length front)) (drop-length-append front _)
    ∙ scan-Clean (bytes_of p) 0 (length front) (bytes_of q ++ tail_of qs) (bytes_of-Clean h)

find-last :
    (front : List ℕ) (p : Payload)
    → IsProper p
    → find_start_code (front ++ (bytes_of p ++ [])) (length front) ≡ none
unfolding find_start_code
find-last front p h =
    ap (scan (length front)) (drop-length-append front _ ∙ append-nil (bytes_of p))
    ∙ scan-Clean_end (bytes_of p) 0 (length front) (bytes_of-Clean h)

parse-unit :
    (front back : List ℕ) (p : Payload) (out : List NalUnit) (scratch : List ℕ)
    (rest : List NalUnit → List ℕ → Option Split)
    → IsProper p
    → parse_between
        (front ++ (bytes_of p ++ back))
        (length front)
        (length front + length (bytes_of p))
        out
        scratch
        rest
      ≡ rest (out ++ (nal_of p ∷ [])) (scratch ++ p.rbsp)
parse-unit front back p out scratch rest h =
    rw (lt→ltb (length front) (length front + length (bytes_of p)) (omega arith))
      (parse_slice-unit front back p out scratch rest h.idc h.kind)

unit_end :
    (front : List ℕ) (p : Payload)
    → length (front ++ (bytes_of p ++ [])) ≡ length front + length (bytes_of p)
unit_end front p =
    length-append front (bytes_of p ++ [])
    ∙ ap (λ l. length front + length l) (append-nil (bytes_of p))

regroup :
    (front : List ℕ) (p : Payload) (back : List ℕ)
    → front ++ (bytes_of p ++ start_code back) ≡ (front ++ (bytes_of p ++ start_code [])) ++ back
regroup front p back = sym (
    append_assoc front (bytes_of p ++ start_code []) back
    ∙ ap (λ l. front ++ l) (append_assoc (bytes_of p) (start_code []) back))

code_end :
    (front : List ℕ) (p : Payload)
    → length front + length (bytes_of p) + 4 ≡ length (front ++ (bytes_of p ++ start_code []))
code_end front p = omega (
  arith,
  length-append front (bytes_of p ++ start_code []),
  length-append (bytes_of p) (start_code []),
)

step_last :
    (rounds s : ℕ) (bytes : List ℕ) (out : List NalUnit) (scratch : List ℕ)
    → find_start_code bytes s ≡ none
    → annexb_loop (suc rounds) bytes s out scratch
      ≡ parse_between bytes s (length bytes) out scratch (λ us t. some (finish us t))
unfolding annexb_loop
step_last rounds s bytes out scratch e = rw (e, annexb_loop)

step_next :
    (rounds s next prefix : ℕ) (bytes : List ℕ) (out : List NalUnit) (scratch : List ℕ)
    → find_start_code bytes s ≡ some (next, prefix)
    → annexb_loop (suc rounds) bytes s out scratch
      ≡ parse_between bytes s next out scratch
          (λ us t. annexb_loop rounds bytes (next + prefix) us t)
unfolding annexb_loop
step_next rounds s next prefix bytes out scratch e = rw (e, annexb_loop)

annexb_loop-units :
    (ps : List Payload) (p : Payload) (rounds : ℕ) (front : List ℕ) (out : List NalUnit)
    (scratch : List ℕ)
    → IsProper p
    → All IsProper ps
    → length ps < rounds
    → annexb_loop rounds (front ++ (bytes_of p ++ tail_of ps)) (length front) out scratch
      ≡ some (finish (out ++ (nal_of p ∷ map nal_of ps)) (scratch ++ payloads (p ∷ ps)))
annexb_loop-units ps p zero front out scratch h hs r = absurd (omega arith)
annexb_loop-units [] p (suc rounds) front out scratch h hs r =
    step_last rounds (length front) (front ++ (bytes_of p ++ [])) out scratch (find-last front p h)
    ∙ ap
        (λ n.
          parse_between (front ++ (bytes_of p ++ [])) (length front) n out scratch
            (λ us t. some (finish us t)))
        (unit_end front p)
    ∙ parse-unit front [] p out scratch (λ us t. some (finish us t)) h
    ∙ ap (λ t. some (finish (out ++ (nal_of p ∷ [])) (scratch ++ t))) (sym (append-nil p.rbsp))
annexb_loop-units (q ∷ qs) p (suc rounds) front out scratch h (hq, hqs) r =
    let front' = front ++ (bytes_of p ++ start_code []) in
    let whole = front ++ (bytes_of p ++ tail_of (q ∷ qs)) in
    let end = length front + length (bytes_of p) in
    step_next rounds (length front) end 4 whole out scratch (find-unit front p q qs h)
    ∙ parse-unit front (tail_of (q ∷ qs)) p out scratch
        (λ us t. annexb_loop rounds whole (end + 4) us t) h
    ∙ ap₂ (λ l n. annexb_loop rounds l n (out ++ (nal_of p ∷ [])) (scratch ++ p.rbsp))
        (regroup front p (bytes_of q ++ tail_of qs)) (code_end front p)
    ∙ annexb_loop-units qs q rounds front' (out ++ (nal_of p ∷ [])) (scratch ++ p.rbsp) hq hqs
        (omega arith)
    ∙ ap₂ (λ us t. some (finish us t)) (append_assoc out (nal_of p ∷ []) (map nal_of (q ∷ qs)))
        (append_assoc scratch p.rbsp (payloads (q ∷ qs)))

-- The whole stream of units.
abbrev pub stream : List Payload → List ℕ
stream ps = tail_of ps

length-tail_of : (ps : List Payload) → length ps ≤ length (tail_of ps)
length-tail_of [] = omega arith
length-tail_of (p ∷ ps) = omega (arith, length-append (bytes_of p) (tail_of ps), length-tail_of ps)

find-first : (rest : List ℕ) → find_start_code (start_code rest) 0 ≡ some (0, 4)
unfolding find_start_code scan
find-first rest = refl

pub split_annexb_into-stream :
    (p : Payload) (ps : List Payload)
    → All IsProper (p ∷ ps)
    → length (stream (p ∷ ps)) < 2 ^ 32
    → split_annexb_into (stream (p ∷ ps)) ≡ some (ok tt, map nal_of (p ∷ ps), payloads (p ∷ ps))
unfolding split_annexb_into nal_input_too_large
split_annexb_into-stream p ps (h, hs) small =
    rw
      (
        split_annexb_into,
        le→ltb ((2 ^ 63 - 1) / 2) (length (stream (p ∷ ps))) (omega arith),
        le→ltb max_u32 (length (stream (p ∷ ps))) (omega arith),
        find-first (bytes_of p ++ tail_of ps),
      )
      (annexb_loop-units ps p (suc (length (stream (p ∷ ps)))) (start_code []) [] [] h hs
        (omega (arith, length-append (bytes_of p) (tail_of ps), length-tail_of ps)))

-- Units appended one after the other, up to the first error.
unfoldable pub append_all : List ℕ → List Payload → Appended
append_all dst [] = (ok tt, dst)
append_all dst (p ∷ ps) =
    and_then (append_annexb_nal dst p.ref_idc p.type p.rbsp) (λ d. append_all d ps)

with_capacity_fits :
    (dst : List ℕ) (prefix : ℕ) (rbsp : List ℕ) (rest : Appended)
    → length dst + prefix + length rbsp + length rbsp / 2 < 2 ^ 63
    → with_capacity dst prefix rbsp rest ≡ rest
with_capacity_fits dst prefix rbsp rest h =
    ground (arith, nal_append_capacity_fits (length dst) prefix (length rbsp))

append_annexb_nal-start_code :
    (dst : List ℕ) (p : Payload)
    → IsProper p
    → length dst + length p.rbsp + length p.rbsp / 2 + 32 < 2 ^ 63
    → append_annexb_nal dst p.ref_idc p.type p.rbsp ≡ (ok tt, dst ++ start_code (bytes_of p))
unfolding append_annexb_nal
append_annexb_nal-start_code dst p h fits =
    with_capacity_fits dst 5 p.rbsp _ (omega arith)
    ∙ ap (cut_on_error (length dst)) (
        append_nal-unit_bytes (dst ++ start_code []) p.ref_idc p.type p.rbsp h.idc h.kind
          (omega (arith, length-append dst (start_code []))))
    ∙ ap (λ l. (ok tt, l)) (append_assoc dst (start_code []) (bytes_of p))

pub append_all-tail_of :
    (ps : List Payload) (dst : List ℕ)
    → All IsProper ps
    → length dst + length (tail_of ps) < 2 ^ 32
    → append_all dst ps ≡ (ok tt, dst ++ tail_of ps)
unfolding append_all
append_all-tail_of [] dst h small = ap (λ l. (ok tt, l)) (sym (append-nil dst))
append_all-tail_of (p ∷ ps) dst (h, hs) small =
    let sizes = length-append (bytes_of p) (tail_of ps) in
    let grows = length-append dst (start_code (bytes_of p)) in
    rw (append_annexb_nal-start_code dst p h (omega (arith, sizes, length-escape p.rbsp 0))) (
      append_all-tail_of ps (dst ++ start_code (bytes_of p)) hs (omega (arith, sizes, grows))
      ∙ ap (λ l. (ok tt, l)) (append_assoc dst (start_code (bytes_of p)) (tail_of ps)))

-- What `AppendAnnexBNAL` writes for one or more units, one behind the other, `SplitAnnexBInto`
-- cuts into exactly these units, in order and with their payloads. The fields of each unit fit
-- its header byte, which is not 0, and the whole stream is below 2 ^ 32 bytes.
pub split_annexb_into-append_all :
    (p : Payload) (ps : List Payload)
    → All IsProper (p ∷ ps)
    → length (stream (p ∷ ps)) < 2 ^ 32
    → ((append_all [] (p ∷ ps)).0 ≡ ok tt)
      × (split_annexb_into (append_all [] (p ∷ ps)).1
          ≡ some (ok tt, map nal_of (p ∷ ps), payloads (p ∷ ps)))
split_annexb_into-append_all p ps h small =
    rw (append_all-tail_of (p ∷ ps) [] h (omega arith))
      (refl, split_annexb_into-stream p ps h small)
