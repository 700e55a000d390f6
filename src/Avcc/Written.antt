-- ===== src/Avcc/Written.antt =====
-- What `AppendAVCNAL` writes, and the packets made of it.
use goh.Base.{
  All, List, [], ap, arith, length, length-append, length-replicate, le→ltb, lt→leb, map, refl,
  replicate, some, sym, ℕ, ◌*◌, ◌++◌, ◌+◌, ◌-◌, ◌/◌, ◌<◌, ◌^◌, ◌∙◌, ◌∷◌, ◌≡◌, ◌≤◌,
}
use goh.Base.Words.{◌<<<◌}
use goh.Nal.{Appended, append_avc_nal, put_length, and_then}
use goh.Avcc.RoundTrip.{FitsSize, framed, length-framed, packet, split_avcc_into-packet}
use goh.Nal.Parse.{Payload, append_nal-unit_bytes, bytes_of, nal_of, payloads}
use mathlib.Core.List.{append-nil, append_assoc}
use goh.IntCheck.Laws.{checked_add_int-pos}
use goh.Nal.Escape.{length-escape}
use goh.Result.{ok}
use goh.Avcc.{split_avcc_into}
use goh.Nal.Length.{write_length-be_bytes}

put_length-framed :
    (size : ℕ) (dst : List ℕ) (p : Payload)
    → FitsSize size p
    → put_length size (length dst) (ok tt, (dst ++ replicate size 0) ++ bytes_of p)
      ≡ (ok tt, dst ++ framed size p)
put_length-framed size dst p h =
    let before = dst ++ replicate size 0 in
    let start : length before ≡ length dst + size =
      omega (arith, length-append dst (replicate size 0), length-replicate size (◌+◌ 0 0)) in
    let unit_len : length (before ++ bytes_of p) - (length dst + size) ≡ length (bytes_of p) =
      omega (arith, length-append before (bytes_of p)) in
    rw
      (
        unit_len,
        lt→leb (1 <<< (size * 8)) (length (bytes_of p)) (omega (arith, h.short)),
        append_assoc dst (replicate size 0) (bytes_of p),
      )
      (ap (λ l. (ok tt, l)) (write_length-be_bytes size dst (length (bytes_of p)) (bytes_of p)))

append_avc_nal-framed :
    (size : ℕ) (dst : List ℕ) (p : Payload)
    → 1 ≤ size
    → size ≤ 4
    → FitsSize size p
    → length dst + length p.rbsp + length p.rbsp / 2 + 32 < 2 ^ 63
    → append_avc_nal dst size p.ref_idc p.type p.rbsp ≡ (ok tt, dst ++ framed size p)
unfolding append_avc_nal
append_avc_nal-framed size dst p small wide h fits =
    let before = dst ++ replicate size 0 in
    let room : length before ≡ length dst + size =
      omega (arith, length-append dst (replicate size 0), length-replicate size (◌+◌ 0 0)) in
    rw
      (
        le→ltb size 1 small,
        le→ltb 4 size wide,
        checked_add_int-pos (length dst) size (omega arith),
        append_nal-unit_bytes before p.ref_idc p.type p.rbsp h.idc h.kind (omega arith),
      )
      (put_length-framed size dst p h)

-- Units appended one after the other, up to the first error.
unfoldable pub append_packet : ℕ → List ℕ → List Payload → Appended
append_packet size dst [] = (ok tt, dst)
append_packet size dst (p ∷ ps) =
    and_then (append_avc_nal dst size p.ref_idc p.type p.rbsp) (λ d. append_packet size d ps)

pub append_packet-packet :
    (size : ℕ) (ps : List Payload) (dst : List ℕ)
    → 1 ≤ size
    → size ≤ 4
    → All (FitsSize size) ps
    → length dst + length (packet size ps) < 2 ^ 32
    → append_packet size dst ps ≡ (ok tt, dst ++ packet size ps)
unfolding append_packet
append_packet-packet size [] dst small wide h fits = ap (λ l. (ok tt, l)) (sym (append-nil dst))
append_packet-packet size (p ∷ ps) dst small wide (h, hs) fits =
    let sizes = length-append (framed size p) (packet size ps) in
    let frame = length-framed size p in
    rw
      (append_avc_nal-framed size dst p small wide h
        (omega (arith, sizes, frame, length-escape p.rbsp 0)))
      (append_packet-packet size ps (dst ++ framed size p) small wide hs
          (omega (arith, sizes, length-append dst (framed size p)))
        ∙ ap (λ l. (ok tt, l)) (append_assoc dst (framed size p) (packet size ps)))

-- What `AppendAVCNAL` writes for one or more units with lengths of 1 to 4 bytes, one behind the
-- other, `SplitAVCCInto` cuts into exactly these units, in order and with their payloads. The
-- fields of each unit fit its header byte, its size the bytes of the length, and the whole packet
-- is below 2 ^ 32 bytes.
pub split_avcc_into-append_packet :
    (size : ℕ) (p : Payload) (ps : List Payload)
    → 1 ≤ size
    → size ≤ 4
    → All (FitsSize size) (p ∷ ps)
    → length (packet size (p ∷ ps)) < 2 ^ 32
    → ((append_packet size [] (p ∷ ps)).0 ≡ ok tt)
      × (split_avcc_into (append_packet size [] (p ∷ ps)).1 size
          ≡ some (ok tt, map nal_of (p ∷ ps), payloads (p ∷ ps)))
split_avcc_into-append_packet size p ps small wide h fits =
    rw (append_packet-packet size (p ∷ ps) [] small wide h (omega arith))
      (refl, split_avcc_into-packet size small wide p ps h fits)
