-- ===== src/Avcc/RoundTrip.antt =====
-- internal/h264/nal.go: `SplitAVCCInto` on NAL units with their lengths in front.
use goh.Base.{
  All, List, Option, [], ap, arith, length, length-append, le→ltb, lt→leb, lt→ltb, map, some, suc,
  suc-ne-zero, sym, zero, ℕ, ◌*◌, ◌++◌, ◌+◌, ◌-◌, ◌/◌, ◌<◌, ◌^◌, ◌∙◌, ◌∷◌, ◌≡◌, ◌≤◌,
}
use goh.Base.Words.{max_u32}
use goh.Nal.{NalUnit, nal_input_too_large}
use goh.Nal.Parse.{Payload, bytes_of, nal_of, payloads}
use goh.AnnexB.{Split, parse_slice, finish}
use mathlib.Core.List.{append_assoc, append-nil}
use goh.Avcc.{avcc_body, avcc_loop, split_avcc_into}
use goh.Nal.Length.{be_bytes, length-be_bytes, lt-Fits}
use goh.Result.{ok}
use mathlib.Core.Path.{ap₂}
use goh.Avcc.Size.{read_size-be_bytes}
use goh.Nal.Escape.{escape}
use goh.AnnexB.Slices.{parse_slice-unit}

-- The fields fit the header byte, and the length its `size` bytes.
pub record FitsSize (size : ℕ) (p : Payload) : Type 0 where
  pub idc : p.ref_idc ≤ 3
  pub kind : p.type ≤ 31
  pub short : length (bytes_of p) < 2 ^ (size * 8)

-- A unit behind its length, and a packet of such.
abbrev pub framed : ℕ → Payload → List ℕ
framed size p = be_bytes size (length (bytes_of p)) ++ bytes_of p

abbrev pub packet : ℕ → List Payload → List ℕ
packet size [] = []
packet size (p ∷ ps) = framed size p ++ packet size ps

-- One round of the loop, at a unit behind its length.
module _ (size : ℕ) (front back : List ℕ) (p : Payload) (small : 1 ≤ size) (wide : size ≤ 4)
    (h : FitsSize size p) where
  whole_bytes : List ℕ
  whole_bytes = front ++ (be_bytes size (length (bytes_of p)) ++ (bytes_of p ++ back))

  length-whole : length whole_bytes ≡ length front + size + length (bytes_of p) + length back
  unfolding whole_bytes
  length-whole = omega (
    arith,
    length-append front (be_bytes size (length (bytes_of p)) ++ (bytes_of p ++ back)),
    length-append (be_bytes size (length (bytes_of p))) (bytes_of p ++ back),
    length-append (bytes_of p) back,
    length-be_bytes size (length (bytes_of p)),
  )

  regroup_front :
      whole_bytes ≡ (front ++ be_bytes size (length (bytes_of p))) ++ (bytes_of p ++ back)
  unfolding whole_bytes
  regroup_front =
      sym (append_assoc front (be_bytes size (length (bytes_of p))) (bytes_of p ++ back))

  length-front : length (front ++ be_bytes size (length (bytes_of p))) ≡ length front + size
  length-front = omega (
    arith,
    length-append front (be_bytes size (length (bytes_of p))),
    length-be_bytes size (length (bytes_of p)),
  )

  avcc_body-unit :
      (out : List NalUnit) (scratch : List ℕ) (rest : ℕ → List NalUnit → List ℕ → Option Split)
      → avcc_body whole_bytes size (length front) out scratch rest
        ≡ rest
            (length front + size + length (bytes_of p))
            (out ++ (nal_of p ∷ []))
            (scratch ++ p.rbsp)
  unfolding whole_bytes
  avcc_body-unit out scratch rest =
      let end = length front + size in
      rw
        (
          lt→leb (length whole_bytes) end (omega (arith, length-whole)),
          read_size-be_bytes size front (length (bytes_of p)) (bytes_of p ++ back)
              (lt-Fits size (length (bytes_of p)) small wide h.short),
          suc-ne-zero (length (escape 0 p.rbsp)),
          le→ltb (length whole_bytes - end) (length (bytes_of p)) (omega (arith, length-whole)),
        )
        (ap₂
            (λ l n.
              parse_slice l n (n + length (bytes_of p)) out scratch
                (rest (end + length (bytes_of p))))
            regroup_front (sym length-front)
          ∙ parse_slice-unit (front ++ be_bytes size (length (bytes_of p))) back p out scratch
              (rest (end + length (bytes_of p))) h.idc h.kind)

avcc_loop_more :
    (rounds : ℕ) (bytes : List ℕ) (size at : ℕ) (out : List NalUnit) (scratch : List ℕ)
    → at < length bytes
    → avcc_loop (suc rounds) bytes size at out scratch
      ≡ avcc_body bytes size at out scratch (avcc_loop rounds bytes size)
unfolding avcc_loop
avcc_loop_more rounds bytes size at out scratch h = rw (lt→ltb at (length bytes) h)

avcc_loop_done :
    (rounds : ℕ) (bytes : List ℕ) (size at : ℕ) (out : List NalUnit) (scratch : List ℕ)
    → length bytes ≤ at
    → avcc_loop (suc rounds) bytes size at out scratch ≡ some (finish out scratch)
unfolding avcc_loop
avcc_loop_done rounds bytes size at out scratch h = rw (le→ltb at (length bytes) h)

pub unit_back :
    (size : ℕ) (p : Payload) (back : List ℕ)
    → framed size p ++ back ≡ be_bytes size (length (bytes_of p)) ++ (bytes_of p ++ back)
unit_back size p back = append_assoc (be_bytes size (length (bytes_of p))) (bytes_of p) back

pub length-framed : (size : ℕ) (p : Payload) → length (framed size p) ≡ size + length (bytes_of p)
length-framed size p = omega (
  arith,
  length-append (be_bytes size (length (bytes_of p))) (bytes_of p),
  length-be_bytes size (length (bytes_of p)),
)

module _ (size : ℕ) (small : 1 ≤ size) (wide : size ≤ 4) where
  -- One unit more, with the rest of the packet behind it.
  avcc_loop-unit :
      (rounds : ℕ) (front back : List ℕ) (p : Payload) (out : List NalUnit) (scratch : List ℕ)
      → FitsSize size p
      → avcc_loop (suc rounds) (front ++ (framed size p ++ back)) size (length front) out scratch
        ≡ avcc_loop rounds
            ((front ++ framed size p) ++ back)
            size
            (length (front ++ framed size p))
            (out ++ (nal_of p ∷ []))
            (scratch ++ p.rbsp)
  unfolding whole_bytes
  avcc_loop-unit rounds front back p out scratch h =
      let whole = front ++ (be_bytes size (length (bytes_of p)) ++ (bytes_of p ++ back)) in
      let e : front ++ (framed size p ++ back) ≡ whole =
        ap (λ l. front ++ l) (unit_back size p back) in
      let end : length front + size + length (bytes_of p) ≡ length (front ++ framed size p) =
        omega (arith, length-append front (framed size p), length-framed size p) in
      ap (λ l. avcc_loop (suc rounds) l size (length front) out scratch) e
      ∙ avcc_loop_more rounds whole size (length front) out scratch
          (omega (arith, length-whole size front back p small wide h))
      ∙ avcc_body-unit size front back p small wide h out scratch (avcc_loop rounds whole size)
      ∙ ap₂ (λ l n. avcc_loop rounds l size n (out ++ (nal_of p ∷ [])) (scratch ++ p.rbsp))
          (sym e ∙ sym (append_assoc front (framed size p) back)) end

  avcc_loop-packet :
      (ps : List Payload) (rounds : ℕ) (front : List ℕ) (out : List NalUnit) (scratch : List ℕ)
      → All (FitsSize size) ps
      → length ps < rounds
      → avcc_loop rounds (front ++ packet size ps) size (length front) out scratch
        ≡ some (finish (out ++ map nal_of ps) (scratch ++ payloads ps))
  avcc_loop-packet ps zero front out scratch hs r = absurd (omega arith)
  avcc_loop-packet [] (suc rounds) front out scratch hs r =
      avcc_loop_done rounds (front ++ []) size (length front) out scratch
        (omega (arith, length-append front []))
      ∙ ap₂ (λ us t. some (finish us t)) (sym (append-nil out)) (sym (append-nil scratch))
  avcc_loop-packet (p ∷ ps) (suc rounds) front out scratch (h, hs) r =
      avcc_loop-unit rounds front (packet size ps) p out scratch h
      ∙ avcc_loop-packet ps rounds (front ++ framed size p) (out ++ (nal_of p ∷ []))
          (scratch ++ p.rbsp) hs (omega arith)
      ∙ ap₂ (λ us t. some (finish us t)) (append_assoc out (nal_of p ∷ []) (map nal_of ps))
          (append_assoc scratch p.rbsp (payloads ps))

  length-packet : (ps : List Payload) → length ps ≤ length (packet size ps)
  length-packet [] = omega arith
  length-packet (p ∷ ps) = omega (
    arith,
    length-append (framed size p) (packet size ps),
    length-framed size p,
    length-packet ps,
  )

  pub split_avcc_into-packet :
      (p : Payload) (ps : List Payload)
      → All (FitsSize size) (p ∷ ps)
      → length (packet size (p ∷ ps)) < 2 ^ 32
      → split_avcc_into (packet size (p ∷ ps)) size
        ≡ some (ok tt, map nal_of (p ∷ ps), payloads (p ∷ ps))
  unfolding split_avcc_into nal_input_too_large
  split_avcc_into-packet p ps h fits =
      let whole = packet size (p ∷ ps) in
      rw
        (
          split_avcc_into,
          le→ltb size 1 small,
          le→ltb 4 size wide,
          le→ltb ((2 ^ 63 - 1) / 2) (length whole) (omega arith),
          le→ltb max_u32 (length whole) (omega arith),
        )
        (avcc_loop-packet (p ∷ ps) (suc (length whole)) [] [] [] h
          (omega (arith, length-packet (p ∷ ps))))
