-- ===== src/AutoPacket/Choice.antt =====
-- Which format `SplitAutoPacket` takes for what the writers append.
use goh.Base.{
  All, List, [], ap, arith, bit_or, length, length-append, map, refl, some, suc, zero, ℕ, ◌%◌, ◌*◌,
  ◌++◌, ◌+◌, ◌/◌, ◌<◌, ◌^◌, ◌∙◌, ◌∷◌, ◌≡◌, ◌≤◌,
}
use goh.Base.Int.{pos}
use goh.Base.Words.{◌<<<◌}
use goh.Base.Bits.{bit_or_sum}
use goh.Nal.Parse.{Payload, bytes_of, nal_of}
use goh.AutoPacket.{annexb, split_auto_packet, split_configured, be32, avc, with_format}
use goh.AnnexB.{find_start_code, looks_annexb, scan, split_annexb_into}
use goh.Result.{ok}
use goh.Nal.Length.{be_bytes, too_small}
use goh.Avcc.RoundTrip.{FitsSize, framed, length-framed, packet, split_avcc_into-packet, unit_back}
use goh.Avcc.Written.{append_packet, append_packet-packet}

four :
    (a b c d : ℕ)
    → a < 256
    → b < 256
    → c < 256
    → d < 256
    → bit_or (bit_or (bit_or (a <<< 24) (b <<< 16)) (c <<< 8)) d
      ≡ ((a * 256 + b) * 256 + c) * 256 + d
four a b c d ha hb hc hd =
    let e1 : bit_or (a <<< 24) (b <<< 16) ≡ (a * 256 + b) <<< 16 =
      bit_or_sum 24 a (b <<< 16) (omega arith) ∙ omega arith in
    let e2 : bit_or ((a * 256 + b) <<< 16) (c <<< 8) ≡ ((a * 256 + b) * 256 + c) <<< 8 =
      bit_or_sum 16 (a * 256 + b) (c <<< 8) (omega arith) ∙ omega arith in
    ap (λ x. bit_or (bit_or x (c <<< 8)) d) e1
    ∙ ap (λ x. bit_or x d) e2
    ∙ bit_or_sum 8 ((a * 256 + b) * 256 + c) d hd

be32-be_bytes : (n : ℕ) (back : List ℕ) → n < 2 ^ 32 → be32 (be_bytes 4 n ++ back) 0 ≡ n
unfolding be32
be32-be_bytes n back h =
    four (n / 256 / 256 / 256 % 256) (n / 256 / 256 % 256) (n / 256 % 256) (n % 256) (omega arith)
      (omega arith) (omega arith) (omega arith)
    ∙ omega arith

-- What `SplitAutoPacket` does with a packet that is not empty and not too large.
module _ (size : ℕ) (p : Payload) (ps : List Payload) (h : All (FitsSize size) (p ∷ ps))
    (fits : length (packet size (p ∷ ps)) < 2 ^ 32) where
  length-first :
      length (packet size (p ∷ ps)) ≡ size + length (bytes_of p) + length (packet size ps)
  length-first = omega (arith, length-append (framed size p) (packet size ps), length-framed size p)

  -- Lengths of one to three bytes.
  auto_short :
      1 ≤ size
      → size ≤ 3
      → split_auto_packet (packet size (p ∷ ps)) (pos size) ≡ some (ok tt, map nal_of (p ∷ ps), avc)
  unfolding split_auto_packet split_configured
  auto_short small wide = ground (
    arith,
    length-first,
    too_small (packet size (p ∷ ps)) fits,
    split_avcc_into-packet size small (omega arith) p ps h fits,
  )

auto_four :
    (p : Payload) (ps : List Payload)
    → All (FitsSize 4) (p ∷ ps)
    → length (packet 4 (p ∷ ps)) < 2 ^ 32
    → 1 < length (bytes_of p)
    → split_auto_packet (packet 4 (p ∷ ps)) (pos 4) ≡ some (ok tt, map nal_of (p ∷ ps), avc)
unfolding split_auto_packet
auto_four p ps h fits long = ground (
  arith,
  length-first 4 p ps h fits,
  too_small (packet 4 (p ∷ ps)) fits,
  unit_back 4 p (packet 4 ps),
  be32-be_bytes (length (bytes_of p)) (bytes_of p ++ packet 4 ps) (omega (arith, h.0.short)),
  split_avcc_into-packet 4 (omega arith) (omega arith) p ps h fits,
)

-- A packet that AppendAVCNAL wrote, given with the length size it was written with, is taken as
-- such: the units come back. The lengths have 1 to 4 bytes, the fields of each unit fit its header
-- byte and its size the length, the packet is below 2 ^ 32 bytes, and with four-byte lengths the
-- first unit has two bytes or more.
pub split_auto_packet-append_packet :
    (size : ℕ) (p : Payload) (ps : List Payload)
    → 1 ≤ size
    → size ≤ 4
    → All (FitsSize size) (p ∷ ps)
    → length (packet size (p ∷ ps)) < 2 ^ 32
    → (size ≡ 4 → 1 < length (bytes_of p))
    → split_auto_packet (append_packet size [] (p ∷ ps)).1 (pos size)
      ≡ some (ok tt, map nal_of (p ∷ ps), avc)
split_auto_packet-append_packet size p ps small wide h fits long =
    rw (append_packet-packet size (p ∷ ps) [] small wide h (omega arith))
      (by_size size small wide h fits long)
  where
    by_size :
        (size : ℕ)
        → 1 ≤ size
        → size ≤ 4
        → All (FitsSize size) (p ∷ ps)
        → length (packet size (p ∷ ps)) < 2 ^ 32
        → (size ≡ 4 → 1 < length (bytes_of p))
        → split_auto_packet (packet size (p ∷ ps)) (pos size)
          ≡ some (ok tt, map nal_of (p ∷ ps), avc)
    by_size zero small wide h fits long = absurd (omega arith)
    by_size (suc zero) small wide h fits long = auto_short 1 p ps h fits small (omega arith)
    by_size (suc (suc zero)) small wide h fits long = auto_short 2 p ps h fits small (omega arith)
    by_size (suc (suc (suc zero))) small wide h fits long =
        auto_short 3 p ps h fits small (omega arith)
    by_size (suc (suc (suc (suc zero)))) small wide h fits long = auto_four p ps h fits (long refl)
    by_size (suc (suc (suc (suc (suc n))))) small wide h fits long = absurd (omega arith)

-- Without a configured length size, a packet with four-byte lengths of which the first unit has
-- 256 to 511 bytes is taken for a stream with start codes: the length reads as 00 00 01. The
-- fields of each unit fit its header byte and its size the length, and the packet is below 2 ^ 32
-- bytes.
pub split_auto_packet_mistakes :
    (p : Payload) (ps : List Payload)
    → All (FitsSize 4) (p ∷ ps)
    → length (packet 4 (p ∷ ps)) < 2 ^ 32
    → 256 ≤ length (bytes_of p)
    → length (bytes_of p) < 512
    → split_auto_packet (append_packet 4 [] (p ∷ ps)).1 (pos 0)
      ≡ with_format annexb (split_annexb_into (append_packet 4 [] (p ∷ ps)).1)
unfolding split_auto_packet split_configured looks_annexb find_start_code scan
split_auto_packet_mistakes p ps h fits long short =
    let n = length (bytes_of p) in
    let b0 : n / 256 / 256 / 256 % 256 ≡ 0 = omega arith in
    let b1 : n / 256 / 256 % 256 ≡ 0 = omega arith in
    let b2 : n / 256 % 256 ≡ 1 = omega arith in
    rw (append_packet-packet 4 (p ∷ ps) [] (omega arith) (omega arith) h (omega arith))
      (rw (too_small (packet 4 (p ∷ ps)) fits, b0, b1, b2) (ground arith))
