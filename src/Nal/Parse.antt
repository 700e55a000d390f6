-- ===== src/Nal/Parse.antt =====
-- One NAL unit: what `AppendNAL` writes, `parseNALInto` reads.
use goh.Base.{
  List, [], arith, bit_and, bit_or, drop-length-append, length, length-append, refl, ℕ, ◌*◌, ◌++◌,
  ◌+◌, ◌/◌, ◌<◌, ◌^◌, ◌∷◌, ◌≡◌, ◌≤◌,
}
use goh.Base.Words.{u8, ◌<<<◌, ◌>>>◌}
use goh.Base.Bits.{bit_and_ones, bit_or_sum, passes, passes_equal}
use goh.Result.{ok}
use goh.Nal.{NalUnit, append_nal, parse_nal_into}
use goh.Nal.Escape.{
  escape, append_ebsp-escape, append_rbsp-escape, nal_append_capacity_fits, Clean, escape-Clean,
}
use mathlib.Core.List.{append_assoc}
use mathlib.Core.Path.{subst}

-- The header byte of a unit.
abbrev pub header : ℕ → ℕ → ℕ
header ref_idc type = ref_idc * 32 + type

-- The bytes of a unit.
abbrev pub unit_bytes : ℕ → ℕ → List ℕ → List ℕ
unit_bytes ref_idc type rbsp = header ref_idc type ∷ escape 0 rbsp

-- The unit that a parser makes of them.
abbrev pub unit_of : ℕ → ℕ → List ℕ → NalUnit
unit_of ref_idc type rbsp = record {
  ref_idc = ref_idc;
  type = type;
  raw = unit_bytes ref_idc type rbsp;
  rbsp = rbsp;
}

-- The size fits an `int` behind `dst`, with room for every byte that may be put in.
abbrev pub HasRoom : List ℕ → List ℕ → Type 0
HasRoom dst rbsp = length dst + length rbsp + length rbsp / 2 + 16 < 2 ^ 63

pub append_nal-unit_bytes :
    (dst : List ℕ) (ref_idc type : ℕ) (rbsp : List ℕ)
    → ref_idc ≤ 3
    → type ≤ 31
    → HasRoom dst rbsp
    → append_nal dst ref_idc type rbsp ≡ (ok tt, dst ++ unit_bytes ref_idc type rbsp)
unfolding append_nal
append_nal-unit_bytes dst ref_idc type rbsp hr ht h =
    let byte : bit_or (u8 (ref_idc <<< 5)) type ≡ header ref_idc type =
      ground (arith, bit_or_sum 5 ref_idc type) in
    let dst' = dst ++ (header ref_idc type ∷ []) in
    ground (
      arith,
      byte,
      nal_append_capacity_fits (length dst) 1 (length rbsp),
      length-append dst (header ref_idc type ∷ []),
      append_ebsp-escape dst' rbsp,
      append_assoc dst (header ref_idc type ∷ []) (escape 0 rbsp),
    )

top_clear : (x : ℕ) → x < 128 → bit_and x 0x80 ≡ 0
unfolding passes
top_clear x h = passes_equal (λ y. bit_and y 0x80) (λ y. 0) 128 x h refl

header_fields :
    (ref_idc type : ℕ)
    → ref_idc ≤ 3
    → type ≤ 31
    → (bit_and (header ref_idc type) 0x80 ≡ 0)
      × (bit_and (header ref_idc type >>> 5) 3 ≡ ref_idc)
      × (bit_and (header ref_idc type) 0x1f ≡ type)
header_fields ref_idc type hr ht = (
  top_clear (header ref_idc type) (omega arith),
  omega (arith, bit_and_ones 2 (header ref_idc type / 32)),
  omega (arith, bit_and_ones 5 (header ref_idc type)),
)

-- `parseNALInto` of such bytes gives the unit, and its payload behind the scratch buffer.
pub parse_nal_into-unit_bytes :
    (ref_idc type : ℕ) (rbsp scratch : List ℕ)
    → ref_idc ≤ 3
    → type ≤ 31
    → parse_nal_into (unit_bytes ref_idc type rbsp) scratch
      ≡ ok (unit_of ref_idc type rbsp, scratch ++ rbsp)
unfolding parse_nal_into
parse_nal_into-unit_bytes ref_idc type rbsp scratch hr ht =
    let (top, idc, low) = header_fields ref_idc type hr ht in
    rw (top, idc, low, append_rbsp-escape scratch rbsp, drop-length-append scratch rbsp) refl

-- A unit to be written.
pub record Payload : Type 0 where
  pub ref_idc : ℕ
  pub type : ℕ
  pub rbsp : List ℕ

abbrev pub bytes_of : Payload → List ℕ
bytes_of p = unit_bytes p.ref_idc p.type p.rbsp

abbrev pub nal_of : Payload → NalUnit
nal_of p = unit_of p.ref_idc p.type p.rbsp

-- The fields fit the header byte, which is not 0.
pub record IsProper (p : Payload) : Type 0 where
  pub idc : p.ref_idc ≤ 3
  pub kind : p.type ≤ 31
  pub marked : 0 < p.ref_idc + p.type

-- The payloads one behind the other, as the scratch buffer holds them.
abbrev pub payloads : List Payload → List ℕ
payloads [] = []
payloads (p ∷ ps) = p.rbsp ++ payloads ps

pub bytes_of-Clean : {p : Payload} → IsProper p → Clean 0 (bytes_of p)
bytes_of-Clean {p} h = (
  λ k. absurd (omega arith),
  subst (λ n. Clean n (escape 0 p.rbsp)) (ground (arith, h.marked)) (escape-Clean p.rbsp 0),
)

-- `parseNALInto` of what `AppendNAL` writes gives back the reference number, the type and the
-- payload, which it puts behind the scratch buffer. The number is at most 3, the type at most 31
-- and the size fits.
pub parse_nal_into-append_nal :
    (ref_idc type : ℕ) (rbsp scratch : List ℕ)
    → ref_idc ≤ 3
    → type ≤ 31
    → HasRoom [] rbsp
    → parse_nal_into (append_nal [] ref_idc type rbsp).1 scratch
      ≡ ok (unit_of ref_idc type rbsp, scratch ++ rbsp)
parse_nal_into-append_nal ref_idc type rbsp scratch hr ht h =
    rw (append_nal-unit_bytes [] ref_idc type rbsp hr ht h)
      (parse_nal_into-unit_bytes ref_idc type rbsp scratch hr ht)
