-- ===== src/Params/Store.antt =====
-- internal/h264/simple_decode.go: the picture parameter sets that the decoder keeps, and the case of a
-- parameter set in the loop of DecodeNALUnits. The lists are functions of the identifier.
pub mod Safe
use goh.Base.{
  Bool, List, Option, [], false, if◌then◌else◌, leb, length, ltb, none, some, suc, true, zero, ℕ,
  ◌&&◌, ◌+◌, ◌==◌, ◌∷◌,
}
use goh.Params.Dequant.{Buffer}
use goh.Nal.{NalUnit}
use goh.Params.{Pps, Sps, max_pps_count}
use goh.Result.{◌>>=◌, Result, err, ok, panic}
use goh.Params.Decode.{decode_pps}

-- `ppsList` and `ppsRaw`
pub record PpsStore : Type 0 where
  pub list : ℕ → Option Pps
  pub raw : ℕ → List ℕ

-- `bytes.Equal`
unfoldable pub equal_bytes : List ℕ → List ℕ → Bool
equal_bytes [] [] = true
equal_bytes [] (y ∷ ys) = false
equal_bytes (x ∷ xs) [] = false
equal_bytes (x ∷ xs) (y ∷ ys) = (x == y) && equal_bytes xs ys

-- The loop of `cachedPPSRaw`, by the rounds left.
unfoldable pub cached_loop : ℕ → ℕ → (ℕ → List ℕ) → List ℕ → Option ℕ
cached_loop zero id raws raw = none
cached_loop (suc rounds) id raws raw =
    let rest = cached_loop rounds (id + 1) raws raw in
    if equal_bytes (raws id) raw then some id else rest

unfoldable pub cached_pps_raw : PpsStore → List ℕ → Option ℕ
cached_pps_raw s raw = if length raw == 0 then none else cached_loop max_pps_count 0 s.raw raw

abbrev pub with_entry {ℓ} : {A : Type ℓ} → (ℕ → A) → ℕ → A → ℕ → A
with_entry f i x j = if j == i then x else f j

-- `f[i] = x` in an array of `size` places; outside them Go panics.
abbrev pub put_at {ℓ} : {A : Type ℓ} → ℕ → (ℕ → A) → ℕ → A → Result (ℕ → A)
put_at size f i x = if ltb i size then ok (with_entry f i x) else panic

-- `storePPSRaw`
unfoldable pub store_pps_raw : ℕ → List ℕ → PpsStore → Result PpsStore
store_pps_raw id raw s =
    if leb max_pps_count id
    then ok s
    else do raws ← put_at max_pps_count s.raw id raw; ok (record { list = s.list; raw = raws })

-- Whether the set of a unit is there already.
unfoldable pub is_cached : PpsStore → List ℕ → Bool
is_cached s raw = elim (cached_pps_raw s raw) [
  | none ↦ false
  | some id ↦ elim (s.list id) [ none ↦ false | some pps ↦ true ]
]

-- What is kept of a set that was decoded; a malformed one changes nothing.
unfoldable pub keep_pps : List ℕ → PpsStore → Result (Pps × (Buffer × Buffer)) → Result PpsStore
keep_pps raw s (ok p) = do
  list ← put_at max_pps_count s.list p.0.pps_id (some p.0)
  store_pps_raw p.0.pps_id raw (record { list = list; raw = s.raw })
keep_pps raw s (err e) = ok s
keep_pps raw s panic = panic

-- `case NALPPS`
unfoldable pub pps_step : (ℕ → Option Sps) → PpsStore → NalUnit → Result PpsStore
pps_step sps_list s nal =
    if is_cached s nal.raw then ok s else keep_pps nal.raw s (decode_pps nal.rbsp sps_list)

-- The case, for one unit after the other.
unfoldable pub pps_steps : (ℕ → Option Sps) → PpsStore → List NalUnit → Result PpsStore
pps_steps sps_list s [] = ok s
pps_steps sps_list s (nal ∷ nals) = elim (pps_step sps_list s nal) [
  | ok s' ↦ pps_steps sps_list s' nals
  | err e ↦ err e
  | panic ↦ panic
]
