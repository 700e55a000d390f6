-- ===== src/Params/Store/Safe.antt =====
-- internal/h264/simple_decode.go: the picture parameter sets that are kept stay valid, and the slices
-- that name them parse.
use goh.Base.{
  Bool, List, Option, [], arith, false, if◌then◌else◌, leb, ltb, lt→ltb, none, refl, some, true, ℕ,
  ◌==◌, ◌∷◌, ◌≡◌,
}
use goh.Slice.Header.Start.Safe.{AllPps}
use goh.Params.Decode.Stages.{AllSps}
use goh.Params.Dequant.{Buffer}
use goh.Params.Valid.{IsPps}
use goh.Params.Decode.Safe.{IsResult, decode_pps-IsPps}
use goh.Nal.{NalUnit}
use goh.Params.{Pps, Present, Sps, max_pps_count}
use goh.Params.Store.{PpsStore, is_cached, keep_pps, pps_step, pps_steps, store_pps_raw, with_entry}
use goh.Result.{◌>>=◌, Result, err, ok, panic}
use goh.BitReader.Safe.{Yields}
use goh.Params.Decode.{decode_pps}
use goh.Slice.Header.Safe.{IsParsed, parse_slice_header-IsSlice}
use goh.Slice.Header.{parse_slice_header, SliceSyntax}
use goh.BitReader.{BitReader}

-- A call that returns a value with a property, and neither fails nor panics.
abbrev pub Returns : {A : Type 0} → (A → Type 0) → Result A → Type 0
Returns P (ok a) = P a
Returns P (err e) = ⊥
Returns P panic = ⊥

-- A valid set that stands under its own identifier.
abbrev IsPlaced : ℕ → Pps → Type 0
IsPlaced id pps = IsPps pps × (pps.pps_id ≡ id)

abbrev pub IsStore : PpsStore → Type 0
IsStore s = (id : ℕ) → Present (IsPlaced id) (s.list id)

IsStore-AllPps : (s : PpsStore) → IsStore s → AllPps s.list
IsStore-AllPps s v id = by (s.list id) (v id)
  where
    by : (o : Option Pps) → Present (IsPlaced id) o → Present IsPps o
    by none h = tt
    by (some pps) h = h.0

with_entry-IsStore :
    (raw : ℕ → List ℕ) (s : PpsStore) (pps : Pps)
    → IsStore s
    → IsPps pps
    → IsStore (record { list = with_entry s.list pps.pps_id (some pps); raw = raw })
with_entry-IsStore raw s pps h v j = by (j == pps.pps_id) (λ e. ground (arith, e))
  where
    by :
        (test : Bool)
        → (test ≡ true → pps.pps_id ≡ j)
        → Present (IsPlaced j) (if test then some pps else s.list j)
    by true k = (v, k refl)
    by false k = h j

store_pps_raw-IsStore :
    (id : ℕ) (raw : List ℕ) (s : PpsStore) → IsStore s → Returns IsStore (store_pps_raw id raw s)
unfolding store_pps_raw
store_pps_raw-IsStore id raw s v =
    by (leb max_pps_count id) (ltb id max_pps_count) (λ e. ground (arith, e))
  where
    by :
        (above below : Bool)
        → (above ≡ false → below ≡ true)
        → Returns IsStore (
            if above
            then ok s
            else (if below then ok (with_entry s.raw id raw) else panic) >>= λ raws.
                ok (record { list = s.list; raw = raws }))
    by true below k = v
    by false true k = v
    by false false k = cc (k refl)

keep_pps-IsStore :
    (raw : List ℕ) (s : PpsStore) (x : Result (Pps × (Buffer × Buffer)))
    → IsStore s
    → Yields IsResult x
    → Returns IsStore (keep_pps raw s x)
unfolding keep_pps
keep_pps-IsStore raw s (ok p) v h =
    rw (lt→ltb p.0.pps_id max_pps_count h.0.1.0)
      (store_pps_raw-IsStore p.0.pps_id raw _ (with_entry-IsStore s.raw s p.0 v h.0.0))
keep_pps-IsStore raw s (err e) v h = v
keep_pps-IsStore raw s panic v h = h

pps_step-IsStore :
    (sps_list : ℕ → Option Sps) (s : PpsStore) (nal : NalUnit)
    → AllSps sps_list
    → IsStore s
    → Returns IsStore (pps_step sps_list s nal)
unfolding pps_step
pps_step-IsStore sps_list s nal h v = by (is_cached s nal.raw)
  where
    by :
        (test : Bool)
        → Returns IsStore (if test then ok s else keep_pps nal.raw s (decode_pps nal.rbsp sps_list))
    by true = v
    by false = keep_pps-IsStore nal.raw s _ v (decode_pps-IsPps nal.rbsp sps_list h)

-- Where the sequence parameter sets are valid, working through any sequence of picture parameter set
-- units never panics, and a unit that fails to decode ends nothing: from sets that are valid, each
-- under its own identifier, the sets that are kept at the end are valid, each under its own.
pub pps_steps-IsStore :
    (nals : List NalUnit) (sps_list : ℕ → Option Sps) (s : PpsStore)
    → AllSps sps_list
    → IsStore s
    → Returns IsStore (pps_steps sps_list s nals)
unfolding pps_steps
pps_steps-IsStore [] sps_list s h v = v
pps_steps-IsStore (nal ∷ nals) sps_list s h v =
    by (pps_step sps_list s nal) (pps_step-IsStore sps_list s nal h v)
      (λ s' k. pps_steps-IsStore nals sps_list s' h k)
  where
    by :
        (x : Result PpsStore)
        → Returns IsStore x
        → ((s' : PpsStore) → IsStore s' → Returns IsStore (pps_steps sps_list s' nals))
        → Returns IsStore
            (elim x [ ok s' ↦ pps_steps sps_list s' nals | err e ↦ err e | panic ↦ panic ])
    by (ok s') k others = others s' k
    by (err e) k others = k
    by panic k others = k

Returns-weaken :
    {A : Type 0} (Q P : A → Type 0) (x : Result A)
    → Returns Q x
    → ((a : A) → Q a → P a)
    → Returns P x
Returns-weaken Q P (ok a) h k = k a h
Returns-weaken Q P (err e) h k = h
Returns-weaken Q P panic h k = h

-- A header that is parsed, and whose parameter set has the identifier that it was named by.
abbrev pub IsNamed : NalUnit → PpsStore → SliceSyntax × BitReader → Type 0
IsNamed nal s h = IsParsed nal s.list h × (h.0.start.pps.pps_id ≡ h.0.start.pps_id)

IsStore-IsNamed :
    (nal : NalUnit) (s : PpsStore) (h : SliceSyntax × BitReader)
    → IsStore s
    → IsParsed nal s.list h
    → IsNamed nal s h
IsStore-IsNamed nal s h v parsed =
    (parsed, by (s.list h.0.start.pps_id) parsed.0.start_fits.pps_named (v h.0.start.pps_id))
  where
    by :
        (o : Option Pps)
        → o ≡ some h.0.start.pps
        → Present (λ pps. IsPps pps × (pps.pps_id ≡ h.0.start.pps_id)) o
        → h.0.start.pps.pps_id ≡ h.0.start.pps_id
    by none e k = cc e
    by (some pps) e k = cc (e, k.1)

Yields-weaken :
    {A : Type 0} (Q P : A → Type 0) (x : Result A) → Yields Q x → ((a : A) → Q a → P a) → Yields P x
Yields-weaken Q P (ok a) h k = k a h
Yields-weaken Q P (err e) h k = h
Yields-weaken Q P panic h k = h

-- After any sequence of picture parameter set units, malformed ones included, started from valid
-- sets under their own identifiers, parsing a slice header against the sets that are kept then never
-- panics, and a header that is parsed is as parse_slice_header-IsSlice states, with a parameter set
-- that carries the identifier which the header names.
pub pps_steps-parse_slice_header :
    (nals : List NalUnit) (sps_list : ℕ → Option Sps) (s : PpsStore) (nal : NalUnit)
    → AllSps sps_list
    → IsStore s
    → Returns
        (λ s'. Yields (IsNamed nal s') (parse_slice_header nal s'.list))
        (pps_steps sps_list s nals)
pps_steps-parse_slice_header nals sps_list s nal h v =
    Returns-weaken IsStore _ (pps_steps sps_list s nals) (pps_steps-IsStore nals sps_list s h v)
      (λ s' v'.
        Yields-weaken (IsParsed nal s'.list) _ (parse_slice_header nal s'.list)
          (parse_slice_header-IsSlice nal s'.list (IsStore-AllPps s' v'))
          (λ a k. IsStore-IsNamed nal s' a v' k))
