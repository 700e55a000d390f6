-- ===== src/Slice/Weights.antt =====
-- internal/h264/slice.go: the table of weights, `predWeightTable`.
pub mod Range
use goh.Base.{
  Bool, List, false, if◌then◌else◌, length, ltb, not, replicate, set, suc, zero, ℕ, ◌&&◌, ◌*◌, ◌+◌,
  ◌==◌, ◌||◌,
}
use goh.Base.Int.{leb_ℤ, negsuc, pos, ℤ, ◌==ℤ◌}
use goh.Base.Words.{◌<<<◌}
use goh.BitReader.{◌>>=◌, Read, fail, lift, pure, read_bit}
use goh.Slice.{RefCounts, picture_type_b}
use goh.Result.{Result, err, invalid_data, ok, panic}
use goh.Dpb.{picture_frame}
use goh.Golomb.{read_se_golomb_long, read_ue_golomb_31}

-- A weight and an offset.
pub record Weight : Type 0 where
  pub weight : ℤ
  pub offset : ℤ

-- `LumaWeight[i][list]` and `ChromaWeight[i][list]`
pub record WeightEntry : Type 0 where
  pub luma : Weight
  pub cb : Weight
  pub cr : Weight

-- The flags and the 48 places of one list.
pub record ListWeights : Type 0 where
  pub luma_flag : Bool
  pub chroma_flag : Bool
  pub entries : List WeightEntry

-- `PredWeightTable` without the implicit weights.
pub record WeightTable : Type 0 where
  pub use_weight : Bool
  pub use_weight_chroma : Bool
  pub luma_log2_weight_denom : ℕ
  pub chroma_log2_weight_denom : ℕ
  pub list_0 : ListWeights
  pub list_1 : ListWeights

unfoldable pub fits_int8 : ℤ → Bool
fits_int8 v = leb_ℤ (negsuc 127) v && leb_ℤ v (pos 127)

-- The weight that stands where none is sent.
abbrev pub default_weight : ℕ → Weight
default_weight denom = record { weight = pos (1 <<< denom); offset = pos 0 }

abbrev pub no_weight : Weight
no_weight = record { weight = pos 0; offset = pos 0 }

abbrev pub differs : ℕ → Weight → Bool
differs denom w = not (w.weight ==ℤ pos (1 <<< denom)) || not (w.offset ==ℤ pos 0)

unfoldable pub read_weight : Read Weight
read_weight = do
  weight ← read_se_golomb_long
  offset ← read_se_golomb_long
  if fits_int8 weight && fits_int8 offset
      then pure (record { weight = weight; offset = offset })
      else fail invalid_data

-- Whether the weight differs from the default, and the weight.
unfoldable pub luma_weight : ℕ → Read (Bool × Weight)
luma_weight denom = do
  luma_flag ← read_bit
  if luma_flag == 0
      then pure (false, default_weight denom)
      else do w ← read_weight; pure (differs denom w, w)

unfoldable pub chroma_weights : Bool → ℕ → Read (Bool × Weight × Weight)
chroma_weights has_chroma denom = if not has_chroma then pure (false, no_weight, no_weight) else do
  chroma_flag ← read_bit
  if chroma_flag == 0 then pure (false, default_weight denom, default_weight denom) else do
    cb ← read_weight
    cr ← read_weight
    pure (differs denom cb || differs denom cr, cb, cr)

-- A write into an array; out of bounds Go panics.
abbrev pub put : ℕ → WeightEntry → Result (List WeightEntry) → Result (List WeightEntry)
put i e (ok entries) = if ltb i (length entries) then ok (set entries i e) else panic
put i e (err x) = err x
put i e panic = panic

-- The entry of a reference; in a frame also for its two fields.
unfoldable pub place_entry : ℕ → ℕ → WeightEntry → List WeightEntry → Result (List WeightEntry)
place_entry structure i e entries =
    let own = put i e (ok entries) in
    if structure == picture_frame then put (16 + 2 * i + 1) e (put (16 + 2 * i) e own) else own

-- What the weights of a list are read with.
pub record WeightContext : Type 0 where
  pub structure : ℕ
  pub has_chroma : Bool
  pub luma_denom : ℕ
  pub chroma_denom : ℕ

-- The loop over the references of a list, by those left.
unfoldable pub weights_loop : ℕ → ℕ → WeightContext → ListWeights → Read ListWeights
weights_loop zero i c w = pure w
weights_loop (suc rounds) i c w = do
  luma ← luma_weight c.luma_denom
  chroma ← chroma_weights c.has_chroma c.chroma_denom
  entries ←
      lift (
        place_entry c.structure i (record { luma = luma.1; cb = chroma.1; cr = chroma.2 })
          w.entries)
  weights_loop rounds (i + 1) c (record {
    luma_flag = w.luma_flag || luma.0;
    chroma_flag = w.chroma_flag || chroma.0;
    entries = entries;
  })

abbrev pub zero_entry : WeightEntry
zero_entry = record { luma = no_weight; cb = no_weight; cr = no_weight }

abbrev pub no_weights : ListWeights
no_weights = record { luma_flag = false; chroma_flag = false; entries = replicate 48 zero_entry }

-- A denominator above 7 is taken as 0.
abbrev pub read_denom : Read ℕ
read_denom = do denom ← read_ue_golomb_31; pure (if ltb 7 denom then 0 else denom)

abbrev pub table_of : ℕ → ℕ → ListWeights → ListWeights → WeightTable
table_of luma_denom chroma_denom list_0 list_1 =
    let use_weight_chroma = list_0.chroma_flag || list_1.chroma_flag in
    record {
      use_weight = (list_0.luma_flag || list_1.luma_flag) || use_weight_chroma;
      use_weight_chroma = use_weight_chroma;
      luma_log2_weight_denom = luma_denom;
      chroma_log2_weight_denom = chroma_denom;
      list_0 = list_0;
      list_1 = list_1;
    }

unfoldable pub pred_weight_table : Bool → ℕ → ℕ → RefCounts → Read WeightTable
pred_weight_table has_chroma kind structure counts = do
  luma_denom ← read_denom
  chroma_denom ← if has_chroma then read_denom else pure 0
  let c : WeightContext = record {
    structure = structure;
    has_chroma = has_chroma;
    luma_denom = luma_denom;
    chroma_denom = chroma_denom;
  }
  list_0 ← weights_loop counts.count_0 0 c no_weights
  list_1 ←
      if kind == picture_type_b then weights_loop counts.count_1 0 c no_weights else pure no_weights
  pure (table_of luma_denom chroma_denom list_0 list_1)
