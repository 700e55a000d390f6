-- ===== src/Slice/Weights/Range.antt =====
-- internal/h264/slice.go: the range of the weights that `predWeightTable` stores, and the places it
-- writes to.
use goh.Base.{
  All, Bool, List, [], arith, false, if◌then◌else◌, length, length-set, lt→ltb, not, refl,
  replicate, set, suc, true, zero, ℕ, ◌&&◌, ◌*◌, ◌+◌, ◌<◌, ◌==◌, ◌^◌, ◌||◌, ◌∙◌, ◌∷◌, ◌≡◌, ◌≤◌,
}
use goh.Base.Int.{neg_part, pos_part, ℤ}
use goh.Slice.Counts.{IsCounts, limit_of}
use goh.Golomb.Safe.{IsSe, IsUe, read_se_golomb_long-Reads, read_ue_golomb_31-Reads}
use goh.Slice.Weights.{
  ListWeights, Weight, WeightContext, WeightEntry, chroma_weights, default_weight, differs,
  fits_int8, luma_weight, no_weight, no_weights, place_entry, pred_weight_table, put, read_denom,
  read_weight, weights_loop, zero_entry, WeightTable,
}
use goh.BitReader.Safe.{
  Yields, lift-Reads, Reads, Reads-bind, Reads-fail, Reads-if, Reads-pure, read_bit-Reads,
}
use goh.Slice.{RefCounts, picture_type_b}
use goh.Result.{Result, err, invalid_data, ok, panic}
use goh.Dpb.{picture_frame}
use native.Mathlib.Nat.{pow-le-pow_right}

abbrev pub Within : ℤ → Type 0
Within z = (pos_part z ≤ 128) × (neg_part z ≤ 128)

abbrev pub IsWeight : Weight → Type 0
IsWeight w = Within w.weight × Within w.offset

abbrev pub IsEntry : WeightEntry → Type 0
IsEntry e = IsWeight e.luma × IsWeight e.cb × IsWeight e.cr

abbrev pub IsWeights : List WeightEntry → Type 0
IsWeights entries = (length entries ≡ 48) × All IsEntry entries

default_weight-IsWeight : (denom : ℕ) → denom ≤ 7 → IsWeight (default_weight denom)
default_weight-IsWeight denom h =
    let most : 2 ^ denom ≤ 2 ^ 7 = pow-le-pow_right {n = 2} (omega arith) h in
    ((omega (arith, most), omega arith), (omega arith, omega arith))

read_weight-Reads : Reads IsWeight read_weight
unfolding read_weight fits_int8
read_weight-Reads = Reads-bind IsSe _ read_se_golomb_long-Reads (λ weight h.
    Reads-bind IsSe _ read_se_golomb_long-Reads (λ offset k.
      Reads-if _ (fits_int8 weight && fits_int8 offset)
        (λ e.
          Reads-pure _ _
            ((ground (arith, e), ground (arith, e)), (ground (arith, e), ground (arith, e))))
        (λ e. Reads-fail _ invalid_data)))

luma_weight-Reads : (denom : ℕ) → denom ≤ 7 → Reads (λ l. IsWeight l.1) (luma_weight denom)
unfolding luma_weight
luma_weight-Reads denom h =
    Reads-bind (λ b. b < 2) _ read_bit-Reads
      (λ flag hf.
        Reads-if _ (flag == 0)
          (λ e. Reads-pure _ (false, default_weight denom) (default_weight-IsWeight denom h))
          (λ e.
            Reads-bind IsWeight _ read_weight-Reads (λ w hw. Reads-pure _ (differs denom w, w) hw)))

chroma_weights-Reads :
    (has_chroma : Bool) (denom : ℕ)
    → denom ≤ 7
    → Reads (λ c. IsWeight c.1 × IsWeight c.2) (chroma_weights has_chroma denom)
unfolding chroma_weights
chroma_weights-Reads has_chroma denom h =
    let usual = default_weight-IsWeight denom h in
    Reads-if _ (not has_chroma)
      (λ e. Reads-pure _ (false, no_weight, no_weight) (none_fits, none_fits))
      (λ e.
        Reads-bind (λ b. b < 2) _ read_bit-Reads
          (λ flag hf.
            Reads-if _ (flag == 0)
              (λ z. Reads-pure _ (false, default_weight denom, default_weight denom) (usual, usual))
              (λ z. Reads-bind IsWeight _ read_weight-Reads (λ cb hb.
                Reads-bind IsWeight _ read_weight-Reads (λ cr hr.
                  Reads-pure _ (differs denom cb || differs denom cr, cb, cr) (hb, hr))))))
  where
    none_fits : IsWeight no_weight
    none_fits = ((omega arith, omega arith), (omega arith, omega arith))

All-set :
    (entries : List WeightEntry) (i : ℕ) (e : WeightEntry)
    → All IsEntry entries
    → IsEntry e
    → All IsEntry (set entries i e)
All-set [] i e h k = tt
All-set (x ∷ xs) zero e (h, hs) k = (k, hs)
All-set (x ∷ xs) (suc i) e (h, hs) k = (h, All-set xs i e hs k)

put-Yields :
    (i : ℕ) (e : WeightEntry) (x : Result (List WeightEntry))
    → i < 48
    → IsEntry e
    → Yields IsWeights x
    → Yields IsWeights (put i e x)
put-Yields i e (ok entries) h k (size, all_fit) =
    rw (lt→ltb i (length entries) (omega (arith, size)))
      (length-set entries i e ∙ size, All-set entries i e all_fit k)
put-Yields i e (err x) h k p = tt
put-Yields i e panic h k p = absurd p

place_entry-Yields :
    (structure i : ℕ) (e : WeightEntry) (entries : List WeightEntry)
    → i < limit_of structure
    → IsEntry e
    → IsWeights entries
    → Yields IsWeights (place_entry structure i e entries)
unfolding place_entry
place_entry-Yields structure i e entries h k w = by (structure == picture_frame) h
  where
    by :
        (frame : Bool)
        → i < (if frame then 16 else 32)
        → Yields IsWeights (
            if frame
            then put (16 + 2 * i + 1) e (put (16 + 2 * i) e (put i e (ok entries)))
            else put i e (ok entries))
    by true h = put-Yields (16 + 2 * i + 1) e _ (omega arith) k (
        put-Yields (16 + 2 * i) e _ (omega arith) k (put-Yields i e (ok entries) (omega arith) k w))
    by false h = put-Yields i e (ok entries) (omega arith) k w

abbrev pub IsListWeights : ListWeights → Type 0
IsListWeights w = IsWeights w.entries

weights_loop-Reads :
    (rounds i : ℕ) (c : WeightContext) (w : ListWeights)
    → i + rounds ≤ limit_of c.structure
    → c.luma_denom ≤ 7
    → c.chroma_denom ≤ 7
    → IsListWeights w
    → Reads IsListWeights (weights_loop rounds i c w)
unfolding weights_loop
weights_loop-Reads zero i c w h l k p = Reads-pure _ w p
weights_loop-Reads (suc rounds) i c w h l k p =
    Reads-bind (λ l. IsWeight l.1) _ (luma_weight-Reads c.luma_denom l)
      (λ luma hl.
        Reads-bind (λ c. IsWeight c.1 × IsWeight c.2) _
          (chroma_weights-Reads c.has_chroma c.chroma_denom k)
          (λ chroma hc.
            Reads-bind IsWeights _
              (lift-Reads IsWeights _ (
                place_entry-Yields c.structure i _ w.entries (omega (arith, h)) (hl, hc.0, hc.1) p))
              (λ entries he. weights_loop-Reads rounds (i + 1) c _ (omega (arith, h)) l k he)))

replicate-All : (n : ℕ) (e : WeightEntry) → IsEntry e → All IsEntry (replicate n e)
replicate-All zero e h = tt
replicate-All (suc n) e h = (h, replicate-All n e h)

pub no_weights-IsListWeights : IsListWeights no_weights
no_weights-IsListWeights = (refl, replicate-All 48 zero_entry (zero_fits, zero_fits, zero_fits))
  where
    zero_fits : IsWeight no_weight
    zero_fits = ((omega arith, omega arith), (omega arith, omega arith))

read_denom-Reads : Reads (λ d. d ≤ 7) read_denom
read_denom-Reads = Reads-bind IsUe _ read_ue_golomb_31-Reads (λ d h. Reads-pure _ _ (ground arith))

-- The denominators, the places and the values of a table.
pub record IsWeightTable (t : WeightTable) : Type 0 where
  pub luma_most : t.luma_log2_weight_denom ≤ 7
  pub chroma_most : t.chroma_log2_weight_denom ≤ 7
  pub list_0_fits : IsListWeights t.list_0
  pub list_1_fits : IsListWeights t.list_1

pub pred_weight_table-Reads :
    (has_chroma : Bool) (kind structure : ℕ) (counts : RefCounts)
    → IsCounts kind (limit_of structure) counts
    → Reads IsWeightTable (pred_weight_table has_chroma kind structure counts)
unfolding pred_weight_table
pred_weight_table-Reads has_chroma kind structure counts h =
    Reads-bind (λ d. d ≤ 7) _ read_denom-Reads
      (λ luma_denom hl.
        Reads-bind (λ d. d ≤ 7) _
          (Reads-if _ has_chroma (λ e. read_denom-Reads) (λ e. Reads-pure _ 0 (omega arith)))
          (λ chroma_denom hc.
            let c : WeightContext = record {
              structure = structure;
              has_chroma = has_chroma;
              luma_denom = luma_denom;
              chroma_denom = chroma_denom;
            } in
            let list = λ (count : ℕ) (fits : count ≤ limit_of structure).
              weights_loop-Reads count 0 c no_weights (omega (arith, fits)) hl hc
                no_weights-IsListWeights in
            Reads-bind IsListWeights _ (list counts.count_0 h.most_0) (λ list_0 h_0.
              Reads-bind IsListWeights _
                (Reads-if _ (kind == picture_type_b) (λ b. list counts.count_1 h.most_1)
                  (λ b. Reads-pure _ no_weights no_weights-IsListWeights))
                (λ list_1 h_1. Reads-pure _ _ (record {
                  luma_most = hl;
                  chroma_most = hc;
                  list_0_fits = h_0;
                  list_1_fits = h_1;
                })))))
