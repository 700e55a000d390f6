-- ===== src/Params/Dequant.antt =====
-- internal/h264/pps.go and data.go: `initDequantTables`, into the zeroed buffers of a new parameter set.
pub mod Safe
pub mod Buffers
use goh.Base.{
  Bool, List, [], bit_and, bit_or, if◌then◌else◌, not, replicate, set, suc, zero, ℕ, ◌&&◌, ◌*◌, ◌+◌,
  ◌∷◌,
}
use goh.Base.Words.{u32, ◌<<<◌, ◌>>>◌}
use goh.Result.{◌>>=◌, Result, index, ok}
use goh.Params.{Pps, Six, max_qp, qp_max_num}
use goh.Params.Tables.{store}

-- `h264QuantRem6`
abbrev pub quant_rem_6 : List ℕ
quant_rem_6 =
    0 ∷ 1 ∷ 2 ∷ 3 ∷ 4 ∷ 5 ∷ 0 ∷ 1 ∷ 2 ∷ 3 ∷ 4 ∷ 5 ∷ 0 ∷ 1 ∷ 2 ∷ 3 ∷ 4 ∷ 5 ∷ 0 ∷ 1 ∷ 2 ∷ 3 ∷ 4 ∷ 5
    ∷ 0 ∷ 1 ∷ 2 ∷ 3 ∷ 4 ∷ 5 ∷ 0 ∷ 1 ∷ 2 ∷ 3 ∷ 4 ∷ 5 ∷ 0 ∷ 1 ∷ 2 ∷ 3 ∷ 4 ∷ 5 ∷ 0 ∷ 1 ∷ 2 ∷ 3 ∷ 4 ∷ 5
    ∷ 0 ∷ 1 ∷ 2 ∷ 3 ∷ 4 ∷ 5 ∷ 0 ∷ 1 ∷ 2 ∷ 3 ∷ 4 ∷ 5 ∷ 0 ∷ 1 ∷ 2 ∷ 3 ∷ 4 ∷ 5 ∷ 0 ∷ 1 ∷ 2 ∷ 3 ∷ 4 ∷ 5
    ∷ 0 ∷ 1 ∷ 2 ∷ 3 ∷ 4 ∷ 5 ∷ 0 ∷ 1 ∷ 2 ∷ 3 ∷ 4 ∷ 5 ∷ 0 ∷ 1 ∷ 2 ∷ 3 ∷ []

-- `h264QuantDiv6`
abbrev pub quant_div_6 : List ℕ
quant_div_6 =
    0 ∷ 0 ∷ 0 ∷ 0 ∷ 0 ∷ 0 ∷ 1 ∷ 1 ∷ 1 ∷ 1 ∷ 1 ∷ 1 ∷ 2 ∷ 2 ∷ 2 ∷ 2 ∷ 2 ∷ 2 ∷ 3 ∷ 3 ∷ 3 ∷ 3 ∷ 3 ∷ 3
    ∷ 4 ∷ 4 ∷ 4 ∷ 4 ∷ 4 ∷ 4 ∷ 5 ∷ 5 ∷ 5 ∷ 5 ∷ 5 ∷ 5 ∷ 6 ∷ 6 ∷ 6 ∷ 6 ∷ 6 ∷ 6 ∷ 7 ∷ 7 ∷ 7 ∷ 7 ∷ 7 ∷ 7
    ∷ 8 ∷ 8 ∷ 8 ∷ 8 ∷ 8 ∷ 8 ∷ 9 ∷ 9 ∷ 9 ∷ 9 ∷ 9 ∷ 9 ∷ 10 ∷ 10 ∷ 10 ∷ 10 ∷ 10 ∷ 10 ∷ 11 ∷ 11 ∷ 11
    ∷ 11 ∷ 11 ∷ 11 ∷ 12 ∷ 12 ∷ 12 ∷ 12 ∷ 12 ∷ 12 ∷ 13 ∷ 13 ∷ 13 ∷ 13 ∷ 13 ∷ 13 ∷ 14 ∷ 14 ∷ 14 ∷ 14
    ∷ []

-- `h264Dequant4CoeffInit`
abbrev pub dequant_4_coeff_init : List (List ℕ)
dequant_4_coeff_init =
    (10 ∷ 13 ∷ 16 ∷ [])
    ∷ (11 ∷ 14 ∷ 18 ∷ [])
    ∷ (13 ∷ 16 ∷ 20 ∷ [])
    ∷ (14 ∷ 18 ∷ 23 ∷ [])
    ∷ (16 ∷ 20 ∷ 25 ∷ [])
    ∷ (18 ∷ 23 ∷ 29 ∷ [])
    ∷ []

-- `h264Dequant8CoeffInit`
abbrev pub dequant_8_coeff_init : List (List ℕ)
dequant_8_coeff_init =
    (20 ∷ 18 ∷ 32 ∷ 19 ∷ 25 ∷ 24 ∷ [])
    ∷ (22 ∷ 19 ∷ 35 ∷ 21 ∷ 28 ∷ 26 ∷ [])
    ∷ (26 ∷ 23 ∷ 42 ∷ 24 ∷ 33 ∷ 31 ∷ [])
    ∷ (28 ∷ 25 ∷ 45 ∷ 26 ∷ 35 ∷ 33 ∷ [])
    ∷ (32 ∷ 28 ∷ 51 ∷ 30 ∷ 40 ∷ 38 ∷ [])
    ∷ (36 ∷ 32 ∷ 58 ∷ 34 ∷ 46 ∷ 43 ∷ [])
    ∷ []

-- `h264Dequant8CoeffInitScan`
abbrev pub dequant_8_coeff_init_scan : List ℕ
dequant_8_coeff_init_scan = 0 ∷ 3 ∷ 4 ∷ 3 ∷ 3 ∷ 1 ∷ 5 ∷ 1 ∷ 4 ∷ 5 ∷ 2 ∷ 5 ∷ 3 ∷ 1 ∷ 5 ∷ 1 ∷ []

-- `dst` and `initIdx` of a 4x4 block
abbrev pub dst_4 : ℕ → ℕ
dst_4 x = bit_or (x >>> 2) (bit_and (x <<< 2) 0x0f)

abbrev pub init_idx_4 : ℕ → ℕ
init_idx_4 x = bit_and x 1 + bit_and (x >>> 2) 1

-- `dst` of an 8x8 block, and the place in the scan
abbrev pub dst_8 : ℕ → ℕ
dst_8 x = bit_or (x >>> 3) (bit_and x 7 <<< 3)

abbrev pub scan_idx_8 : ℕ → ℕ
scan_idx_8 x = bit_or (bit_and (x >>> 1) 12) (bit_and x 3)

-- A coefficient of a QP: its first value, scaled.
abbrev pub scaled : ℕ → ℕ → ℕ → ℕ
scaled init factor shift = u32 (u32 (init * factor) <<< shift)

-- The loop over `x` of `initDequant4CoeffTable`, by the rounds left.
unfoldable pub row_4_loop : ℕ → ℕ → List ℕ → ℕ → List ℕ → List ℕ → Result (List ℕ)
row_4_loop zero x inits shift factors row = ok row
row_4_loop (suc rounds) x inits shift factors row = do
  init ← index inits (init_idx_4 x)
  factor ← index factors x
  row' ← store row (dst_4 x) (scaled init factor shift)
  row_4_loop rounds (x + 1) inits shift factors row'

unfoldable pub row_4 : ℕ → List ℕ → Result (List ℕ)
row_4 q factors = do
  div ← index quant_div_6 q
  rem ← index quant_rem_6 q
  inits ← index dequant_4_coeff_init rem
  row_4_loop 16 0 inits (div + 2) factors (replicate 16 0)

-- The loop over `x` of `initDequant8CoeffTable`, by the rounds left.
unfoldable pub row_8_loop : ℕ → ℕ → List ℕ → ℕ → List ℕ → List ℕ → Result (List ℕ)
row_8_loop zero x inits shift factors row = ok row
row_8_loop (suc rounds) x inits shift factors row = do
  place ← index dequant_8_coeff_init_scan (scan_idx_8 x)
  init ← index inits place
  factor ← index factors x
  row' ← store row (dst_8 x) (scaled init factor shift)
  row_8_loop rounds (x + 1) inits shift factors row'

unfoldable pub row_8 : ℕ → List ℕ → Result (List ℕ)
row_8 q factors = do
  div ← index quant_div_6 q
  rem ← index quant_rem_6 q
  inits ← index dequant_8_coeff_init rem
  row_8_loop 64 0 inits div factors (replicate 64 0)

-- The loop over `q`, by the rounds left, with the rows of a size.
unfoldable pub table_loop :
    ℕ → ℕ → (ℕ → List ℕ → Result (List ℕ)) → List ℕ → List (List ℕ) → Result (List (List ℕ))
table_loop zero q row_of factors table = ok table
table_loop (suc rounds) q row_of factors table = do
  row ← row_of q factors
  table' ← store table q row
  table_loop rounds (q + 1) row_of factors table'

-- The rows of one list of factors.
abbrev pub table_of_rows : ℕ → ℕ → (ℕ → List ℕ → Result (List ℕ)) → List ℕ → Result (List (List ℕ))
table_of_rows depth n row_of factors =
    table_loop (max_qp depth + 1) 0 row_of factors (replicate (qp_max_num + 1) (replicate n 0))

-- `Dequant4Buffer` or `Dequant8Buffer`
pub record Buffer : Type 0 where
  pub table_0 : List (List ℕ)
  pub table_1 : List (List ℕ)
  pub table_2 : List (List ℕ)
  pub table_3 : List (List ℕ)
  pub table_4 : List (List ℕ)
  pub table_5 : List (List ℕ)

-- The loop over the six lists.
unfoldable pub buffer_of : (List ℕ → Result (List (List ℕ))) → Six → Result Buffer
buffer_of f s = do
  t_0 ← f s.list_0
  t_1 ← f s.list_1
  t_2 ← f s.list_2
  t_3 ← f s.list_3
  t_4 ← f s.list_4
  t_5 ← f s.list_5
  ok (record {
    table_0 = t_0;
    table_1 = t_1;
    table_2 = t_2;
    table_3 = t_3;
    table_4 = t_4;
    table_5 = t_5;
  })

-- `initDequant4CoeffTable` and `initDequant8CoeffTable`
unfoldable pub init_dequant_4 : Pps → Result Buffer
init_dequant_4 pps = buffer_of (table_of_rows pps.sps.bit_depth_luma 16 row_4) pps.scaling_matrix_4

unfoldable pub init_dequant_8 : Pps → Result Buffer
init_dequant_8 pps = buffer_of (table_of_rows pps.sps.bit_depth_luma 64 row_8) pps.scaling_matrix_8

-- The first row of every table, where the transform is bypassed.
abbrev pub flat_row : ℕ → List (List ℕ) → List (List ℕ)
flat_row n table = set table 0 (replicate n 64)

abbrev pub bypass : Bool → ℕ → Buffer → Buffer
bypass test n b = if not test then b else record {
  table_0 = flat_row n b.table_0;
  table_1 = flat_row n b.table_1;
  table_2 = flat_row n b.table_2;
  table_3 = flat_row n b.table_3;
  table_4 = flat_row n b.table_4;
  table_5 = flat_row n b.table_5;
}

abbrev pub zero_table : ℕ → List (List ℕ)
zero_table n = replicate (qp_max_num + 1) (replicate n 0)

abbrev pub zero_buffer : ℕ → Buffer
zero_buffer n = record {
  table_0 = zero_table n;
  table_1 = zero_table n;
  table_2 = zero_table n;
  table_3 = zero_table n;
  table_4 = zero_table n;
  table_5 = zero_table n;
}

-- `initDequantTables`: the two buffers.
unfoldable pub init_dequant_tables : Pps → Result (Buffer × Buffer)
init_dequant_tables pps = do
  four ← init_dequant_4 pps
  eight ← if pps.transform_8x8_mode then init_dequant_8 pps else ok (zero_buffer 64)
  ok (
    bypass pps.sps.transform_bypass 16 four,
    bypass (pps.sps.transform_bypass && pps.transform_8x8_mode) 64 eight,
  )
