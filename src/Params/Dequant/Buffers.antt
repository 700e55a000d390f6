-- ===== src/Params/Dequant/Buffers.antt =====
-- internal/h264/pps.go: the buffers that `initDequantTables` fills.
use goh.Base.{
  Bool, List, arith, false, length, length-replicate, length-set, lt→ltb, refl, replicate, suc,
  true, zero, ℕ, ◌&&◌, ◌+◌, ◌<◌, ◌∙◌, ◌≤◌,
}
use goh.Params.Dequant.{
  Buffer, buffer_of, bypass, flat_row, init_dequant_tables, table_loop, zero_table, init_dequant_4,
  init_dequant_8, row_4, row_8, table_of_rows, zero_buffer,
}
use goh.Params.Valid.{IsFactors, IsPps, IsSix}
use goh.Params.Dequant.Safe.{
  IsRow, IsTable, max_scale, replicate-All, row_4-Yields, row_8-Yields, set-All,
}
use goh.Params.{Pps, Six, qp_max_num, max_qp}
use goh.Result.{Result}
use goh.BitReader.Safe.{Yields, Yields-if}
use goh.Params.Tables.Range.{bind-Yields}
use goh.Params.Tables.{store}

-- Six tables of 88 rows of `n` entries, none above `max_scale`.
pub record IsBuffer (n : ℕ) (b : Buffer) : Type 0 where
  pub fits_0 : IsTable n b.table_0
  pub fits_1 : IsTable n b.table_1
  pub fits_2 : IsTable n b.table_2
  pub fits_3 : IsTable n b.table_3
  pub fits_4 : IsTable n b.table_4
  pub fits_5 : IsTable n b.table_5

table_loop-Yields :
    (n rounds q : ℕ) (row_of : ℕ → List ℕ → Result (List ℕ)) (factors : List ℕ)
    (table : List (List ℕ))
    → rounds + q ≤ qp_max_num + 1
    → ((q : ℕ) → q < qp_max_num + 1 → Yields (IsRow n) (row_of q factors))
    → IsTable n table
    → Yields (IsTable n) (table_loop rounds q row_of factors table)
unfolding table_loop
table_loop-Yields n zero q row_of factors table h f v = v
table_loop-Yields n (suc rounds) q row_of factors table h f v =
    bind-Yields (IsRow n) _ _ _ (f q (omega (arith, h))) (λ row hr.
      bind-Yields (IsTable n) _ _ _ (stored row hr) (λ table' v'.
        table_loop-Yields n rounds (q + 1) row_of factors table' (omega (arith, h)) f v'))
  where
    stored : (row : List ℕ) → IsRow n row → Yields (IsTable n) (store table q row)
    stored row hr =
        rw (lt→ltb q (length table) (omega (arith, h, v.0)))
          (length-set table q row ∙ v.0, set-All (IsRow n) table q row v.1 hr)

zero_table-IsTable : (n : ℕ) → IsTable n (zero_table n)
zero_table-IsTable n = (
  refl,
  replicate-All (IsRow n) (qp_max_num + 1) (replicate n 0)
      (length-replicate n 0, replicate-All (λ e. e ≤ max_scale) n 0 (omega arith)),
)

buffer_of-Yields :
    (n : ℕ) (f : List ℕ → Result (List (List ℕ))) (s : Six)
    → ((factors : List ℕ) → IsFactors n factors → Yields (IsTable n) (f factors))
    → IsSix n s
    → Yields (IsBuffer n) (buffer_of f s)
unfolding buffer_of
buffer_of-Yields n f s h v = bind-Yields (IsTable n) _ _ _ (h s.list_0 v.fits_0) (λ t_0 h_0.
    bind-Yields (IsTable n) _ _ _ (h s.list_1 v.fits_1) (λ t_1 h_1.
      bind-Yields (IsTable n) _ _ _ (h s.list_2 v.fits_2) (λ t_2 h_2.
        bind-Yields (IsTable n) _ _ _ (h s.list_3 v.fits_3) (λ t_3 h_3.
          bind-Yields (IsTable n) _ _ _ (h s.list_4 v.fits_4) (λ t_4 h_4.
            bind-Yields (IsTable n) _ _ _ (h s.list_5 v.fits_5) (λ t_5 h_5. record {
              fits_0 = h_0;
              fits_1 = h_1;
              fits_2 = h_2;
              fits_3 = h_3;
              fits_4 = h_4;
              fits_5 = h_5;
            }))))))

flat_row-IsTable : (n : ℕ) (table : List (List ℕ)) → IsTable n table → IsTable n (flat_row n table)
flat_row-IsTable n table v = (
  length-set table 0 (replicate n 64) ∙ v.0,
  set-All (IsRow n) table 0 (replicate n 64) v.1
      (length-replicate n 64, replicate-All (λ e. e ≤ max_scale) n 64 (omega arith)),
)

bypass-IsBuffer : (test : Bool) (n : ℕ) (b : Buffer) → IsBuffer n b → IsBuffer n (bypass test n b)
bypass-IsBuffer false n b v = v
bypass-IsBuffer true n b v = record {
  fits_0 = flat_row-IsTable n b.table_0 v.fits_0;
  fits_1 = flat_row-IsTable n b.table_1 v.fits_1;
  fits_2 = flat_row-IsTable n b.table_2 v.fits_2;
  fits_3 = flat_row-IsTable n b.table_3 v.fits_3;
  fits_4 = flat_row-IsTable n b.table_4 v.fits_4;
  fits_5 = flat_row-IsTable n b.table_5 v.fits_5;
}

table_of_rows-Yields :
    (depth n : ℕ) (row_of : ℕ → List ℕ → Result (List ℕ)) (factors : List ℕ)
    → depth ≤ 14
    → ((q : ℕ) → q < qp_max_num + 1 → Yields (IsRow n) (row_of q factors))
    → Yields (IsTable n) (table_of_rows depth n row_of factors)
table_of_rows-Yields depth n row_of factors h f =
    table_loop-Yields n (max_qp depth + 1) 0 row_of factors (zero_table n) (omega (arith, h)) f
      (zero_table-IsTable n)

-- The buffers for the 4x4 and the 8x8 blocks.
abbrev pub IsBuffers : Buffer × Buffer → Type 0
IsBuffers b = IsBuffer 16 b.0 × IsBuffer 64 b.1

-- For a valid picture parameter set `initDequantTables` never panics, and fills six tables of 88
-- rows of 16 and 64 entries, none above 58 * 255 * 2 ^ 16.
pub init_dequant_tables-IsBuffer :
    (pps : Pps) → IsPps pps → Yields IsBuffers (init_dequant_tables pps)
unfolding init_dequant_tables init_dequant_4 init_dequant_8
init_dequant_tables-IsBuffer pps v =
    bind-Yields (IsBuffer 16) _ _ _
      (buffer_of-Yields 16 _ pps.scaling_matrix_4
        (λ factors k.
          table_of_rows-Yields pps.sps.bit_depth_luma 16 row_4 factors v.sps_valid.depth_most
            (λ q h. row_4-Yields q factors h k))
        v.scaling_4)
      (λ four h_4.
        bind-Yields (IsBuffer 64) _ _ _
          (Yields-if (IsBuffer 64) pps.transform_8x8_mode _ _
            (λ e.
              buffer_of-Yields 64 _ pps.scaling_matrix_8
                (λ factors k.
                  table_of_rows-Yields pps.sps.bit_depth_luma 64 row_8 factors
                    v.sps_valid.depth_most (λ q h. row_8-Yields q factors h k))
                v.scaling_8)
            (λ e. zero_buffer-IsBuffer))
          (λ eight h_8. (
            bypass-IsBuffer pps.sps.transform_bypass 16 four h_4,
            bypass-IsBuffer (pps.sps.transform_bypass && pps.transform_8x8_mode) 64 eight h_8,
          )))
  where
    zero_buffer-IsBuffer : IsBuffer 64 (zero_buffer 64)
    zero_buffer-IsBuffer = record {
      fits_0 = zero_table-IsTable 64;
      fits_1 = zero_table-IsTable 64;
      fits_2 = zero_table-IsTable 64;
      fits_3 = zero_table-IsTable 64;
      fits_4 = zero_table-IsTable 64;
      fits_5 = zero_table-IsTable 64;
    }
