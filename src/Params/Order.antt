-- ===== src/Params/Order.antt =====
-- internal/h264/sps.go: the fields of `decodeSPS` that order counts are made of.
use goh.Base.{Bool, List, [], false, if◌then◌else◌, leb, ltb, suc, zero, ℕ, ◌!=◌, ◌+◌, ◌==◌, ◌∷◌}
use goh.Base.Int.{pos, ℤ}
use goh.BitReader.{◌>>=◌, Read, fail, pure, read_bit}
use goh.Result.{invalid_data}
use goh.Golomb.{read_se_golomb_long, read_ue_golomb_31, read_ue_golomb_long}

pub record SpsOrder : Type 0 where
  pub poc_type : ℕ
  pub log2_max_poc_lsb : ℕ
  pub always_zero : Bool
  pub non_ref : ℤ
  pub top_to_bottom : ℤ
  pub ref_frame : List ℤ

-- The loop over the offsets of a cycle, by those left.
unfoldable pub cycle_loop : ℕ → Read (List ℤ)
cycle_loop zero = pure []
cycle_loop (suc rounds) = do
  offset ← read_se_golomb_long
  rest ← cycle_loop rounds
  pure (offset ∷ rest)

unfoldable pub decode_cycle : Read SpsOrder
decode_cycle = do
  flag ← read_bit
  non_ref ← read_se_golomb_long
  top_to_bottom ← read_se_golomb_long
  cycle_length ← read_ue_golomb_long
  if leb 256 cycle_length then fail invalid_data else do
    offsets ← cycle_loop cycle_length
    pure (record {
      poc_type = 1;
      log2_max_poc_lsb = 0;
      always_zero = flag != 0;
      non_ref = non_ref;
      top_to_bottom = top_to_bottom;
      ref_frame = offsets;
    })

abbrev pub plain_order : ℕ → ℕ → SpsOrder
plain_order poc_type log2 = record {
  poc_type = poc_type;
  log2_max_poc_lsb = log2;
  always_zero = false;
  non_ref = pos 0;
  top_to_bottom = pos 0;
  ref_frame = [];
}

-- The switch on `pocType`.
unfoldable pub decode_poc : Read SpsOrder
decode_poc = do
  poc_type ← read_ue_golomb_31
  if poc_type == 0
      then (do
        t ← read_ue_golomb_31
        if ltb 12 t then fail invalid_data else pure (plain_order 0 (t + 4)))
      else if poc_type == 1
      then decode_cycle
      else if poc_type == 2
      then pure (plain_order 2 0)
      else fail invalid_data
