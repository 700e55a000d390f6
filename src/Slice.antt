-- ===== src/Slice.antt =====
-- internal/h264/slice.go: the parts of a slice header. A part is a read that returns the fields it
-- sets; what an error leaves in the header is not modelled.
pub mod Counts
pub mod Reordering
pub mod Marking
pub mod Control
pub mod Weights
pub mod Header
use goh.Base.{
  Bool, List, [], bit_and, false, if◌then◌else◌, leb, ltb, not, suc, true, zero, ℕ, ◌!=◌, ◌&&◌, ◌+◌,
  ◌-◌, ◌==◌, ◌^◌, ◌||◌, ◌∷◌,
}
use goh.Base.Words.{u32}
use goh.BitReader.{◌>>=◌, Read, fail, pure, read_bit, skip_bits}
use goh.Dpb.{
  Mmco, Opcode, current_to_long, long_to_unused, mmco_end, other, picture_frame, reset_all,
  set_max_long, short_to_long, short_to_unused,
}
use goh.Dpb.RefMods.{RefModification, max_ref_mods}
use goh.Dpb.Output.Flush.{count}
use goh.Result.{index, invalid_data}
use goh.Golomb.{read_ue_golomb_31, read_ue_golomb_long}

abbrev pub picture_type_i : ℕ
picture_type_i = 1

abbrev pub picture_type_p : ℕ
picture_type_p = 2

abbrev pub picture_type_b : ℕ
picture_type_b = 3

-- `RefCount` and `ListCount`
pub record RefCounts : Type 0 where
  pub count_0 : ℕ
  pub count_1 : ℕ
  pub list_count : ℕ

-- `n - 1` of a `uint32`
abbrev pub before : ℕ → ℕ
before n = u32 (n + (2 ^ 32 - 1))

-- `refCount + 1`, read
abbrev pub read_count : Read ℕ
read_count = do n ← read_ue_golomb_long; pure (u32 (n + 1))

-- The counts behind the flag `override`.
unfoldable pub override_counts : ℕ → ℕ → ℕ → ℕ → Read (ℕ × ℕ)
override_counts override kind pps_0 pps_1 = if override == 0 then pure (pps_0, pps_1) else do
  count_0 ← read_count
  count_1 ← if kind == picture_type_b then read_count else pure 1
  pure (count_0, count_1)

-- The end of `parseRefCount`; `max` is `max0` and `max1`.
unfoldable pub check_counts : ℕ → ℕ → ℕ × ℕ → Read RefCounts
check_counts kind max (count_0, count_1) =
    if ltb max (before count_0) || ((kind == picture_type_b) && ltb max (before count_1))
    then fail invalid_data
    else pure (record {
      count_0 = count_0;
      count_1 = if ltb max (before count_1) then 0 else count_1;
      list_count = if kind == picture_type_b then 2 else 1;
    })

-- `parseRefCount`, with the counts of the picture parameter set.
unfoldable pub parse_ref_count : ℕ → ℕ → ℕ → ℕ → Read RefCounts
parse_ref_count pps_0 pps_1 kind structure =
    if kind == picture_type_i
    then pure (record { count_0 = 0; count_1 = 0; list_count = 0 })
    else do
      override ← read_bit
      counts ← override_counts override kind pps_0 pps_1
      check_counts kind (if structure == picture_frame then 15 else 31) counts

-- The loop of `decodeRefPicListReordering`, by the rounds before `index` reaches `maxRefMods`: there
-- every operation but the end is an error.
unfoldable pub ref_mods_loop : ℕ → ℕ → ℕ → Read (List RefModification)
ref_mods_loop zero index count = do
  op ← read_ue_golomb_31
  if op == 3 then pure [] else fail invalid_data
ref_mods_loop (suc rounds) index count = do
  op ← read_ue_golomb_31
  if op == 3 then pure [] else if leb count index || ltb 2 op then fail invalid_data else do
    val ← read_ue_golomb_long
    rest ← ref_mods_loop rounds (index + 1) count
    pure (record { op = op; val = val } ∷ rest)

-- The modifications of one list.
unfoldable pub list_mods : Bool → ℕ → Read (List RefModification)
list_mods present count =
    if not present
    then pure []
    else do flag ← read_bit; if flag == 0 then pure [] else ref_mods_loop max_ref_mods 0 count

-- `decodeRefPicListReordering`
unfoldable pub decode_ref_pic_list_reordering :
    RefCounts → Read (List RefModification × List RefModification)
decode_ref_pic_list_reordering counts = do
  mods_0 ← list_mods (ltb 0 counts.list_count) counts.count_0
  mods_1 ← list_mods (ltb 1 counts.list_count) counts.count_1
  pure (mods_0, mods_1)

abbrev pub opcode_of : ℕ → Opcode
opcode_of n =
    if n == 0
    then mmco_end
    else if n == 1
    then short_to_unused
    else if n == 2
    then long_to_unused
    else if n == 3
    then short_to_long
    else if n == 4
    then set_max_long
    else if n == 5
    then reset_all
    else if n == 6
    then current_to_long
    else other

-- `(sh.CurrPicNum - diff - 1) & (sh.MaxPicNum - 1)`, for the operations on short-term references.
unfoldable pub read_short_pic_num : ℕ → ℕ → ℕ → Read ℕ
read_short_pic_num curr_pic_num max_pic_num op =
    if (op == 1) || (op == 3)
    then (do
      diff ← read_ue_golomb_long
      pure (bit_and (before (u32 (curr_pic_num + (2 ^ 32 - diff)))) (before max_pic_num)))
    else pure 0

-- Whether a long-term index is out of range.
abbrev pub bad_long_arg : ℕ → ℕ → ℕ → Bool
bad_long_arg structure op arg =
    leb 32 arg
    || (leb 16 arg
        && (not ((op == 4) && (arg == 16)) && not ((op == 2) && (structure != picture_frame))))

unfoldable pub read_long_arg : ℕ → ℕ → Read ℕ
read_long_arg structure op =
    if (op == 3) || ((op == 2) || ((op == 6) || (op == 4)))
    then (do
      arg ← read_ue_golomb_31
      if bad_long_arg structure op arg then fail invalid_data else pure arg)
    else pure 0

-- What the operations are read against: `PictureStructure`, `CurrPicNum` and `MaxPicNum`.
pub record PicNums : Type 0 where
  pub structure : ℕ
  pub curr_pic_num : ℕ
  pub max_pic_num : ℕ

-- The loop over the operations, by the rounds left of `maxMMCOCount`. The end is not counted.
unfoldable pub mmco_loop : ℕ → PicNums → Read (List Mmco)
mmco_loop zero nums = pure []
mmco_loop (suc rounds) nums = do
  op ← read_ue_golomb_31
  short_pic_num ← read_short_pic_num nums.curr_pic_num nums.max_pic_num op
  long_arg ← read_long_arg nums.structure op
  if ltb 6 op then fail invalid_data else if op == 0 then pure [] else do
    rest ← mmco_loop rounds nums
    pure (
        record { opcode = opcode_of op; short_pic_num = short_pic_num; long_arg = long_arg } ∷ rest)

abbrev pub max_mmco_count : ℕ
max_mmco_count = 67

-- `decodeRefPicMarking`: `ExplicitRefMarking` and the first `NBMMCO` operations.
unfoldable pub decode_ref_pic_marking : Bool → PicNums → Read (Bool × List Mmco)
decode_ref_pic_marking true nums = do
  _ ← skip_bits 1
  long_term_reference_flag ← read_bit
  pure (
    true,
    if long_term_reference_flag != 0
        then record { opcode = current_to_long; short_pic_num = 0; long_arg = 0 } ∷ []
        else [],
  )
decode_ref_pic_marking false nums = do
  explicit ← read_bit
  if explicit == 0
      then pure (false, [])
      else (do ops ← mmco_loop max_mmco_count nums; pure (true, ops))
