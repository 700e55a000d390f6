-- ===== src/Dpb.antt =====
-- internal/h264/simple_dpb.go: the buffer of decoded pictures. A picture is shared by pointer: the
-- numbers of type `FrameId` stand for the pointers, and `frames` for what they point to. The
-- receiver, the frame and the slice header are not nil, and neither is an item of `short` or
-- `delayed`, since every append is of a frame that is not.
pub mod Refs
pub mod Control
pub mod Marking
pub mod Output
pub mod Poc
pub mod RefLists
pub mod RefMods
use goh.Base.{Bool, List, Option, if◌then◌else◌, ℕ, ◌-◌, ◌==◌, ◌^◌}
use goh.Base.Int.{negsuc, pos, ℤ}

abbrev pub FrameId : Type 0
FrameId = ℕ

-- The fields of `DecodedFrame` that the buffer reads and writes.
pub record Frame : Type 0 where
  pub frame_num : ℕ
  pub top_poc : ℤ
  pub bottom_poc : ℤ
  pub poc : ℤ
  pub idr_key_frame : Bool
  pub mmco_reset : Bool
  pub recovered : ℕ
  pub invalid_gap : Bool

abbrev pub picture_top_field : ℕ
picture_top_field = 1

abbrev pub picture_bottom_field : ℕ
picture_bottom_field = 2

abbrev pub picture_frame : ℕ
picture_frame = 3

abbrev pub max_short_refs : ℕ
max_short_refs = 16

abbrev pub max_long_refs : ℕ
max_long_refs = 16

abbrev pub max_dpb_frames : ℕ
max_dpb_frames = 16

-- `math.MinInt32` and `math.MaxInt32`
abbrev pub min_int32 : ℤ
min_int32 = negsuc (2 ^ 31 - 1)

abbrev pub max_int32 : ℤ
max_int32 = pos (2 ^ 31 - 1)

-- The opcodes of memory management control operations. `other` stands for an unknown number.
pub data Opcode : Type 0 where
  mmco_end short_to_unused long_to_unused short_to_long : Opcode
  set_max_long reset_all current_to_long other : Opcode

pub record Mmco : Type 0 where
  pub opcode : Opcode
  pub short_pic_num : ℕ
  pub long_arg : ℕ

-- The fields of `SliceHeader` and of its `SPS` that the buffer reads. `mmco` holds the first
-- `NBMMCO` operations.
pub record SliceHeader : Type 0 where
  pub idr : Bool
  pub picture_structure : ℕ
  pub frame_num : ℕ
  pub slice_is_b : Bool
  pub explicit_ref_marking : Bool
  pub mmco : List Mmco
  pub ref_frame_count : ℕ
  pub log2_max_frame_num : ℕ
  pub bitstream_restriction : Bool
  pub num_reorder_frames : ℤ

-- `simplePOCContext`
pub record PocContext : Type 0 where
  pub poc_lsb : ℤ
  pub poc_msb : ℤ
  pub delta_poc_bottom : ℤ
  pub delta_poc_0 : ℤ
  pub delta_poc_1 : ℤ
  pub frame_num : ℤ
  pub prev_poc_msb : ℤ
  pub prev_poc_lsb : ℤ
  pub frame_num_offset : ℤ
  pub prev_frame_num_offset : ℤ
  pub prev_frame_num : ℤ

-- `simpleFrameDPB` without what it keeps for recovery points and for interlaced output; `long` and
-- `last_pocs` are arrays of 16.
pub record Dpb : Type 0 where
  pub frames : FrameId → Frame
  pub short : List FrameId
  pub long : List (Option FrameId)
  pub ref_mask : FrameId → Option ℕ
  pub poc : PocContext
  pub delayed : List FrameId
  pub has_b_frames : ℕ
  pub last_pocs : List ℤ
  pub last_pocs_init : Bool
  pub next_outputed_poc : ℤ
  pub next_outputed_valid : Bool
  pub frame_recovered : ℕ

-- A write through the pointer `f`.
abbrev pub update_frame : FrameId → (Frame → Frame) → Dpb → Dpb
update_frame f change d = record d {
  frames = λ g. if g == f then change (d.frames f) else d.frames g;
}
