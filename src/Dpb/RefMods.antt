-- ===== src/Dpb/RefMods.antt =====
-- internal/h264/simple_dpb.go: the modifications of a reference list that a slice header carries,
-- `applyRefModificationsEntriesInto`.
pub mod Named
pub mod Applied
use goh.Base.{
  Bool, List, Option, [], bit_and, false, if◌then◌else◌, leb, length, ltb, none, not, replicate,
  some, suc, true, zero, ℕ, ◌&&◌, ◌++◌, ◌+◌, ◌-◌, ◌==◌, ◌^◌, ◌||◌, ◌∷◌,
}
use goh.Base.Int.{pos, ℤ, ◌==ℤ◌}
use goh.Base.Words.{u32}
use goh.Result.{◌>>=◌, ◌>>◌, Result, err, invalid_data, ok, reject, unsupported}
use goh.Dpb.{
  Dpb, Frame, FrameId, max_int32, max_long_refs, picture_bottom_field, picture_frame,
  picture_top_field,
}
use goh.Dpb.Refs.{
  find_long_by_index, find_short_by_frame_num_and_structure, frame_has_reference_structure,
  pic_num_extract,
}
use goh.BitReader.Valid.{left}

-- `simpleRefEntry`; the zero value has no frame.
pub record RefEntry : Type 0 where
  pub frame : Option FrameId
  pub pic_id : ℕ
  pub is_long : Bool
  pub picture_structure : ℕ
  pub poc : ℤ

abbrev pub no_entry : RefEntry
no_entry = record { frame = none; pic_id = 0; is_long = false; picture_structure = 0; poc = pos 0 }

pub record RefModification : Type 0 where
  pub op : ℕ
  pub val : ℕ

-- The fields of `SliceHeader` that one list depends on. `modifications` holds the first
-- `NBRefModifications` of the list, and `ref_count` its `RefCount`.
pub record ListHeader : Type 0 where
  pub picture_structure : ℕ
  pub ref_count : ℕ
  pub curr_pic_num : ℕ
  pub max_pic_num : ℕ
  pub modifications : List RefModification

abbrev pub max_ref_mods : ℕ
max_ref_mods = 32

-- `simpleFrameCurrentPOC`
unfoldable pub frame_current_poc : Frame → ℕ → Result ℤ
frame_current_poc frame structure =
    if structure == picture_frame
    then ok frame.poc
    else if structure == picture_top_field
    then (if frame.top_poc ==ℤ max_int32 then err invalid_data else ok frame.top_poc)
    else if structure == picture_bottom_field
    then (if frame.bottom_poc ==ℤ max_int32 then err invalid_data else ok frame.bottom_poc)
    else err invalid_data

unfoldable pub find_long_by_index_and_structure : ℕ → ℕ → Dpb → Option FrameId
find_long_by_index_and_structure i structure d = elim (find_long_by_index i d) [
  | none ↦ none
  | some f ↦ if frame_has_reference_structure f structure d then some f else none
]

-- What a modification names: the number that the next one counts from, `picID`, `isLong`, `ref`.
pub record Target : Type 0 where
  pub pred : ℕ
  pub pic_id : ℕ
  pub is_long : Bool
  pub ref : Option FrameId

-- The case of a long-term reference.
unfoldable pub long_target : ListHeader → Dpb → ℕ → ℕ → Result Target
long_target sh d pred val =
    let (long_idx, structure) = pic_num_extract sh.picture_structure val in
    let ref = find_long_by_index_and_structure long_idx structure d in
    if ltb 31 long_idx
    then err invalid_data
    else ok (record {
      pred = pred;
      pic_id = val;
      is_long = true;
      ref = if ltb long_idx max_long_refs then ref else none;
    })

-- The case of a short-term reference, a `uint32` difference before or behind the last one.
unfoldable pub short_target : ListHeader → Dpb → ℕ → RefModification → Result Target
short_target sh d pred m =
    let abs_diff_pic_num = u32 (m.val + 1) in
    let moved =
      if m.op == 0
      then u32 (pred + (2 ^ 32 - abs_diff_pic_num))
      else u32 (pred + abs_diff_pic_num) in
    let pic_num = bit_and moved (sh.max_pic_num - 1) in
    let (frame_num, structure) = pic_num_extract sh.picture_structure pic_num in
    if ltb sh.max_pic_num abs_diff_pic_num
    then err invalid_data
    else ok (record {
      pred = pic_num;
      pic_id = pic_num;
      is_long = false;
      ref = find_short_by_frame_num_and_structure frame_num structure d;
    })

-- The entry for a frame that was found.
unfoldable pub entry_of : ListHeader → Dpb → Target → Result RefEntry
entry_of sh d t = elim t.ref [
  | none ↦ err invalid_data
  | some f ↦
      let structure =
        if sh.picture_structure == picture_frame
        then picture_frame
        else (pic_num_extract sh.picture_structure t.pic_id).1 in
      frame_current_poc (d.frames f) structure >>= λ poc. ok (record {
        frame = some f;
        pic_id = t.pic_id;
        is_long = t.is_long;
        picture_structure = structure;
        poc = poc;
      })
]

-- One modification: the number for the next one, and the entry.
unfoldable pub modification : ListHeader → Dpb → ℕ → RefModification → Result (ℕ × RefEntry)
modification sh d pred m =
    reject (ltb 2 m.op) unsupported
    >> (if m.op == 2 then long_target sh d pred m.val else short_target sh d pred m)
    >>= λ t. entry_of sh d t >>= λ entry. ok (t.pred, entry)

abbrev pub has_frame : RefEntry → Bool
has_frame e = elim e.frame [ none ↦ false | some f ↦ true ]

-- `list[i].frame != nil && list[i].long == isLong && list[i].picID == picID`
abbrev pub same_picture : RefEntry → RefEntry → Bool
same_picture entry x =
    has_frame x
    && ((if entry.is_long then x.is_long else not x.is_long) && (x.pic_id == entry.pic_id))

-- The entries from the new one's place on: the first of `left` that names the same picture goes,
-- or else the one behind these.
abbrev pub drop_same : ℕ → RefEntry → List RefEntry → List RefEntry
drop_same left entry [] = []
drop_same zero entry (x ∷ xs) = xs
drop_same (suc left) entry (x ∷ xs) =
    let rest = drop_same left entry xs in if same_picture entry x then xs else x ∷ rest

-- The entries between the new one's place and that of the one which goes move up by one.
unfoldable pub put_entry : ℕ → ℕ → RefEntry → List RefEntry → List RefEntry
put_entry zero left entry list = entry ∷ drop_same left entry list
put_entry (suc i) left entry [] = []
put_entry (suc i) left entry (x ∷ xs) = x ∷ put_entry i left entry xs

-- The loop over the modifications, from `i` on.
unfoldable pub mods_loop :
    ListHeader → Dpb → ℕ → ℕ → List RefModification → List RefEntry → Result (List RefEntry)
mods_loop sh d i pred [] list = ok list
mods_loop sh d i pred (m ∷ ms) list =
    reject (leb sh.ref_count i || leb max_ref_mods i) invalid_data
    >> (modification sh d pred m >>= λ r.
        mods_loop sh d (i + 1) r.0 ms (put_entry i (sh.ref_count - 1 - i) r.1 list))

-- The loop at the end, over the first `n` entries: one without a frame becomes the default.
unfoldable pub fill_first : ℕ → RefEntry → List RefEntry → List RefEntry
fill_first zero default_ref list = []
fill_first (suc n) default_ref [] = []
fill_first (suc n) default_ref (x ∷ xs) =
    (if has_frame x then x else default_ref) ∷ fill_first n default_ref xs

unfoldable pub apply_ref_modifications : ListHeader → Dpb → List RefEntry → Result (List RefEntry)
apply_ref_modifications sh d [] = err invalid_data
apply_ref_modifications sh d (default_ref ∷ list) =
    let padded =
      (default_ref ∷ list) ++ replicate (sh.ref_count - length (default_ref ∷ list)) no_entry in
    reject (sh.ref_count == 0) invalid_data
    >> (reject (sh.max_pic_num == 0) invalid_data
        >> (mods_loop sh d 0 sh.curr_pic_num sh.modifications padded >>= λ l.
            ok (fill_first sh.ref_count default_ref l)))
