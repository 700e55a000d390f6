-- ===== src/Slice/Reordering.antt =====
-- internal/h264/slice.go: the modifications that `decodeRefPicListReordering` reads.
use goh.Base.{
  All, Bool, List, [], arith, inl, inr, leb, length, ltb, not, refl, suc, zero, ℕ, ◌+◌, ◌<◌, ◌==◌,
  ◌||◌, ◌≡◌, ◌≤◌, ◌⊎◌,
}
use goh.Golomb.Safe.{IsUe, read_ue_golomb_31-Reads, read_ue_golomb_long-Reads}
use goh.BitReader.Safe.{
  Reads, Reads-bind, Reads-fail, Reads-if, Reads-pure, Reads-weaken, read_bit-Reads,
}
use goh.Slice.{RefCounts, decode_ref_pic_list_reordering, list_mods, ref_mods_loop}
use goh.Dpb.RefMods.{RefModification, max_ref_mods}
use goh.Result.{invalid_data}

-- No more operations than the list has entries, nor than the array has places, each of a known kind.
pub record IsMods (count : ℕ) (mods : List RefModification) : Type 0 where
  pub fits : length mods ≤ count
  pub few : length mods ≤ max_ref_mods
  pub known : All (λ m. m.op ≤ 2) mods

record IsModsFrom (index count rounds : ℕ) (mods : List RefModification) : Type 0 where
  fits : (length mods ≡ 0) ⊎ (index + length mods ≤ count)
  few : length mods ≤ rounds
  known : All (λ m. m.op ≤ 2) mods

no_mods-IsModsFrom : (index count rounds : ℕ) → IsModsFrom index count rounds []
no_mods-IsModsFrom index count rounds = record { fits = inl refl; few = omega arith; known = tt }

ref_mods_loop-Reads :
    (rounds index count : ℕ)
    → Reads (IsModsFrom index count rounds) (ref_mods_loop rounds index count)
unfolding ref_mods_loop
ref_mods_loop-Reads zero index count = Reads-bind IsUe _ read_ue_golomb_31-Reads (λ op h.
    Reads-if _ (op == 3) (λ e. Reads-pure _ [] (no_mods-IsModsFrom index count 0))
      (λ e. Reads-fail _ invalid_data))
ref_mods_loop-Reads (suc rounds) index count = Reads-bind IsUe _ read_ue_golomb_31-Reads (λ op h.
    Reads-if _ (op == 3) (λ e. Reads-pure _ [] (no_mods-IsModsFrom index count (suc rounds)))
      (λ e.
        Reads-if _ (leb count index || ltb 2 op) (λ bad. Reads-fail _ invalid_data)
          (λ good. Reads-bind IsUe _ read_ue_golomb_long-Reads (λ val hv.
            Reads-bind (IsModsFrom (index + 1) count rounds) _
              (ref_mods_loop-Reads rounds (index + 1) count)
              (λ rest hr. Reads-pure _ _ (record {
                fits = inr (ground (arith, good, hr.fits));
                few = omega (arith, hr.few);
                known = (ground (arith, good), hr.known);
              }))))))

list_mods-Reads : (present : Bool) (count : ℕ) → Reads (IsMods count) (list_mods present count)
unfolding list_mods
list_mods-Reads present count =
    Reads-if (IsMods count) (not present) (λ e. Reads-pure _ [] nothing)
      (λ e.
        Reads-bind (λ b. b < 2) _ read_bit-Reads
          (λ flag h.
            Reads-if _ (flag == 0) (λ z. Reads-pure _ [] nothing)
              (λ z.
                Reads-weaken (IsModsFrom 0 count max_ref_mods) _
                  (ref_mods_loop-Reads max_ref_mods 0 count)
                  (λ mods hm. record {
                    fits = omega (arith, hm.fits);
                    few = hm.few;
                    known = hm.known;
                  }))))
  where
    nothing : IsMods count []
    nothing = record { fits = omega arith; few = omega arith; known = tt }

pub decode_ref_pic_list_reordering-Reads :
    (c : RefCounts)
    → Reads
        (λ mods. IsMods c.count_0 mods.0 × IsMods c.count_1 mods.1)
        (decode_ref_pic_list_reordering c)
unfolding decode_ref_pic_list_reordering
decode_ref_pic_list_reordering-Reads c =
    Reads-bind (IsMods c.count_0) _ (list_mods-Reads (ltb 0 c.list_count) c.count_0) (λ m h.
      Reads-bind (IsMods c.count_1) _ (list_mods-Reads (ltb 1 c.list_count) c.count_1)
        (λ n k. Reads-pure _ (m, n) (h, k)))
