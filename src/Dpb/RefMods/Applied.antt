-- ===== src/Dpb/RefMods/Applied.antt =====
-- internal/h264/simple_dpb.go: a whole list with its modifications.
use goh.Base.{
  All, Bool-cases, List, [], ap, arith, false, if◌then◌else◌, inl, inr, length, length-append,
  length-replicate, refl, replicate, suc, sym, true, zero, ℕ, ◌++◌, ◌-◌, ◌<◌, ◌==◌, ◌∙◌, ◌∷◌, ◌≡◌,
  ◌≤◌, ◌⊎◌,
}
use goh.Dpb.{Dpb}
use goh.Dpb.RefMods.Named.{IsFramed, mods_loop-named, named}
use goh.Dpb.RefMods.{
  ListHeader, RefEntry, apply_ref_modifications, fill_first, has_frame, max_ref_mods, no_entry,
}
use goh.Result.{ok}
use mathlib.Core.Path.{subst}

fill_first-append :
    (n : ℕ) (default_ref : RefEntry) (es rest : List RefEntry)
    → length es ≤ n
    → All IsFramed es
    → fill_first n default_ref (es ++ rest) ≡ es ++ fill_first (n - length es) default_ref rest
unfolding fill_first
fill_first-append n default_ref [] rest h a = ap (λ k. fill_first k default_ref rest) (omega arith)
fill_first-append zero default_ref (e ∷ es) rest h a = absurd (omega arith)
fill_first-append (suc n) default_ref (e ∷ es) rest h (a, all_framed) = rw a (
    ap (λ l. e ∷ l)
      (fill_first-append n default_ref es rest (omega arith) all_framed
        ∙ ap (λ k. es ++ fill_first k default_ref rest) (omega arith)))

length-fill_first :
    (n : ℕ) (default_ref : RefEntry) (list : List RefEntry)
    → n ≤ length list
    → length (fill_first n default_ref list) ≡ n
unfolding fill_first
length-fill_first zero default_ref list h = refl
length-fill_first (suc n) default_ref [] h = absurd (omega arith)
length-fill_first (suc n) default_ref (e ∷ es) h =
    ap suc (length-fill_first n default_ref es (omega arith))

fill_first-IsFramed :
    (n : ℕ) (default_ref : RefEntry) (list : List RefEntry)
    → IsFramed default_ref
    → All IsFramed (fill_first n default_ref list)
unfolding fill_first
fill_first-IsFramed zero default_ref list h = tt
fill_first-IsFramed (suc n) default_ref [] h = tt
fill_first-IsFramed (suc n) default_ref (e ∷ es) h =
    (filled (Bool-cases (has_frame e)), fill_first-IsFramed n default_ref es h)
  where
    filled :
        (has_frame e ≡ true) ⊎ (has_frame e ≡ false)
        → IsFramed (if has_frame e then e else default_ref)
    filled (inl t) = rw t t
    filled (inr t) = rw t h

-- If each modification names a frame, the modified list begins with the named entries, one for
-- each modification in their order, has RefCount entries, and each has a frame. RefCount and
-- MaxPicNum are not 0, there are no more than RefCount and no more than 32 modifications, and the
-- first entry of the default list has a frame.
pub apply_ref_modifications-named :
    (sh : ListHeader) (d : Dpb) (default_ref : RefEntry) (list es : List RefEntry)
    → (0 < sh.ref_count) × (0 < sh.max_pic_num)
    → (length sh.modifications ≤ sh.ref_count) × (length sh.modifications ≤ max_ref_mods)
    → IsFramed default_ref
    → named sh d sh.curr_pic_num sh.modifications ≡ ok es
    → (rest : List RefEntry) × (apply_ref_modifications sh d (default_ref ∷ list) ≡ ok (es ++ rest))
      × (length es ≡ length sh.modifications)
      × (length (es ++ rest) ≡ sh.ref_count)
      × All IsFramed (es ++ rest)
unfolding apply_ref_modifications
apply_ref_modifications-named sh d default_ref list es (some_refs, some_nums) (fits, few)
      first_framed h =
    let padded =
      (default_ref ∷ list) ++ replicate (sh.ref_count - length (default_ref ∷ list)) no_entry in
    let refs_test : (sh.ref_count == 0) ≡ false = ground (arith, some_refs) in
    let nums_test : (sh.max_pic_num == 0) ≡ false = ground (arith, some_nums) in
    let size : sh.ref_count ≤ length padded = omega (
      arith,
      length-append (default_ref ∷ list)
          (replicate (sh.ref_count - length (default_ref ∷ list)) no_entry),
      length-replicate (sh.ref_count - length (default_ref ∷ list)) no_entry,
    ) in
    let (rest, run, same_length, total, es_framed) =
      mods_loop-named sh d sh.modifications sh.curr_pic_num [] padded es (omega (arith, fits))
        (omega (arith, few)) (omega (arith, size)) h in
    let filled =
      fill_first-append sh.ref_count default_ref es rest (omega (arith, fits, same_length))
        es_framed in
    (
      fill_first (sh.ref_count - length es) default_ref rest,
      rw (refs_test, nums_test, run) (ap ok filled),
      same_length,
      ap length (sym filled)
          ∙ length-fill_first sh.ref_count default_ref (es ++ rest)
              (omega (arith, length-append es rest, total, size)),
      subst (All IsFramed) filled
          (fill_first-IsFramed sh.ref_count default_ref (es ++ rest) first_framed),
    )
