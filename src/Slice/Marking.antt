-- ===== src/Slice/Marking.antt =====
-- internal/h264/slice.go and simple_dpb.go: the marking operations of a slice header, from
-- `decodeRefPicMarking` to `applyMMCO`.
use goh.Base.{
  All, Bool, List, [], arith, false, if◌then◌else◌, length, ltb, refl, suc, true, zero, ℕ, ◌!=◌,
  ◌<◌, ◌==◌, ◌||◌, ◌∷◌, ◌≡◌, ◌≤◌,
}
use goh.Golomb.Safe.{IsUe, read_ue_golomb_31-Reads, read_ue_golomb_long-Reads}
use goh.Dpb.{
  Mmco, Opcode, current_to_long, long_to_unused, max_long_refs, mmco_end, other, reset_all,
  set_max_long, short_to_long, short_to_unused,
}
use goh.Slice.{
  PicNums, bad_long_arg, decode_ref_pic_marking, max_mmco_count, mmco_loop, opcode_of,
  read_long_arg, read_short_pic_num,
}
use goh.BitReader.Safe.{
  Reads, Reads-bind, Reads-fail, Reads-if, Reads-pure, read_bit-Reads, skip_bits-Reads,
}
use goh.Result.{invalid_data}
use goh.Dpb.Refs.{pic_num_extract}

-- The long-term index of an operation is one that `applyMMCO` takes.
abbrev pub ArgFits : ℕ → Opcode → ℕ → Type 0
ArgFits structure mmco_end arg = Unit {0}
ArgFits structure short_to_unused arg = Unit {0}
ArgFits structure long_to_unused arg = (pic_num_extract structure arg).0 < max_long_refs
ArgFits structure short_to_long arg = arg < max_long_refs
ArgFits structure set_max_long arg = arg ≤ max_long_refs
ArgFits structure reset_all arg = Unit {0}
ArgFits structure current_to_long arg = arg < max_long_refs
ArgFits structure other arg = ⊥

abbrev pub AllFit : ℕ → List Mmco → Type 0
AllFit structure ops = All (λ m. ArgFits structure m.opcode m.long_arg) ops

ArgFits-read :
    (structure op arg : ℕ)
    → op ≤ 6
    → bad_long_arg structure op arg ≡ false
    → ArgFits structure (opcode_of op) arg
unfolding pic_num_extract
ArgFits-read structure zero arg h e = tt
ArgFits-read structure (suc zero) arg h e = tt
ArgFits-read structure (suc (suc zero)) arg h e = ground (arith, e)
ArgFits-read structure (suc (suc (suc zero))) arg h e = ground (arith, e)
ArgFits-read structure (suc (suc (suc (suc zero)))) arg h e = ground (arith, e)
ArgFits-read structure (suc (suc (suc (suc (suc zero))))) arg h e = tt
ArgFits-read structure (suc (suc (suc (suc (suc (suc zero)))))) arg h e = ground (arith, e)
ArgFits-read structure (suc (suc (suc (suc (suc (suc (suc n))))))) arg h e = absurd (omega arith)

bad_long_arg-zero : (structure op : ℕ) → bad_long_arg structure op 0 ≡ false
bad_long_arg-zero structure op = refl

read_long_arg-Reads :
    (structure op : ℕ)
    → Reads (λ arg. bad_long_arg structure op arg ≡ false) (read_long_arg structure op)
unfolding read_long_arg
read_long_arg-Reads structure op =
    Reads-if _ ((op == 3) || ((op == 2) || ((op == 6) || (op == 4))))
      (λ e. Reads-bind IsUe _ read_ue_golomb_31-Reads (λ arg h.
        Reads-if _ (bad_long_arg structure op arg) (λ bad. Reads-fail _ invalid_data)
          (λ good. Reads-pure _ arg good)))
      (λ e. Reads-pure _ 0 (bad_long_arg-zero structure op))

read_short_pic_num-Reads :
    (curr_pic_num max_pic_num op : ℕ)
    → Reads (λ n. Unit {0}) (read_short_pic_num curr_pic_num max_pic_num op)
unfolding read_short_pic_num
read_short_pic_num-Reads curr_pic_num max_pic_num op =
    Reads-if _ ((op == 1) || (op == 3))
      (λ e. Reads-bind IsUe _ read_ue_golomb_long-Reads (λ diff h. Reads-pure _ _ tt))
      (λ e. Reads-pure _ 0 tt)

abbrev pub IsMarking : ℕ → ℕ → List Mmco → Type 0
IsMarking structure rounds ops = (length ops ≤ rounds) × AllFit structure ops

mmco_loop-Reads :
    (rounds : ℕ) (nums : PicNums) → Reads (IsMarking nums.structure rounds) (mmco_loop rounds nums)
unfolding mmco_loop
mmco_loop-Reads zero nums = Reads-pure _ [] (omega arith, tt)
mmco_loop-Reads (suc rounds) nums = Reads-bind IsUe _ read_ue_golomb_31-Reads (λ op h.
    Reads-bind (λ n. Unit {0}) _ (read_short_pic_num-Reads nums.curr_pic_num nums.max_pic_num op)
      (λ n u.
        Reads-bind (λ arg. bad_long_arg nums.structure op arg ≡ false) _
          (read_long_arg-Reads nums.structure op)
          (λ arg good.
            Reads-if _ (ltb 6 op) (λ e. Reads-fail _ invalid_data)
              (λ e.
                Reads-if _ (op == 0) (λ z. Reads-pure _ [] (omega arith, tt))
                  (λ z.
                    Reads-bind (IsMarking nums.structure rounds) _ (mmco_loop-Reads rounds nums)
                      (λ rest hr. Reads-pure _ _ (
                        omega (arith, hr.0),
                        (ArgFits-read nums.structure op arg (ground (arith, e)) good, hr.1),
                      )))))))

pub decode_ref_pic_marking-Reads :
    (idr : Bool) (nums : PicNums)
    → Reads (λ m. IsMarking nums.structure max_mmco_count m.1) (decode_ref_pic_marking idr nums)
unfolding decode_ref_pic_marking
decode_ref_pic_marking-Reads true nums =
    Reads-bind (λ u. Unit {0}) _ (skip_bits-Reads 1 (omega arith))
      (λ u t.
        Reads-bind (λ b. b < 2) _ read_bit-Reads (λ flag h. Reads-pure _ _ (kept (flag != 0))))
  where
    kept :
        (test : Bool)
        → IsMarking nums.structure max_mmco_count (
            if test
            then record { opcode = current_to_long; short_pic_num = 0; long_arg = 0 } ∷ []
            else [])
    kept true = (omega arith, (omega arith, tt))
    kept false = (omega arith, tt)
decode_ref_pic_marking-Reads false nums =
    Reads-bind (λ b. b < 2) _ read_bit-Reads
      (λ explicit h.
        Reads-if _ (explicit == 0) (λ e. Reads-pure _ (false, []) (omega arith, tt))
          (λ e.
            Reads-bind (IsMarking nums.structure max_mmco_count) _
              (mmco_loop-Reads max_mmco_count nums) (λ ops k. Reads-pure _ (true, ops) k)))
