-- ===== src/BitWriter/Stuck.antt =====
-- The one state in which the loops to a byte boundary do not end.
use goh.Base.{arith, false, none, refl, suc, zero, ℕ, ◌≡◌}
use goh.Base.Words.{max_u32}
use goh.Base.Bits.{bit_and_octet}
use goh.BitWriter.{BitWriter, write_bit, align_loop, write_zero_align}

full_stays : (bit : ℕ) (w : BitWriter) → w.bit_pos ≡ max_u32 → (write_bit bit w).bit_pos ≡ max_u32
unfolding write_bit
full_stays bit w h = ground arith

align_loop_stuck : (rounds : ℕ) (w : BitWriter) → w.bit_pos ≡ max_u32 → align_loop rounds w ≡ none
unfolding align_loop
align_loop_stuck zero w h = refl
align_loop_stuck (suc rounds) w h =
    ground
      (arith, bit_and_octet w.bit_pos, align_loop_stuck rounds (write_bit 0 w) (full_stays 0 w h))

-- At position 2 ^ 32 - 1, which is not on a byte boundary, no number of rounds ends the loop of
-- `WriteZeroAlign`: `WriteBit` marks the writer invalid and does not move.
pub write_zero_align_stuck :
    (rounds : ℕ) (w : BitWriter)
    → w.invalid ≡ false
    → w.bit_pos ≡ max_u32
    → (align_loop rounds w ≡ none) × (write_zero_align w ≡ none)
unfolding write_zero_align
write_zero_align_stuck rounds w u h =
    (align_loop_stuck rounds w h, ground (arith, align_loop_stuck 9 w h))
