-- ===== src/BitWriter/RoundTrip.antt =====
-- The bit reader of bitreader.go and golomb.go over what the writer wrote.
use goh.Base.{
  List, ap, arith, drop, drop-length-append, false, length, length-append, length-replicate, refl,
  replicate, suc, sym, zero, ℕ, ◌%◌, ◌*◌, ◌++◌, ◌+◌, ◌-◌, ◌<◌, ◌^◌, ◌∙◌, ◌≡◌, ◌≤◌,
}
use goh.Base.Int.{negsuc, pos, ℤ, ◌≤ℤ◌}
use goh.Base.Words.{len_32, len_from, max_u32}
use goh.Base.Bits.{bit_and_bit}
use goh.Result.{ok}
use goh.BitReader.{BitReader}
use goh.BitWriter.{BitWriter, write_ue_golomb, se_code_num, write_se_golomb}
use goh.BitWriter.Valid.{IsValid}
use goh.BitWriter.Appends.{Appends, Appends-trans, write_ue_golomb-Writes}
use goh.Golomb.{read_ue_golomb_long, se_of_code, read_se_golomb_long}
use goh.BitReader.Unread.{At}
use mathlib.Core.List.{append_assoc}
use mathlib.Core.Path.{ap₂, subst}
use goh.BitReader.Window.{
  drop-window, length-window, window, window-append, window_from, bits_of, length-bits_of,
}
use goh.Golomb.Decode.{read_ue_golomb_long-ue_code}
use goh.Golomb.Code.{ue_code, len_32-HasTop}
use goh.BitWriter.Written.{written}

-- A reader over a buffer, somewhere before its end.
abbrev pub reader_at : List ℕ → ℕ → BitReader
reader_at buf p = record { buf = buf; bit_pos = p; num_bits = length buf * 8; invalid = false }

-- The part of the buffer that was written last.
appended-window :
    (bits : List ℕ) {w w'' : BitWriter}
    → Appends bits w w''
    → window w''.buf w.bit_pos (length bits) ≡ bits
appended-window bits {w} {w''} a =
    window_from w''.buf w.bit_pos (0 + w.bit_pos) (length bits) (w''.bit_pos - w.bit_pos)
      (omega arith) (omega (arith, a.moved))
    ∙ sym (drop-window w''.buf 0 w.bit_pos w''.bit_pos (omega (arith, a.moved)))
    ∙ ap (drop w.bit_pos) a.content
    ∙ ap (λ n. drop n (written w ++ bits)) (sym (length-window w.buf 0 w.bit_pos))
    ∙ drop-length-append (written w) bits

-- The bits in the buffer behind the last one written: padding of the last byte.
abbrev padding : BitWriter → List ℕ
padding w = window w.buf w.bit_pos (length w.buf * 8 - w.bit_pos)

buffer_room : {w : BitWriter} → IsValid w → w.bit_pos ≤ length w.buf * 8
buffer_room v = omega (arith, v.sized)

-- A reader placed where writing went on sees the bits written from there.
reader_at-At :
    (bits : List ℕ) {w w'' : BitWriter}
    → Appends bits w w''
    → length w''.buf * 8 < 2 ^ 31
    → At (bits ++ padding w'') (reader_at w''.buf w.bit_pos)
reader_at-At bits {w} {w''} a small =
    let room = buffer_room a.valid in
    let total = length w''.buf * 8 in
    record {
      valid = record {
        usable = refl;
        short = small;
        within = omega arith;
        reached = omega (arith, a.moved);
      };
      unread =
          window_from w''.buf w.bit_pos w.bit_pos (total - w.bit_pos)
            (length bits + (total - w''.bit_pos)) refl (omega (arith, a.moved))
          ∙ window-append w''.buf w.bit_pos (length bits) (total - w''.bit_pos)
          ∙ ap₂ ◌++◌ (appended-window bits a)
              (ap (λ p. window w''.buf p (total - w''.bit_pos)) (sym a.moved));
    }

-- What `WriteUEGolomb` wrote, `readUEGolombLong` reads at the same place, whatever was written
-- before it and `more` behind it, and stops where the next code begins. The number is below
-- 2 ^ 32 - 1, the code had room, and the buffer stays below 2 ^ 31 bits.
pub read_ue-write_ue :
    (v : ℕ) (more : List ℕ) {w w'' : BitWriter}
    → IsValid w
    → v < 2 ^ 32 - 1
    → w.bit_pos + length (ue_code v) ≤ max_u32
    → Appends more (write_ue_golomb v w).1 w''
    → length w''.buf * 8 < 2 ^ 31
    → read_ue_golomb_long (reader_at w''.buf w.bit_pos)
      ≡ (ok v, reader_at w''.buf (write_ue_golomb v w).1.bit_pos)
read_ue-write_ue v more {w} {w''} i h room b small =
    let (w', e, a) = write_ue_golomb-Writes v i h room in
    let b' : Appends more w' w'' = subst (λ p. Appends more p.1 w'') e b in
    rw e (
      read_ue_golomb_long-ue_code v (more ++ padding w'') h (
        subst (λ l. At l (reader_at w''.buf w.bit_pos))
          (append_assoc (ue_code v) more (padding w''))
          (reader_at-At (ue_code v ++ more) (Appends-trans a b') small))
      ∙ ap (λ p. (ok v, reader_at w''.buf p)) (sym a.moved))

-- `WriteSEGolomb` writes an int32 above -2 ^ 31 as the code number from which
-- `readSEGolombLong` computes it back.
pub se_of_code-se_code_num :
    (v : ℤ)
    → negsuc (2 ^ 31 - 2) ≤ℤ v
    → v ≤ℤ pos (2 ^ 31 - 1)
    → (c : ℕ) × (se_code_num v ≡ pos c) × (c < 2 ^ 32 - 1) × (se_of_code c ≡ v)
unfolding se_code_num se_of_code
se_of_code-se_code_num (pos zero) lo hi = (0, ground arith, ground arith, ground arith)
se_of_code-se_code_num (pos (suc n)) lo hi =
    (2 * n + 1, ground arith, ground arith, ground (arith, bit_and_bit (2 * n + 1)))
se_of_code-se_code_num (negsuc n) lo hi =
    (2 * n + 2, ground arith, ground arith, ground (arith, bit_and_bit (2 * n + 2)))

length-ue_code_le : (v : ℕ) → v < 2 ^ 32 - 1 → length (ue_code v) ≤ 63
unfolding len_32
length-ue_code_le v h =
    let t = len_32-HasTop (v + 1) (omega arith) (omega arith) in
    omega (
      arith,
      t.width,
      t.below,
      length-append (replicate (len_from 32 (v + 1) - 1) 0) (bits_of (len_from 32 (v + 1)) (v + 1)),
      length-replicate {A = ℕ} (len_from 32 (v + 1) - 1) 0,
      length-bits_of (len_from 32 (v + 1)) (v + 1),
    )

write_se_golomb_eq :
    (v : ℤ) (c : ℕ) (w : BitWriter)
    → se_code_num v ≡ pos c
    → c < 2 ^ 32 - 1
    → write_se_golomb v w ≡ write_ue_golomb c w
unfolding write_se_golomb
write_se_golomb_eq v c w e h =
    let same : c % 2 ^ 32 ≡ c = omega arith in rw (e, same) (ground arith)

read_se_golomb_eq :
    (c : ℕ) (r r' : BitReader)
    → read_ue_golomb_long r ≡ (ok c, r')
    → read_se_golomb_long r ≡ (ok (se_of_code c), r')
unfolding read_se_golomb_long
read_se_golomb_eq c r r' e = rw e

-- The same of the signed codes: an int32 other than -2 ^ 31, written with 63 bits to spare,
-- is read back where it was written.
pub read_se-write_se :
    (v : ℤ) (more : List ℕ) {w w'' : BitWriter}
    → IsValid w
    → negsuc (2 ^ 31 - 2) ≤ℤ v
    → v ≤ℤ pos (2 ^ 31 - 1)
    → w.bit_pos + 63 ≤ max_u32
    → Appends more (write_se_golomb v w).1 w''
    → length w''.buf * 8 < 2 ^ 31
    → read_se_golomb_long (reader_at w''.buf w.bit_pos)
      ≡ (ok v, reader_at w''.buf (write_se_golomb v w).1.bit_pos)
read_se-write_se v more {w} {w''} i lo hi room b small =
    let (c, e, below, back) = se_of_code-se_code_num v lo hi in
    let same = write_se_golomb_eq v c w e below in
    let b' : Appends more (write_ue_golomb c w).1 w'' = subst (λ p. Appends more p.1 w'') same b in
    rw same (
      read_se_golomb_eq c _ _
        (read_ue-write_ue c more i below (omega (arith, length-ue_code_le c below)) b' small)
      ∙ ap (λ z. (ok z, reader_at w''.buf (write_ue_golomb c w).1.bit_pos)) back)
