-- ===== src/Slice/Counts.antt =====
-- internal/h264/slice.go: the range of the counts that `parseRefCount` sets.
use goh.Base.{
  ==_iff, Bool, arith, false, if◌then◌else◌, inl, inr, ltb, true, ℕ, ◌&&◌, ◌+◌, ◌<◌, ◌==◌, ◌^◌,
  ◌||◌, ◌≡◌, ◌≤◌, ◌⊎◌,
}
use goh.Base.Words.{u32}
use goh.Golomb.Safe.{IsUe, read_ue_golomb_long-Reads}
use goh.BitReader.Safe.{Reads, Reads-bind, Reads-fail, Reads-if, Reads-pure, read_bit-Reads}
use goh.Slice.{
  RefCounts, before, check_counts, override_counts, parse_ref_count, picture_type_b, picture_type_i,
  read_count,
}
use goh.Result.{invalid_data}
use goh.Dpb.{picture_frame}

-- A slice that is not intra has references, a B slice on both sides, and no list is longer than
-- `limit`.
pub record IsCounts (kind limit : ℕ) (c : RefCounts) : Type 0 where
  pub some_0 : (kind ≡ picture_type_i) ⊎ (1 ≤ c.count_0)
  pub some_1 : (c.list_count ≤ 1) ⊎ (1 ≤ c.count_1)
  pub most_0 : c.count_0 ≤ limit
  pub most_1 : c.count_1 ≤ limit

abbrev pub limit_of : ℕ → ℕ
limit_of structure = if structure == picture_frame then 16 else 32

Both : ℕ × ℕ → Type 0
Both c = (c.0 < 2 ^ 32) × (c.1 < 2 ^ 32)

read_count-Reads : Reads (λ n. n < 2 ^ 32) read_count
read_count-Reads =
    Reads-bind IsUe (λ n. n < 2 ^ 32) read_ue_golomb_long-Reads
      (λ n h. Reads-pure (λ n. n < 2 ^ 32) (u32 (n + 1)) (omega arith))

override_counts-Reads :
    (override kind pps_0 pps_1 : ℕ)
    → pps_0 < 2 ^ 32
    → pps_1 < 2 ^ 32
    → Reads Both (override_counts override kind pps_0 pps_1)
unfolding override_counts Both
override_counts-Reads override kind pps_0 pps_1 h_0 h_1 =
    Reads-if Both (override == 0) (λ e. Reads-pure Both (pps_0, pps_1) (h_0, h_1))
      (λ e.
        Reads-bind (λ n. n < 2 ^ 32) Both read_count-Reads
          (λ n hn.
            Reads-bind (λ n. n < 2 ^ 32) Both
              (Reads-if (λ n. n < 2 ^ 32) (kind == picture_type_b) (λ b. read_count-Reads)
                (λ b. Reads-pure (λ n. n < 2 ^ 32) 1 (omega arith)))
              (λ m hm. Reads-pure Both (n, m) (hn, hm))))

check_counts-Reads :
    (kind max : ℕ) (c : ℕ × ℕ)
    → max < 32
    → Both c
    → Reads (IsCounts kind (max + 1)) (check_counts kind max c)
unfolding check_counts Both
check_counts-Reads kind max (count_0, count_1) small h =
    Reads-if (IsCounts kind (max + 1))
      (ltb max (before count_0) || ((kind == picture_type_b) && ltb max (before count_1)))
      (λ e. Reads-fail _ invalid_data)
      (λ e. Reads-pure _ _ (record {
        some_0 = inr (ground (arith, e, h.0));
        some_1 = ground (arith, e, h.1);
        most_0 = ground (arith, e, h.0);
        most_1 = ground (arith, e, h.1);
      }))

pub parse_ref_count-Reads :
    (pps_0 pps_1 kind structure : ℕ)
    → pps_0 < 2 ^ 32
    → pps_1 < 2 ^ 32
    → Reads (IsCounts kind (limit_of structure)) (parse_ref_count pps_0 pps_1 kind structure)
unfolding parse_ref_count
parse_ref_count-Reads pps_0 pps_1 kind structure h_0 h_1 =
    Reads-if (IsCounts kind (limit_of structure)) (kind == picture_type_i)
      (λ e. Reads-pure _ _ (record {
        some_0 = inl ((==_iff kind picture_type_i).0 e);
        some_1 = inl (omega arith);
        most_0 = omega arith;
        most_1 = omega arith;
      }))
      (λ e.
        Reads-bind (λ b. b < 2) _ read_bit-Reads
          (λ b hb.
            Reads-bind Both _ (override_counts-Reads b kind pps_0 pps_1 h_0 h_1)
              (λ c hc. by_structure (structure == picture_frame) c hc)))
  where
    by_structure :
        (frame : Bool) (c : ℕ × ℕ)
        → Both c
        → Reads
            (IsCounts kind (if frame then 16 else 32))
            (check_counts kind (if frame then 15 else 31) c)
    by_structure true c hc = check_counts-Reads kind 15 c (omega arith) hc
    by_structure false c hc = check_counts-Reads kind 31 c (omega arith) hc
