-- ===== src/Params/Tables/Range.antt =====
-- internal/h264/pps.go: the range of the tables of chroma QPs.
use goh.Base.{
  All, List, [], arith, length, length-set, ltb, lt→ltb, refl, replicate, set, suc, true, zero, ℕ,
  ◌*◌, ◌+◌, ◌-◌, ◌<◌, ◌^◌, ◌||◌, ◌∙◌, ◌∷◌, ◌≡◌, ◌≤◌,
}
use goh.Base.Int.{negsuc, pos, ℤ, ◌+ℤ◌}
use goh.Base.Words.{pattern_of, u8, wrap}
use goh.Result.{◌>>=◌, Result, err, index, ok, panic}
use goh.BitReader.Safe.{Yields, Yields-if}
use goh.Params.Scaling.Factors.{between, between-All, index-All}
use goh.Params.Tables.{chroma_qp, chroma_qp_base, clip_int32, build_qp_table, qp_table_loop, store}
use goh.Params.{max_qp, qp_max_num}
use goh.Params.Valid.{IsQpTable}

base_fits : between 0 39 chroma_qp_base ≡ true
base_fits = refl

chroma_qp-Yields :
    (depth qp : ℕ)
    → 8 ≤ depth
    → depth ≤ 14
    → qp ≤ max_qp depth
    → Yields (λ q. q ≤ max_qp depth) (chroma_qp depth qp)
unfolding chroma_qp
chroma_qp-Yields depth qp lo hi h =
    Yields-if _ (ltb depth 8 || ltb 14 depth) _ _ (λ e. omega arith)
      (λ e.
        Yields-if _ (ltb qp ((depth - 8) * 6)) _ _ (λ small. ground (arith, small, hi))
          (λ large. by (index chroma_qp_base (qp - (depth - 8) * 6)) (
            index-All (λ q. (0 ≤ q) × (q ≤ 39)) chroma_qp_base (qp - (depth - 8) * 6)
              (omega (arith, h, lo)) (between-All 0 39 chroma_qp_base base_fits))))
  where
    by :
        (x : Result ℕ)
        → Yields (λ q. (0 ≤ q) × (q ≤ 39)) x
        → Yields (λ q. q ≤ max_qp depth) (x >>= λ b. ok (u8 (b + (depth - 8) * 6)))
    by (ok b) k = omega (arith, k, lo, hi)
    by (err e) k = tt
    by panic k = k

clip-below : (v : ℤ) (top : ℕ) → top < 2 ^ 32 → pattern_of 32 (clip_int32 v (pos 0) (pos top)) ≤ top
unfolding clip_int32
clip-below (pos n) top h = ground (arith, h)
clip-below (negsuc n) top h = ground (arith, h)

All-store : (P : ℕ → Type 0) (xs : List ℕ) (i x : ℕ) → All P xs → P x → All P (set xs i x)
All-store P [] i x h k = tt
All-store P (y ∷ ys) zero x (h, hs) k = (k, hs)
All-store P (y ∷ ys) (suc i) x (h, hs) k = (h, All-store P ys i x hs k)

store_qp-Yields :
    (depth : ℕ) (table : List ℕ) (i q : ℕ)
    → i < qp_max_num + 1
    → q ≤ max_qp depth
    → IsQpTable depth table
    → Yields (IsQpTable depth) (store table i q)
store_qp-Yields depth table i q h k v =
    rw (lt→ltb i (length table) (omega (arith, h, v.0)))
      (length-set table i q ∙ v.0, All-store _ table i q v.1 k)

pub bind-Yields :
    {A B : Type 0} (Q : A → Type 0) (P : B → Type 0) (x : Result A) (f : A → Result B)
    → Yields Q x
    → ((a : A) → Q a → Yields P (f a))
    → Yields P (x >>= f)
bind-Yields Q P (ok a) f h k = k a h
bind-Yields Q P (err e) f h k = tt
bind-Yields Q P panic f h k = h

qp_table_loop-Yields :
    (rounds i depth : ℕ) (offset : ℤ) (table : List ℕ)
    → 8 ≤ depth
    → depth ≤ 14
    → rounds + i ≤ qp_max_num + 1
    → IsQpTable depth table
    → Yields (IsQpTable depth) (qp_table_loop rounds i depth offset table)
unfolding qp_table_loop
qp_table_loop-Yields zero i depth offset table lo hi h v = v
qp_table_loop-Yields (suc rounds) i depth offset table lo hi h v =
    let clipped = clip_int32 (wrap 32 (pos i +ℤ offset)) (pos 0) (pos (max_qp depth)) in
    bind-Yields (λ q. q ≤ max_qp depth) _ (chroma_qp depth (pattern_of 32 clipped)) _
      (chroma_qp-Yields depth (pattern_of 32 clipped) lo hi
        (clip-below (wrap 32 (pos i +ℤ offset)) (max_qp depth) (omega (arith, hi))))
      (λ q hq.
        bind-Yields (IsQpTable depth) _ (store table i q) _
          (store_qp-Yields depth table i q (omega (arith, h)) hq v)
          (λ table' v'.
            qp_table_loop-Yields rounds (i + 1) depth offset table' lo hi (omega (arith, h)) v'))

zeros : (depth n : ℕ) → All (λ q. q ≤ max_qp depth) (replicate n 0)
zeros depth zero = tt
zeros depth (suc n) = (omega arith, zeros depth n)

pub build_qp_table-Yields :
    (offset : ℤ) (depth : ℕ)
    → 8 ≤ depth
    → depth ≤ 14
    → Yields (IsQpTable depth) (build_qp_table offset depth)
unfolding build_qp_table
build_qp_table-Yields offset depth lo hi =
    qp_table_loop-Yields (max_qp depth + 1) 0 depth offset (replicate (qp_max_num + 1) 0) lo hi
      (omega (arith, hi)) (refl, zeros depth (qp_max_num + 1))
