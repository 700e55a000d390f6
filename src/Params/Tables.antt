-- ===== src/Params/Tables.antt =====
-- internal/h264/data.go: the scans and the default lists of scaling factors, and the chroma QP.
pub mod Range
use goh.Base.{
  List, [], if◌then◌else◌, length, ltb, replicate, set, suc, zero, ℕ, ◌*◌, ◌+◌, ◌-◌, ◌||◌, ◌∷◌,
}
use goh.Base.Int.{ltb_ℤ, pos, ℤ, ◌+ℤ◌}
use goh.Base.Words.{pattern_of, u8, wrap}
use goh.Result.{◌>>=◌, Result, index, ok, panic}
use goh.Params.{max_qp, qp_max_num}

-- `h264ZigzagScan`
abbrev pub zigzag_scan : List ℕ
zigzag_scan = 0 ∷ 1 ∷ 4 ∷ 8 ∷ 5 ∷ 2 ∷ 3 ∷ 6 ∷ 9 ∷ 12 ∷ 13 ∷ 10 ∷ 7 ∷ 11 ∷ 14 ∷ 15 ∷ []

-- `h264ZigzagDirect`
abbrev pub zigzag_direct : List ℕ
zigzag_direct =
    0 ∷ 1 ∷ 8 ∷ 16 ∷ 9 ∷ 2 ∷ 3 ∷ 10 ∷ 17 ∷ 24 ∷ 32 ∷ 25 ∷ 18 ∷ 11 ∷ 4 ∷ 5 ∷ 12 ∷ 19 ∷ 26 ∷ 33 ∷ 40
    ∷ 48 ∷ 41 ∷ 34 ∷ 27 ∷ 20 ∷ 13 ∷ 6 ∷ 7 ∷ 14 ∷ 21 ∷ 28 ∷ 35 ∷ 42 ∷ 49 ∷ 56 ∷ 57 ∷ 50 ∷ 43 ∷ 36
    ∷ 29 ∷ 22 ∷ 15 ∷ 23 ∷ 30 ∷ 37 ∷ 44 ∷ 51 ∷ 58 ∷ 59 ∷ 52 ∷ 45 ∷ 38 ∷ 31 ∷ 39 ∷ 46 ∷ 53 ∷ 60 ∷ 61
    ∷ 54 ∷ 47 ∷ 55 ∷ 62 ∷ 63 ∷ []

-- `h264DefaultScaling4[0]`
abbrev pub default_scaling_4_intra : List ℕ
default_scaling_4_intra =
    6 ∷ 13 ∷ 20 ∷ 28 ∷ 13 ∷ 20 ∷ 28 ∷ 32 ∷ 20 ∷ 28 ∷ 32 ∷ 37 ∷ 28 ∷ 32 ∷ 37 ∷ 42 ∷ []

-- `h264DefaultScaling4[1]`
abbrev pub default_scaling_4_inter : List ℕ
default_scaling_4_inter =
    10 ∷ 14 ∷ 20 ∷ 24 ∷ 14 ∷ 20 ∷ 24 ∷ 27 ∷ 20 ∷ 24 ∷ 27 ∷ 30 ∷ 24 ∷ 27 ∷ 30 ∷ 34 ∷ []

-- `h264DefaultScaling8[0]`
abbrev pub default_scaling_8_intra : List ℕ
default_scaling_8_intra =
    6 ∷ 10 ∷ 13 ∷ 16 ∷ 18 ∷ 23 ∷ 25 ∷ 27 ∷ 10 ∷ 11 ∷ 16 ∷ 18 ∷ 23 ∷ 25 ∷ 27 ∷ 29 ∷ 13 ∷ 16 ∷ 18 ∷ 23
    ∷ 25 ∷ 27 ∷ 29 ∷ 31 ∷ 16 ∷ 18 ∷ 23 ∷ 25 ∷ 27 ∷ 29 ∷ 31 ∷ 33 ∷ 18 ∷ 23 ∷ 25 ∷ 27 ∷ 29 ∷ 31 ∷ 33
    ∷ 36 ∷ 23 ∷ 25 ∷ 27 ∷ 29 ∷ 31 ∷ 33 ∷ 36 ∷ 38 ∷ 25 ∷ 27 ∷ 29 ∷ 31 ∷ 33 ∷ 36 ∷ 38 ∷ 40 ∷ 27 ∷ 29
    ∷ 31 ∷ 33 ∷ 36 ∷ 38 ∷ 40 ∷ 42 ∷ []

-- `h264DefaultScaling8[1]`
abbrev pub default_scaling_8_inter : List ℕ
default_scaling_8_inter =
    9 ∷ 13 ∷ 15 ∷ 17 ∷ 19 ∷ 21 ∷ 22 ∷ 24 ∷ 13 ∷ 13 ∷ 17 ∷ 19 ∷ 21 ∷ 22 ∷ 24 ∷ 25 ∷ 15 ∷ 17 ∷ 19 ∷ 21
    ∷ 22 ∷ 24 ∷ 25 ∷ 27 ∷ 17 ∷ 19 ∷ 21 ∷ 22 ∷ 24 ∷ 25 ∷ 27 ∷ 28 ∷ 19 ∷ 21 ∷ 22 ∷ 24 ∷ 25 ∷ 27 ∷ 28
    ∷ 30 ∷ 21 ∷ 22 ∷ 24 ∷ 25 ∷ 27 ∷ 28 ∷ 30 ∷ 32 ∷ 22 ∷ 24 ∷ 25 ∷ 27 ∷ 28 ∷ 30 ∷ 32 ∷ 33 ∷ 24 ∷ 25
    ∷ 27 ∷ 28 ∷ 30 ∷ 32 ∷ 33 ∷ 35 ∷ []

-- `base`
abbrev pub chroma_qp_base : List ℕ
chroma_qp_base =
    0 ∷ 1 ∷ 2 ∷ 3 ∷ 4 ∷ 5 ∷ 6 ∷ 7 ∷ 8 ∷ 9 ∷ 10 ∷ 11 ∷ 12 ∷ 13 ∷ 14 ∷ 15 ∷ 16 ∷ 17 ∷ 18 ∷ 19 ∷ 20
    ∷ 21 ∷ 22 ∷ 23 ∷ 24 ∷ 25 ∷ 26 ∷ 27 ∷ 28 ∷ 29 ∷ 29 ∷ 30 ∷ 31 ∷ 32 ∷ 32 ∷ 33 ∷ 34 ∷ 34 ∷ 35 ∷ 35
    ∷ 36 ∷ 36 ∷ 37 ∷ 37 ∷ 37 ∷ 38 ∷ 38 ∷ 38 ∷ 39 ∷ 39 ∷ 39 ∷ 39 ∷ []

-- `h264ChromaQP`; a depth out of range has no table.
unfoldable pub chroma_qp : ℕ → ℕ → Result ℕ
chroma_qp depth qp =
    let prefix = (depth - 8) * 6 in
    if ltb depth 8 || ltb 14 depth
    then ok 0
    else if ltb qp prefix
    then ok (u8 qp)
    else do b ← index chroma_qp_base (qp - prefix); ok (u8 (b + prefix))

unfoldable pub clip_int32 : ℤ → ℤ → ℤ → ℤ
clip_int32 v lo hi = if ltb_ℤ v lo then lo else if ltb_ℤ hi v then hi else v

-- A write into an array; out of bounds Go panics.
abbrev pub store {ℓ} : {A : Type ℓ} → List A → ℕ → A → Result (List A)
store xs i x = if ltb i (length xs) then ok (set xs i x) else panic

-- The loop of `buildQPTable`, by the rounds left.
unfoldable pub qp_table_loop : ℕ → ℕ → ℕ → ℤ → List ℕ → Result (List ℕ)
qp_table_loop zero i depth offset table = ok table
qp_table_loop (suc rounds) i depth offset table = do
  q ←
      chroma_qp depth
        (pattern_of 32 (clip_int32 (wrap 32 (pos i +ℤ offset)) (pos 0) (pos (max_qp depth))))
  table' ← store table i q
  qp_table_loop rounds (i + 1) depth offset table'

-- `buildQPTable`, into the zeroed table of a new parameter set.
unfoldable pub build_qp_table : ℤ → ℕ → Result (List ℕ)
build_qp_table offset depth =
    qp_table_loop (max_qp depth + 1) 0 depth offset (replicate (qp_max_num + 1) 0)
